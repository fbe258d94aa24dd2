-- ===== src/Api/Registrations/Accepted.antt =====
-- What createBatch has checked of a request that it accepts.
use do_an_tot_nghiep.Base.{
  ℕ, ◌+◌, ◌≤◌, Bool, true, false, not, Option, none, some, List, [], ◌∷◌, ◌++◌, ◌≡◌, refl, ◌==◌,
  any, all, filter, map, take, is_some, arith, Bool-cases, inl, inr,
}
use do_an_tot_nghiep.Base.Int.{negsuc}
use do_an_tot_nghiep.Base.Groups.{pairwise}
use do_an_tot_nghiep.Store.{Section, BatchType, Item}
use do_an_tot_nghiep.Shared.Counters.{unique, add_all}
use do_an_tot_nghiep.Worker.Action.{Outcome, answered}
use do_an_tot_nghiep.Worker.Handlers.{CreateJobItem}
use do_an_tot_nghiep.Api.Validator.{assert_registration_session_open, assert_no_pending_batch}
use do_an_tot_nghiep.Api.Validator.Schedule.{clashes, assert_no_schedule_conflict-clashes}
use do_an_tot_nghiep.Api.Validator.Courses.{is_paired, assert_lab_pairing-is_paired}
use do_an_tot_nghiep.Api.Placement.{place, store_batch, new_items, write_batch}
use do_an_tot_nghiep.Api.Registrations.{
  Server, Request, Settings, Circumstances, BatchError, Reply, placement, accepted, unless_found,
  unless_listed, unknown_codes, rows_of_all, representatives,
}
use do_an_tot_nghiep.Api.Registrations.Lookup.{resolve_section_codes}
use do_an_tot_nghiep.Api.Registrations.Active.{
  Course, find_active_registration_items, compute_credits_from_db,
}
use do_an_tot_nghiep.Api.Registrations.Create.{
  create_batch, replied, exceeding, is_barred, new_credits, job_items, sections_of,
}

module _ {J : Type 0} where
  -- A check that has let the request pass.
  pub found-passed :
      {A : Type 0} (o : Option A) (e : A → BatchError) (sv : Server) (next : Reply J × Server)
      (js : List J) (sv' : Server)
      → unless_found o e sv next ≡ (accepted js, sv')
      → (o ≡ none) × (next ≡ (accepted js, sv'))
  unfolding unless_found
  found-passed none e sv next js sv' h = (refl, h)
  found-passed (some a) e sv next js sv' h = absurd (cc)

  pub listed-passed :
      {A : Type 0} (xs : List A) (e : List A → BatchError) (sv : Server) (next : Reply J × Server)
      (js : List J) (sv' : Server)
      → unless_listed xs e sv next ≡ (accepted js, sv')
      → (xs ≡ []) × (next ≡ (accepted js, sv'))
  unfolding unless_listed
  listed-passed [] e sv next js sv' h = (refl, h)
  listed-passed (x ∷ xs) e sv next js sv' h = absurd (cc)

codes-filter :
    (p : Section → Bool) (xs : List Section)
    → map (λ s. s.section_code) (filter p xs) ≡ []
    → all (λ s. not (p s)) xs ≡ true
codes-filter p [] h = refl
codes-filter p (x ∷ xs) h = elim (Bool-cases (p x)) [
  | inl e ↦ absurd (ground arith)
  | inr e ↦ ground (arith, codes-filter p xs)
]

is_some-none : {A : Type 0} (o : Option A) (b : Bool) → o ≡ none → is_some o ≡ not b → b ≡ true
is_some-none none true h e = refl
is_some-none none false h e = cc
is_some-none (some a) b h e = absurd (cc)

module _ (section_order : List Section → List Section) (item_order : List Item → List Item)
    (courses : List Course) (settings : Settings) (req : Request) (env : Circumstances)
    (sv : Server) where
  -- The rows of the requested codes, one row for each code, and what the student holds already.
  abbrev resolved : List (ℕ × List Section)
  resolved =
      (resolve_section_codes section_order env.cached (unique req.section_codes) req.semester sv.db
        sv.cache sv.counters).0

  abbrev pub requested : List Section
  requested = rows_of_all (unique req.section_codes) resolved

  abbrev chosen : List Section
  chosen = representatives (unique req.section_codes) resolved

  abbrev pub held : List Section
  held = sections_of (find_active_registration_items item_order req.user_id req.semester none sv.db)

  pub record Accepts (js : List CreateJobItem) (sv' : Server) : Type 0 where
    is_open : assert_registration_session_open req.semester settings.session env.now ≡ none
    no_pending : assert_no_pending_batch req.user_id req.semester none sv.db ≡ none
    all_known : unknown_codes (unique req.section_codes) resolved ≡ []
    none_barred : all (λ s. not (is_barred s.section_status)) chosen ≡ true
    none_taken : all (λ s. not (any (λ e. e.course_id == s.course_id) held)) chosen ≡ true
    all_paired :
        all
          (λ s. is_paired (filter (λ t. t.course_id == s.course_id) (chosen ++ held)))
          (chosen ++ held)
        ≡ true
    no_clash : pairwise (λ s t. not (clashes s t)) (requested ++ held) ≡ true
    in_limit :
        compute_credits_from_db req.user_id req.semester courses sv.db + new_credits courses chosen
        ≤ settings.max_credits_per_semester
    pub written : env.write ≡ answered
    pub stored : sv'.db ≡ store_batch BatchType.create (placement req env requested) sv.db
    pub message :
        js ≡ job_items (new_items env.batch_id (map (λ s. s.id) requested) env.item_ids) requested

  exceeding-none :
      (total : ℕ) → exceeding settings total ≡ none → total ≤ settings.max_credits_per_semester
  exceeding-none total h = ground arith

  place-accepted_db :
      (rows : List Section) (at : Server) (js : List CreateJobItem) (sv' : Server)
      → replied section_order item_order courses settings req env rows at.cache
          (place BatchType.create (placement req env rows) (at.db, at.counters))
        ≡ (accepted js, sv')
      → (env.write ≡ answered)
        × (sv'.db ≡ store_batch BatchType.create (placement req env rows) at.db)
        × (js ≡ job_items (new_items env.batch_id (map (λ s. s.id) rows) env.item_ids) rows)
  unfolding place
  place-accepted_db rows at js sv' h = go env.write refl h
    where
      go :
          (o : Outcome)
          → env.write ≡ o
          → replied section_order item_order courses settings req env rows at.cache (
              write_batch BatchType.create
                (placement req env rows)
                o
                at.db
                (add_all (negsuc 0) (take env.reached (unique (map (λ s. s.id) rows))) at.counters))
            ≡ (accepted js, sv')
          → (env.write ≡ answered)
            × (sv'.db ≡ store_batch BatchType.create (placement req env rows) at.db)
            × (js ≡ job_items (new_items env.batch_id (map (λ s. s.id) rows) env.item_ids) rows)
      go answered w h = (w, cc, cc)
      go _ w h = absurd (cc)

  -- Where createBatch accepts a request, the session is open, the student has no pending batch in
  -- the semester, every code is known, no chosen section is cancelled or closed, the student holds
  -- no section of a chosen course, the sections of each course go together, no two rows of the
  -- requested and the held sections clash, the credits are within the limit, and the write was
  -- answered, the tables are those with the batch, and the message has each row with its item.
  pub create_batch-Accepts :
      (js : List CreateJobItem) (sv' : Server)
      → create_batch section_order item_order courses settings req env sv ≡ (accepted js, sv')
      → Accepts js sv'
  unfolding create_batch
  create_batch-Accepts js sv' h =
      let (is_open, h1) = found-passed _ _ _ _ js sv' h in
      let (no_pending, h2) = found-passed _ _ _ _ js sv' h1 in
      let (all_known, h3) = listed-passed _ _ _ _ js sv' h2 in
      let (barred, h4) = listed-passed _ _ _ _ js sv' h3 in
      let (full, h5) = listed-passed _ _ _ _ js sv' h4 in
      let (taken_none, h6) = listed-passed _ _ _ _ js sv' h5 in
      let (pairing, h7) = found-passed _ _ _ _ js sv' h6 in
      let (conflict, h8) = found-passed _ _ _ _ js sv' h7 in
      let (excess, h9) = found-passed _ _ _ _ js sv' h8 in
      let (written, stored, message) = place-accepted_db _ _ js sv' h9 in
      record {
        is_open = is_open;
        no_pending = no_pending;
        all_known = all_known;
        none_barred = codes-filter (λ s. is_barred s.section_status) chosen barred;
        none_taken =
            codes-filter (λ s. any (λ e. e.course_id == s.course_id) held) chosen taken_none;
        all_paired = is_some-none _ _ pairing (assert_lab_pairing-is_paired (chosen ++ held));
        no_clash =
            is_some-none _ _ conflict (assert_no_schedule_conflict-clashes (requested ++ held));
        in_limit = exceeding-none _ excess;
        written = written;
        stored = stored;
        message = message;
      }
