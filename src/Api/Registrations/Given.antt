-- ===== src/Api/Registrations/Given.antt =====
-- What cancelBatch has checked of a request that it accepts, and the registrations that it gives up.
use do_an_tot_nghiep.Base.{
  ℕ, Bool, true, not, none, some, List, [], ◌∷◌, ◌≡◌, refl, any, all, filter, map, take, arith,
  Bool-cases, inl, inr,
}
use do_an_tot_nghiep.Base.Int.{pos}
use do_an_tot_nghiep.Store.{Section, BatchType, Item}
use do_an_tot_nghiep.Shared.Counters.{unique, add_all}
use do_an_tot_nghiep.Worker.Action.{Outcome, answered}
use do_an_tot_nghiep.Worker.Handlers.{CancelJobItem}
use do_an_tot_nghiep.Api.Validator.{assert_registration_session_open, assert_no_pending_batch}
use do_an_tot_nghiep.Api.Placement.{place, store_batch, new_items, write_batch}
use do_an_tot_nghiep.Api.Registrations.{
  Server, Request, Settings, Circumstances, placement, accepted, unknown_codes, rows_of_all,
  representatives,
}
use do_an_tot_nghiep.Api.Registrations.Lookup.{resolve_section_codes}
use do_an_tot_nghiep.Api.Registrations.Active.{
  Registration, of_section, find_active_registration_items,
}
use do_an_tot_nghiep.Api.Registrations.Accepted.{found-passed, listed-passed}
use do_an_tot_nghiep.Api.Registrations.Cancel.{cancel_batch, cancel_replied, cancel_job_items}

none_left :
    (p : Section → Bool) (xs : List Section)
    → map (λ s. s.section_code) (filter (λ s. not (p s)) xs) ≡ []
    → all p xs ≡ true
none_left p [] h = refl
none_left p (x ∷ xs) h = elim (Bool-cases (p x)) [
  | inl e ↦ ground (arith, e, none_left p xs)
  | inr e ↦ absurd (ground (arith, e))
]

module _ (section_order : List Section → List Section) (item_order : List Item → List Item)
    (settings : Settings) (req : Request) (env : Circumstances) (sv : Server) where
  abbrev resolved : List (ℕ × List Section)
  resolved =
      (resolve_section_codes section_order env.cached (unique req.section_codes) req.semester sv.db
        sv.cache sv.counters).0

  -- The rows of the requested codes.
  abbrev pub asked : List Section
  asked = rows_of_all (unique req.section_codes) resolved

  -- What the student holds of them.
  abbrev pub active : List Registration
  active =
      find_active_registration_items item_order req.user_id req.semester
        (some (map (λ s. s.id) asked)) sv.db

  pub record Gives (js : List CancelJobItem) (sv' : Server) : Type 0 where
    is_open : assert_registration_session_open req.semester settings.session env.now ≡ none
    no_pending :
        assert_no_pending_batch req.user_id req.semester (some BatchType.cancel) sv.db ≡ none
    all_known : unknown_codes (unique req.section_codes) resolved ≡ []
    all_held :
        all
          (λ s. any (of_section s.id) active)
          (representatives (unique req.section_codes) resolved)
        ≡ true
    pub written : env.write ≡ answered
    pub stored : sv'.db ≡ store_batch BatchType.cancel (placement req env asked) sv.db
    pub message :
        js
        ≡ cancel_job_items
            (new_items env.batch_id (map (λ s. s.id) asked) env.item_ids)
            active
            asked

  place-accepted_db :
      (rows : List Section) (held : List Registration) (at : Server) (js : List CancelJobItem)
      (sv' : Server)
      → cancel_replied section_order item_order settings req env held rows at.cache
          (place BatchType.cancel (placement req env rows) (at.db, at.counters))
        ≡ (accepted js, sv')
      → (env.write ≡ answered)
        × (sv'.db ≡ store_batch BatchType.cancel (placement req env rows) at.db)
        × (js
            ≡ cancel_job_items
                (new_items env.batch_id (map (λ s. s.id) rows) env.item_ids)
                held
                rows)
  unfolding place
  place-accepted_db rows held at js sv' h = go env.write refl h
    where
      go :
          (o : Outcome)
          → env.write ≡ o
          → cancel_replied section_order item_order settings req env held rows at.cache (
              write_batch BatchType.cancel
                (placement req env rows)
                o
                at.db
                (add_all (pos 1) (take env.reached (unique (map (λ s. s.id) rows))) at.counters))
            ≡ (accepted js, sv')
          → (env.write ≡ answered)
            × (sv'.db ≡ store_batch BatchType.cancel (placement req env rows) at.db)
            × (js
                ≡ cancel_job_items
                    (new_items env.batch_id (map (λ s. s.id) rows) env.item_ids)
                    held
                    rows)
      go answered w h = (w, cc, cc)
      go _ w h = absurd (cc)

  -- Where cancelBatch accepts a request, every code is known, the session is open, the student holds
  -- the first section of each code and has no pending cancellation in the semester, and the write
  -- was answered, the tables are those with the batch, and the message has each row with its item and
  -- the registration of it.
  pub cancel_batch-Gives :
      (js : List CancelJobItem) (sv' : Server)
      → cancel_batch section_order item_order settings req env sv ≡ (accepted js, sv')
      → Gives js sv'
  unfolding cancel_batch
  cancel_batch-Gives js sv' h =
      let (all_known, h1) = listed-passed _ _ _ _ js sv' h in
      let (is_open, h2) = found-passed _ _ _ _ js sv' h1 in
      let (held, h3) = listed-passed _ _ _ _ js sv' h2 in
      let (no_pending, h4) = found-passed _ _ _ _ js sv' h3 in
      let (written, stored, message) = place-accepted_db _ _ _ js sv' h4 in
      record {
        is_open = is_open;
        no_pending = no_pending;
        all_known = all_known;
        all_held = none_left (λ s. any (of_section s.id) active) _ held;
        written = written;
        stored = stored;
        message = message;
      }
