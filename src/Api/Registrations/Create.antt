-- ===== src/Api/Registrations/Create.antt =====
-- createBatch of registrations.service.ts.
use do_an_tot_nghiep.Base.{
  ℕ, ◌+◌, Bool, true, false, Option, none, some, List, ◌++◌, if◌then◌else◌, ltb, ◌==◌, any, filter,
  map,
}
use do_an_tot_nghiep.Store.{Db, Section, SectionStatus, Item, BatchType}
use do_an_tot_nghiep.Shared.Counters.{Counters, unique}
use do_an_tot_nghiep.Worker.Handlers.{CreateJobItem}
use do_an_tot_nghiep.Api.Validator.{
  assert_registration_session_open, assert_no_pending_batch, assert_no_schedule_conflict,
}
use do_an_tot_nghiep.Api.Validator.Pairing.{assert_lab_pairing}
use do_an_tot_nghiep.Api.Capacity.{assert_sections_have_capacity}
use do_an_tot_nghiep.Api.Placement.{Placed, place, new_items}
use do_an_tot_nghiep.Api.Registrations.{
  Server, Request, Settings, Circumstances, session, pending_batch, unknown_sections,
  barred_sections, full_sections, taken_courses, pairing, conflict, too_many_credits, not_written,
  Reply, placement, refused, accepted, unless_found, unless_listed, unknown_codes, rows_of_all,
  representatives, item_id_of,
}
use do_an_tot_nghiep.Api.Registrations.Lookup.{SectionCache, resolve_section_codes}
use do_an_tot_nghiep.Api.Registrations.Active.{
  Course, Registration, find_active_registration_items, compute_credits_from_db, sum_credits,
}

-- CANCELLED or REGISTRATION_CLOSED
abbrev pub is_barred : Option SectionStatus → Bool
is_barred (some SectionStatus.cancelled) = true
is_barred (some SectionStatus.registration_closed) = true
is_barred _ = false

abbrev codes : List Section → List ℕ
codes = map (λ s. s.section_code)

abbrev pub sections_of : List Registration → List Section
sections_of = map (λ r. r.1)

-- duplicateCourses
abbrev pub taken : List Registration → List Section → List Section
taken existing sections =
    filter (λ s. any (λ e. e.course_id == s.course_id) (sections_of existing)) sections

-- `items` of the message: each row with the item that was written for it.
abbrev pub job_items : List Item → List Section → List CreateJobItem
job_items items = map (λ s. record { item_id = item_id_of s.id items; class_section_id = s.id })

abbrev pub exceeding : Settings → ℕ → Option ℕ
exceeding settings total = if ltb settings.max_credits_per_semester total then some total else none

abbrev pub new_credits : List Course → List Section → ℕ
new_credits courses sections = sum_credits (unique (map (λ s. s.course_id) sections)) courses

module _ (section_order : List Section → List Section) (item_order : List Item → List Item)
    (courses : List Course) (settings : Settings) (req : Request) (env : Circumstances) where
  abbrev pub replied :
      List Section → SectionCache → Placed × (Db × Counters) → Reply CreateJobItem × Server
  replied all_rows cache (Placed.accepted, (db, counters)) = (
    accepted (job_items (new_items env.batch_id (map (λ s. s.id) all_rows) env.item_ids) all_rows),
    record { db = db; cache = cache; counters = counters },
  )
  replied all_rows cache (Placed.internal_error, (db, counters)) =
      (refused not_written, record { db = db; cache = cache; counters = counters })

  -- Steps 8 to 12, and the placement.
  abbrev with_existing : List Section → List Section → Server → Reply CreateJobItem × Server
  with_existing sections all_rows sv =
      let existing =
        find_active_registration_items item_order req.user_id req.semester none sv.db in
      unless_listed (codes (taken existing sections)) taken_courses sv (
        unless_found (assert_lab_pairing (sections ++ sections_of existing)) pairing sv (
          unless_found (assert_no_schedule_conflict (all_rows ++ sections_of existing)) conflict sv
            (unless_found
              (exceeding settings (
                compute_credits_from_db req.user_id req.semester courses sv.db
                + new_credits courses sections))
              too_many_credits sv
              (replied all_rows sv.cache
                (place BatchType.create (placement req env all_rows) (sv.db, sv.counters))))))

  -- Step 6, whose refill of the counters stays whatever follows.
  abbrev with_capacity :
      List Section → List Section → Server → List ℕ × Counters → Reply CreateJobItem × Server
  with_capacity sections all_rows sv (full, counters) =
      let filled : Server = record { db = sv.db; cache = sv.cache; counters = counters } in
      unless_listed full full_sections filled (with_existing sections all_rows filled)

  -- Steps 4 and 5.
  abbrev with_resolved : List ℕ → List (ℕ × List Section) → Server → Reply CreateJobItem × Server
  with_resolved section_codes resolved sv =
      let sections = representatives section_codes resolved in
      let all_rows = rows_of_all section_codes resolved in
      unless_listed (unknown_codes section_codes resolved) unknown_sections sv (
        unless_listed (codes (filter (λ s. is_barred s.section_status) sections)) barred_sections sv
          (with_capacity sections all_rows sv
            (assert_sections_have_capacity env.refilled all_rows sv.db sv.counters)))

  -- createBatch
  unfoldable pub create_batch : Server → Reply CreateJobItem × Server
  create_batch sv =
      let section_codes = unique req.section_codes in
      unless_found (assert_registration_session_open req.semester settings.session env.now) session
        sv
        (unless_found (assert_no_pending_batch req.user_id req.semester none sv.db) pending_batch sv
          (let found =
              resolve_section_codes section_order env.cached section_codes req.semester sv.db
                sv.cache sv.counters in
            with_resolved section_codes found.0
              (record { db = sv.db; cache = found.1.0; counters = found.1.1 })))
