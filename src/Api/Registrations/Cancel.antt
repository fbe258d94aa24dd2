-- ===== src/Api/Registrations/Cancel.antt =====
-- cancelBatch of registrations.service.ts.
use do_an_tot_nghiep.Base.{ℕ, not, none, some, List, any, filter, map}
use do_an_tot_nghiep.Store.{Db, Section, Item, BatchType}
use do_an_tot_nghiep.Shared.Counters.{Counters, unique}
use do_an_tot_nghiep.Worker.Handlers.{CancelJobItem}
use do_an_tot_nghiep.Api.Validator.{assert_registration_session_open, assert_no_pending_batch}
use do_an_tot_nghiep.Api.Placement.{Placed, place, new_items}
use do_an_tot_nghiep.Api.Registrations.{
  Server, Request, Settings, Circumstances, session, pending_batch, unknown_sections,
  inactive_sections, not_written, Reply, placement, refused, accepted, unless_found, unless_listed,
  unknown_codes, rows_of_all, representatives, item_id_of, last_item_of,
}
use do_an_tot_nghiep.Api.Registrations.Lookup.{SectionCache, resolve_section_codes}
use do_an_tot_nghiep.Api.Registrations.Active.{
  Registration, of_section, find_active_registration_items,
}

-- inactiveSections
abbrev inactive : List Registration → List Section → List Section
inactive active sections = filter (λ s. not (any (of_section s.id) active)) sections

-- `items` of the message: each row with its new item and the registration that it gives up.
abbrev pub cancel_job_items : List Item → List Registration → List Section → List CancelJobItem
cancel_job_items items active = map (λ s. record {
  item_id = item_id_of s.id items;
  class_section_id = s.id;
  source_item_id = last_item_of s.id (map (λ r. r.0) active) none;
})

module _ (section_order : List Section → List Section) (item_order : List Item → List Item)
    (settings : Settings) (req : Request) (env : Circumstances) where
  abbrev pub cancel_replied :
      List Registration
      → List Section
      → SectionCache
      → Placed × (Db × Counters)
      → Reply CancelJobItem × Server
  cancel_replied active all_rows cache (Placed.accepted, (db, counters)) = (
    accepted (
        cancel_job_items (new_items env.batch_id (map (λ s. s.id) all_rows) env.item_ids) active
          all_rows),
    record { db = db; cache = cache; counters = counters },
  )
  cancel_replied active all_rows cache (Placed.internal_error, (db, counters)) =
      (refused not_written, record { db = db; cache = cache; counters = counters })

  abbrev cancel_resolved : List ℕ → List (ℕ × List Section) → Server → Reply CancelJobItem × Server
  cancel_resolved section_codes resolved sv =
      let all_rows = rows_of_all section_codes resolved in
      let sections = representatives section_codes resolved in
      let active =
        find_active_registration_items item_order req.user_id req.semester
          (some (map (λ s. s.id) all_rows)) sv.db in
      unless_listed (unknown_codes section_codes resolved) unknown_sections sv (
        unless_found (assert_registration_session_open req.semester settings.session env.now)
          session sv
          (unless_listed (map (λ s. s.section_code) (inactive active sections)) inactive_sections sv
            (unless_found
              (assert_no_pending_batch req.user_id req.semester (some BatchType.cancel) sv.db)
              pending_batch sv
              (cancel_replied active all_rows sv.cache
                (place BatchType.cancel (placement req env all_rows) (sv.db, sv.counters))))))

  -- cancelBatch
  unfoldable pub cancel_batch : Server → Reply CancelJobItem × Server
  cancel_batch sv =
      let section_codes = unique req.section_codes in
      let found =
        resolve_section_codes section_order env.cached section_codes req.semester sv.db sv.cache
          sv.counters in
      cancel_resolved section_codes found.0
        (record { db = sv.db; cache = found.1.0; counters = found.1.1 })
