-- ===== src/Api/Registrations/CancelExamples.antt =====
-- The student of the examples gives up the section that is held.
use do_an_tot_nghiep.Base.{◌≡◌, refl, none, some, List, [], ◌∷◌, arith, take}
use do_an_tot_nghiep.Base.Text.{text_eq}
use do_an_tot_nghiep.Shared.Counters.{unique_onto, set_all, slot_writes}
use do_an_tot_nghiep.Worker.Action.{World}
use do_an_tot_nghiep.Worker.Handlers.{CancelJobItem, handle_cancel}
use do_an_tot_nghiep.Worker.Registrations.{IsConserved}
use do_an_tot_nghiep.Api.Validator.{assert_registration_session_open, assert_no_pending_batch}
use do_an_tot_nghiep.Api.Placement.{place, new_items}
use do_an_tot_nghiep.Api.Registrations.{
  Server, Request, accepted, unless_found, unless_listed, rows_of_all, representatives,
  last_item_of,
}
use do_an_tot_nghiep.Api.Registrations.Lookup.{
  resolve_section_codes, read_cached, set_cached, write_cached,
}
use do_an_tot_nghiep.Api.Registrations.Active.{
  find_active_registration_items, with_sections, first_by_section,
}
use do_an_tot_nghiep.Api.Registrations.Cancel.{cancel_batch}
use do_an_tot_nghiep.Api.Registrations.Cancelled.{cancel_batch-handle_cancel}
use do_an_tot_nghiep.Api.Registrations.Examples.{
  term, server, settings, circumstances, same_sections, same_items, drawn, tables-HasKeys,
  tables-IsConserved,
}

abbrev request : Request
request = record { user_id = 5; semester = term; section_codes = 157001 ∷ [] }

abbrev jobs : List CancelJobItem
jobs = record { item_id = 101; class_section_id = 1; source_item_id = some 100 } ∷ []

abbrev after : Server
after = (cancel_batch same_sections same_items settings request circumstances server).1

abbrev world : World
world = record { db = after.db; now = 6; schedule = []; logs = [] }

ran :
    cancel_batch same_sections same_items settings request circumstances server
    ≡ (accepted jobs, after)
unfolding cancel_batch unless_found unless_listed text_eq assert_registration_session_open
    assert_no_pending_batch unique_onto resolve_section_codes read_cached set_cached write_cached
    set_all slot_writes take rows_of_all representatives find_active_registration_items
    with_sections first_by_section place new_items last_item_of
ran = refl

cancel_batch-handle_cancel_example : IsConserved (handle_cancel 11 term (some jobs) none world).1.db
cancel_batch-handle_cancel_example =
    cancel_batch-handle_cancel same_sections same_items settings request circumstances server after
      jobs ran (tt, tt) (omega arith) (λ P xs h. h) drawn tables-HasKeys (tt, tt) tables-IsConserved
      none world refl tt
