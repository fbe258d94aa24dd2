-- ===== src/Api/Slots/Table/Examples.antt =====
-- A slot that is created in an empty table, and then read.
use do_an_tot_nghiep.Base.{◌≡◌, true, none, List, []}
use do_an_tot_nghiep.Base.Text.{codes}
use do_an_tot_nghiep.Shared.SlotWindow.Examples.{plain}
use do_an_tot_nghiep.Api.ReadThrough.{Replies, failed, granted}
use do_an_tot_nghiep.Api.Slots.{Slot}
use do_an_tot_nghiep.Api.Slots.Examples.{settings, dto}
use do_an_tot_nghiep.Api.Slots.Table.{Store, create, get_slots, load}
use do_an_tot_nghiep.Api.Slots.Table.Coherence.{IsGood}
use do_an_tot_nghiep.Api.Slots.Table.Moves.{Serves, none_left, then_move, created, get_slots-load}

abbrev empty : Store
empty = record { rows = []; caches = λ t. none }

abbrev unordered : List Slot → List Slot
unordered slots = slots

abbrev filled : Store
filled = (create plain settings true dto 1 empty).1

empty-IsGood : IsGood plain unordered empty
empty-IsGood = record { valid = tt; distinct = tt; coherent = λ t. tt }

abbrev replies : Replies (List Slot)
replies = record { first = failed; lock = granted; stored = true; polls = [] }

replies-Serves : Serves plain unordered (codes "20252") filled replies
replies-Serves = record { first = tt; polls = tt }

get_slots-load_example :
    IsGood plain unordered filled
    × ((get_slots unordered replies (codes "20252") filled).0
        ≡ load unordered (codes "20252") filled.rows)
get_slots-load_example =
    get_slots-load plain unordered empty filled replies (codes "20252") empty-IsGood
      (then_move none_left (created settings dto 1 empty tt)) replies-Serves
