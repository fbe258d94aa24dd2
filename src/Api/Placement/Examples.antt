-- ===== src/Api/Placement/Examples.antt =====
-- A batch of two sections, one of which has two rows, placed with each ending of the write.
use do_an_tot_nghiep.Base.{◌≡◌, refl, none, some, [], ◌∷◌, arith}
use do_an_tot_nghiep.Base.Text.{codes}
use do_an_tot_nghiep.Base.Int.{pos}
use do_an_tot_nghiep.Store.{Db, BatchType}
use do_an_tot_nghiep.Worker.Action.{Outcome, refused, lost}
use do_an_tot_nghiep.Shared.Counters.{Counters, set_counter, unique_onto}
use do_an_tot_nghiep.Api.Placement.{Placement, store_batch, place, internal_error}
use do_an_tot_nghiep.Api.Placement.Rollback.{place-refused, place-lost}

abbrev placement : Outcome → Placement
placement write = record {
  batch_id = 11;
  user_id = 5;
  semester = codes "20252";
  section_ids = 1 ∷ 2 ∷ 1 ∷ [];
  item_ids = 101 ∷ 102 ∷ 103 ∷ [];
  reached = 2;
  write = write;
  undone = 2;
}

abbrev empty : Db
empty = record { sections = []; batches = []; items = [] }

abbrev counters : Counters
counters = set_counter 1 (pos 4) (set_counter 2 (pos 1) (λ k. none))

place-refused_example :
    ((place BatchType.create (placement refused) (empty, counters)).0 ≡ internal_error)
    × ((place BatchType.create (placement refused) (empty, counters)).1.0 ≡ empty)
    × ((place BatchType.create (placement refused) (empty, counters)).1.1 1 ≡ some (pos 4))
unfolding unique_onto
place-refused_example =
    place-refused BatchType.create (placement refused) empty counters 1 (pos 4) refl (omega arith)
      (omega arith) refl

place-lost_example :
    ((place BatchType.create (placement lost) (empty, counters)).0 ≡ internal_error)
    × ((place BatchType.create (placement lost) (empty, counters)).1.0
        ≡ store_batch BatchType.create (placement lost) empty)
    × ((place BatchType.create (placement lost) (empty, counters)).1.1 1 ≡ some (pos 4))
unfolding unique_onto
place-lost_example =
    place-lost BatchType.create (placement lost) empty counters 1 (pos 4) refl (omega arith)
      (omega arith) refl
