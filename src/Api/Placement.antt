-- ===== src/Api/Placement.antt =====
-- apps/do-an/src/modules/registrations/registrations.service.ts: how createBatch and cancelBatch
-- move the counters, write the batch with its items, and undo the counters where the write fails.
pub mod Rollback
pub mod Pending
pub mod Examples
use do_an_tot_nghiep.Base.{ℕ, Option, none, some, List, [], ◌∷◌, ◌++◌, length, take}
use do_an_tot_nghiep.Base.Text.{Text}
use do_an_tot_nghiep.Base.Int.{ℤ, pos, negsuc}
use do_an_tot_nghiep.Store.{Db, Batch, Item, BatchType, BatchStatus, ItemStatus}
use do_an_tot_nghiep.Worker.Action.{Outcome, answered, refused, lost}
use do_an_tot_nghiep.Shared.Counters.{Counters, unique, add_all}

-- A batch that has passed the checks: the rows of its sections, and the ids that are drawn for it.
-- `reached` and `undone` tell how many commands of the two pipelines come to Redis, whose errors are
-- logged and passed over; `write` is how the write of the batch ends.
pub record Placement : Type 0 where
  pub batch_id : ℕ
  pub user_id : ℕ
  pub semester : Text
  pub section_ids : List ℕ
  pub item_ids : List ℕ
  pub reached : ℕ
  pub write : Outcome
  pub undone : ℕ

-- A createBatch takes a seat from each counter, a cancelBatch puts one back.
abbrev pub step_of : BatchType → ℤ
step_of BatchType.create = negsuc 0
step_of BatchType.cancel = pos 1

abbrev pub undo_of : BatchType → ℤ
undo_of BatchType.create = pos 1
undo_of BatchType.cancel = negsuc 0

-- createMany: an item for each row, with the ids that the database draws.
unfoldable pub new_items : ℕ → List ℕ → List ℕ → List Item
new_items batch_id [] item_ids = []
new_items batch_id (s ∷ ss) [] = []
new_items batch_id (s ∷ ss) (k ∷ ks) =
    record {
      id = k;
      batch_id = batch_id;
      class_section_id = some s;
      status = ItemStatus.pending;
      failure_reason = none;
      remaining_slots = none;
      processed_at = none;
    }
    ∷ new_items batch_id ss ks

-- registrationBatch.create: the batch and its items, in one transaction.
unfoldable pub store_batch : BatchType → Placement → Db → Db
store_batch type p db = record db {
  batches =
      db.batches
      ++ record {
        id = p.batch_id;
        user_id = p.user_id;
        semester = p.semester;
        type = type;
        status = BatchStatus.pending;
        total_items = length p.section_ids;
        processed_at = none;
      }
        ∷ [];
  items = db.items ++ new_items p.batch_id p.section_ids p.item_ids;
}

pub data Placed : Type 0 where
  accepted internal_error : Placed

abbrev pub write_batch : BatchType → Placement → Outcome → Db → Counters → Placed × (Db × Counters)
write_batch type p answered db c = (accepted, (store_batch type p db, c))
write_batch type p refused db c =
    (internal_error, (db, add_all (undo_of type) (take p.undone (unique p.section_ids)) c))
write_batch type p lost db c = (
  internal_error,
  (store_batch type p db, add_all (undo_of type) (take p.undone (unique p.section_ids)) c),
)

-- From the drawing of the batch's id to the payload.
unfoldable pub place : BatchType → Placement → Db × Counters → Placed × (Db × Counters)
place type p (db, c) =
    write_batch type p p.write db (add_all (step_of type) (take p.reached (unique p.section_ids)) c)
