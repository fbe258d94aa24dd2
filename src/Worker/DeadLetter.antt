-- ===== src/Worker/DeadLetter.antt =====
-- apps/worker/src/registration/dead-letter-consumer.service.ts.
use do_an_tot_nghiep.Base.{
  ℕ, Bool, ◌&&◌, Option, none, some, if◌then◌else◌, ◌==◌, any, update_where,
}
use do_an_tot_nghiep.Store.{Item, Reason, record_not_found, system_error, ItemStatus, is_pending}
use do_an_tot_nghiep.Worker.Action.{Statement, Action, ok, err, query, pure, catch}
use do_an_tot_nghiep.Worker.Statements.{batch_is, complete}

-- WHERE batchId = … AND status = PENDING
abbrev pub pending_in : ℕ → Item → Bool
pending_in batch_id i = i.batch_id == batch_id && is_pending i.status

abbrev pub give_up : Reason → Item → Item
give_up reason i = record i { status = ItemStatus.failed; failure_reason = some reason }

-- markBatchFailed: one transaction, undone as a whole where the batch is not there.
unfoldable pub mark_batch_failed : ℕ → Reason → Statement (Unit {0})
mark_batch_failed batch_id reason at db =
    if any (batch_is batch_id) db.batches
    then (
      ok tt,
      record db {
        items = update_where (pending_in batch_id) (give_up reason) db.items;
        batches = update_where (batch_is batch_id) (complete at) db.batches;
      },
    )
    else (err record_not_found, db)

-- The consumer's callback for a message that parses: an error of the update is logged, and the
-- message is acknowledged either way.
consume_dead : ℕ → Option Reason → Action (Unit {0})
consume_dead batch_id none = catch (query (mark_batch_failed batch_id system_error)) (λ e. pure tt)
consume_dead batch_id (some reason) =
    catch (query (mark_batch_failed batch_id reason)) (λ e. pure tt)
