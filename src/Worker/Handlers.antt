-- ===== src/Worker/Handlers.antt =====
-- apps/worker/src/registration/create-batch.handler.ts and cancel-batch.handler.ts.
use do_an_tot_nghiep.Base.{
  ℕ, ◌+◌, ◌-◌, Bool, not, ◌||◌, Option, none, some, List, [], ◌∷◌, if◌then◌else◌, ◌==◌,
}
use do_an_tot_nghiep.Base.Text.{Text}
use do_an_tot_nghiep.Store.{ItemStatus, Reason, missing_ids, no_registration, BatchType}
use do_an_tot_nghiep.Worker.Action.{Action, ok, BatchLog, pure, catch, ◌>>=◌, ◌>>◌, clock, query}
use do_an_tot_nghiep.Worker.Statements.{
  mark_item_failed, acquire_slot_and_mark_success, release_slot_and_mark_items, complete_batch,
  load_statuses, is_still_pending,
}

-- The fields of `CreateRegistrationBatchJobItem` that the handler reads.
pub record CreateJobItem : Type 0 where
  pub item_id : ℕ
  pub class_section_id : ℕ

-- `sourceItemId` is left out of the message where it was undefined.
pub record CancelJobItem : Type 0 where
  pub item_id : ℕ
  pub class_section_id : ℕ
  pub source_item_id : Option ℕ

-- successCount and failCount
abbrev pub Counts : Type 0
Counts = ℕ × ℕ

abbrev pub succeeded : Counts → Counts
succeeded (s, f) = (s + 1, f)

abbrev pub missed : Counts → Counts
missed (s, f) = (s, f + 1)

abbrev pub is_empty_id : ℕ → Bool
is_empty_id k = k == 0

-- `await markItemFailed(…); failCount++`
unfoldable pub fail_item : ℕ → Reason → Counts → Action Counts
fail_item item_id reason n = do query (mark_item_failed item_id reason); pure (missed n)

-- The body of the loop of `CreateBatchHandler.handle`.
unfoldable pub create_item : CreateJobItem → List (ℕ × ItemStatus) → Counts → Action Counts
create_item item statuses n =
    if not (is_still_pending item.item_id statuses)
    then pure n
    else if is_empty_id item.class_section_id || is_empty_id item.item_id
    then fail_item item.item_id missing_ids n
    else catch
        (do
          query (acquire_slot_and_mark_success item.item_id item.class_section_id)
          pure (succeeded n))
        (λ e. fail_item item.item_id e n)

-- The part of it that cancels: `!item.sourceItemId` holds of undefined and of the empty text.
unfoldable pub cancel_source : CancelJobItem → Option ℕ → Counts → Action Counts
cancel_source item none n = fail_item item.item_id no_registration n
cancel_source item (some source) n =
    if is_empty_id source
    then fail_item item.item_id no_registration n
    else catch
        (do
          query (release_slot_and_mark_items item.item_id item.class_section_id source)
          pure (succeeded n))
        (λ e. fail_item item.item_id e n)

-- The body of the loop of `CancelBatchHandler.handle`.
unfoldable pub cancel_item : CancelJobItem → List (ℕ × ItemStatus) → Counts → Action Counts
cancel_item item statuses n =
    if not (is_still_pending item.item_id statuses)
    then pure n
    else if is_empty_id item.class_section_id || is_empty_id item.item_id
    then fail_item item.item_id missing_ids n
    else cancel_source item item.source_item_id n

-- for (const item of payloadItems)
unfoldable pub for_items :
    {J : Type 0}
    → (J → List (ℕ × ItemStatus) → Counts → Action Counts)
    → List J
    → List (ℕ × ItemStatus)
    → Counts
    → Action Counts
for_items body [] statuses n = pure n
for_items body (j ∷ js) statuses n = do m ← body j statuses n; for_items body js statuses m

-- writeBatchLog: sent to Redis, and not waited for.
unfoldable pub write_batch_log : ℕ → Text → BatchType → ℕ → ℕ → Counts → Action (Unit {0})
write_batch_log batch_id semester type queue_wait started (s, f) w =
    (ok tt, record w { logs = log ∷ w.logs })
  where
    log : BatchLog
    log = record {
      semester = semester;
      batch_id = batch_id;
      batch_type = type;
      queue_wait_ms = queue_wait;
      processing_duration_ms = w.now - started;
      total_items = s + f;
      success_items = s;
      failed_items = f;
      created_at_ms = w.now;
    }

-- Math.max(processingStartedAt - queuedAt, 0), and 0 where there is no `queuedAt`.
abbrev pub queue_wait_ms : ℕ → Option ℕ → ℕ
queue_wait_ms started none = 0
queue_wait_ms started (some queued_at) = started - queued_at

-- `handle` of either handler, over the body of its loop.
unfoldable pub handle :
    {J : Type 0}
    → BatchType
    → (J → List (ℕ × ItemStatus) → Counts → Action Counts)
    → ℕ
    → Text
    → Option (List J)
    → Option ℕ
    → Action (Unit {0})
handle type body batch_id semester none queued_at = query (complete_batch batch_id)
handle type body batch_id semester (some []) queued_at = query (complete_batch batch_id)
handle type body batch_id semester (some (j ∷ js)) queued_at = do
  started ← clock
  statuses ← query (load_statuses batch_id)
  n ← for_items body (j ∷ js) statuses (0, 0)
  query (complete_batch batch_id)
  write_batch_log batch_id semester type (queue_wait_ms started queued_at) started n

unfoldable pub handle_create : ℕ → Text → Option (List CreateJobItem) → Option ℕ → Action (Unit {0})
handle_create = handle BatchType.create create_item

unfoldable pub handle_cancel : ℕ → Text → Option (List CancelJobItem) → Option ℕ → Action (Unit {0})
handle_cancel = handle BatchType.cancel cancel_item
