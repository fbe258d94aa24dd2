-- ===== src/Worker/Statements.antt =====
-- apps/worker/src/registration/helpers/registration-helper.service.ts: the SQL statements that
-- take, give back and mark seats, and the queries that the handlers make themselves.
use do_an_tot_nghiep.Base.{
  ℕ, ◌+◌, ◌-◌, Bool, false, ◌&&◌, Option, none, some, List, [], ◌∷◌, map, if◌then◌else◌, ◌==◌, ltb,
  find, filter, any, update_where,
}
use do_an_tot_nghiep.Base.Int.{ℤ, pos, sub_ℕ}
use do_an_tot_nghiep.Store.{
  Db, Section, Item, Batch, Reason, section_full, record_not_found, ItemStatus, BatchStatus,
  is_pending,
}
use do_an_tot_nghiep.Worker.Action.{ok, err, Statement}

-- sl_max - sl_dk
abbrev pub remaining : Section → ℤ
remaining s = sub_ℕ s.max_capacity s.registered_count

-- SET sl_dk = sl_dk + 1
abbrev pub take_seat : Section → Section
take_seat s = record s { registered_count = s.registered_count + 1 }

-- SET sl_dk = GREATEST(sl_dk - 1, 0)
abbrev pub free_seat : Section → Section
free_seat s = record s { registered_count = s.registered_count - 1 }

-- WHERE id = … AND sl_dk < sl_max
abbrev pub has_seat : ℕ → Section → Bool
has_seat k s = s.id == k && ltb s.registered_count s.max_capacity

abbrev pub section_is : ℕ → Section → Bool
section_is k s = s.id == k

abbrev pub item_is : ℕ → Item → Bool
item_is k i = i.id == k

abbrev pub batch_is : ℕ → Batch → Bool
batch_is k b = b.id == k

abbrev pub mark_success : Option ℤ → ℕ → Item → Item
mark_success left at i = record i {
  status = ItemStatus.success;
  remaining_slots = left;
  processed_at = some at;
}

abbrev pub mark_cancelled : Option ℤ → ℕ → Item → Item
mark_cancelled left at i = record i {
  status = ItemStatus.cancelled;
  remaining_slots = left;
  processed_at = some at;
}

abbrev pub mark_failed : Reason → ℕ → Item → Item
mark_failed e at i = record i {
  status = ItemStatus.failed;
  failure_reason = some e;
  processed_at = some at;
}

abbrev pub complete : ℕ → Batch → Batch
complete at b = record b { status = BatchStatus.completed; processed_at = some at }

-- acquireSlot: (remaining, registeredCount) of the row that was updated.
unfoldable pub acquire_slot : ℕ → Statement (ℤ × ℕ)
acquire_slot section_id at db = elim (find (has_seat section_id) db.sections) [
  | none ↦ (err section_full, db)
  | some s ↦ (
    ok (remaining (take_seat s), s.registered_count + 1),
    record db { sections = update_where (has_seat section_id) take_seat db.sections },
  )
]

-- releaseSlot
unfoldable pub release_slot : ℕ → Statement (ℤ × ℕ)
release_slot section_id at db = (
  elim (find (section_is section_id) db.sections) [
    | none ↦ ok (pos 0, 0)
    | some s ↦ ok (remaining (free_seat s), s.registered_count - 1)
  ],
  record db { sections = update_where (section_is section_id) free_seat db.sections },
)

-- markItemFailed: prisma's `update` raises where there is no row.
unfoldable pub mark_item_failed : ℕ → Reason → Statement (Unit {0})
mark_item_failed item_id reason at db =
    if any (item_is item_id) db.items
    then (
      ok tt,
      record db { items = update_where (item_is item_id) (mark_failed reason at) db.items },
    )
    else (err record_not_found, db)

-- acquireSlotAndMarkSuccess: one statement with the CTE `slot`. Where a seat is taken the item is
-- updated; the result has no row, and the call raises, where no seat is free or no item matches.
unfoldable pub acquire_slot_and_mark_success : ℕ → ℕ → Statement ℤ
acquire_slot_and_mark_success item_id section_id at db =
    elim (find (has_seat section_id) db.sections) [
      | none ↦ (err section_full, db)
      | some s ↦ (
        if any (item_is item_id) db.items then ok (remaining (take_seat s)) else err section_full,
        record db {
          sections = update_where (has_seat section_id) take_seat db.sections;
          items =
              update_where (item_is item_id) (mark_success (some (remaining (take_seat s))) at)
                db.items;
        },
      )
    ]

-- `(SELECT remaining FROM slot)`, null where the section is not there.
abbrev pub released : ℕ → Db → Option ℤ
released section_id db = elim (find (section_is section_id) db.sections) [
  | none ↦ none
  | some s ↦ some (remaining (free_seat s))
]

-- releaseSlotAndMarkItems: the seat, the item that held it and the item that cancels it. The
-- answer is 0 where the result has no row or its `remaining` is null.
unfoldable pub release_slot_and_mark_items : ℕ → ℕ → ℕ → Statement ℤ
release_slot_and_mark_items cancel_item_id section_id source_item_id at db =
    let left = released section_id db in
    (
      elim (if any (item_is cancel_item_id) db.items then left else none) [
        | none ↦ ok (pos 0)
        | some n ↦ ok n
      ],
      record db {
        sections = update_where (section_is section_id) free_seat db.sections;
        items =
            update_where (item_is cancel_item_id) (mark_success left at)
              (update_where (item_is source_item_id) (mark_cancelled left at) db.items);
      },
    )

-- The handlers' `registrationBatch.update` to COMPLETED.
unfoldable pub complete_batch : ℕ → Statement (Unit {0})
complete_batch batch_id at db =
    if any (batch_is batch_id) db.batches
    then (ok tt, record db { batches = update_where (batch_is batch_id) (complete at) db.batches })
    else (err record_not_found, db)

-- The handlers' `registrationBatchItem.findMany`: the status of each item of the batch.
unfoldable pub snapshot : ℕ → List Item → List (ℕ × ItemStatus)
snapshot batch_id items = map (λ i. (i.id, i.status)) (filter (λ i. i.batch_id == batch_id) items)

unfoldable pub load_statuses : ℕ → Statement (List (ℕ × ItemStatus))
load_statuses batch_id at db = (ok (snapshot batch_id db.items), db)

-- `statusMap.get(itemId) !== PENDING`, for ids that occur once.
unfoldable pub is_still_pending : ℕ → List (ℕ × ItemStatus) → Bool
is_still_pending item_id [] = false
is_still_pending item_id ((k, st) ∷ rest) =
    if k == item_id then is_pending st else is_still_pending item_id rest
