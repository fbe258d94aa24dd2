-- ===== src/Worker/Conservation.antt =====
-- Each statement of the worker against the count of the registrations that hold a seat.
use do_an_tot_nghiep.Base.{
  ℕ, ◌+◌, true, false, Option, some, List, [], ◌∷◌, ◌≡◌, refl, ◌≢◌, ◌∙◌, inl, inr, ◌==◌, All,
  All-map, All-zip, find, count, one_if, update_where, Distinct, Bool-cases, All-update_where,
  arith, Option-cases, Distinct-update_where, find-update_where_ne, any, count-congr, All-intro,
}
use do_an_tot_nghiep.Base.Int.{ℤ}
use do_an_tot_nghiep.Store.{Db, Section, Item, Batch, Reason, is_success}
use do_an_tot_nghiep.Worker.Statements.{
  has_seat, section_is, item_is, batch_is, take_seat, free_seat, mark_cancelled, mark_failed,
  complete, remaining, released, acquire_slot_and_mark_success, release_slot_and_mark_items,
  mark_item_failed, complete_batch,
}
use do_an_tot_nghiep.Worker.Registrations.{
  is_created_in, is_seat_of, holds_seat, Counted, IsConserved, HasKeys, find-has_seat,
  count-mark_success, count-mark_cancelled, count-mark_success_cancel, count-mark_failed,
}

module _ (batches : List Batch) (items items' : List Item) (k : ℕ) where
  -- The seats of the sections follow the counts, where the one section with the id moves by one.
  take_seat-Counted :
      (s : Section) (xs : List Section)
      → Distinct (λ r. r.id) xs
      → find (has_seat k) xs ≡ some s
      → ((j : ℕ)
          → count (holds_seat batches j) items'
            ≡ count (holds_seat batches j) items + one_if (k == j))
      → All (Counted batches items) xs
      → All (Counted batches items') (update_where (has_seat k) take_seat xs)
  take_seat-Counted s xs keys found moved h =
      All-update_where (λ r. Counted batches items r × (has_seat k r ≡ false → r.id ≢ k))
        (Counted batches items') (has_seat k) take_seat (λ r e c. ground (arith, moved r.id))
        (λ r e c. ground (arith, moved r.id)) xs
        (All-zip _ _ xs h (find-has_seat k s xs keys found))

  free_seat-Counted :
      (xs : List Section)
      → ((j : ℕ)
          → count (holds_seat batches j) items' + one_if (k == j)
            ≡ count (holds_seat batches j) items)
      → All (Counted batches items) xs
      → All (Counted batches items') (update_where (section_is k) free_seat xs)
  free_seat-Counted xs moved h =
      All-update_where (Counted batches items) (Counted batches items') (section_is k) free_seat
        (λ r e c. ground (arith, moved r.id)) (λ r e c. ground (arith, moved r.id)) xs h

  same-Counted :
      (xs : List Section)
      → ((j : ℕ) → count (holds_seat batches j) items' ≡ count (holds_seat batches j) items)
      → All (Counted batches items) xs
      → All (Counted batches items') xs
  same-Counted xs same h = All-map _ _ (λ r c. omega (arith, same r.id)) xs h

-- What a statement needs of the rows that it names.
pub record IsRegistration (db : Db) (item_id section_id : ℕ) (i : Item) : Type 0 where
  pub found : find (item_is item_id) db.items ≡ some i
  pub section : i.class_section_id ≡ some section_id
  pub created : is_created_in db.batches i ≡ true

seat_of_section :
    (i : Item) (section_id k : ℕ)
    → i.class_section_id ≡ some section_id
    → is_seat_of k i ≡ (section_id == k)
seat_of_section i section_id k e = ground arith

-- Where sections and items have different ids and the item is of a CREATE batch, names the section
-- and holds no seat, the statement that takes a seat for it keeps every section's count equal to
-- its registrations, also where no seat was left.
pub acquire-IsConserved :
    (item_id section_id at : ℕ) (db : Db) (i : Item)
    → HasKeys db
    → IsRegistration db item_id section_id i
    → is_success i.status ≡ false
    → IsConserved db
    → IsConserved (acquire_slot_and_mark_success item_id section_id at db).1
unfolding acquire_slot_and_mark_success
acquire-IsConserved item_id section_id at db i keys reg fresh h =
    elim (Option-cases (find (has_seat section_id) db.sections)) [
      | inl e ↦ rw (e, acquire_slot_and_mark_success) h
      | inr (s, e) ↦
          rw (e, acquire_slot_and_mark_success)
            (take_seat-Counted db.batches db.items _ section_id s db.sections keys.0 e
              (λ j. ground (
                arith,
                count-mark_success db.batches db.items item_id i keys.1 reg.found j
                    (some (remaining (take_seat s))) at fresh reg.created,
                seat_of_section i section_id j reg.section,
              ))
              h)
    ]

-- Where sections and items have different ids, the source is a registration of the section that
-- holds a seat, and the cancelling item is another one, of a batch that is not CREATE, the
-- statement that gives the seat back keeps every section's count equal to its registrations.
pub release-IsConserved :
    (cancel_id section_id source_id at : ℕ) (db : Db) (i c : Item)
    → HasKeys db
    → IsRegistration db source_id section_id i
    → is_success i.status ≡ true
    → find (item_is cancel_id) db.items ≡ some c
    → is_created_in db.batches c ≡ false
    → cancel_id ≢ source_id
    → IsConserved db
    → IsConserved (release_slot_and_mark_items cancel_id section_id source_id at db).1
unfolding release_slot_and_mark_items
release-IsConserved cancel_id section_id source_id at db i c keys reg held found other ne h =
    free_seat-Counted db.batches db.items _ section_id db.sections
      (λ j. ground (
        arith,
        count-mark_cancelled db.batches db.items source_id i keys.1 reg.found j left at held
            reg.created,
        count-mark_success_cancel db.batches middle cancel_id c
            (Distinct-update_where (λ r. r.id) (item_is source_id) (mark_cancelled left at)
              (λ _ _. refl) db.items keys.1)
            (find-update_where_ne (λ r. r.id) cancel_id source_id (mark_cancelled left at) db.items
                (λ _. refl) ne
              ∙ found)
            j left at other,
        seat_of_section i section_id j reg.section,
      ))
      h
  where
    left : Option ℤ
    left = released section_id db

    middle : List Item
    middle = update_where (item_is source_id) (mark_cancelled left at) db.items

-- An item that holds no seat may fail.
pub fail-IsConserved :
    (item_id : ℕ) (e : Reason) (at : ℕ) (db : Db) (i : Item)
    → HasKeys db
    → find (item_is item_id) db.items ≡ some i
    → is_success i.status ≡ false
    → IsConserved db
    → IsConserved (mark_item_failed item_id e at db).1
unfolding mark_item_failed
fail-IsConserved item_id e at db i keys found fresh h = ground (
  arith,
  same-Counted db.batches db.items (update_where (item_is item_id) (mark_failed e at) db.items) 0
      db.sections (λ j. count-mark_failed db.batches db.items item_id i keys.1 found j e at fresh)
      h,
)

pub is_created_in-complete :
    (b at : ℕ) (batches : List Batch) (i : Item)
    → is_created_in (update_where (batch_is b) (complete at) batches) i ≡ is_created_in batches i
unfolding is_created_in update_where
is_created_in-complete b at [] i = refl
is_created_in-complete b at (x ∷ xs) i = ground (arith, is_created_in-complete b at xs i)

pub complete-IsConserved :
    (b at : ℕ) (db : Db) → IsConserved db → IsConserved (complete_batch b at db).1
unfolding complete_batch
complete-IsConserved b at db h = elim (Bool-cases (any (batch_is b) db.batches)) [
  | inr e ↦ rw e h
  | inl e ↦ rw e (
      All-map _ _
        (λ s c.
          c
          ∙ count-congr _ _ db.items (
              All-intro _ (λ i. ground (arith, is_created_in-complete b at db.batches i)) db.items))
        db.sections h)
]
