-- ===== src/Worker/Burial.antt =====
-- What the dead-letter consumer leaves of a batch.
use do_an_tot_nghiep.Base.{
  ℕ, ◌≡◌, refl, sym, ◌∙◌, inl, inr, true, false, some, List, [], ◌∷◌, arith, Bool-cases, All,
  All-map, All-intro, any, find, count, count-congr, count-update_where_same, update_where,
}
use do_an_tot_nghiep.Store.{Db, Item, Batch, Reason, is_waiting}
use do_an_tot_nghiep.Worker.Action.{ok}
use do_an_tot_nghiep.Worker.Statements.{item_is, batch_is, complete}
use do_an_tot_nghiep.Worker.Registrations.{IsConserved, holds_seat}
use do_an_tot_nghiep.Worker.Conservation.{is_created_in-complete}
use do_an_tot_nghiep.Worker.DeadLetter.{pending_in, give_up, mark_batch_failed}

buried_items :
    (b : ℕ) (e : Reason) (items : List Item)
    → All (λ i. pending_in b i ≡ false) (update_where (pending_in b) (give_up e) items)
unfolding update_where
buried_items b e [] = tt
buried_items b e (x ∷ xs) = (ground arith, buried_items b e xs)

find-buried :
    (b k : ℕ) (e : Reason) (items : List Item) (i : Item)
    → find (item_is k) items ≡ some i
    → pending_in b i ≡ false
    → find (item_is k) (update_where (pending_in b) (give_up e) items) ≡ some i
unfolding update_where
find-buried b k e [] i f p = cc
find-buried b k e (x ∷ xs) i f p = ground (arith, find-buried b k e xs i)

completed_batches :
    (b at : ℕ) (batches : List Batch)
    → All
        (λ r. batch_is b r ≡ true → is_waiting r.status ≡ false)
        (update_where (batch_is b) (complete at) batches)
unfolding update_where
completed_batches b at [] = tt
completed_batches b at (x ∷ xs) = (ground arith, completed_batches b at xs)

-- What a batch looks like once it was given up.
record IsGivenUp (batch_id : ℕ) (db db' : Db) : Type 0 where
  pub settled : All (λ i. pending_in batch_id i ≡ false) db'.items
  pub completed : All (λ r. batch_is batch_id r ≡ true → is_waiting r.status ≡ false) db'.batches
  pub others :
      (k : ℕ) (i : Item)
      → find (item_is k) db.items ≡ some i
      → pending_in batch_id i ≡ false
      → find (item_is k) db'.items ≡ some i
  pub sections : db'.sections ≡ db.sections
  pub conserved : IsConserved db'

same_counts :
    (batch_id k at : ℕ) (e : Reason) (db : Db)
    → count
        (holds_seat (update_where (batch_is batch_id) (complete at) db.batches) k)
        (update_where (pending_in batch_id) (give_up e) db.items)
      ≡ count (holds_seat db.batches k) db.items
same_counts batch_id k at e db =
    count-congr _ _ items' (All-intro _ same items')
    ∙ count-update_where_same (holds_seat db.batches k) (pending_in batch_id) (give_up e) db.items (
        All-intro
          (λ i.
            pending_in batch_id i ≡ true
            → holds_seat db.batches k (give_up e i) ≡ holds_seat db.batches k i)
          lost db.items)
  where
    items' : List Item
    items' = update_where (pending_in batch_id) (give_up e) db.items

    same :
        (i : Item)
        → holds_seat (update_where (batch_is batch_id) (complete at) db.batches) k i
          ≡ holds_seat db.batches k i
    same i = rw (is_created_in-complete batch_id at db.batches i)

    lost :
        (i : Item)
        → pending_in batch_id i ≡ true
        → holds_seat db.batches k (give_up e i) ≡ holds_seat db.batches k i
    lost i p = ground arith

-- Where the dead-letter transaction goes through, no item of the batch is pending, the batch is
-- completed, the items that were not pending in it and the seats are as they were, and the
-- sections go on counting their registrations, as they did before.
mark_batch_failed-IsGivenUp :
    (batch_id : ℕ) (e : Reason) (at : ℕ) (db : Db)
    → (mark_batch_failed batch_id e at db).0 ≡ ok tt
    → IsConserved db
    → IsGivenUp batch_id db (mark_batch_failed batch_id e at db).1
unfolding mark_batch_failed
mark_batch_failed-IsGivenUp batch_id e at db h conserved =
    elim (Bool-cases (any (batch_is batch_id) db.batches)) [
      | inr missing ↦ absurd (ground arith)
      | inl there ↦ rw there (record {
        settled = buried_items batch_id e db.items;
        completed = completed_batches batch_id at db.batches;
        others = λ k i. find-buried batch_id k e db.items i;
        sections = refl;
        conserved =
            All-map _ _ (λ s n. n ∙ sym (same_counts batch_id s.id at e db)) db.sections conserved;
      })
    ]
