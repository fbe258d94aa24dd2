-- ===== src/Worker/Registrations.antt =====
-- The registrations that hold a seat, as the services find them (status SUCCESS, in a batch of
-- type CREATE), and the seats that the sections count.
use do_an_tot_nghiep.Base.{
  ℕ, ◌+◌, Bool, true, false, ◌&&◌, Option, none, some, List, [], ◌∷◌, ◌≡◌, ◌≢◌, inl, inr, ◌==◌, All,
  All-map, find, find-holds, find-All, count, one_if, update_where, Distinct, Bool-cases,
  count-update_where_key, arith,
}
use do_an_tot_nghiep.Base.Int.{ℤ}
use do_an_tot_nghiep.Store.{Db, Section, Item, Batch, Reason, is_success, is_create}
use do_an_tot_nghiep.Worker.Statements.{
  has_seat, item_is, batch_is, mark_success, mark_cancelled, mark_failed,
}

-- The batch of the item is there and is of type CREATE.
unfoldable pub is_created_in : List Batch → Item → Bool
is_created_in batches i = elim (find (batch_is i.batch_id) batches) [
  | none ↦ false
  | some b ↦ is_create b.type
]

abbrev pub is_seat_of : ℕ → Item → Bool
is_seat_of k i = elim i.class_section_id [ none ↦ false | some s ↦ s == k ]

abbrev pub holds_seat : List Batch → ℕ → Item → Bool
holds_seat batches k i = is_success i.status && is_seat_of k i && is_created_in batches i

-- The section counts as many registrations as there are.
abbrev pub Counted : List Batch → List Item → Section → Type 0
Counted batches items s = s.registered_count ≡ count (holds_seat batches s.id) items

abbrev pub IsConserved : Db → Type 0
IsConserved db = All (Counted db.batches db.items) db.sections

abbrev pub HasKeys : Db → Type 0
HasKeys db = Distinct (λ s. s.id) db.sections × Distinct (λ i. i.id) db.items

-- The seat that `has_seat` finds belongs to the one section with the id.
pub find-has_seat :
    (k : ℕ) (s : Section) (xs : List Section)
    → Distinct (λ r. r.id) xs
    → find (has_seat k) xs ≡ some s
    → All (λ r. has_seat k r ≡ false → r.id ≢ k) xs
find-has_seat k s [] d h = tt
find-has_seat k s (x ∷ xs) d h = elim (Bool-cases (has_seat k x)) [
  | inl e ↦ (λ f. cc, All-map _ _ (λ r n _ q. n (ground arith)) xs d.0)
  | inr e ↦ (
    λ _ q.
        find-All (λ y. y.id ≢ x.id) (has_seat k) xs s (ground arith) d.0
          (ground (arith, find-holds (has_seat k) xs s (ground arith))),
    find-has_seat k s xs d.1 (ground arith),
  )
]

-- Marking the item of a registration as successful adds it to the count of its own section.
module _ (batches : List Batch) (items : List Item) (item_id : ℕ) (i : Item)
    (keys : Distinct (λ r. r.id) items) (found : find (item_is item_id) items ≡ some i) where
  pub count-mark_success :
      (k : ℕ) (left : Option ℤ) (at : ℕ)
      → is_success i.status ≡ false
      → is_created_in batches i ≡ true
      → count (holds_seat batches k) (update_where (item_is item_id) (mark_success left at) items)
        ≡ count (holds_seat batches k) items + one_if (is_seat_of k i)
  unfolding is_created_in
  count-mark_success k left at fresh created = ground (
    arith,
    count-update_where_key (λ r. r.id) (holds_seat batches k) item_id (mark_success left at) i items
        keys found,
  )

  -- Marking it once more adds nothing.
  pub count-mark_success_again :
      (k : ℕ) (left : Option ℤ) (at : ℕ)
      → is_success i.status ≡ true
      → count (holds_seat batches k) (update_where (item_is item_id) (mark_success left at) items)
        ≡ count (holds_seat batches k) items
  unfolding is_created_in
  count-mark_success_again k left at held = ground (
    arith,
    count-update_where_key (λ r. r.id) (holds_seat batches k) item_id (mark_success left at) i items
        keys found,
  )

  pub count-mark_cancelled :
      (k : ℕ) (left : Option ℤ) (at : ℕ)
      → is_success i.status ≡ true
      → is_created_in batches i ≡ true
      → count (holds_seat batches k) (update_where (item_is item_id) (mark_cancelled left at) items)
          + one_if (is_seat_of k i)
        ≡ count (holds_seat batches k) items
  unfolding is_created_in
  count-mark_cancelled k left at held created = ground (
    arith,
    count-update_where_key (λ r. r.id) (holds_seat batches k) item_id (mark_cancelled left at) i
        items keys found,
  )

  -- The item of a cancellation holds no seat, whatever its status.
  pub count-mark_success_cancel :
      (k : ℕ) (left : Option ℤ) (at : ℕ)
      → is_created_in batches i ≡ false
      → count (holds_seat batches k) (update_where (item_is item_id) (mark_success left at) items)
        ≡ count (holds_seat batches k) items
  unfolding is_created_in
  count-mark_success_cancel k left at created = ground (
    arith,
    count-update_where_key (λ r. r.id) (holds_seat batches k) item_id (mark_success left at) i items
        keys found,
  )

  pub count-mark_failed :
      (k : ℕ) (e : Reason) (at : ℕ)
      → is_success i.status ≡ false
      → count (holds_seat batches k) (update_where (item_is item_id) (mark_failed e at) items)
        ≡ count (holds_seat batches k) items
  unfolding is_created_in
  count-mark_failed k e at fresh = ground (
    arith,
    count-update_where_key (λ r. r.id) (holds_seat batches k) item_id (mark_failed e at) i items
        keys found,
  )
