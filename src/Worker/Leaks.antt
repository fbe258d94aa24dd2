-- ===== src/Worker/Leaks.antt =====
-- Where the worker's seats and registrations part: an answer that is lost, and an item that is
-- handled by two workers at once.
use do_an_tot_nghiep.Base.{
  ℕ, ◌+◌, true, false, ◌||◌, some, List, [], ◌∷◌, ◌≡◌, ◌≢◌, refl, ap, inl, inr, Bool-cases, find,
  find-All, find-holds, any, any-find, count, All, Distinct, update_where, All-update_where,
  Distinct-update_where, All-update_where_find, find-update_where_self, count-update_where_key,
  arith,
}
use do_an_tot_nghiep.Store.{Db, Section, Item, ItemStatus, is_success, unavailable}
use do_an_tot_nghiep.Worker.Action.{World, Outcome, answered, lost, elapse, outcome, query}
use do_an_tot_nghiep.Worker.Statements.{
  has_seat, section_is, item_is, take_seat, mark_success, mark_failed, remaining,
  acquire_slot_and_mark_success, mark_item_failed, is_still_pending,
}
use do_an_tot_nghiep.Worker.Handlers.{CreateJobItem, Counts, create_item, fail_item, is_empty_id}
use do_an_tot_nghiep.Worker.Registrations.{
  holds_seat, is_created_in, Counted, IsConserved, HasKeys, count-mark_success_again,
}
use do_an_tot_nghiep.Worker.Conservation.{IsRegistration}

-- The section has one seat taken more than `s` had, which is one more than the registrations that
-- hold its seats; every other section counts them rightly.
pub record OverCounts (db : Db) (section_id : ℕ) (s : Section) : Type 0 where
  taken : find (section_is section_id) db.sections ≡ some (take_seat s)
  one_more : (take_seat s).registered_count ≡ count (holds_seat db.batches section_id) db.items + 1
  others : All (λ x. x.id ≢ section_id → Counted db.batches db.items x) db.sections
  broken : ¬ IsConserved db

found-section_is :
    (k : ℕ) (s : Section) (xs : List Section)
    → Distinct (λ x. x.id) xs
    → find (has_seat k) xs ≡ some s
    → find (section_is k) (update_where (has_seat k) take_seat xs) ≡ some (take_seat s)
unfolding update_where
found-section_is k s [] d e = absurd (cc)
found-section_is k s (x ∷ xs) d e = elim (Bool-cases (has_seat k x)) [
  | inl t ↦ ground (arith, e)
  | inr t ↦
      let same : s.id ≡ k = ground (arith, find-holds (has_seat k) xs s (ground (arith, e))) in
      let apart : s.id ≢ x.id =
        find-All (λ y. y.id ≢ x.id) (has_seat k) xs s (ground (arith, e)) d.0 in
      ground (arith, found-section_is k s xs d.1 (ground (arith, e)))
]

-- A seat that is taken while no registration comes to hold one.
taken-OverCounts :
    (db : Db) (section_id : ℕ) (s : Section) (items' : List Item)
    → Distinct (λ x. x.id) db.sections
    → find (has_seat section_id) db.sections ≡ some s
    → IsConserved db
    → ((k : ℕ) → count (holds_seat db.batches k) items' ≡ count (holds_seat db.batches k) db.items)
    → OverCounts
        (record db {
          sections = update_where (has_seat section_id) take_seat db.sections;
          items = items';
        })
        section_id
        s
taken-OverCounts db section_id s items' keys room h same = record {
  taken = found-section_is section_id s db.sections keys room;
  one_more = omega (arith, before, same s.id, same section_id, own);
  others =
      All-update_where (Counted db.batches db.items)
        (λ x. x.id ≢ section_id → Counted db.batches items' x) (has_seat section_id) take_seat
        (λ x e c f. absurd (f (ground arith))) (λ x e c f. omega (arith, c, same x.id)) db.sections
        h;
  broken = λ h'.
      let after =
        All-update_where_find (Counted db.batches items') (has_seat section_id) take_seat
          db.sections s room h' in
      omega (arith, before, same s.id);
}
  where
    before : Counted db.batches db.items s
    before = find-All (Counted db.batches db.items) (has_seat section_id) db.sections s room h

    own :
        count (holds_seat db.batches s.id) db.items
        ≡ count (holds_seat db.batches section_id) db.items
    own =
        let e : s.id ≡ section_id =
          ground (arith, find-holds (has_seat section_id) db.sections s room) in
        ap (λ k. count (holds_seat db.batches k) db.items) e

-- The statement where the item is there and the section has a seat left.
acquired :
    (item_id section_id at : ℕ) (db : Db) (s : Section)
    → any (item_is item_id) db.items ≡ true
    → find (has_seat section_id) db.sections ≡ some s
    → (acquire_slot_and_mark_success item_id section_id at db).1 ≡ record db {
      sections = update_where (has_seat section_id) take_seat db.sections;
      items =
          update_where
            (item_is item_id)
            (mark_success (some (remaining (take_seat s))) at)
            db.items;
    }
unfolding acquire_slot_and_mark_success
acquired item_id section_id at db s there room = ground arith

-- Where sections and items have different ids and the counts are right, the statement, run again
-- on an item that already holds its seat while a seat is left, takes a second seat: the section
-- has one seat taken more than before, which is one more than the registrations that hold its
-- seats, the other sections stay right, and the item is marked SUCCESS once more.
pub acquire_again-not-IsConserved :
    (item_id section_id at : ℕ) (db : Db) (i : Item) (s : Section)
    → HasKeys db
    → IsRegistration db item_id section_id i
    → is_success i.status ≡ true
    → find (has_seat section_id) db.sections ≡ some s
    → IsConserved db
    → let after = (acquire_slot_and_mark_success item_id section_id at db).1 in
      OverCounts after section_id s
      × (find (item_is item_id) after.items
          ≡ some (mark_success (some (remaining (take_seat s))) at i))
acquire_again-not-IsConserved item_id section_id at db i s keys reg held room h =
    let there = any-find (item_is item_id) db.items i reg.found in
    let marked = mark_success (some (remaining (take_seat s))) at in
    rw (acquired item_id section_id at db s there room) (
      taken-OverCounts db section_id s (update_where (item_is item_id) marked db.items) keys.0 room
          h
          (λ k.
            count-mark_success_again db.batches db.items item_id i keys.1 reg.found k _ at held),
      find-update_where_self (λ r. r.id) item_id marked i db.items (λ _. refl) reg.found,
    )

-- The item that a lost answer leaves: its seat is taken and it is FAILED.
lost_items : ℕ → Section → ℕ → ℕ → List Item → List Item
lost_items k s t u items =
    update_where (item_is k) (mark_failed unavailable u)
      (update_where (item_is k) (mark_success (some (remaining (take_seat s))) t) items)

module _ (j : CreateJobItem) (statuses : List (ℕ × ItemStatus)) (n : Counts) (w : World)
    (s : Section) (t u : ℕ) (rest : List (Outcome × ℕ)) where
  -- The first query to come is done and its answer is lost; the second is answered.
  abbrev pub interrupted : World
  interrupted = record w { schedule = (lost, t) ∷ (answered, u) ∷ rest }

  -- What the turn of the loop leaves there.
  lost_turn :
      is_still_pending j.item_id statuses ≡ true
      → (is_empty_id j.class_section_id || is_empty_id j.item_id) ≡ false
      → any (item_is j.item_id) (
          update_where
            (item_is j.item_id)
            (mark_success (some (remaining (take_seat s))) (w.now + t))
            w.db.items)
        ≡ true
      → find (has_seat j.class_section_id) w.db.sections ≡ some s
      → (create_item j statuses n interrupted).1.db ≡ record (w.db) {
        sections = update_where (has_seat j.class_section_id) take_seat w.db.sections;
        items = lost_items j.item_id s (w.now + t) (w.now + t + u) w.db.items;
      }
  unfolding create_item fail_item query elapse outcome acquire_slot_and_mark_success
      mark_item_failed lost_items
  lost_turn pending full there room = ground arith

module _ (db : Db) (k section_id : ℕ) (i : Item) (s : Section) (t u : ℕ) (keys : HasKeys db)
    (reg : IsRegistration db k section_id i) (fresh : is_success i.status ≡ false) where
  marked : Item → Item
  marked = mark_success (some (remaining (take_seat s))) t

  found_marked : find (item_is k) (update_where (item_is k) marked db.items) ≡ some (marked i)
  unfolding marked
  found_marked = find-update_where_self (λ r. r.id) k marked i db.items (λ _. refl) reg.found

  -- No registration is left that holds the seat.
  lost_count :
      (x : ℕ)
      → count (holds_seat db.batches x) (lost_items k s t u db.items)
        ≡ count (holds_seat db.batches x) db.items
  unfolding marked lost_items is_created_in
  lost_count x = ground (
    arith,
    count-update_where_key (λ r. r.id) (holds_seat db.batches x) k marked i db.items keys.1
        reg.found,
    count-update_where_key (λ r. r.id) (holds_seat db.batches x) k (mark_failed unavailable u)
        (marked i) (update_where (item_is k) marked db.items)
        (Distinct-update_where (λ r. r.id) (item_is k) marked (λ _ _. refl) db.items keys.1)
        found_marked,
  )

-- Where sections and items have different ids, the counts are right, the item is pending and a
-- seat is left, and the answer of the statement that took the seat is lost, the CREATE handler
-- marks the item FAILED, while the section has one seat taken more than before, which is one more
-- than the registrations that hold its seats; the other sections stay right.
pub lost_answer-not-IsConserved :
    (j : CreateJobItem) (statuses : List (ℕ × ItemStatus)) (n : Counts) (w : World) (i : Item)
    (s : Section) (t u : ℕ) (rest : List (Outcome × ℕ))
    → HasKeys w.db
    → IsRegistration w.db j.item_id j.class_section_id i
    → is_success i.status ≡ false
    → find (has_seat j.class_section_id) w.db.sections ≡ some s
    → is_still_pending j.item_id statuses ≡ true
    → (is_empty_id j.class_section_id || is_empty_id j.item_id) ≡ false
    → IsConserved w.db
    → let after = (create_item j statuses n (interrupted j statuses n w s t u rest)).1.db in
      OverCounts after j.class_section_id s
      × (find (item_is j.item_id) after.items
          ≡ some (
              mark_failed unavailable
                (w.now + t + u)
                (mark_success (some (remaining (take_seat s))) (w.now + t) i)))
unfolding marked lost_items
lost_answer-not-IsConserved j statuses n w i s t u rest keys reg fresh room pending full h =
    let k = j.item_id in
    let there = found_marked w.db k j.class_section_id i s (w.now + t) u keys reg fresh in
    rw (lost_turn j statuses n w s t u rest pending full (any-find (item_is k) _ _ there) room) (
      taken-OverCounts w.db j.class_section_id s
          (lost_items k s (w.now + t) (w.now + t + u) w.db.items) keys.0 room h
          (lost_count w.db k j.class_section_id i s (w.now + t) (w.now + t + u) keys reg fresh),
      find-update_where_self (λ r. r.id) k (mark_failed unavailable (w.now + t + u))
          (mark_success (some (remaining (take_seat s))) (w.now + t) i) _ (λ _. refl) there,
    )
