-- ===== src/Api/Placement/Rollback.antt =====
-- The counters after a placement, where Redis takes every command.
use do_an_tot_nghiep.Base.{
  ℕ, ◌≤◌, ◌≡◌, refl, ap, ◌∙◌, Bool, true, false, Option, some, List, if◌then◌else◌, length, take,
  take_all, arith,
}
use do_an_tot_nghiep.Base.Int.{ℤ, pos, negsuc, ◌+ℤ◌, +ℤ_parts, eq_of_parts}
use do_an_tot_nghiep.Store.{Db, BatchType}
use do_an_tot_nghiep.Worker.Action.{answered, refused, lost}
use do_an_tot_nghiep.Shared.Counters.{Counters, value_of, has_id, unique, add_all}
use do_an_tot_nghiep.Shared.Counters.Laws.{add_all-unique}
use do_an_tot_nghiep.Api.Placement.{Placement, internal_error, step_of, undo_of, store_batch, place}

undo_step : (type : BatchType) (n : ℤ) → n +ℤ step_of type +ℤ undo_of type ≡ n
undo_step BatchType.create n =
    eq_of_parts _ n (omega (arith, +ℤ_parts n (negsuc 0), +ℤ_parts (n +ℤ negsuc 0) (pos 1)))
undo_step BatchType.cancel n =
    eq_of_parts _ n (omega (arith, +ℤ_parts n (pos 1), +ℤ_parts (n +ℤ pos 1) (negsuc 0)))

full_pipeline :
    (amount : ℤ) (n : ℕ) (ids : List ℕ) (c : Counters) (k : ℕ)
    → length (unique ids) ≤ n
    → add_all amount (take n (unique ids)) c k
      ≡ (if has_id k ids then some (value_of (c k) +ℤ amount) else c k)
full_pipeline amount n ids c k h =
    ap (λ l. add_all amount l c k) (take_all n (unique ids) h) ∙ add_all-unique amount ids c k

undone_counter :
    (type : BatchType) (p : Placement) (c : Counters) (k : ℕ) (n : ℤ)
    → length (unique p.section_ids) ≤ p.reached
    → length (unique p.section_ids) ≤ p.undone
    → c k ≡ some n
    → add_all
        (undo_of type)
        (take p.undone (unique p.section_ids))
        (add_all (step_of type) (take p.reached (unique p.section_ids)) c)
        k
      ≡ c k
undone_counter type p c k n h u there =
    full_pipeline (undo_of type) p.undone p.section_ids _ k u
    ∙ go (has_id k p.section_ids) (full_pipeline (step_of type) p.reached p.section_ids c k h)
  where
    go :
        {o : Option ℤ} (b : Bool)
        → o ≡ (if b then some (value_of (c k) +ℤ step_of type) else c k)
        → (if b then some (value_of o +ℤ undo_of type) else o) ≡ c k
    go true e = rw (e, there) (ap some (undo_step type n))
    go false e = e

-- Where Redis takes every command, a batch that is accepted moves the counter of each of its
-- sections by one, however many of its rows name the section, and no other counter.
place-accepted :
    (type : BatchType) (p : Placement) (db : Db) (c : Counters) (k : ℕ)
    → p.write ≡ answered
    → length (unique p.section_ids) ≤ p.reached
    → (place type p (db, c)).1.1 k
      ≡ (if has_id k p.section_ids then some (value_of (c k) +ℤ step_of type) else c k)
unfolding place
place-accepted type p db c k w h = rw w (full_pipeline (step_of type) p.reached p.section_ids c k h)

-- Where Redis takes every command and the database refuses the batch, the request fails, the
-- tables are as they were, and so is every counter that was there.
pub place-refused :
    (type : BatchType) (p : Placement) (db : Db) (c : Counters) (k : ℕ) (n : ℤ)
    → p.write ≡ refused
    → length (unique p.section_ids) ≤ p.reached
    → length (unique p.section_ids) ≤ p.undone
    → c k ≡ some n
    → ((place type p (db, c)).0 ≡ internal_error)
      × ((place type p (db, c)).1.0 ≡ db)
      × ((place type p (db, c)).1.1 k ≡ c k)
unfolding place
place-refused type p db c k n w h u there = rw w (refl, refl, undone_counter type p c k n h u there)

-- Where Redis takes every command and the answer of the write is lost, the request fails and the
-- counters that were there are given back, and yet the batch is in the tables.
pub place-lost :
    (type : BatchType) (p : Placement) (db : Db) (c : Counters) (k : ℕ) (n : ℤ)
    → p.write ≡ lost
    → length (unique p.section_ids) ≤ p.reached
    → length (unique p.section_ids) ≤ p.undone
    → c k ≡ some n
    → ((place type p (db, c)).0 ≡ internal_error)
      × ((place type p (db, c)).1.0 ≡ store_batch type p db)
      × ((place type p (db, c)).1.1 k ≡ c k)
unfolding place
place-lost type p db c k n w h u there = rw w (refl, refl, undone_counter type p c k n h u there)
