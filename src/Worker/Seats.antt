-- ===== src/Worker/Seats.antt =====
-- Every statement of the worker as a step between databases, and what no order of them breaks.
use do_an_tot_nghiep.Base.{
  ℕ, ◌≤◌, Option, List, ◌≡◌, refl, All, update_where, All-update_where_keep, arith,
}
use do_an_tot_nghiep.Base.Text.{Text}
use do_an_tot_nghiep.Store.{Db, Section, Reason}
use do_an_tot_nghiep.Worker.Action.{World}
use do_an_tot_nghiep.Worker.Statements.{
  has_seat, section_is, take_seat, free_seat, acquire_slot, release_slot, mark_item_failed,
  acquire_slot_and_mark_success, release_slot_and_mark_items, complete_batch,
}
use do_an_tot_nghiep.Worker.DeadLetter.{mark_batch_failed}
use do_an_tot_nghiep.Worker.Handlers.{CreateJobItem, CancelJobItem, handle_create, handle_cancel}
use do_an_tot_nghiep.Worker.Keeps.{create_item-Keeps, cancel_item-Keeps, handle-Keeps}

-- One statement, at any time and with any arguments.
pub data Step (db db' : Db) : Type 0 where
  acquires : (section_id at : ℕ) → db' ≡ (acquire_slot section_id at db).1 → Step db db'
  releases : (section_id at : ℕ) → db' ≡ (release_slot section_id at db).1 → Step db db'
  fails :
      (item_id : ℕ) (e : Reason) (at : ℕ) → db' ≡ (mark_item_failed item_id e at db).1 → Step db db'
  takes :
      (item_id section_id at : ℕ)
      → db' ≡ (acquire_slot_and_mark_success item_id section_id at db).1
      → Step db db'
  gives_back :
      (item_id section_id source_id at : ℕ)
      → db' ≡ (release_slot_and_mark_items item_id section_id source_id at db).1
      → Step db db'
  completes : (batch_id at : ℕ) → db' ≡ (complete_batch batch_id at db).1 → Step db db'
  buries :
      (batch_id : ℕ) (e : Reason) (at : ℕ)
      → db' ≡ (mark_batch_failed batch_id e at db).1
      → Step db db'

-- Any number of statements, of any number of workers, in any order.
pub data Reach (db : Db) : Db → Type 0 where
  here : Reach db db
  next : {mid last : Db} → Reach db mid → Step mid last → Reach db last

-- The CREATE handler does nothing to the tables but the statements of the step relation, whatever
-- the outcome of a query.
pub handle_create-Reach :
    (batch_id : ℕ) (semester : Text) (items : Option (List CreateJobItem)) (queued_at : Option ℕ)
    (w : World)
    → Reach w.db (handle_create batch_id semester items queued_at w).1.db
unfolding handle_create
handle_create-Reach batch_id semester items queued_at w =
    handle-Keeps (Reach w.db) _ _ batch_id semester items queued_at
      (λ j statuses n.
        create_item-Keeps (Reach w.db) j statuses n
          (λ e at db r. next r (fails j.item_id e at refl))
          (λ at db r. next r (takes j.item_id j.class_section_id at refl)))
      (λ at db r. next r (completes batch_id at refl)) w here

-- The CANCEL handler does nothing to the tables but the statements of the step relation, whatever
-- the outcome of a query.
handle_cancel-Reach :
    (batch_id : ℕ) (semester : Text) (items : Option (List CancelJobItem)) (queued_at : Option ℕ)
    (w : World)
    → Reach w.db (handle_cancel batch_id semester items queued_at w).1.db
unfolding handle_cancel
handle_cancel-Reach batch_id semester items queued_at w =
    handle-Keeps (Reach w.db) _ _ batch_id semester items queued_at
      (λ j statuses n.
        cancel_item-Keeps (Reach w.db) j statuses n
          (λ e at db r. next r (fails j.item_id e at refl))
          (λ s at db r. next r (gives_back j.item_id j.class_section_id s at refl)))
      (λ at db r. next r (completes batch_id at refl)) w here

-- No section has more registrations than seats.
abbrev Fits : Section → Type 0
Fits s = s.registered_count ≤ s.max_capacity

abbrev pub NoOverbooking : Db → Type 0
NoOverbooking db = All Fits db.sections

take_seat-Fits :
    (k : ℕ) (xs : List Section) → All Fits xs → All Fits (update_where (has_seat k) take_seat xs)
take_seat-Fits k xs h =
    All-update_where_keep Fits (has_seat k) take_seat (λ s e f. ground arith) xs h

free_seat-Fits :
    (k : ℕ) (xs : List Section) → All Fits xs → All Fits (update_where (section_is k) free_seat xs)
free_seat-Fits k xs h =
    All-update_where_keep Fits (section_is k) free_seat (λ s e f. ground arith) xs h

Step-NoOverbooking : {db db' : Db} → Step db db' → NoOverbooking db → NoOverbooking db'
unfolding acquire_slot release_slot mark_item_failed acquire_slot_and_mark_success
    release_slot_and_mark_items complete_batch mark_batch_failed
Step-NoOverbooking {db} (acquires k at e) h = ground (arith, take_seat-Fits k db.sections h)
Step-NoOverbooking {db} (releases k at e) h = ground (arith, free_seat-Fits k db.sections h)
Step-NoOverbooking (fails k r at e) h = ground arith
Step-NoOverbooking {db} (takes i k at e) h = ground (arith, take_seat-Fits k db.sections h)
Step-NoOverbooking {db} (gives_back i k s at e) h = ground (arith, free_seat-Fits k db.sections h)
Step-NoOverbooking (completes b at e) h = ground arith
Step-NoOverbooking (buries b r at e) h = ground arith

-- Whatever statements of the workers run in whatever order, no section comes to have more
-- registrations than seats, if none had at the start.
pub Reach-NoOverbooking : {db db' : Db} → Reach db db' → NoOverbooking db → NoOverbooking db'
Reach-NoOverbooking here h = h
Reach-NoOverbooking (next r s) h = Step-NoOverbooking s (Reach-NoOverbooking r h)
