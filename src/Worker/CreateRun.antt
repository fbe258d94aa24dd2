-- ===== src/Worker/CreateRun.antt =====
-- CreateBatchHandler.handle as a whole: the seats and the registrations that it leaves behind.
use do_an_tot_nghiep.Base.{
  ℕ, true, false, Option, some, List, [], ◌∷◌, ◌≡◌, ◌≢◌, refl, sym, subst, inl, inr, All, All-map,
  All-zip, any-find, find, Distinct, Bool-cases, arith,
}
use do_an_tot_nghiep.Base.Text.{Text}
use do_an_tot_nghiep.Store.{Db, Item, Reason, ItemStatus, is_pending, is_success, BatchType}
use do_an_tot_nghiep.Worker.Action.{World, err}
use do_an_tot_nghiep.Worker.Statements.{
  item_is, snapshot, is_still_pending, acquire_slot_and_mark_success,
}
use do_an_tot_nghiep.Worker.Handlers.{CreateJobItem, handle_create, create_item, Counts}
use do_an_tot_nghiep.Worker.Registrations.{IsConserved, HasKeys}
use do_an_tot_nghiep.Worker.Conservation.{
  IsRegistration, acquire-IsConserved, fail-IsConserved, complete-IsConserved,
}
use do_an_tot_nghiep.Worker.Effects.{IsReliable, create_item-Leads, Leads, Tries-intro}
use do_an_tot_nghiep.Worker.Frames.{Frame, fail-Frame, acquire-Frame, Frame-IsRegistration}
use do_an_tot_nghiep.Worker.Runs.{handle-Leads}

-- In a table with keys, what the snapshot calls pending is pending.
still_pending_rest :
    (k b : ℕ) (items : List Item)
    → All (λ i. i.id ≢ k) items
    → is_still_pending k (snapshot b items) ≡ false
unfolding is_still_pending snapshot
still_pending_rest k b [] h = refl
still_pending_rest k b (x ∷ xs) h = ground (arith, h.0, still_pending_rest k b xs h.1)

pub still_pending-IsPending :
    (k b : ℕ) (items : List Item) (i : Item)
    → Distinct (λ r. r.id) items
    → find (item_is k) items ≡ some i
    → is_still_pending k (snapshot b items) ≡ true
    → is_pending i.status ≡ true
unfolding is_still_pending snapshot
still_pending-IsPending k b [] i d e h = cc
still_pending-IsPending k b (x ∷ xs) i d e h = elim (Bool-cases (item_is k x)) [
  | inl t ↦
      ground (arith, still_pending_rest k b xs (All-map _ _ (λ y n q. n (ground arith)) xs d.0))
  | inr f ↦ ground (arith, still_pending-IsPending k b xs i d.1)
]

-- A job names an item of a CREATE batch, and that item's own section.
abbrev pub IsMatched : Db → CreateJobItem → Type 0
IsMatched db j = (i : Item) × IsRegistration db j.item_id j.class_section_id i

abbrev IsReady : Db → CreateJobItem → Type 0
IsReady db j =
    (i : Item) × IsRegistration db j.item_id j.class_section_id i × (is_success i.status ≡ false)

abbrev Inv : List (ℕ × ItemStatus) → List CreateJobItem → Db → Type 0
Inv statuses js db =
    HasKeys db
    × IsConserved db
    × Distinct (λ (j : CreateJobItem). j.item_id) js
    × All (λ j. is_still_pending j.item_id statuses ≡ true → IsReady db j) js

-- A statement about the item of one job leaves the jobs after it ready.
rest-IsReady :
    (db db' : Db) (statuses : List (ℕ × ItemStatus)) (j : CreateJobItem) (rest : List CreateJobItem)
    → Frame (λ m. m ≢ j.item_id) db db'
    → Inv statuses (j ∷ rest) db
    → IsConserved db'
    → Inv statuses rest db'
rest-IsReady db db' statuses j rest f (keys, _, distinct, ready) conserved = (
  f.keys keys,
  conserved,
  distinct.1,
  All-map _ _
      (λ r (ne, h) p.
        let (i, reg, fresh) = h p in
        (i, Frame-IsRegistration r.item_id r.class_section_id i f ne reg, fresh))
      rest (All-zip _ _ rest distinct.0 ready.1),
)

-- Where the item is there, the statement that raises has taken no seat.
acquire_err :
    (k s at : ℕ) (db : Db) (e : Reason) (i : Item)
    → find (item_is k) db.items ≡ some i
    → (acquire_slot_and_mark_success k s at db).0 ≡ err e
    → (acquire_slot_and_mark_success k s at db).1 ≡ db
unfolding acquire_slot_and_mark_success
acquire_err k s at db e i found h = ground (arith, any-find (item_is k) db.items i found)

turn :
    (statuses : List (ℕ × ItemStatus)) (j : CreateJobItem) (rest : List CreateJobItem) (n : Counts)
    → Leads (Inv statuses (j ∷ rest)) (Inv statuses rest) (create_item j statuses n)
turn statuses j rest n =
    create_item-Leads _ _ weaken j statuses n
      (λ p e at db inv.
        let (i, reg, fresh) = inv.3.0 p in
        rest-IsReady db _ statuses j rest (fail-Frame j.item_id e at db) inv
          (fail-IsConserved j.item_id e at db i inv.0 reg.found fresh inv.1))
      (λ p at db inv.
        let (i, reg, fresh) = inv.3.0 p in
        Tries-intro (Inv statuses (j ∷ rest)) (Inv statuses rest) _ _
          (λ _ _.
            rest-IsReady db _ statuses j rest (acquire-Frame j.item_id j.class_section_id at db) inv
              (acquire-IsConserved j.item_id j.class_section_id at db i inv.0 reg fresh inv.1))
          (λ e raised.
            subst (Inv statuses (j ∷ rest))
              (sym (acquire_err j.item_id j.class_section_id at db e i reg.found raised)) inv))
  where
    weaken : (db : Db) → Inv statuses (j ∷ rest) db → Inv statuses rest db
    weaken db (keys, conserved, distinct, ready) = (keys, conserved, distinct.1, ready.1)

-- Where sections and items have different ids, a CREATE batch whose jobs name different items of
-- CREATE batches, each with its own section, keeps every section's registered count equal to the
-- number of registrations that hold one of its seats, as long as no query's answer is lost.
pub handle_create-IsConserved :
    (batch_id : ℕ) (semester : Text) (js : List CreateJobItem) (queued_at : Option ℕ) (w : World)
    → IsReliable w
    → HasKeys w.db
    → Distinct (λ (j : CreateJobItem). j.item_id) js
    → All (IsMatched w.db) js
    → IsConserved w.db
    → IsConserved (handle_create batch_id semester (some js) queued_at w).1.db
unfolding handle_create
handle_create-IsConserved batch_id semester js queued_at w rel keys distinct matched conserved =
    (handle-Leads Inv IsConserved BatchType.create create_item batch_id semester js queued_at
      (λ db. db ≡ w.db)
      (λ db same. rw same (keys, conserved, distinct, All-map _ _ start js matched)) turn
      (λ statuses rest db inv. inv.1) (λ at db h. complete-IsConserved batch_id at db h) w rel
      refl).0
  where
    start :
        (j : CreateJobItem)
        → IsMatched w.db j
        → is_still_pending j.item_id (snapshot batch_id w.db.items) ≡ true
        → IsReady w.db j
    start j (i, reg) p = (
      i,
      reg,
      ground (arith, still_pending-IsPending j.item_id batch_id w.db.items i keys.1 reg.found p),
    )
