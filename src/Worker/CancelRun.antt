-- ===== src/Worker/CancelRun.antt =====
-- CancelBatchHandler.handle as a whole: the seats and the registrations that it leaves behind.
use mathlib.Core.Bool.{false≢true}
use do_an_tot_nghiep.Base.{
  ℕ, true, false, Option, some, List, ◌∷◌, ◌≡◌, ◌≢◌, refl, sym, ap, ◌∙◌, All, All-map, All-zip,
  Pairs, find, Distinct, arith,
}
use do_an_tot_nghiep.Base.Text.{Text}
use do_an_tot_nghiep.Store.{Db, Item, Reason, ItemStatus, is_success, BatchType}
use do_an_tot_nghiep.Worker.Action.{World, err}
use do_an_tot_nghiep.Worker.Statements.{
  item_is, snapshot, is_still_pending, release_slot_and_mark_items,
}
use do_an_tot_nghiep.Worker.Handlers.{CancelJobItem, handle_cancel, cancel_item, Counts}
use do_an_tot_nghiep.Worker.Registrations.{IsConserved, HasKeys, is_created_in}
use do_an_tot_nghiep.Worker.Conservation.{
  IsRegistration, release-IsConserved, fail-IsConserved, complete-IsConserved,
}
use do_an_tot_nghiep.Worker.Effects.{IsReliable, Leads, Tries-intro}
use do_an_tot_nghiep.Worker.Frames.{Frame, fail-Frame, release-Frame, Frame-IsRegistration}
use do_an_tot_nghiep.Worker.Runs.{handle-Leads, cancel_item-Leads}
use do_an_tot_nghiep.Worker.CreateRun.{still_pending-IsPending}

-- The item of a cancellation stands in a batch that is not of type CREATE.
pub record IsCancellation (db : Db) (item_id : ℕ) (c : Item) : Type 0 where
  pub found : find (item_is item_id) db.items ≡ some c
  pub created : is_created_in db.batches c ≡ false

-- The source of a job, if it names one, is a registration of its section that holds a seat.
abbrev pub SourceHolds : Db → CancelJobItem → Type 0
SourceHolds db j =
    (s : ℕ)
    → j.source_item_id ≡ some s
    → (i : Item) × IsRegistration db s j.class_section_id i × (is_success i.status ≡ true)

abbrev pub IsMatched : Db → CancelJobItem → Type 0
IsMatched db j = ((c : Item) × IsCancellation db j.item_id c) × SourceHolds db j

-- No two jobs give back the seat of one registration.
abbrev pub OtherSource : CancelJobItem → CancelJobItem → Type 0
OtherSource j k = (s : ℕ) → j.source_item_id ≡ some s → k.source_item_id ≢ some s

abbrev IsReady : Db → CancelJobItem → Type 0
IsReady db j =
    ((c : Item) × IsCancellation db j.item_id c × (is_success c.status ≡ false)) × SourceHolds db j

abbrev Inv : List (ℕ × ItemStatus) → List CancelJobItem → Db → Type 0
Inv statuses js db =
    HasKeys db
    × IsConserved db
    × Distinct (λ (j : CancelJobItem). j.item_id) js
    × Pairs OtherSource js
    × All (λ j. is_still_pending j.item_id statuses ≡ true → IsReady db j) js

-- An item is not both a registration and a cancellation.
other_item :
    (db : Db) (a b k : ℕ) (i c : Item) → IsRegistration db a k i → IsCancellation db b c → a ≢ b
other_item db a b k i c r q e =
    let same : some i ≡ some c = sym r.found ∙ ap (λ n. find (item_is n) db.items) e ∙ q.found in
    let equal : i ≡ c = cc same in
    false≢true (sym q.created ∙ ap (is_created_in db.batches) (sym equal) ∙ r.created)

Frame-IsReady :
    {U : ℕ → Type 0} {db db' : Db} (j : CancelJobItem)
    → Frame U db db'
    → U j.item_id
    → ((s : ℕ) → j.source_item_id ≡ some s → U s)
    → IsReady db j
    → IsReady db' j
Frame-IsReady j f u v ((c, q, fresh), holds) = (
  (c, record { found = f.items j.item_id u ∙ q.found; created = rw f.batches q.created }, fresh),
  λ s e.
      let (i, r, held) = holds s e in
      (i, Frame-IsRegistration s j.class_section_id i f (v s e) r, held),
)

-- The statement raises only where it did not reach the database.
release_ok :
    (k s source at : ℕ) (db : Db) (e : Reason)
    → (release_slot_and_mark_items k s source at db).0 ≢ err e
unfolding release_slot_and_mark_items
release_ok k s source at db e = ground arith

-- A statement about the item of one job, and about its source, leaves the jobs after it ready.
rest-IsReady :
    {U : ℕ → Type 0} (db db' : Db) (statuses : List (ℕ × ItemStatus)) (j : CancelJobItem)
    (rest : List CancelJobItem)
    → Frame U db db'
    → ((r : CancelJobItem)
        → r.item_id ≢ j.item_id
        → OtherSource j r
        → IsReady db r
        → U r.item_id × ((s : ℕ) → r.source_item_id ≡ some s → U s))
    → Inv statuses (j ∷ rest) db
    → IsConserved db'
    → Inv statuses rest db'
rest-IsReady db db' statuses j rest f untouched (keys, _, distinct, others, ready) conserved = (
  f.keys keys,
  conserved,
  distinct.1,
  others.1,
  All-map _ _
      (λ r (ne, (other, h)) p.
        let u = untouched r ne other (h p) in Frame-IsReady r f u.0 u.1 (h p))
      rest (All-zip _ _ rest distinct.0 (All-zip _ _ rest others.0 ready.1)),
)

turn :
    (statuses : List (ℕ × ItemStatus)) (j : CancelJobItem) (rest : List CancelJobItem) (n : Counts)
    → Leads (Inv statuses (j ∷ rest)) (Inv statuses rest) (cancel_item j statuses n)
turn statuses j rest n =
    cancel_item-Leads _ _ weaken j statuses n
      (λ p e at db inv.
        let ((c, q, fresh), holds) = inv.4.0 p in
        rest-IsReady db _ statuses j rest (fail-Frame j.item_id e at db)
          (λ r ne _ h. (ne, λ s es. source_ne db r j.item_id c s h.1 q es)) inv
          (fail-IsConserved j.item_id e at db c inv.0 q.found fresh inv.1))
      (λ p source es at db inv.
        let ((c, q, fresh), holds) = inv.4.0 p in
        let (i, reg, held) = holds source es in
        Tries-intro (Inv statuses (j ∷ rest)) (Inv statuses rest) _ _
          (λ _ _.
            rest-IsReady db _ statuses j rest
              (release-Frame j.item_id j.class_section_id source at db)
              (λ r ne other h. (
                (ne, λ e. source_ne db j r.item_id h.0.0 source holds h.0.1 es (sym e)),
                λ s er.
                    (source_ne db r j.item_id c s h.1 q er, λ e. other source es (er ∙ ap some e)),
              ))
              inv
              (release-IsConserved j.item_id j.class_section_id source at db i c inv.0 reg held
                q.found q.created
                (λ e. other_item db source j.item_id j.class_section_id i c reg q (sym e)) inv.1))
          (λ e raised. absurd (release_ok j.item_id j.class_section_id source at db e raised)))
  where
    weaken : (db : Db) → Inv statuses (j ∷ rest) db → Inv statuses rest db
    weaken db (keys, conserved, distinct, others, ready) =
        (keys, conserved, distinct.1, others.1, ready.1)

    source_ne :
        (db : Db) (r : CancelJobItem) (k : ℕ) (c : Item) (s : ℕ)
        → SourceHolds db r
        → IsCancellation db k c
        → r.source_item_id ≡ some s
        → s ≢ k
    source_ne db r k c s holds q es =
        let (i, reg, _) = holds s es in other_item db s k r.class_section_id i c reg q

-- Where sections and items have different ids, a CANCEL batch whose jobs name different items of
-- batches that are not CREATE, and different registrations of their sections that hold a seat,
-- keeps every section's registered count equal to the number of registrations that hold one of its
-- seats, as long as no query's answer is lost.
pub handle_cancel-IsConserved :
    (batch_id : ℕ) (semester : Text) (js : List CancelJobItem) (queued_at : Option ℕ) (w : World)
    → IsReliable w
    → HasKeys w.db
    → Distinct (λ (j : CancelJobItem). j.item_id) js
    → Pairs OtherSource js
    → All (IsMatched w.db) js
    → IsConserved w.db
    → IsConserved (handle_cancel batch_id semester (some js) queued_at w).1.db
unfolding handle_cancel
handle_cancel-IsConserved batch_id semester js queued_at w rel keys distinct others matched
      conserved =
    (handle-Leads Inv IsConserved BatchType.cancel cancel_item batch_id semester js queued_at
      (λ db. db ≡ w.db)
      (λ db same. rw same (keys, conserved, distinct, others, All-map _ _ start js matched)) turn
      (λ statuses rest db inv. inv.1) (λ at db h. complete-IsConserved batch_id at db h) w rel
      refl).0
  where
    start :
        (j : CancelJobItem)
        → IsMatched w.db j
        → is_still_pending j.item_id (snapshot batch_id w.db.items) ≡ true
        → IsReady w.db j
    start j ((c, q), holds) p = (
      (
        c,
        q,
        ground (arith, still_pending-IsPending j.item_id batch_id w.db.items c keys.1 q.found p),
      ),
      holds,
    )
