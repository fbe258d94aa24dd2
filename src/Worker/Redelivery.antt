-- ===== src/Worker/Redelivery.antt =====
-- A message that comes again: RabbitMQ delivers at least once, and a retry delivers on purpose.
use do_an_tot_nghiep.Base.{
  ℕ, false, Option, some, List, [], ◌∷◌, ◌≡◌, refl, sym, subst, ap, ◌∙◌, inl, inr, All, All-map,
  All-intro, Bool-cases, arith,
}
use do_an_tot_nghiep.Base.Text.{Text}
use do_an_tot_nghiep.Store.{Db, ItemStatus, BatchType}
use do_an_tot_nghiep.Worker.Action.{
  Action, World, Result, ok, Outcome, answered, refused, lost, pure, bind_result, settle, ◌>>=◌,
  elapse, outcome, query,
}
use do_an_tot_nghiep.Worker.Statements.{snapshot, is_still_pending, load_statuses, complete_batch}
use do_an_tot_nghiep.Worker.Handlers.{
  Counts, CreateJobItem, CancelJobItem, create_item, cancel_item, for_items, handle, handle_create,
  handle_cancel, write_batch_log,
}
use do_an_tot_nghiep.Worker.Keeps.{
  Keeps, Stays, db-elapse, for_items-Keeps, query-Keeps, bind-Keeps,
}
use do_an_tot_nghiep.Worker.Settled.{IsSettled, complete-IsSettled, query_ok, bind_ok}
use do_an_tot_nghiep.Worker.Turns.{IsBody, create-IsBody, cancel-IsBody}

-- The seats and the items are as they were.
abbrev pub SameSeats : Db → Db → Type 0
SameSeats db db' = (db'.sections ≡ db.sections) × (db'.items ≡ db.items)

complete-SameSeats : (db : Db) (b : ℕ) → Stays (SameSeats db) (complete_batch b)
unfolding complete_batch
complete-SameSeats db b at db' h = ground arith

-- What follows the snapshot may use that it is the snapshot.
load_then :
    {B : Type 0} (Q : Db → Type 0) (b : ℕ) (f : List (ℕ × ItemStatus) → Action B)
    → ((v : World) → Q v.db → Q (f (snapshot b v.db.items) v).1.db)
    → Keeps Q (query (load_statuses b) >>= f)
unfolding query load_statuses
load_then Q b f h w q = go (outcome w) (rw (db-elapse w) q)
  where
    r : Result (List (ℕ × ItemStatus)) × Db
    r = load_statuses b (elapse w).now (elapse w).db

    go :
        (o : Outcome)
        → Q (elapse w).db
        → let s = settle o r (elapse w) in Q (bind_result s.0 f s.1).1.db
    go answered p = h (elapse w) p
    go refused p = p
    go lost p = p

module _ {J : Type 0} (item_id : J → ℕ) (body : J → List (ℕ × ItemStatus) → Counts → Action Counts)
    (is : IsBody item_id body) where
  -- Jobs that were settled when the snapshot was taken are passed over.
  for_items_skip :
      (js : List J) (statuses : List (ℕ × ItemStatus)) (n : Counts)
      → All (λ j. is_still_pending (item_id j) statuses ≡ false) js
      → for_items body js statuses n ≡ pure n
  unfolding for_items
  for_items_skip [] statuses n h = refl
  for_items_skip (j ∷ js) statuses n h =
      rw (is.skips j statuses n h.0) (for_items_skip js statuses n h.1)

  -- A loop that returns has settled every job, pending or not in the snapshot.
  for_items-Settles :
      (b : ℕ) (js : List J) (statuses : List (ℕ × ItemStatus)) (n m : Counts) (w : World)
      → All (λ j. is_still_pending (item_id j) statuses ≡ false → IsSettled b (item_id j) w.db) js
      → (for_items body js statuses n w).0 ≡ ok m
      → All (λ j. IsSettled b (item_id j) (for_items body js statuses n w).1.db) js
  unfolding for_items
  for_items-Settles b [] statuses n m w h e = tt
  for_items-Settles b (j ∷ js) statuses n m w h e =
      let (n', r, same) = bind_ok (body j statuses n) (λ k. for_items body js statuses k) w m e in
      let mid = (body j statuses n w).1 in
      let here : IsSettled b (item_id j) mid.db =
        elim (Bool-cases (is_still_pending (item_id j) statuses)) [
          | inl go ↦ is.settles b j statuses n go w n' r
          | inr skip ↦ is.keeps b (item_id j) j statuses n w (h.0 skip)
        ] in
      let e' : (for_items body js statuses n' mid).0 ≡ ok m =
        ap (λ (v : Result Counts × World). v.0) (sym same) ∙ e in
      subst (λ (v : Result Counts × World). All (λ i. IsSettled b (item_id i) v.1.db) (j ∷ js))
        (sym same)
        (
          for_items-Keeps (IsSettled b (item_id j)) body js statuses n'
              (λ i k. is.keeps b (item_id j) i statuses k) mid here,
          for_items-Settles b js statuses n' m mid
              (All-map _ _ (λ i g skip. is.keeps b (item_id i) j statuses n w (g skip)) js h.1) e',
        )

  loaded :
      (b : ℕ) (w : World) (statuses : List (ℕ × ItemStatus))
      → (query (load_statuses b) w).0 ≡ ok statuses
      → (snapshot b w.db.items ≡ statuses) × ((query (load_statuses b) w).1.db ≡ w.db)
  unfolding load_statuses
  loaded b w statuses e =
      let (at, r, d) = query_ok (load_statuses b) w statuses e in (ground arith, d)

  -- Where a handler returns, its message's jobs are settled.
  handle-Settles :
      (type : BatchType) (b : ℕ) (semester : Text) (js : List J) (queued_at : Option ℕ) (w : World)
      → (handle type body b semester (some js) queued_at w).0 ≡ ok tt
      → All
          (λ j. IsSettled b (item_id j) (handle type body b semester (some js) queued_at w).1.db)
          js
  unfolding handle write_batch_log
  handle-Settles type b semester [] queued_at w e = tt
  handle-Settles type b semester (j ∷ js) queued_at w e =
      let (statuses, l, same) = bind_ok (query (load_statuses b)) _ w tt e in
      let (snap, kept) = loaded b w statuses l in
      let v = (query (load_statuses b) w).1 in
      let e1 = ap (λ (r : Result (Unit {0}) × World). r.0) (sym same) ∙ e in
      let (n, r, same2) = bind_ok (for_items body (j ∷ js) statuses (0, 0)) _ v tt e1 in
      let mid = (for_items body (j ∷ js) statuses (0, 0) v).1 in
      let e2 = ap (λ (r : Result (Unit {0}) × World). r.0) (sym same2) ∙ e1 in
      let (u, c, same3) = bind_ok (query (complete_batch b)) _ mid tt e2 in
      let start =
        All-intro
          (λ i. is_still_pending (item_id i) statuses ≡ false → IsSettled b (item_id i) v.db)
          (λ i skip. subst (IsSettled b (item_id i)) (sym kept) (snap_false snap (item_id i) skip))
          (j ∷ js) in
      subst (λ (r : Result (Unit {0}) × World). All (λ i. IsSettled b (item_id i) r.1.db) (j ∷ js))
        (sym (same ∙ same2 ∙ same3))
        (All-map _ _
          (λ i h.
            query-Keeps (IsSettled b (item_id i)) (complete_batch b)
              (complete-IsSettled b (item_id i) b) mid h)
          (j ∷ js) (for_items-Settles b (j ∷ js) statuses (0, 0) n v start r))
    where
      snap_false :
          {x y : List (ℕ × ItemStatus)}
          → x ≡ y
          → (k : ℕ) → is_still_pending k y ≡ false
          → is_still_pending k x ≡ false
      snap_false p k q = ap (is_still_pending k) p ∙ q

  -- A handler whose jobs are all settled takes, gives back and marks nothing.
  handle_again :
      (type : BatchType) (b : ℕ) (semester : Text) (js : List J) (queued_at : Option ℕ) (w : World)
      → All (λ j. IsSettled b (item_id j) w.db) js
      → SameSeats w.db (handle type body b semester (some js) queued_at w).1.db
  unfolding handle write_batch_log
  handle_again type b semester [] queued_at w h =
      query-Keeps (SameSeats w.db) (complete_batch b) (complete-SameSeats w.db b) w (refl, refl)
  handle_again type b semester (j ∷ js) queued_at w h =
      load_then (SameSeats w.db) b _
        (λ v same.
          rw
            (for_items_skip (j ∷ js) (snapshot b v.db.items) (0, 0)
              (subst
                (λ items.
                  All (λ i. is_still_pending (item_id i) (snapshot b items) ≡ false) (j ∷ js))
                (sym same.1) h))
            (bind-Keeps (SameSeats w.db) (query (complete_batch b)) _
              (query-Keeps (SameSeats w.db) (complete_batch b) (complete-SameSeats w.db b))
              (λ _ u q. q) v same))
        w (refl, refl)

-- A CREATE message that was handled to the end may come again: the second run, from the tables as
-- the first left them, changes neither the sections nor the items, whatever queries fail.
pub handle_create-redelivered :
    (b : ℕ) (semester : Text) (js : List CreateJobItem) (queued_at again : Option ℕ) (w v : World)
    → (handle_create b semester (some js) queued_at w).0 ≡ ok tt
    → v.db ≡ (handle_create b semester (some js) queued_at w).1.db
    → SameSeats v.db (handle_create b semester (some js) again v).1.db
unfolding handle_create
handle_create-redelivered b semester js queued_at again w v e same =
    handle_again _ create_item create-IsBody BatchType.create b semester js again v (
      subst (λ db. All (λ (j : CreateJobItem). IsSettled b j.item_id db) js) (sym same)
        (handle-Settles _ create_item create-IsBody BatchType.create b semester js queued_at w e))

-- A CANCEL message that was handled to the end may come again: the second run, from the tables as
-- the first left them, changes neither the sections nor the items, whatever queries fail.
pub handle_cancel-redelivered :
    (b : ℕ) (semester : Text) (js : List CancelJobItem) (queued_at again : Option ℕ) (w v : World)
    → (handle_cancel b semester (some js) queued_at w).0 ≡ ok tt
    → v.db ≡ (handle_cancel b semester (some js) queued_at w).1.db
    → SameSeats v.db (handle_cancel b semester (some js) again v).1.db
unfolding handle_cancel
handle_cancel-redelivered b semester js queued_at again w v e same =
    handle_again _ cancel_item cancel-IsBody BatchType.cancel b semester js again v (
      subst (λ db. All (λ (j : CancelJobItem). IsSettled b j.item_id db) js) (sym same)
        (handle-Settles _ cancel_item cancel-IsBody BatchType.cancel b semester js queued_at w e))
