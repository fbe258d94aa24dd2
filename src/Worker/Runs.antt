-- ===== src/Worker/Runs.antt =====
-- The loop and the whole of a handler, from what one turn of the loop does.
use do_an_tot_nghiep.Base.{
  ℕ, true, ◌||◌, Option, none, some, List, [], ◌∷◌, ◌≡◌, ◌≢◌, refl, inl, inr, Bool-cases,
}
use do_an_tot_nghiep.Base.Text.{Text}
use do_an_tot_nghiep.Store.{Db, ItemStatus, Reason, missing_ids, no_registration, BatchType}
use do_an_tot_nghiep.Worker.Action.{
  Action, Result, ◌>>=◌, query, Outcome, answered, refused, lost, outcome, elapse, settle,
  bind_result,
}
use do_an_tot_nghiep.Worker.Statements.{
  mark_item_failed, release_slot_and_mark_items, is_still_pending, complete_batch, load_statuses,
  snapshot,
}
use do_an_tot_nghiep.Worker.Handlers.{
  Counts, CancelJobItem, is_empty_id, fail_item, cancel_item, cancel_source, succeeded, for_items,
  handle, write_batch_log,
}
use do_an_tot_nghiep.Worker.Keeps.{db-elapse}
use do_an_tot_nghiep.Worker.Effects.{
  elapse-IsReliable, outcome-ne-lost, IsReliable, Leads, StatementTries, bind-Leads, query-Leads,
  try-Leads, fail_item-Leads,
}

module _ (P Q : Db → Type 0) (weaken : (db : Db) → P db → Q db) where
  -- One turn of the loop of CancelBatchHandler.
  pub cancel_item-Leads :
      (j : CancelJobItem) (statuses : List (ℕ × ItemStatus)) (n : Counts)
      → (is_still_pending j.item_id statuses ≡ true
          → (e : Reason) (at : ℕ) (db : Db) → P db
          → Q (mark_item_failed j.item_id e at db).1)
      → (is_still_pending j.item_id statuses ≡ true
          → (source : ℕ) → j.source_item_id ≡ some source
          → StatementTries P Q (release_slot_and_mark_items j.item_id j.class_section_id source))
      → Leads P Q (cancel_item j statuses n)
  unfolding cancel_item cancel_source
  cancel_item-Leads j statuses n hf hr = elim (Bool-cases (is_still_pending j.item_id statuses)) [
    | inr skip ↦ rw skip (λ w rel p. (weaken _ p, rel))
    | inl go ↦ elim (Bool-cases (is_empty_id j.class_section_id || is_empty_id j.item_id)) [
      | inl bad ↦
          rw (go, bad) (fail_item-Leads P Q weaken j.item_id missing_ids n (hf go missing_ids))
      | inr good ↦ rw (go, good) (from_source j.source_item_id (hf go) (hr go))
    ]
  ]
    where
      from_source :
          (s : Option ℕ)
          → ((e : Reason) (at : ℕ) (db : Db) → P db → Q (mark_item_failed j.item_id e at db).1)
          → ((source : ℕ)
              → s ≡ some source
              → StatementTries P Q
                  (release_slot_and_mark_items j.item_id j.class_section_id source))
          → Leads P Q (cancel_source j s n)
      from_source none f r =
          fail_item-Leads P Q weaken j.item_id no_registration n (f no_registration)
      from_source (some k) f r = elim (Bool-cases (is_empty_id k)) [
        | inl empty ↦
            rw (empty, cancel_source)
              (fail_item-Leads P Q weaken j.item_id no_registration n (f no_registration))
        | inr full ↦
            rw (full, cancel_source)
              (try-Leads P Q (release_slot_and_mark_items j.item_id j.class_section_id k)
                (succeeded n) (λ e. fail_item j.item_id e n) (r k refl)
                (λ e. fail_item-Leads P Q weaken j.item_id e n (f e)))
      ]

module _ {J : Type 0} (Inv : List J → Db → Type 0) (End : Db → Type 0)
    (finish : (js : List J) (db : Db) → Inv js db → End db)
    (body : J → List (ℕ × ItemStatus) → Counts → Action Counts) where
  -- The invariant speaks of the jobs that are left.
  for_items-Leads :
      (js : List J) (statuses : List (ℕ × ItemStatus)) (n : Counts)
      → ((j : J) (rest : List J) (m : Counts)
          → Leads (Inv (j ∷ rest)) (Inv rest) (body j statuses m))
      → Leads (Inv js) End (for_items body js statuses n)
  unfolding for_items
  for_items-Leads [] statuses n h = λ w rel p. (finish [] _ p, rel)
  for_items-Leads (j ∷ js) statuses n h =
      bind-Leads (Inv (j ∷ js)) (Inv js) End (body j statuses n) _ (h j js n)
        (λ m. for_items-Leads js statuses m h) (finish js)

-- What follows the snapshot knows that it was taken of the tables as they are.
load_statuses-Leads :
    {B : Type 0} (P : Db → Type 0) (Q : List (ℕ × ItemStatus) → Db → Type 0) (R : Db → Type 0)
    (batch_id : ℕ) (f : List (ℕ × ItemStatus) → Action B)
    → ((db : Db) → P db → Q (snapshot batch_id db.items) db)
    → ((statuses : List (ℕ × ItemStatus)) → Leads (Q statuses) R (f statuses))
    → ((db : Db) → P db → R db)
    → Leads P R (query (load_statuses batch_id) >>= f)
unfolding query load_statuses
load_statuses-Leads P Q R batch_id f h k skip w rel p =
    go (outcome w) (outcome-ne-lost w rel) (rw (db-elapse w) p)
  where
    r : Result (List (ℕ × ItemStatus)) × Db
    r = load_statuses batch_id (elapse w).now (elapse w).db

    go :
        (o : Outcome)
        → o ≢ lost
        → P (elapse w).db
        → let s = settle o r (elapse w) in
          R (bind_result s.0 f s.1).1.db × IsReliable (bind_result s.0 f s.1).1
    go answered ne q = k _ (elapse w) (elapse-IsReliable w rel) (h _ q)
    go refused ne q = (skip _ q, elapse-IsReliable w rel)
    go lost ne q = absurd (ne refl)

module _ {J : Type 0} (Inv : List (ℕ × ItemStatus) → List J → Db → Type 0) (End : Db → Type 0)
    (type : BatchType) (body : J → List (ℕ × ItemStatus) → Counts → Action Counts) where
  -- A handler, from an invariant of its loop over the snapshot that it takes.
  pub handle-Leads :
      (batch_id : ℕ) (semester : Text) (js : List J) (queued_at : Option ℕ) (P : Db → Type 0)
      → ((db : Db) → P db → Inv (snapshot batch_id db.items) js db)
      → ((statuses : List (ℕ × ItemStatus)) (j : J) (rest : List J) (m : Counts)
          → Leads (Inv statuses (j ∷ rest)) (Inv statuses rest) (body j statuses m))
      → ((statuses : List (ℕ × ItemStatus)) (rest : List J) (db : Db)
          → Inv statuses rest db
          → End db)
      → ((at : ℕ) (db : Db) → End db → End (complete_batch batch_id at db).1)
      → Leads P End (handle type body batch_id semester (some js) queued_at)
  unfolding handle write_batch_log
  handle-Leads batch_id semester [] queued_at P start turn finish close =
      query-Leads P End (complete_batch batch_id)
        (λ at db p. close at db (finish _ _ db (start db p))) (λ db p. finish _ _ db (start db p))
  handle-Leads batch_id semester (j ∷ js) queued_at P start turn finish close = λ w.
      load_statuses-Leads P (λ statuses. Inv statuses (j ∷ js)) End batch_id _ start
        (λ statuses.
          bind-Leads (Inv statuses (j ∷ js)) End End (for_items body (j ∷ js) statuses (0, 0)) _
            (for_items-Leads (Inv statuses) End (finish statuses) body (j ∷ js) statuses (0, 0)
              (turn statuses))
            (λ n.
              bind-Leads End End End (query (complete_batch batch_id)) _
                (query-Leads End End (complete_batch batch_id) close (λ _ e. e))
                (λ _ v rel e. (e, rel)) (λ _ e. e))
            (λ _ e. e))
        (λ db p. finish _ _ db (start db p)) w
