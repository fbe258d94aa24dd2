-- ===== src/Worker/Effects.antt =====
-- What one turn of a handler's loop does to the tables, while no answer is lost.
use do_an_tot_nghiep.Base.{ℕ, true, ◌||◌, List, [], ◌∷◌, ◌≡◌, refl, ◌≢◌, inl, inr, All, Bool-cases}
use do_an_tot_nghiep.Store.{Db, ItemStatus, Reason, missing_ids, unavailable}
use do_an_tot_nghiep.Worker.Action.{
  Action, World, Result, ok, err, Outcome, answered, refused, lost, Statement, pure, catch,
  catch_result, bind_result, settle, elapse_by, first_outcome, ◌>>=◌, elapse, outcome, query,
}
use do_an_tot_nghiep.Worker.Statements.{
  mark_item_failed, acquire_slot_and_mark_success, is_still_pending,
}
use do_an_tot_nghiep.Worker.Handlers.{
  Counts, CreateJobItem, is_empty_id, fail_item, create_item, succeeded,
}
use do_an_tot_nghiep.Worker.Keeps.{db-elapse}

-- Every query to come is answered, or refused before it is done.
abbrev pub IsReliable : World → Type 0
IsReliable w = All (λ e. e.0 ≢ lost) w.schedule

pub elapse-IsReliable : (w : World) → IsReliable w → IsReliable (elapse w)
unfolding elapse
elapse-IsReliable w h = go w.schedule h
  where
    go : (s : List (Outcome × ℕ)) → All (λ e. e.0 ≢ lost) s → IsReliable (elapse_by s w)
    go [] k = h
    go ((o, ms) ∷ rest) k = k.1

pub outcome-ne-lost : (w : World) → IsReliable w → outcome w ≢ lost
unfolding outcome
outcome-ne-lost w h = go w.schedule h
  where
    go : (s : List (Outcome × ℕ)) → All (λ e. e.0 ≢ lost) s → first_outcome s ≢ lost
    go [] k = λ e. cc
    go ((o, ms) ∷ rest) k = k.0

module _ (P Q : Db → Type 0) where
  -- An action that leads from `P` to `Q` while no answer is lost.
  abbrev pub Leads : {A : Type 0} → Action A → Type 0
  Leads m = (w : World) → IsReliable w → P w.db → Q (m w).1.db × IsReliable (m w).1

  -- A statement that succeeds into `Q`, or raises and stays in `P`.
  abbrev Tries : {A : Type 0} → Result A → Db → Type 0
  Tries (ok a) db = Q db
  Tries (err e) db = P db

  abbrev pub StatementTries : {A : Type 0} → Statement A → Type 0
  StatementTries st = (at : ℕ) (db : Db) → P db → Tries (st at db).0 (st at db).1

  pub Tries-intro :
      {A : Type 0} (r : Result A) (db : Db)
      → ((a : A) → r ≡ ok a → Q db)
      → ((e : Reason) → r ≡ err e → P db)
      → Tries r db
  Tries-intro (ok a) db h k = h a refl
  Tries-intro (err e) db h k = k e refl

  tried :
      {A B : Type 0} (r : Result A) (n : B) (h : Reason → Action B) (w : World)
      → IsReliable w
      → Tries r w.db
      → ((e : Reason) → Leads (h e))
      → let m =
          catch_result (bind_result r (λ _. pure n) w).0 h (bind_result r (λ _. pure n) w).1 in
        Q m.1.db × IsReliable m.1
  tried (ok a) n h w rel q k = (q, rel)
  tried (err e) n h w rel q k = k e w rel q

  -- try { await query(st); return n } catch (e) { h e }
  pub try-Leads :
      {A B : Type 0} (st : Statement A) (n : B) (h : Reason → Action B)
      → StatementTries st
      → ((e : Reason) → Leads (h e))
      → Leads (catch (query st >>= λ _. pure n) h)
  unfolding query
  try-Leads {A} st n h t k w rel p =
      let p' : P (elapse w).db = rw (db-elapse w) p in go (outcome w) (outcome-ne-lost w rel) p'
    where
      r : Result A × Db
      r = st (elapse w).now (elapse w).db

      rel' : IsReliable (elapse w)
      rel' = elapse-IsReliable w rel

      go :
          (o : Outcome)
          → o ≢ lost
          → P (elapse w).db
          → let s = settle o r (elapse w) in
            let b = bind_result s.0 (λ _. pure n) s.1 in
            let m = catch_result b.0 h b.1 in Q m.1.db × IsReliable m.1
      go answered ne p' = tried r.0 n h (record (elapse w) { db = r.1 }) rel' (t _ _ p') k
      go refused ne p' = k unavailable (elapse w) rel' p'
      go lost ne p' = absurd (ne refl)

  -- A query that leads from `P` to `Q`, where `P` is enough for `Q` if it is refused.
  pub query-Leads :
      {A : Type 0} (st : Statement A)
      → ((at : ℕ) (db : Db) → P db → Q (st at db).1)
      → ((db : Db) → P db → Q db)
      → Leads (query st)
  unfolding query
  query-Leads {A} st h k w rel p =
      let p' : P (elapse w).db = rw (db-elapse w) p in go (outcome w) (outcome-ne-lost w rel) p'
    where
      r : Result A × Db
      r = st (elapse w).now (elapse w).db

      go :
          (o : Outcome)
          → o ≢ lost
          → P (elapse w).db
          → Q (settle o r (elapse w)).1.db × IsReliable (settle o r (elapse w)).1
      go answered ne p' = (h _ _ p', elapse-IsReliable w rel)
      go refused ne p' = (k _ p', elapse-IsReliable w rel)
      go lost ne p' = absurd (ne refl)

module _ (P Q R : Db → Type 0) where
  pub bind-Leads :
      {A B : Type 0} (m : Action A) (f : A → Action B)
      → Leads P Q m
      → ((a : A) → Leads Q R (f a))
      → ((db : Db) → Q db → R db)
      → Leads P R (m >>= f)
  bind-Leads {A} {B} m f hm hf k w rel p = let (q, rel') = hm w rel p in go (m w).0 (m w).1 rel' q
    where
      go :
          (r : Result A) (v : World)
          → IsReliable v
          → Q v.db
          → R (bind_result r f v).1.db × IsReliable (bind_result r f v).1
      go (ok a) v rel' q = hf a v rel' q
      go (err e) v rel' q = (k _ q, rel')

module _ (P Q : Db → Type 0) (weaken : (db : Db) → P db → Q db) where
  pub fail_item-Leads :
      (item_id : ℕ) (e : Reason) (n : Counts)
      → ((at : ℕ) (db : Db) → P db → Q (mark_item_failed item_id e at db).1)
      → Leads P Q (fail_item item_id e n)
  unfolding fail_item
  fail_item-Leads item_id e n h =
      bind-Leads P Q Q (query (mark_item_failed item_id e)) _
        (query-Leads P Q (mark_item_failed item_id e) h weaken) (λ _ w rel q. (q, rel)) (λ _ q. q)

  -- One turn of the loop of CreateBatchHandler.
  pub create_item-Leads :
      (j : CreateJobItem) (statuses : List (ℕ × ItemStatus)) (n : Counts)
      → (is_still_pending j.item_id statuses ≡ true
          → (e : Reason) (at : ℕ) (db : Db) → P db
          → Q (mark_item_failed j.item_id e at db).1)
      → (is_still_pending j.item_id statuses ≡ true
          → StatementTries P Q (acquire_slot_and_mark_success j.item_id j.class_section_id))
      → Leads P Q (create_item j statuses n)
  unfolding create_item
  create_item-Leads j statuses n hf ha = elim (Bool-cases (is_still_pending j.item_id statuses)) [
    | inr skip ↦ rw skip (λ w rel p. (weaken _ p, rel))
    | inl go ↦ elim (Bool-cases (is_empty_id j.class_section_id || is_empty_id j.item_id)) [
      | inl bad ↦ rw (go, bad) (fail_item-Leads j.item_id missing_ids n (hf go missing_ids))
      | inr good ↦
          rw (go, good)
            (try-Leads P Q (acquire_slot_and_mark_success j.item_id j.class_section_id)
              (succeeded n) (λ e. fail_item j.item_id e n) (ha go)
              (λ e. fail_item-Leads j.item_id e n (hf go e)))
    ]
  ]
