-- ===== src/Worker/Turns.antt =====
-- What one turn of a handler's loop settles, and what the two handlers' loops have in common.
use do_an_tot_nghiep.Base.{
  ℕ, true, false, ◌||◌, Option, none, some, List, ◌≡◌, refl, sym, subst, inl, inr, Bool-cases,
}
use do_an_tot_nghiep.Store.{Db, ItemStatus, Reason, missing_ids, no_registration}
use do_an_tot_nghiep.Worker.Action.{
  Action, World, Result, ok, err, Statement, pure, catch, catch_result, bind_result, ◌>>=◌, query,
}
use do_an_tot_nghiep.Worker.Statements.{
  is_still_pending, mark_item_failed, acquire_slot_and_mark_success, release_slot_and_mark_items,
}
use do_an_tot_nghiep.Worker.Handlers.{
  Counts, CreateJobItem, CancelJobItem, is_empty_id, fail_item, missed, succeeded, create_item,
  cancel_item, cancel_source,
}
use do_an_tot_nghiep.Worker.Keeps.{Keeps, create_item-Keeps, cancel_item-Keeps}
use do_an_tot_nghiep.Worker.Settled.{
  IsSettled, fail-IsSettled, acquire-IsSettled, release-IsSettled, fail_settles, acquire_settles,
  release_settles, query_ok, bind_ok,
}

-- What a turn of the loop that returns leaves behind.
abbrev Settles : ℕ → ℕ → Action Counts → Type 0
Settles b k m = (w : World) (n : Counts) → (m w).0 ≡ ok n → IsSettled b k (m w).1.db

module _ (b k : ℕ) where
  fail_item-Settles : (e : Reason) (n : Counts) → Settles b k (fail_item k e n)
  unfolding fail_item
  fail_item-Settles e n w m h =
      let (u, q, same) = bind_ok (query (mark_item_failed k e)) (λ _. pure (missed n)) w m h in
      let (at, r, d) = query_ok (mark_item_failed k e) w u q in
      subst (λ (v : Result Counts × World). IsSettled b k v.1.db) (sym same)
        (subst (IsSettled b k) (sym d) (fail_settles b k e at w.db r))

  try-Settles :
      {A : Type 0} (st : Statement A) (done n : Counts)
      → ((at : ℕ) (db : Db) (a : A) → (st at db).0 ≡ ok a → IsSettled b k (st at db).1)
      → Settles b k (catch (query st >>= λ _. pure done) (λ e. fail_item k e n))
  try-Settles {A} st done n h w m = go (query st w).0 (query st w).1 settled
    where
      settled : (a : A) → (query st w).0 ≡ ok a → IsSettled b k (query st w).1.db
      settled a e =
          let (at, r, d) = query_ok st w a e in subst (IsSettled b k) (sym d) (h at w.db a r)

      go :
          (r : Result A) (v : World)
          → ((a : A) → r ≡ ok a → IsSettled b k v.db)
          → let t = bind_result r (λ _. pure done) v in
            let c = catch_result t.0 (λ e. fail_item k e n) t.1 in c.0 ≡ ok m → IsSettled b k c.1.db
      go (ok a) v f c = f a refl
      go (err e) v f c = fail_item-Settles e n v m c

-- A job that was pending in the snapshot is settled where its turn returns.
create_item-Settles :
    (b : ℕ) (j : CreateJobItem) (statuses : List (ℕ × ItemStatus)) (n : Counts)
    → is_still_pending j.item_id statuses ≡ true
    → Settles b j.item_id (create_item j statuses n)
unfolding create_item
create_item-Settles b j statuses n go =
    elim (Bool-cases (is_empty_id j.class_section_id || is_empty_id j.item_id)) [
      | inl bad ↦ rw (go, bad) (fail_item-Settles b j.item_id missing_ids n)
      | inr good ↦
          rw (go, good)
            (try-Settles b j.item_id (acquire_slot_and_mark_success j.item_id j.class_section_id)
              (succeeded n) n (acquire_settles b j.item_id j.class_section_id))
    ]

cancel_source-Settles :
    (b : ℕ) (j : CancelJobItem) (source : Option ℕ) (n : Counts)
    → Settles b j.item_id (cancel_source j source n)
unfolding cancel_source
cancel_source-Settles b j none n = fail_item-Settles b j.item_id no_registration n
cancel_source-Settles b j (some s) n = elim (Bool-cases (is_empty_id s)) [
  | inl bad ↦ rw bad (fail_item-Settles b j.item_id no_registration n)
  | inr good ↦ rw good (
      try-Settles b j.item_id (release_slot_and_mark_items j.item_id j.class_section_id s)
        (succeeded n) n (λ at db a _. release_settles b j.item_id j.class_section_id s at db))
]

cancel_item-Settles :
    (b : ℕ) (j : CancelJobItem) (statuses : List (ℕ × ItemStatus)) (n : Counts)
    → is_still_pending j.item_id statuses ≡ true
    → Settles b j.item_id (cancel_item j statuses n)
unfolding cancel_item
cancel_item-Settles b j statuses n go =
    elim (Bool-cases (is_empty_id j.class_section_id || is_empty_id j.item_id)) [
      | inl bad ↦ rw (go, bad) (fail_item-Settles b j.item_id missing_ids n)
      | inr good ↦ rw (go, good) (cancel_source-Settles b j j.source_item_id n)
    ]

-- What the two handlers' loops have in common.
pub record IsBody {J : Type 0} (item_id : J → ℕ)
    (body : J → List (ℕ × ItemStatus) → Counts → Action Counts) : Type 0 where
  pub skips :
      (j : J) (statuses : List (ℕ × ItemStatus)) (n : Counts)
      → is_still_pending (item_id j) statuses ≡ false
      → body j statuses n ≡ pure n
  pub keeps :
      (b k : ℕ) (j : J) (statuses : List (ℕ × ItemStatus)) (n : Counts)
      → Keeps (IsSettled b k) (body j statuses n)
  pub settles :
      (b : ℕ) (j : J) (statuses : List (ℕ × ItemStatus)) (n : Counts)
      → is_still_pending (item_id j) statuses ≡ true
      → Settles b (item_id j) (body j statuses n)

pub create-IsBody : IsBody (λ (j : CreateJobItem). j.item_id) create_item
unfolding create_item
create-IsBody = record {
  skips = λ j statuses n e. rw e;
  keeps = λ b k j statuses n.
      create_item-Keeps (IsSettled b k) j statuses n (fail-IsSettled b k j.item_id)
        (acquire-IsSettled b k j.item_id j.class_section_id);
  settles = create_item-Settles;
}

pub cancel-IsBody : IsBody (λ (j : CancelJobItem). j.item_id) cancel_item
unfolding cancel_item
cancel-IsBody = record {
  skips = λ j statuses n e. rw e;
  keeps = λ b k j statuses n.
      cancel_item-Keeps (IsSettled b k) j statuses n (fail-IsSettled b k j.item_id)
        (release-IsSettled b k j.item_id j.class_section_id);
  settles = cancel_item-Settles;
}
