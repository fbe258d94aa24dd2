-- ===== src/Worker/Settled.antt =====
-- Items that are no longer PENDING stay so, and a turn of the loop that returns leaves its item so.
use do_an_tot_nghiep.Base.{
  ℕ, Bool, false, some, List, [], ◌∷◌, ◌≡◌, refl, subst, inl, inr, find, update_where, Option-cases,
  arith,
}
use do_an_tot_nghiep.Base.Int.{ℤ}
use do_an_tot_nghiep.Store.{Db, Item, Reason, is_pending}
use do_an_tot_nghiep.Worker.Action.{
  Action, World, Result, ok, err, Outcome, answered, refused, lost, Statement, bind_result, settle,
  ◌>>=◌, elapse, outcome, query,
}
use do_an_tot_nghiep.Worker.Statements.{
  has_seat, item_is, snapshot, is_still_pending, take_seat, remaining, released, mark_success,
  mark_cancelled, mark_failed, mark_item_failed, acquire_slot_and_mark_success,
  release_slot_and_mark_items, complete_batch,
}
use do_an_tot_nghiep.Worker.Keeps.{Stays, db-elapse}

-- `k` names no pending item of the batch.
abbrev pub IsSettled : ℕ → ℕ → Db → Type 0
IsSettled batch_id k db = is_still_pending k (snapshot batch_id db.items) ≡ false

module _ (b k : ℕ) where
  -- An update that makes its rows final, and leaves their keys, makes no item pending again.
  update_settled :
      (p : Item → Bool) (f : Item → Item) (items : List Item)
      → ((i : Item) → (f i).id ≡ i.id)
      → ((i : Item) → (f i).batch_id ≡ i.batch_id)
      → ((i : Item) → is_pending (f i).status ≡ false)
      → is_still_pending k (snapshot b items) ≡ false
      → is_still_pending k (snapshot b (update_where p f items)) ≡ false
  unfolding is_still_pending snapshot update_where
  update_settled p f [] hk hb hs h = refl
  update_settled p f (x ∷ xs) hk hb hs h =
      ground (arith, hk x, hb x, hs x, update_settled p f xs hk hb hs)

  -- It settles the items that it hits.
  update_settles :
      (f : Item → Item) (items : List Item)
      → ((i : Item) → (f i).id ≡ i.id)
      → ((i : Item) → (f i).batch_id ≡ i.batch_id)
      → ((i : Item) → is_pending (f i).status ≡ false)
      → is_still_pending k (snapshot b (update_where (item_is k) f items)) ≡ false
  unfolding is_still_pending snapshot update_where
  update_settles f [] hk hb hs = refl
  update_settles f (x ∷ xs) hk hb hs =
      ground (arith, hk x, hb x, hs x, update_settles f xs hk hb hs)

  pub fail-IsSettled :
      (item_id : ℕ) (e : Reason) → Stays (IsSettled b k) (mark_item_failed item_id e)
  unfolding mark_item_failed
  fail-IsSettled item_id e at db h = ground (
    arith,
    update_settled (item_is item_id) (mark_failed e at) db.items (λ _. refl) (λ _. refl) (λ _. refl)
        h,
  )

  pub acquire-IsSettled :
      (item_id s : ℕ) → Stays (IsSettled b k) (acquire_slot_and_mark_success item_id s)
  unfolding acquire_slot_and_mark_success
  acquire-IsSettled item_id s at db h = elim (Option-cases (find (has_seat s) db.sections)) [
    | inl e ↦ rw (e, acquire_slot_and_mark_success) h
    | inr (r, e) ↦
        rw (e, acquire_slot_and_mark_success)
          (update_settled (item_is item_id) (mark_success (some (remaining (take_seat r))) at)
            db.items (λ _. refl) (λ _. refl) (λ _. refl) h)
  ]

  pub release-IsSettled :
      (item_id s source : ℕ) → Stays (IsSettled b k) (release_slot_and_mark_items item_id s source)
  unfolding release_slot_and_mark_items
  release-IsSettled item_id s source at db h =
      update_settled (item_is item_id) (mark_success (released s db) at) _ (λ _. refl) (λ _. refl)
        (λ _. refl)
        (update_settled (item_is source) (mark_cancelled (released s db) at) db.items (λ _. refl)
          (λ _. refl) (λ _. refl) h)

  pub complete-IsSettled : (batch_id : ℕ) → Stays (IsSettled b k) (complete_batch batch_id)
  unfolding complete_batch
  complete-IsSettled batch_id at db h = ground arith

  pub fail_settles :
      (e : Reason) (at : ℕ) (db : Db)
      → (mark_item_failed k e at db).0 ≡ ok tt
      → IsSettled b k (mark_item_failed k e at db).1
  unfolding mark_item_failed
  fail_settles e at db h =
      ground (arith, update_settles (mark_failed e at) db.items (λ _. refl) (λ _. refl) (λ _. refl))

  pub acquire_settles :
      (s at : ℕ) (db : Db) (r : ℤ)
      → (acquire_slot_and_mark_success k s at db).0 ≡ ok r
      → IsSettled b k (acquire_slot_and_mark_success k s at db).1
  unfolding acquire_slot_and_mark_success
  acquire_settles s at db r h = elim (Option-cases (find (has_seat s) db.sections)) [
    | inl e ↦ ground arith
    | inr (x, e) ↦
        rw (e, acquire_slot_and_mark_success)
          (update_settles (mark_success (some (remaining (take_seat x))) at) db.items (λ _. refl)
            (λ _. refl) (λ _. refl))
  ]

  pub release_settles :
      (s source at : ℕ) (db : Db) → IsSettled b k (release_slot_and_mark_items k s source at db).1
  unfolding release_slot_and_mark_items
  release_settles s source at db =
      update_settles (mark_success (released s db) at) _ (λ _. refl) (λ _. refl) (λ _. refl)

settle_ok :
    {A : Type 0} (o : Outcome) (r : Result A × Db) (v : World) (a : A)
    → (settle o r v).0 ≡ ok a
    → (r.0 ≡ ok a) × ((settle o r v).1.db ≡ r.1)
settle_ok answered r v a h = (h, refl)
settle_ok refused r v a h = cc
settle_ok lost r v a h = cc

-- A query that returns was answered.
pub query_ok :
    {A : Type 0} (st : Statement A) (w : World) (a : A)
    → (query st w).0 ≡ ok a
    → (at : ℕ) × ((st at w.db).0 ≡ ok a) × ((query st w).1.db ≡ (st at w.db).1)
unfolding query
query_ok st w a h =
    let (r, d) = settle_ok (outcome w) (st (elapse w).now (elapse w).db) (elapse w) a h in
    (
      (elapse w).now,
      subst (λ db. (st (elapse w).now db).0 ≡ ok a) (db-elapse w) r,
      subst (λ db. (query st w).1.db ≡ (st (elapse w).now db).1) (db-elapse w) d,
    )

module _ {A B : Type 0} where
  -- Where a chain of actions returns, each of them has.
  pub bind_ok :
      (m : Action A) (f : A → Action B) (w : World) (b : B)
      → ((m >>= f) w).0 ≡ ok b
      → (a : A) × ((m w).0 ≡ ok a) × ((m >>= f) w ≡ f a (m w).1)
  bind_ok m f w b = go (m w).0 (m w).1
    where
      go :
          (r : Result A) (v : World)
          → (bind_result r f v).0 ≡ ok b
          → (a : A) × (r ≡ ok a) × (bind_result r f v ≡ f a v)
      go (ok a) v h = (a, refl, refl)
      go (err e) v h = cc
