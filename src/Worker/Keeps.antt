-- ===== src/Worker/Keeps.antt =====
-- Rules for what an action of the worker keeps: one for each way to compose actions, and from
-- them one for the handlers.
use do_an_tot_nghiep.Base.{
  ℕ, Bool, true, false, not, ◌||◌, Option, none, some, List, [], ◌∷◌, ◌≡◌, refl, if◌then◌else◌,
}
use do_an_tot_nghiep.Base.Text.{Text}
use do_an_tot_nghiep.Store.{Db, ItemStatus, Reason, missing_ids, no_registration, BatchType}
use do_an_tot_nghiep.Worker.Action.{
  Action, World, Result, ok, err, Outcome, answered, refused, lost, Statement, catch, catch_result,
  bind_result, settle, ◌>>=◌, elapse, elapse_by, outcome, query,
}
use do_an_tot_nghiep.Worker.Statements.{
  mark_item_failed, acquire_slot_and_mark_success, release_slot_and_mark_items, complete_batch,
  load_statuses, is_still_pending,
}
use do_an_tot_nghiep.Worker.Handlers.{
  Counts, CreateJobItem, CancelJobItem, is_empty_id, fail_item, create_item, cancel_item,
  cancel_source, for_items, write_batch_log, handle,
}

pub db-elapse : (w : World) → (elapse w).db ≡ w.db
unfolding elapse
db-elapse w = go w.schedule
  where
    go : (s : List (Outcome × ℕ)) → (elapse_by s w).db ≡ w.db
    go [] = refl
    go (e ∷ rest) = refl

module _ (Q : Db → Type 0) where
  -- A statement, and an action, that lead from `Q` to `Q`.
  abbrev pub Stays : {A : Type 0} → Statement A → Type 0
  Stays st = (at : ℕ) (db : Db) → Q db → Q (st at db).1

  abbrev pub Keeps : {A : Type 0} → Action A → Type 0
  Keeps m = (w : World) → Q w.db → Q (m w).1.db

  bind_result-Keeps :
      {A B : Type 0} (r : Result A) (f : A → Action B)
      → ((a : A) → Keeps (f a))
      → Keeps (bind_result r f)
  bind_result-Keeps (ok a) f hf w q = hf a w q
  bind_result-Keeps (err e) f hf w q = q

  pub bind-Keeps :
      {A B : Type 0} (m : Action A) (f : A → Action B)
      → Keeps m
      → ((a : A) → Keeps (f a))
      → Keeps (m >>= f)
  bind-Keeps m f hm hf w q = bind_result-Keeps (m w).0 f hf (m w).1 (hm w q)

  catch_result-Keeps :
      {A : Type 0} (r : Result A) (h : Reason → Action A)
      → ((e : Reason) → Keeps (h e))
      → Keeps (catch_result r h)
  catch_result-Keeps (ok a) h k w q = q
  catch_result-Keeps (err e) h k w q = k e w q

  catch-Keeps :
      {A : Type 0} (m : Action A) (h : Reason → Action A)
      → Keeps m
      → ((e : Reason) → Keeps (h e))
      → Keeps (catch m h)
  catch-Keeps m h hm k w q = catch_result-Keeps (m w).0 h k (m w).1 (hm w q)

  settle-Keeps :
      {A : Type 0} (o : Outcome) (r : Result A × Db) (w : World)
      → Q w.db
      → Q r.1
      → Q (settle o r w).1.db
  settle-Keeps answered r w q q' = q'
  settle-Keeps refused r w q q' = q
  settle-Keeps lost r w q q' = q'

  -- A query does its statement or nothing.
  pub query-Keeps : {A : Type 0} (st : Statement A) → Stays st → Keeps (query st)
  unfolding query
  query-Keeps st h w q =
      let q' : Q (elapse w).db = rw (db-elapse w) q in
      settle-Keeps (outcome w) (st (elapse w).now (elapse w).db) (elapse w) q' (h _ _ q')

  load_statuses-Stays : (batch_id : ℕ) → Stays (load_statuses batch_id)
  unfolding load_statuses
  load_statuses-Stays batch_id at db q = q

  fail_item-Keeps :
      (item_id : ℕ) (reason : Reason) (n : Counts)
      → Stays (mark_item_failed item_id reason)
      → Keeps (fail_item item_id reason n)
  unfolding fail_item
  fail_item-Keeps item_id reason n h =
      bind-Keeps (query (mark_item_failed item_id reason)) _ (query-Keeps _ h) (λ _ w q. q)

  if-Keeps :
      {A : Type 0} (b : Bool) (m k : Action A) → Keeps m → Keeps k → Keeps (if b then m else k)
  if-Keeps true m k hm hk = hm
  if-Keeps false m k hm hk = hk

  pub create_item-Keeps :
      (item : CreateJobItem) (statuses : List (ℕ × ItemStatus)) (n : Counts)
      → ((e : Reason) → Stays (mark_item_failed item.item_id e))
      → Stays (acquire_slot_and_mark_success item.item_id item.class_section_id)
      → Keeps (create_item item statuses n)
  unfolding create_item
  create_item-Keeps item statuses n hf ha =
      if-Keeps (not (is_still_pending item.item_id statuses)) _ _ (λ w q. q)
        (if-Keeps (is_empty_id item.class_section_id || is_empty_id item.item_id) _ _
          (fail_item-Keeps item.item_id missing_ids n (hf missing_ids))
          (catch-Keeps _ _
            (bind-Keeps (query (acquire_slot_and_mark_success item.item_id item.class_section_id)) _
              (query-Keeps _ ha) (λ _ w q. q))
            (λ e. fail_item-Keeps item.item_id e n (hf e))))

  source-Keeps :
      (item : CancelJobItem) (source : Option ℕ) (n : Counts)
      → ((e : Reason) → Stays (mark_item_failed item.item_id e))
      → ((s : ℕ) → Stays (release_slot_and_mark_items item.item_id item.class_section_id s))
      → Keeps (cancel_source item source n)
  unfolding cancel_source
  source-Keeps item none n hf hr =
      fail_item-Keeps item.item_id no_registration n (hf no_registration)
  source-Keeps item (some s) n hf hr =
      if-Keeps (is_empty_id s) _ _
        (fail_item-Keeps item.item_id no_registration n (hf no_registration))
        (catch-Keeps _ _
          (bind-Keeps (query (release_slot_and_mark_items item.item_id item.class_section_id s)) _
            (query-Keeps _ (hr s)) (λ _ w q. q))
          (λ e. fail_item-Keeps item.item_id e n (hf e)))

  pub cancel_item-Keeps :
      (item : CancelJobItem) (statuses : List (ℕ × ItemStatus)) (n : Counts)
      → ((e : Reason) → Stays (mark_item_failed item.item_id e))
      → ((s : ℕ) → Stays (release_slot_and_mark_items item.item_id item.class_section_id s))
      → Keeps (cancel_item item statuses n)
  unfolding cancel_item
  cancel_item-Keeps item statuses n hf hr =
      if-Keeps (not (is_still_pending item.item_id statuses)) _ _ (λ w q. q)
        (if-Keeps (is_empty_id item.class_section_id || is_empty_id item.item_id) _ _
          (fail_item-Keeps item.item_id missing_ids n (hf missing_ids))
          (source-Keeps item item.source_item_id n hf hr))

  pub for_items-Keeps :
      {J : Type 0} (body : J → List (ℕ × ItemStatus) → Counts → Action Counts) (js : List J)
      (statuses : List (ℕ × ItemStatus)) (n : Counts)
      → ((j : J) (m : Counts) → Keeps (body j statuses m))
      → Keeps (for_items body js statuses n)
  unfolding for_items
  for_items-Keeps body [] statuses n h = λ w q. q
  for_items-Keeps body (j ∷ js) statuses n h =
      bind-Keeps (body j statuses n) _ (h j n) (λ m. for_items-Keeps body js statuses m h)

  -- A handler keeps what each turn of its loop and the closing update keep.
  pub handle-Keeps :
      {J : Type 0} (type : BatchType) (body : J → List (ℕ × ItemStatus) → Counts → Action Counts)
      (batch_id : ℕ) (semester : Text) (items : Option (List J)) (queued_at : Option ℕ)
      → ((j : J) (statuses : List (ℕ × ItemStatus)) (m : Counts) → Keeps (body j statuses m))
      → Stays (complete_batch batch_id)
      → Keeps (handle type body batch_id semester items queued_at)
  unfolding handle write_batch_log
  handle-Keeps type body batch_id semester none queued_at hb hc = query-Keeps _ hc
  handle-Keeps type body batch_id semester (some []) queued_at hb hc = query-Keeps _ hc
  handle-Keeps type body batch_id semester (some (j ∷ js)) queued_at hb hc = λ w q.
      bind-Keeps (query (load_statuses batch_id)) _ (query-Keeps _ (load_statuses-Stays batch_id))
        (λ statuses.
          bind-Keeps (for_items body (j ∷ js) statuses (0, 0)) _
            (for_items-Keeps body (j ∷ js) statuses (0, 0) (λ k m. hb k statuses m))
            (λ n. bind-Keeps (query (complete_batch batch_id)) _ (query-Keeps _ hc) (λ _ v p. p)))
        w q
