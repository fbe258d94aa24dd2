-- ===== src/Scheduler/Notification/Bounded.antt =====
-- The mails of any sequence of runs, with the API that stores batches and the worker that completes
-- them in between.
use do_an_tot_nghiep.Base.{
  ℕ, ◌+◌, ◌*◌, ◌≤◌, ◌≡◌, ◌≢◌, refl, sym, inl, inr, Bool, List, [], ◌∷◌, ◌++◌, ◌==◌, length, All,
  All-update_where_keep, Distinct-update_where, update_where, arith, Bool-cases, subst,
}
use do_an_tot_nghiep.Base.Rows.{All-snoc, Distinct-snoc}
use do_an_tot_nghiep.Store.{BatchStatus, Item}
use do_an_tot_nghiep.Worker.Action.{refused}
use do_an_tot_nghiep.Scheduler.Notification.{NoticeBatch, BatchGroup, State, Env, Turn}
use do_an_tot_nghiep.Scheduler.Notification.Run.{send_pending_summaries}
use do_an_tot_nghiep.Scheduler.Notification.Budget.{
  budget, total, length-snoc, length-update_where, IsReady, Spent, send_pending_summaries-Spent,
}

-- What the worker's update of a batch changes of it.
abbrev completed : NoticeBatch → NoticeBatch
completed b = record b { batch = record (b.batch) { status = BatchStatus.completed } }

pub data Step (most : ℕ) : State → State → Type 0 where
  -- A run of the scheduler, in which the update of a `catch` may be lost, but is not refused.
  run :
      (env : Env) (pending_read : Bool) (turns : BatchGroup → Turn) (s : State)
      → env.max_retries ≡ most
      → ((g : BatchGroup) → (turns g).failed_mark ≢ refused)
      → Step most s (send_pending_summaries env pending_read turns s).1
  -- The worker completes a batch.
  complete :
      (k : ℕ) (s : State)
      → Step most s (record s { batches = update_where (λ b. b.id == k) completed s.batches })
  -- The API stores a batch, with the defaults of its columns.
  store :
      (b : NoticeBatch) (s : State)
      → All (λ c. c.id ≢ b.id) s.batches
      → b.notification_retry_count ≡ 0
      → Step most s (record s { batches = s.batches ++ b ∷ [] })
  -- The items change.
  write : (items : List Item) (s : State) → Step most s (record s { items = items })

pub data Reach (most : ℕ) (s : State) : State → Type 0 where
  here : Reach most s s
  next : {t u : State} → Reach most s t → Step most t u → Reach most s u

record IsBounded (most : ℕ) (s : State) : Type 0 where
  ready : IsReady most s
  within : length s.mails + total most s.batches ≤ most * length s.batches

total-completed :
    (most k : ℕ) (bs : List NoticeBatch)
    → total most (update_where (λ b. b.id == k) completed bs) ≡ total most bs
unfolding update_where
total-completed most k [] = refl
total-completed most k (b ∷ bs) = elim (Bool-cases (b.id == k)) [
  | inl e ↦ simp e (omega (arith, total-completed most k bs))
  | inr e ↦ simp e (omega (arith, total-completed most k bs))
]

budget-le : (most : ℕ) (b : NoticeBatch) → budget most b ≤ most
budget-le most b = ground arith

total-le : (most : ℕ) (bs : List NoticeBatch) → total most bs ≤ most * length bs
total-le most [] = omega arith
total-le most (b ∷ bs) = grind (arith, budget-le most b, total-le most bs)

total-snoc :
    (most : ℕ) (bs : List NoticeBatch) (b : NoticeBatch)
    → total most (bs ++ b ∷ []) ≡ total most bs + budget most b
total-snoc most [] b = omega arith
total-snoc most (c ∷ bs) b = omega (arith, total-snoc most bs b)

Spent-IsBounded : (most : ℕ) (s t : State) → Spent most s t → IsBounded most s → IsBounded most t
Spent-IsBounded most s t p b = record {
  ready = p.ready;
  within =
      subst (λ n. length t.mails + total most t.batches ≤ most * n) (sym p.rows)
        (omega (arith, p.less, b.within));
}

Step-IsBounded : {most : ℕ} {s t : State} → Step most s t → IsBounded most s → IsBounded most t
Step-IsBounded {most} (run env read turns s e marks) b =
    Spent-IsBounded most s _
      (subst (λ n. IsReady n s → Spent n s (send_pending_summaries env read turns s).1) e
        (send_pending_summaries-Spent env turns marks read s) b.ready)
      b
Step-IsBounded {most} (complete k s) b = record {
  ready = record {
    ids = Distinct-update_where (λ c. c.id) _ completed (λ c _. refl) s.batches b.ready.ids;
    counts = All-update_where_keep _ _ completed (λ c _ h. h) s.batches b.ready.counts;
  };
  within =
      rw
        (total-completed most k s.batches, length-update_where (λ c. c.id == k) completed s.batches)
        b.within;
}
Step-IsBounded {most} (store c s fresh e) b = record {
  ready = record {
    ids = Distinct-snoc (λ d. d.id) s.batches c b.ready.ids fresh;
    counts = All-snoc _ s.batches c b.ready.counts (omega arith);
  };
  within =
      rw (total-snoc most s.batches c, length-snoc s.batches c)
        (grind (arith, budget-le most c, b.within));
}
Step-IsBounded (write items s) b = record {
  ready = record { ids = b.ready.ids; counts = b.ready.counts };
  within = b.within;
}

Reach-IsBounded : {most : ℕ} {s t : State} → Reach most s t → IsBounded most s → IsBounded most t
Reach-IsBounded here b = b
Reach-IsBounded (next r st) b = Step-IsBounded st (Reach-IsBounded r b)

-- From rows with different ids, whose counts are within the limit, and no mail, whatever the calls
-- of the database and of the mail server do, as long as the update in a `catch` is not refused,
-- and whatever is stored, completed and written in between, there are at most as many mails as the
-- limit of retries for every batch, and no count is above that limit.
pub Reach-mails :
    {most : ℕ} {s t : State}
    → Reach most s t
    → IsReady most s
    → s.mails ≡ []
    → (length t.mails ≤ most * length t.batches)
      × All (λ b. b.notification_retry_count ≤ most) t.batches
Reach-mails {most} {s} r ready e =
    let b =
      Reach-IsBounded r
        (record { ready = ready; within = rw e (omega (arith, total-le most s.batches)) }) in
    (omega (arith, b.within), b.ready.counts)
