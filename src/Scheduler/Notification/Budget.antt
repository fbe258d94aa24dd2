-- ===== src/Scheduler/Notification/Budget.antt =====
-- How many mails the batches still allow: a batch that is not told yet has its retries left.
use do_an_tot_nghiep.Base.{
  ℕ, ◌+◌, ◌-◌, ◌≤◌, ◌≡◌, ◌≢◌, refl, sym, inl, inr, Bool, true, false, ◌&&◌, List, [], ◌∷◌, ◌++◌,
  if◌then◌else◌, length, any, filter, map, All, All-map, All-zip, All-update_where, Distinct,
  Distinct-update_where, update_where, ap, ◌∙◌, arith, Bool-cases, Option-cases, subst,
}
use do_an_tot_nghiep.Base.Text.{Text}
use do_an_tot_nghiep.Shared.Counters.{has_id}
use do_an_tot_nghiep.Api.Slots.{Slot}
use do_an_tot_nghiep.Worker.Action.{Outcome, answered, refused, lost}
use do_an_tot_nghiep.Scheduler.Notification.{
  NoticeBatch, Mail, BatchGroup, State, Env, Turn, Ending, done, raised, is_sent, is_unsent, is_of,
  find_closed_slot, find_all_unsent_batch_ids,
}
use do_an_tot_nghiep.Scheduler.Notification.Run.{
  sent_row, failed_row, update_ids, ended, record_failure, mark_sent, send_summary_mail, notify,
  notify_all, process_group, process_groups, send_pending_summaries,
}

abbrev pub budget : ℕ → NoticeBatch → ℕ
budget most b = if is_sent b.notification_status then 0 else most - b.notification_retry_count

abbrev pub total : ℕ → List NoticeBatch → ℕ
total most [] = 0
total most (b ∷ bs) = budget most b + total most bs

-- A row's update takes at least one from what the row allows.
record Spends (most : ℕ) (f : NoticeBatch → NoticeBatch) : Type 0 where
  same_id : (b : NoticeBatch) → (f b).id ≡ b.id
  less : (b : NoticeBatch) → is_unsent most b ≡ true → budget most (f b) + 1 ≤ budget most b
  within : (b : NoticeBatch) → is_unsent most b ≡ true → (f b).notification_retry_count ≤ most

failed_row-Spends : (most : ℕ) (message : Text) → Spends most (failed_row message)
failed_row-Spends most message = record {
  same_id = λ b. refl;
  less = λ b h. ground arith;
  within = λ b h. ground arith;
}

sent_row-Spends : (most now : ℕ) → Spends most (sent_row now)
sent_row-Spends most now = record {
  same_id = λ b. refl;
  less = λ b h. ground arith;
  within = λ b h. ground arith;
}

both-Spends :
    (most now : ℕ) (message : Text) → Spends most (λ b. failed_row message (sent_row now b))
both-Spends most now message = record {
  same_id = λ b. refl;
  less = λ b h. ground arith;
  within = λ b h. ground arith;
}

module _ (most : ℕ) (ids : List ℕ) where
  -- The ids name unsent batches only.
  abbrev NamesUnsent : List NoticeBatch → Type 0
  NamesUnsent bs = All (λ b. has_id b.id ids ≡ true → is_unsent most b ≡ true) bs

  module _ (f : NoticeBatch → NoticeBatch) (spends : Spends most f) where
    total-update-le :
        (bs : List NoticeBatch)
        → NamesUnsent bs
        → total most (update_where (λ b. has_id b.id ids) f bs) ≤ total most bs
    unfolding update_where
    total-update-le [] h = omega arith
    total-update-le (b ∷ bs) h = elim (Bool-cases (has_id b.id ids)) [
      | inl e ↦ rw e (omega (arith, spends.less b (h.0 e), total-update-le bs h.1))
      | inr e ↦ rw e (omega (arith, total-update-le bs h.1))
    ]

    total-update-lt :
        (bs : List NoticeBatch)
        → NamesUnsent bs
        → any (λ b. has_id b.id ids) bs ≡ true
        → total most (update_where (λ b. has_id b.id ids) f bs) + 1 ≤ total most bs
    unfolding update_where
    total-update-lt [] h some_row = absurd (ground arith)
    total-update-lt (b ∷ bs) h some_row = elim (Bool-cases (has_id b.id ids)) [
      | inl e ↦ rw e (omega (arith, spends.less b (h.0 e), total-update-le bs h.1))
      | inr e ↦ rw e (omega (arith, total-update-lt bs h.1 (ground arith)))
    ]

    counts-update :
        (bs : List NoticeBatch)
        → NamesUnsent bs
        → All (λ b. b.notification_retry_count ≤ most) bs
        → All (λ b. b.notification_retry_count ≤ most) (update_where (λ b. has_id b.id ids) f bs)
    counts-update bs h counts =
        All-update_where
          (λ b.
            (b.notification_retry_count ≤ most)
            × (has_id b.id ids ≡ true → is_unsent most b ≡ true))
          (λ b. b.notification_retry_count ≤ most) (λ b. has_id b.id ids) f
          (λ b e k. spends.within b (k.1 e)) (λ b e k. k.0) bs (All-zip _ _ bs counts h)

-- One update after another of the same rows is one update.
pub update_where-update_where :
    (ids : List ℕ) (f g : NoticeBatch → NoticeBatch) (bs : List NoticeBatch)
    → ((b : NoticeBatch) → (f b).id ≡ b.id)
    → update_where (λ b. has_id b.id ids) g (update_where (λ b. has_id b.id ids) f bs)
      ≡ update_where (λ b. has_id b.id ids) (λ b. g (f b)) bs
unfolding update_where
update_where-update_where ids f g [] same = refl
update_where-update_where ids f g (b ∷ bs) same = elim (Bool-cases (has_id b.id ids)) [
  | inl e ↦ rw (e, same b, e, update_where-update_where ids f g bs same) refl
  | inr e ↦ rw (e, e, update_where-update_where ids f g bs same) refl
]

pub length-update_where :
    (p : NoticeBatch → Bool) (f : NoticeBatch → NoticeBatch) (bs : List NoticeBatch)
    → length (update_where p f bs) ≡ length bs
unfolding update_where
length-update_where p f [] = refl
length-update_where p f (b ∷ bs) = ground (arith, length-update_where p f bs)

-- The ids that a query gave name those rows, and where ids are different, no others.
ids-miss :
    (k : ℕ) (q : NoticeBatch → Bool) (bs : List NoticeBatch)
    → All (λ b. b.id ≢ k) bs
    → has_id k (map (λ b. b.id) (filter q bs)) ≡ false
ids-miss k q [] h = refl
ids-miss k q (b ∷ bs) h = elim (Bool-cases (q b)) [
  | inl e ↦ rw e (ground (arith, h.0, ids-miss k q bs h.1))
  | inr e ↦ rw e (ids-miss k q bs h.1)
]

-- Of the rows of `bs`, the ids of those that pass `q` name only rows that pass it.
pub ids-only :
    (q : NoticeBatch → Bool) (bs : List NoticeBatch)
    → Distinct (λ b. b.id) bs
    → All (λ b. has_id b.id (map (λ b. b.id) (filter q bs)) ≡ true → q b ≡ true) bs
ids-only q [] d = tt
ids-only q (b ∷ bs) d = elim (Bool-cases (q b)) [
  | inl e ↦ (
    λ _. e,
    All-map (λ c. (c.id ≢ b.id) × (has_id c.id (map (λ b. b.id) (filter q bs)) ≡ true → q c ≡ true))
        _ (λ c h t. h.1 (ground (arith, h.0))) bs (All-zip _ _ bs d.0 (ids-only q bs d.1)),
  )
  | inr e ↦ (
    λ t. absurd (ground (arith, ids-miss b.id q bs d.0)),
    All-map (λ c. has_id c.id (map (λ b. b.id) (filter q bs)) ≡ true → q c ≡ true) _
        (λ c h t. h (ground arith)) bs (ids-only q bs d.1),
  )
]

ids-some :
    (q : NoticeBatch → Bool) (bs : List NoticeBatch) (k : ℕ) (ks : List ℕ)
    → map (λ b. b.id) (filter q bs) ≡ k ∷ ks
    → any (λ b. has_id b.id (k ∷ ks)) bs ≡ true
ids-some q [] k ks e = cc
ids-some q (b ∷ bs) k ks e = elim (Bool-cases (q b)) [
  | inl t ↦ ground arith
  | inr t ↦ ground (arith, ids-some q bs k ks)
]

pub length-snoc : {A : Type 0} (xs : List A) (x : A) → length (xs ++ x ∷ []) ≡ length xs + 1
length-snoc [] x = refl
length-snoc (y ∷ ys) x = omega (arith, length-snoc ys x)

-- The rows have different ids, and no count is above the limit.
pub record IsReady (most : ℕ) (s : State) : Type 0 where
  pub ids : Distinct (λ b. b.id) s.batches
  pub counts : All (λ b. b.notification_retry_count ≤ most) s.batches

-- From one state to the next, each mail takes from what the rows allow.
pub record Spent (most : ℕ) (s s' : State) : Type 0 where
  pub ready : IsReady most s'
  pub rows : length s'.batches ≡ length s.batches
  pub less : length s'.mails + total most s'.batches ≤ length s.mails + total most s.batches

Spent-refl : (most : ℕ) (s : State) → IsReady most s → Spent most s s
Spent-refl most s r = record { ready = r; rows = refl; less = omega arith }

Spent-trans : (most : ℕ) (s t u : State) → Spent most s t → Spent most t u → Spent most s u
Spent-trans most s t u p q = record {
  ready = q.ready;
  rows = omega (arith, p.rows, q.rows);
  less = omega (arith, p.less, q.less);
}

module _ (env : Env) (user : ℕ) (semester : Text) (s : State)
    (ready : IsReady env.max_retries s) where
  abbrev told : List ℕ
  told = find_all_unsent_batch_ids env user semester s

  told-unsent : NamesUnsent env.max_retries told s.batches
  unfolding find_all_unsent_batch_ids
  told-unsent =
      All-map _ _ (λ b h t. ground (arith, h t)) s.batches
        (ids-only (λ b. is_of user semester b && is_unsent env.max_retries b) s.batches ready.ids)

  module _ (k : ℕ) (ks : List ℕ) (named : told ≡ k ∷ ks) where
    -- An update of the named rows pays for one mail.
    update-Spent :
        (f : NoticeBatch → NoticeBatch) (mails : List Mail)
        → Spends env.max_retries f
        → length mails ≤ length s.mails + 1
        → Spent env.max_retries s (record s {
          batches = update_where (λ b. has_id b.id (k ∷ ks)) f s.batches;
          mails = mails;
        })
    unfolding find_all_unsent_batch_ids
    update-Spent f mails spends h = record {
      ready = record {
        ids = Distinct-update_where (λ b. b.id) _ f (λ b _. spends.same_id b) s.batches ready.ids;
        counts = counts-update env.max_retries (k ∷ ks) f spends s.batches unsent ready.counts;
      };
      rows = length-update_where _ f s.batches;
      less =
          omega (arith, h, total-update-lt env.max_retries (k ∷ ks) f spends s.batches unsent hit);
    }
      where
        unsent : NamesUnsent env.max_retries (k ∷ ks) s.batches
        unsent = subst (λ l. NamesUnsent env.max_retries l s.batches) named told-unsent

        hit : any (λ b. has_id b.id (k ∷ ks)) s.batches ≡ true
        hit =
            ids-some (λ b. is_of user semester b && is_unsent env.max_retries b) s.batches k ks
              named

ended-state : (o : Outcome) (s s' : State) → o ≢ refused → (ended o s s').1 ≡ s'
ended-state answered s s' h = refl
ended-state refused s s' h = absurd (h refl)
ended-state lost s s' h = refl

-- What processGroup does to the state, where the update in its `catch` is not refused, spends.
module _ (env : Env) (turn : Turn) (marks : turn.failed_mark ≢ refused) where
  record_failure-state :
      (ids : List ℕ) (message : Text) (s : State)
      → (record_failure turn ids message s).1 ≡ update_ids ids (failed_row message) s
  unfolding record_failure
  record_failure-state ids message s = ended-state turn.failed_mark s _ marks

  module _ (g : BatchGroup) (slot : Slot) (k : ℕ) (ks : List ℕ) (s : State)
      (ready : IsReady env.max_retries s)
      (named : find_all_unsent_batch_ids env g.user_id g.semester s ≡ k ∷ ks) where
    -- The rows are marked as failed after as many mails as this.
    failed-Spent :
        (message : Text) (mails : List Mail)
        → length mails ≤ length s.mails + 1
        → Spent env.max_retries s
            (record_failure turn (k ∷ ks) message (record s { mails = mails })).1
    failed-Spent message mails h =
        subst (Spent env.max_retries s) (sym (record_failure-state (k ∷ ks) message _)) (
          update-Spent env g.user_id g.semester s ready k ks named (failed_row message) mails
            (failed_row-Spends env.max_retries message) h)

    mark_sent-Spent :
        (o : Outcome) (mails : List Mail)
        → length mails ≤ length s.mails + 1
        → Spent env.max_retries s (mark_sent o turn (k ∷ ks) (record s { mails = mails })).1
    mark_sent-Spent answered mails h =
        update-Spent env g.user_id g.semester s ready k ks named (sent_row turn.now) mails
          (sent_row-Spends env.max_retries turn.now) h
    mark_sent-Spent refused mails h = failed-Spent turn.message mails h
    mark_sent-Spent lost mails h =
        subst (Spent env.max_retries s)
          (sym (
            record_failure-state (k ∷ ks) turn.message _
            ∙ ap (λ bs. record s { batches = bs; mails = mails })
                (update_where-update_where (k ∷ ks) (sent_row turn.now) (failed_row turn.message)
                  s.batches (λ b. refl))))
          (update-Spent env g.user_id g.semester s ready k ks named
            (λ b. failed_row turn.message (sent_row turn.now b)) mails
            (both-Spends env.max_retries turn.now turn.message) h)

    send_summary_mail-Spent :
        (o : Outcome) (m : Mail) → Spent env.max_retries s (send_summary_mail o turn (k ∷ ks) m s).1
    send_summary_mail-Spent answered m =
        mark_sent-Spent turn.sent_mark (s.mails ++ m ∷ []) (omega (arith, length-snoc s.mails m))
    send_summary_mail-Spent refused m = failed-Spent turn.message s.mails (omega arith)
    send_summary_mail-Spent lost m =
        failed-Spent turn.message (s.mails ++ m ∷ []) (omega (arith, length-snoc s.mails m))

    notify-Spent : Spent env.max_retries s (notify env turn g slot (k ∷ ks) s).1
    unfolding notify
    notify-Spent = elim (Bool-cases turn.summary_read) [
      | inr e ↦ simp e (failed-Spent turn.message s.mails (omega arith))
      | inl e ↦ elim (Bool-cases env.mail_configured) [
        | inr f ↦ simp (e, f) (failed-Spent _ s.mails (omega arith))
        | inl f ↦ simp (e, f) (send_summary_mail-Spent turn.mail _)
      ]
    ]

  notify_all-Spent :
      (g : BatchGroup) (slot : Slot) (ids : List ℕ) (s : State)
      → IsReady env.max_retries s
      → find_all_unsent_batch_ids env g.user_id g.semester s ≡ ids
      → Spent env.max_retries s (notify_all env turn g slot ids s).1
  notify_all-Spent g slot [] s ready e = Spent-refl env.max_retries s ready
  notify_all-Spent g slot (k ∷ ks) s ready e = notify-Spent g slot k ks s ready e

  process_group-Spent :
      (g : BatchGroup) (s : State)
      → IsReady env.max_retries s
      → Spent env.max_retries s (process_group env turn g s).1
  unfolding process_group
  process_group-Spent g s ready = elim (Bool-cases turn.slots_read) [
    | inr e ↦ simp e (Spent-refl env.max_retries s ready)
    | inl e ↦ elim (Option-cases (find_closed_slot env g.semester g.user.student_code turn.now)) [
      | inl f ↦ simp (e, f) (Spent-refl env.max_retries s ready)
      | inr (slot, f) ↦ elim (Bool-cases turn.ids_read) [
        | inr r ↦ simp (e, f, r) (Spent-refl env.max_retries s ready)
        | inl r ↦ simp (e, f, r) (notify_all-Spent g slot _ s ready refl)
      ]
    ]
  ]

module _ (env : Env) (turns : BatchGroup → Turn)
    (marks : (g : BatchGroup) → (turns g).failed_mark ≢ refused) where
  process_groups-Spent :
      (gs : List BatchGroup) (s : State)
      → IsReady env.max_retries s
      → Spent env.max_retries s (process_groups env turns gs s).1
  unfolding process_groups
  process_groups-Spent [] s ready = Spent-refl env.max_retries s ready
  process_groups-Spent (g ∷ gs) s ready =
      let (e, t) = process_group env (turns g) g s in
      let first = process_group-Spent env (turns g) (marks g) g s ready in
      elim (e)
        as (λ e'.
          Spent env.max_retries s
            (elim (e') as (λ _. Ending × State) [
              | done ↦ process_groups env turns gs t
              | raised ↦ (e, t)
            ]).1) [
              | done ↦
                  Spent-trans env.max_retries s t _ first (process_groups-Spent gs t first.ready)
              | raised ↦ first
            ]

  pub send_pending_summaries-Spent :
      (pending_read : Bool) (s : State)
      → IsReady env.max_retries s
      → Spent env.max_retries s (send_pending_summaries env pending_read turns s).1
  unfolding send_pending_summaries
  send_pending_summaries-Spent false s ready = Spent-refl env.max_retries s ready
  send_pending_summaries-Spent true s ready = process_groups-Spent _ s ready
