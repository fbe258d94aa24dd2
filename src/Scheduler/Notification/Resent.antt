-- ===== src/Scheduler/Notification/Resent.antt =====
-- A mail that is out, whose batches are not marked; and the guard of the cron.
use do_an_tot_nghiep.Base.{
  ℕ, ◌+◌, ◌≤◌, ◌≡◌, ◌≢◌, refl, inl, inr, Bool, true, false, ◌&&◌, List, [], ◌∷◌, ◌++◌, ltb, one_if,
  filter, map, ◌∙◌, All, All-map, All-zip, Distinct, update_where, arith, Bool-cases, ap,
}
use do_an_tot_nghiep.Shared.Counters.{has_id}
use do_an_tot_nghiep.Api.Slots.{Slot}
use do_an_tot_nghiep.Worker.Action.{Outcome, answered, refused, lost}
use do_an_tot_nghiep.Scheduler.Notification.{
  NoticeBatch, Mail, BatchGroup, State, Env, Turn, is_unsent, is_of, build_summary,
  find_all_unsent_batch_ids,
}
use do_an_tot_nghiep.Scheduler.Notification.Budget.{ids-only, update_where-update_where}
use do_an_tot_nghiep.Scheduler.Notification.Run.{
  sent_row, failed_row, summary_mail, record_failure, mark_sent, notify, Cron, start_run,
  finish_run,
}

-- A row that has a retry left after this one.
abbrev has_two : ℕ → NoticeBatch → Bool
has_two most b = ltb (b.notification_retry_count + 1) most

-- An update of rows that pass a query, after which they pass it again, leaves the query's ids.
ids-update :
    (q p : NoticeBatch → Bool) (f : NoticeBatch → NoticeBatch)
    → ((b : NoticeBatch) → (f b).id ≡ b.id)
    → (bs : List NoticeBatch) → All (λ b. p b ≡ true → (q b ≡ true) × (q (f b) ≡ true)) bs
    → map (λ b. b.id) (filter q (update_where p f bs)) ≡ map (λ b. b.id) (filter q bs)
unfolding update_where
ids-update q p f same [] h = refl
ids-update q p f same (b ∷ bs) h = elim (Bool-cases (p b)) [
  | inl e ↦ rw (e, (h.0 e).0, (h.0 e).1, same b) (ap (λ l. b.id ∷ l) (ids-update q p f same bs h.1))
  | inr e ↦ rw e (elim (Bool-cases (q b)) [
    | inl t ↦ rw t (ap (λ l. b.id ∷ l) (ids-update q p f same bs h.1))
    | inr t ↦ rw t (ids-update q p f same bs h.1)
  ])
]

module _ (env : Env) (turn : Turn) (g : BatchGroup) (slot : Slot) (s : State)
    (ids : Distinct (λ b. b.id) s.batches)
    (two : All (λ b. has_two env.max_retries b ≡ true) s.batches) where
  abbrev is_told : NoticeBatch → Bool
  is_told b = is_of g.user_id g.semester b && is_unsent env.max_retries b

  abbrev told : List ℕ
  told = find_all_unsent_batch_ids env g.user_id g.semester s

  again :
      (f : NoticeBatch → NoticeBatch)
      → ((b : NoticeBatch) → (f b).id ≡ b.id)
      → ((b : NoticeBatch)
          → is_told b ≡ true
          → has_two env.max_retries b ≡ true
          → is_told (f b) ≡ true)
      → (mails : List Mail)
      → find_all_unsent_batch_ids env g.user_id g.semester
          (record s { batches = update_where (λ b. has_id b.id told) f s.batches; mails = mails })
        ≡ told
  unfolding find_all_unsent_batch_ids
  again f same kept mails =
      ids-update is_told (λ b. has_id b.id told) f same s.batches
        (All-map _ _ (λ b h e. (h.1 e, kept b (h.1 e) h.0)) s.batches
          (All-zip _ _ s.batches two (ids-only is_told s.batches ids)))

  mark_sent-again :
      (o : Outcome) (mails : List Mail)
      → o ≢ answered
      → turn.failed_mark ≡ answered
      → let s' = (mark_sent o turn told (record s { mails = mails })).1 in
        (s'.mails ≡ mails) × (find_all_unsent_batch_ids env g.user_id g.semester s' ≡ told)
  unfolding record_failure
  mark_sent-again answered mails h e = absurd (h refl)
  mark_sent-again refused mails h e =
      simp e (refl, again (failed_row turn.message) (λ b. refl) (λ b t u. ground arith) mails)
  mark_sent-again lost mails h e = simp e (
    refl,
    ap
          (λ bs.
            find_all_unsent_batch_ids env g.user_id g.semester
              (record s { batches = bs; mails = mails }))
          (update_where-update_where told (sent_row turn.now) (failed_row turn.message) s.batches
            (λ b. refl))
        ∙ again (λ b. failed_row turn.message (sent_row turn.now b)) (λ b. refl)
            (λ b t u. ground arith) mails,
  )

-- Where the ids of the batches are different and each has two retries left, the items are read,
-- the mail is configured and sent, and the update to SENT fails or its answer is lost, the mail is
-- out, and once the update in the `catch` is done, the query for the batches to be told gives the
-- same ids again.
pub notify-again :
    (env : Env) (turn : Turn) (g : BatchGroup) (slot : Slot) (s : State)
    → Distinct (λ b. b.id) s.batches
    → All (λ b. has_two env.max_retries b ≡ true) s.batches
    → turn.summary_read ≡ true
    → env.mail_configured ≡ true
    → turn.mail ≡ answered
    → turn.sent_mark ≢ answered
    → turn.failed_mark ≡ answered
    → let told = find_all_unsent_batch_ids env g.user_id g.semester s in
      let mail = summary_mail g slot (build_summary env g.user_id g.semester told s) in
      let s' = (notify env turn g slot told s).1 in
      (s'.mails ≡ s.mails ++ mail ∷ [])
      × (find_all_unsent_batch_ids env g.user_id g.semester s' ≡ told)
unfolding notify
notify-again env turn g slot s ids two read configured sent unmarked failed =
    simp (read, configured, sent)
      (mark_sent-again env turn g slot s ids two turn.sent_mark _ unmarked failed)

-- The cron starts runs and the runs end.
pub data Tick : Cron → Cron → Type 0 where
  starts : (c : Cron) → Tick c (start_run c)
  ends : (c : Cron) → 1 ≤ c.under_way → Tick c (finish_run c)

pub data Ticks (c : Cron) : Cron → Type 0 where
  here : Ticks c c
  next : {d e : Cron} → Ticks c d → Tick d e → Ticks c e

abbrev pub idle : Cron
idle = record { is_running = false; under_way = 0 }

abbrev Guards : Cron → Type 0
Guards c = c.under_way ≡ one_if c.is_running

Tick-Guards : {c d : Cron} → Tick c d → Guards c → Guards d
unfolding start_run finish_run
Tick-Guards (starts c) g = ground arith
Tick-Guards (ends c h) g = ground arith

Ticks-Guards : {c : Cron} → Ticks idle c → Guards c
Ticks-Guards here = refl
Ticks-Guards (next r t) = Tick-Guards t (Ticks-Guards r)

-- At most one run is under way, however the ticks of the cron and the ends of runs fall.
pub Ticks-one : {c : Cron} → Ticks idle c → c.under_way ≤ 1
Ticks-one {c} r = ground (arith, Ticks-Guards r)
