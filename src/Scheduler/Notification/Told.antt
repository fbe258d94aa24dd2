-- ===== src/Scheduler/Notification/Told.antt =====
-- A run in which every call succeeds tells every student whose time is over.
use do_an_tot_nghiep.Base.{
  ℕ, ◌≤◌, ◌≡◌, refl, sym, ap, ◌∙◌, subst, inl, inr, Bool, true, false, ◌&&◌, Option, none, List, [],
  ◌∷◌, is_some, length, any, filter, map, take_all, All, All-map, All-zip, All-update_where,
  update_where, arith, Bool-cases, Option-cases,
}
use do_an_tot_nghiep.Base.Text.{text_eq, text_eq_refl, eq_of-text_eq}
use do_an_tot_nghiep.Store.{Batch}
use do_an_tot_nghiep.Shared.Counters.{has_id}
use do_an_tot_nghiep.Api.Slots.{Slot}
use do_an_tot_nghiep.Worker.Action.{answered}
use do_an_tot_nghiep.Scheduler.Notification.{
  NoticeBatch, BatchGroup, State, Env, Turn, Ending, done, raised, is_unsent, is_of, has_key,
  find_pending_batches, add_to_group, group_onto, group_pending_batches, find_closed_slot,
  find_all_unsent_batch_ids,
}
use do_an_tot_nghiep.Scheduler.Notification.Run.{
  sent_row, notify, notify_all, process_group, process_groups, send_pending_summaries,
}

-- Every call succeeds, at this time.
abbrev pub calm : ℕ → Turn
calm now = record {
  slots_read = true;
  ids_read = true;
  summary_read = true;
  mail = answered;
  sent_mark = answered;
  failed_mark = answered;
  message = [];
  now = now;
}

-- `orderBy` gives the rows in some order.
pub record Reorders (order : List NoticeBatch → List NoticeBatch) : Type 0 where
  pub same_rows : (p : NoticeBatch → Bool) (bs : List NoticeBatch) → any p (order bs) ≡ any p bs
  pub same_length : (bs : List NoticeBatch) → length (order bs) ≡ length bs

-- What a run in which every call succeeds leaves as it is of a row.
abbrev pub fixed : NoticeBatch → Batch × ℕ
fixed b = (b.batch, b.notification_retry_count)

fixed-sent_row :
    (p : NoticeBatch → Bool) (now : ℕ) (bs : List NoticeBatch)
    → map fixed (update_where p (sent_row now) bs) ≡ map fixed bs
unfolding update_where
fixed-sent_row p now [] = refl
fixed-sent_row p now (b ∷ bs) = elim (Bool-cases (p b)) [
  | inl e ↦ simp (e, fixed-sent_row p now bs)
  | inr e ↦ simp (e, fixed-sent_row p now bs)
]

-- The ids of the rows that pass a test name each of them.
ids-all :
    (q : NoticeBatch → Bool) (bs : List NoticeBatch)
    → All (λ b. q b ≡ true → has_id b.id (map (λ c. c.id) (filter q bs)) ≡ true) bs
ids-all q [] = tt
ids-all q (b ∷ bs) =
    (λ e. ground arith, All-map _ _ (λ c h e. ground (arith, h e)) bs (ids-all q bs))

-- Each row that passes a test is among those that pass it.
filter_self :
    (q : NoticeBatch → Bool) (r : NoticeBatch → NoticeBatch → Bool)
    → ((b : NoticeBatch) → r b b ≡ true)
    → (bs : List NoticeBatch) → All (λ b. q b ≡ true → any (r b) (filter q bs) ≡ true) bs
filter_self q r same [] = tt
filter_self q r same (b ∷ bs) = (
  λ e. ground (arith, same b),
  All-map _ _ (λ c h e. ground (arith, h e)) bs (filter_self q r same bs),
)

module _ (env : Env) (now : ℕ) where
  -- The closed slot of the student of the batch.
  abbrev closed_slot_of : NoticeBatch → Option Slot
  closed_slot_of b = find_closed_slot env b.semester (env.user_of b.user_id).student_code now

  -- The batch is to be told, and its student's time is over.
  abbrev pub is_due : NoticeBatch → Bool
  is_due b = is_unsent env.max_retries b && is_some (closed_slot_of b)

  abbrev Waits : List BatchGroup → NoticeBatch → Type 0
  Waits gs b = is_due b ≡ true → any (has_key b) gs ≡ true

  abbrev Joined : BatchGroup → Type 0
  Joined g = g.user ≡ env.user_of g.user_id

  closed_slot-key :
      (b : NoticeBatch) (g : BatchGroup)
      → Joined g
      → has_key b g ≡ true
      → closed_slot_of b ≡ find_closed_slot env g.semester g.user.student_code now
  closed_slot-key b g joined e =
      let same_user : b.user_id ≡ g.user_id = ground arith in
      let same_semester : b.semester ≡ g.semester =
        eq_of-text_eq b.semester g.semester (ground arith) in
      rw (same_user, same_semester, joined) refl

  abbrev Left : State → List BatchGroup → Ending × State → Type 0
  Left s gs r =
      (r.0 ≡ done) × All (Waits gs) r.1.batches × (map fixed r.1.batches ≡ map fixed s.batches)

  module _ (g : BatchGroup) (gs : List BatchGroup) (s : State) (joined : Joined g)
      (waits : All (Waits (g ∷ gs)) s.batches) where
    abbrev told : List ℕ
    told = find_all_unsent_batch_ids env g.user_id g.semester s

    abbrev Named : List ℕ → NoticeBatch → Type 0
    Named ids b = (has_key b g && is_unsent env.max_retries b) ≡ true → has_id b.id ids ≡ true

    told-Named : (ids : List ℕ) → told ≡ ids → All (λ b. Waits (g ∷ gs) b × Named ids b) s.batches
    unfolding find_all_unsent_batch_ids
    told-Named ids e = All-zip _ _ s.batches waits (
        subst (λ l. All (Named l) s.batches) e
          (ids-all (λ b. has_key b g && is_unsent env.max_retries b) s.batches))

    no_slot-Left :
        find_closed_slot env g.semester g.user.student_code now ≡ none → Left s gs (done, s)
    no_slot-Left e = (
      refl,
      All-map (Waits (g ∷ gs)) (Waits gs)
          (λ b h due. ground (arith, h due, closed_slot-key b g joined)) s.batches waits,
      refl,
    )

    notify_all-Left :
        (slot : Slot) (ids : List ℕ)
        → env.mail_configured ≡ true
        → told ≡ ids
        → Left s gs (notify_all env (calm now) g slot ids s)
    unfolding notify
    notify_all-Left slot [] mail e = (
      refl,
      All-map (λ b. Waits (g ∷ gs) b × Named [] b) (Waits gs)
          (λ b h due. ground (arith, h.0 due, h.1)) s.batches (told-Named [] e),
      refl,
    )
    notify_all-Left slot (k ∷ ks) mail e = simp mail (
      refl,
      All-update_where (λ b. Waits (g ∷ gs) b × Named (k ∷ ks) b) (Waits gs)
          (λ b. has_id b.id (k ∷ ks)) (sent_row now) (λ b t h due. ground arith)
          (λ b t h due. ground (arith, h.0 due, h.1)) s.batches (told-Named (k ∷ ks) e),
      fixed-sent_row _ now s.batches,
    )

    process_group-Left : env.mail_configured ≡ true → Left s gs (process_group env (calm now) g s)
    unfolding process_group
    process_group-Left mail =
        elim (Option-cases (find_closed_slot env g.semester g.user.student_code now)) [
          | inl e ↦ simp e (no_slot-Left e)
          | inr (slot, e) ↦ simp e (notify_all-Left slot told mail refl)
        ]

  process_groups-Left :
      (gs : List BatchGroup) (s : State)
      → env.mail_configured ≡ true
      → All Joined gs
      → All (Waits gs) s.batches
      → Left s [] (process_groups env (λ _. calm now) gs s)
  unfolding process_groups
  process_groups-Left [] s mail joined waits = (refl, waits, refl)
  process_groups-Left (g ∷ gs) s mail joined waits =
      let (ended, waiting, same) = process_group-Left g gs s joined.0 waits mail in
      let (e, w, f) =
        process_groups-Left gs (process_group env (calm now) g s).1 mail joined.1 waiting in
      subst
        (λ x. Left s [] (elim (x) [
          | done ↦ process_groups env (λ _. calm now) gs (process_group env (calm now) g s).1
          | raised ↦ process_group env (calm now) g s
        ]))
        (sym ended) (e, w, f ∙ same)

-- Each batch comes into a group of its user and semester.
module _ (env : Env) (b : NoticeBatch) where
  add_to_group-any :
      (c : NoticeBatch) (gs : List BatchGroup)
      → is_of c.user_id c.semester b ≡ true
      → any (has_key b) (add_to_group env c gs) ≡ true
  unfolding add_to_group
  add_to_group-any c [] e = ground arith
  add_to_group-any c (g ∷ gs) e = elim (Bool-cases (has_key c g)) [
    | inl t ↦
        ground (arith, ap (text_eq b.semester) (eq_of-text_eq c.semester g.semester (ground arith)))
    | inr t ↦ ground (arith, add_to_group-any c gs e)
  ]

  add_to_group-keep :
      (c : NoticeBatch) (gs : List BatchGroup)
      → any (has_key b) gs ≡ true
      → any (has_key b) (add_to_group env c gs) ≡ true
  unfolding add_to_group
  add_to_group-keep c [] e = cc
  add_to_group-keep c (g ∷ gs) e = ground (arith, add_to_group-keep c gs)

  group_onto-keep :
      (gs : List BatchGroup) (cs : List NoticeBatch)
      → any (has_key b) gs ≡ true
      → any (has_key b) (group_onto env gs cs) ≡ true
  unfolding group_onto
  group_onto-keep gs [] e = e
  group_onto-keep gs (c ∷ cs) e =
      group_onto-keep (add_to_group env c gs) cs (add_to_group-keep c gs e)

  group_onto-any :
      (gs : List BatchGroup) (cs : List NoticeBatch)
      → any (λ c. is_of c.user_id c.semester b) cs ≡ true
      → any (has_key b) (group_onto env gs cs) ≡ true
  unfolding group_onto
  group_onto-any gs [] e = cc
  group_onto-any gs (c ∷ cs) e = elim (Bool-cases (is_of c.user_id c.semester b)) [
    | inl t ↦ group_onto-keep (add_to_group env c gs) cs (add_to_group-any c gs t)
    | inr t ↦ group_onto-any (add_to_group env c gs) cs (ground arith)
  ]

module _ (env : Env) where
  add_to_group-joined :
      (c : NoticeBatch) (gs : List BatchGroup)
      → All (λ g. g.user ≡ env.user_of g.user_id) gs
      → All (λ g. g.user ≡ env.user_of g.user_id) (add_to_group env c gs)
  unfolding add_to_group
  add_to_group-joined c [] h = (refl, tt)
  add_to_group-joined c (g ∷ gs) h = elim (Bool-cases (has_key c g)) [
    | inl t ↦ simp t (h.0, h.1)
    | inr t ↦ simp t (h.0, add_to_group-joined c gs h.1)
  ]

  group_onto-joined :
      (gs : List BatchGroup) (cs : List NoticeBatch)
      → All (λ g. g.user ≡ env.user_of g.user_id) gs
      → All (λ g. g.user ≡ env.user_of g.user_id) (group_onto env gs cs)
  unfolding group_onto
  group_onto-joined gs [] h = h
  group_onto-joined gs (c ∷ cs) h =
      group_onto-joined (add_to_group env c gs) cs (add_to_group-joined c gs h)

  -- Every batch that is to be told is among the pending ones that the run takes.
  pending-Waits :
      (now : ℕ) (s : State)
      → Reorders env.order_batches
      → length (filter (is_unsent env.max_retries) s.batches) ≤ env.scan_limit
      → All (Waits env now (group_pending_batches env (find_pending_batches env s))) s.batches
  unfolding find_pending_batches
  pending-Waits now s orders few =
      let unsent = filter (is_unsent env.max_retries) s.batches in
      let taken : find_pending_batches env s ≡ env.order_batches unsent =
        take_all env.scan_limit (env.order_batches unsent)
          (omega (arith, few, orders.same_length unsent)) in
      rw taken (
        All-map _ _
          (λ b h due.
            group_onto-any env b [] (env.order_batches unsent)
              (orders.same_rows (λ c. is_of c.user_id c.semester b) unsent ∙ h (ground arith)))
          s.batches
          (filter_self (is_unsent env.max_retries) (λ b c. is_of c.user_id c.semester b)
            (λ b. ground (arith, text_eq_refl b.semester)) s.batches))

-- Where every call succeeds, the mail is configured, the order of the query keeps the rows, and
-- the batches to be told are within the limit of the scan, the run ends, afterwards no completed
-- batch that is not told and has retries left belongs to a student with a closed slot, and the
-- rows of the batches and their counts are as they were.
pub send_pending_summaries-tells :
    (env : Env) (now : ℕ) (s : State)
    → Reorders env.order_batches
    → env.mail_configured ≡ true
    → length (filter (is_unsent env.max_retries) s.batches) ≤ env.scan_limit
    → let (ending, s') = send_pending_summaries env true (λ _. calm now) s in
      (ending ≡ done)
      × All (λ b. is_due env now b ≡ false) s'.batches
      × (map fixed s'.batches ≡ map fixed s.batches)
unfolding send_pending_summaries
send_pending_summaries-tells env now s orders mail few =
    let (e, w, f) =
      process_groups-Left env now (group_pending_batches env (find_pending_batches env s)) s mail
        (group_onto-joined env [] _ tt) (pending-Waits env now s orders few) in
    (e, All-map (Waits env now []) _ (λ b h. ground (arith, h)) _ w, f)
