-- ===== src/Scheduler/Notification/Run.antt =====
-- apps/scheduler/src/notification: processGroup and sendPendingSummaries, whatever the calls of the
-- database and of the mail server do, and the cron that starts them.
use do_an_tot_nghiep.Base.{
  ℕ, ◌+◌, ◌-◌, Bool, true, false, not, none, some, List, [], ◌∷◌, ◌++◌, if◌then◌else◌, take,
  update_where,
}
use do_an_tot_nghiep.Base.Text.{Text, codes}
use do_an_tot_nghiep.Store.{NotificationStatus}
use do_an_tot_nghiep.Shared.Counters.{has_id}
use do_an_tot_nghiep.Api.Slots.{Slot}
use do_an_tot_nghiep.Worker.Action.{Outcome, answered, refused, lost}
use do_an_tot_nghiep.Scheduler.Mail.{Summary, render_text}
use do_an_tot_nghiep.Scheduler.Html.{render_html}
use do_an_tot_nghiep.Scheduler.Notification.{
  NoticeBatch, Mail, BatchGroup, State, Env, Turn, Ending, done, raised, find_pending_batches,
  group_pending_batches, find_closed_slot, find_all_unsent_batch_ids, build_summary,
}

abbrev pub sent_row : ℕ → NoticeBatch → NoticeBatch
sent_row now b = record b {
  notification_status = NotificationStatus.sent;
  notification_sent_at = some now;
  notification_error = none;
}

abbrev pub failed_row : Text → NoticeBatch → NoticeBatch
failed_row message b = record b {
  notification_status = NotificationStatus.failed;
  notification_retry_count = b.notification_retry_count + 1;
  notification_error = some (take 1000 message);
}

-- `updateMany({ where: { id: { in: ids } } })`
abbrev pub update_ids : List ℕ → (NoticeBatch → NoticeBatch) → State → State
update_ids ids f s = record s { batches = update_where (λ b. has_id b.id ids) f s.batches }

-- What is left of an update, by how it ends.
abbrev pub ended : Outcome → State → State → Ending × State
ended answered s s' = (done, s')
ended refused s s' = (raised, s)
ended lost s s' = (raised, s')

-- The `catch` of processGroup.
unfoldable pub record_failure : Turn → List ℕ → Text → State → Ending × State
record_failure turn ids message s = ended turn.failed_mark s (update_ids ids (failed_row message) s)

-- sendSummaryMail, as far as it makes the mail.
pub summary_mail : BatchGroup → Slot → Summary → Mail
summary_mail g slot summary = record {
  recipient = g.user.email;
  subject = codes "Kết quả đăng ký học phần kỳ " ++ g.semester;
  text = render_text g.user g.semester slot summary;
  html = render_html g.user g.semester slot summary;
}

abbrev post : Mail → State → State
post m s = record s { mails = s.mails ++ m ∷ [] }

-- The update of the `try`, by how it ends; its error is caught.
abbrev pub mark_sent : Outcome → Turn → List ℕ → State → Ending × State
mark_sent answered turn ids s = (done, update_ids ids (sent_row turn.now) s)
mark_sent refused turn ids s = record_failure turn ids turn.message s
mark_sent lost turn ids s =
    record_failure turn ids turn.message (update_ids ids (sent_row turn.now) s)

-- The sending of the mail, by how it ends, and what follows it.
abbrev pub send_summary_mail : Outcome → Turn → List ℕ → Mail → State → Ending × State
send_summary_mail answered turn ids mail s = mark_sent turn.sent_mark turn ids (post mail s)
send_summary_mail refused turn ids mail s = record_failure turn ids turn.message s
send_summary_mail lost turn ids mail s = record_failure turn ids turn.message (post mail s)

-- The `try` of processGroup.
unfoldable pub notify : Env → Turn → BatchGroup → Slot → List ℕ → State → Ending × State
notify env turn g slot ids s =
    if not turn.summary_read
    then record_failure turn ids turn.message s
    else if not env.mail_configured
    then record_failure turn ids (codes "MAIL_USER hoặc MAIL_APP_PASSWORD chưa được cấu hình") s
    else send_summary_mail turn.mail turn ids
        (summary_mail g slot (build_summary env g.user_id g.semester ids s)) s

abbrev pub notify_all : Env → Turn → BatchGroup → Slot → List ℕ → State → Ending × State
notify_all env turn g slot [] s = (done, s)
notify_all env turn g slot (k ∷ ks) s = notify env turn g slot (k ∷ ks) s

-- processGroup
unfoldable pub process_group : Env → Turn → BatchGroup → State → Ending × State
process_group env turn g s =
    if not turn.slots_read
    then (raised, s)
    else elim (find_closed_slot env g.semester g.user.student_code turn.now) [
      | none ↦ (done, s)
      | some slot ↦
          if not turn.ids_read
          then (raised, s)
          else notify_all env turn g slot (find_all_unsent_batch_ids env g.user_id g.semester s) s
    ]

-- `for (const group of groups)`; `turns` tells how the calls for each group end.
unfoldable pub process_groups : Env → (BatchGroup → Turn) → List BatchGroup → State → Ending × State
process_groups env turns [] s = (done, s)
process_groups env turns (g ∷ gs) s =
    let r = process_group env (turns g) g s in
    elim (r.0) [ done ↦ process_groups env turns gs r.1 | raised ↦ r ]

-- sendPendingSummaries, whose first query is answered or not.
unfoldable pub send_pending_summaries : Env → Bool → (BatchGroup → Turn) → State → Ending × State
send_pending_summaries env pending_read turns s =
    if not pending_read
    then (raised, s)
    else process_groups env turns (group_pending_batches env (find_pending_batches env s)) s

-- RegistrationNotificationCron: `isRunning`, and the number of runs that are under way.
pub record Cron : Type 0 where
  pub is_running : Bool
  pub under_way : ℕ

-- sendRegistrationSummaries up to the call of the service.
unfoldable pub start_run : Cron → Cron
start_run c =
    if c.is_running then c else record c { is_running = true; under_way = c.under_way + 1 }

-- The `finally`, at the end of a run.
unfoldable pub finish_run : Cron → Cron
finish_run c = record c { is_running = false; under_way = c.under_way - 1 }
