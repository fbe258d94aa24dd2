-- ===== src/Scheduler/Notification/Examples.antt =====
-- Two batches of a student whose slot has ended, in runs that succeed and that fail.
use do_an_tot_nghiep.Base.{
  ℕ, ◌*◌, ◌≤◌, ◌≡◌, refl, true, false, none, some, [], ◌∷◌, ◌++◌, length, map, take, update_where,
  All, arith,
}
use do_an_tot_nghiep.Base.Text.{codes, text_eq, text_leb}
use do_an_tot_nghiep.Store.{BatchType, BatchStatus, NotificationStatus, ItemStatus, Item}
use do_an_tot_nghiep.Shared.SlotWindow.{is_active_at, is_outside_current_window}
use do_an_tot_nghiep.Shared.SlotWindow.Examples.{plain}
use do_an_tot_nghiep.Api.Slots.{Slot}
use do_an_tot_nghiep.Worker.Action.{refused}
use do_an_tot_nghiep.Scheduler.Mail.{SectionLine, Student, Summary, escape_html, replace}
use do_an_tot_nghiep.Scheduler.Html.{render_html}
use do_an_tot_nghiep.Scheduler.Html.Markup.{markup, nobody, no_slot, blank, render_html-markup}
use do_an_tot_nghiep.Scheduler.Notification.{
  NoticeBatch, BatchGroup, State, Env, Turn, done, build_summary, find_all_unsent_batch_ids,
  find_closed_slot, find_pending_batches, add_to_group, group_onto, max_retries, scan_limit,
}
use do_an_tot_nghiep.Scheduler.Notification.Run.{
  summary_mail, notify, process_group, process_groups, send_pending_summaries, start_run,
  finish_run,
}
use do_an_tot_nghiep.Scheduler.Notification.Bounded.{Step, Reach, Reach-mails}
use do_an_tot_nghiep.Scheduler.Notification.Told.{calm, fixed, is_due, send_pending_summaries-tells}
use do_an_tot_nghiep.Scheduler.Notification.Resent.{notify-again, Tick, Ticks, idle, Ticks-one}

abbrev an : Student
an = record { student_code = codes "2021"; name = codes "An <b>"; email = codes "an@x" }

abbrev algebra : SectionLine
algebra = record {
  section_code = codes "157000";
  day_of_week = some 2;
  time_of_day = some (codes "MORNING");
  start_period = some 1;
  end_period = some 3;
  time_range = some (codes "0645-0910");
  week_range = some (codes "25-32");
  room = none;
  course_code = codes "MI1141";
  course_name = codes "Algebra & \"more\"";
  credits = 4;
}

-- The days 2 to 4.
abbrev days : Slot
days = record {
  id = 1;
  semester = codes "20252";
  name = none;
  student_code_from = codes "2020";
  student_code_to = codes "2022";
  start_date = 2 ∷ [];
  end_date = 4 ∷ [];
  start_time = 480 ∷ [];
  end_time = 1020 ∷ [];
}

abbrev notice : ℕ → BatchStatus → NoticeBatch
notice k status = record {
  batch = record {
    id = k;
    user_id = 5;
    semester = codes "20252";
    type = BatchType.create;
    status = status;
    total_items = 1;
    processed_at = none;
  };
  notification_status = NotificationStatus.pending;
  notification_retry_count = 0;
  notification_sent_at = none;
  notification_error = none;
}

abbrev item : ℕ → ℕ → ItemStatus → Item
item k b status = record {
  id = k;
  batch_id = b;
  class_section_id = some 1;
  status = status;
  failure_reason = none;
  remaining_slots = none;
  processed_at = none;
}

abbrev before : State
before = record {
  batches = notice 10 BatchStatus.completed ∷ notice 11 BatchStatus.completed ∷ [];
  items = item 100 10 ItemStatus.success ∷ item 101 11 ItemStatus.failed ∷ [];
  mails = [];
}

abbrev env : Env
env = record {
  engine = plain;
  user_of = λ k. an;
  section_of = λ k. some algebra;
  reason_text = λ r. codes "full";
  slots = days ∷ [];
  order_batches = λ bs. bs;
  order_slots = λ s. s;
  order_items = λ is. is;
  mail_configured = true;
  max_retries = max_retries none;
  scan_limit = scan_limit (some 0);
}

-- Day 5.
abbrev later : ℕ
later = 5 * 86400000

-- The mail goes out, and the update to SENT does not reach the database.
abbrev broken : Turn
broken = record (calm later) { sent_mark = refused; message = codes "timeout" }

abbrev group : BatchGroup
group = record { user_id = 5; semester = codes "20252"; user = an; batch_ids = 10 ∷ 11 ∷ [] }

abbrev summary : Summary
summary = build_summary env 5 (codes "20252") (10 ∷ 11 ∷ []) before

shown :
    map
      (λ b. b.notification_status)
      (send_pending_summaries env true (λ _. calm later) before).1.batches
    ≡ NotificationStatus.sent ∷ NotificationStatus.sent ∷ []
unfolding send_pending_summaries process_groups process_group find_closed_slot notify
    find_pending_batches add_to_group group_onto text_eq text_leb is_outside_current_window
    is_active_at find_all_unsent_batch_ids max_retries scan_limit take update_where
shown = refl

render_html-markup_example :
    markup (render_html an (codes "20252") days summary)
    ≡ markup (render_html nobody [] no_slot (blank summary))
render_html-markup_example =
    render_html-markup an (codes "20252") days summary
      (record { start_date = refl; end_date = refl; start_time = refl; end_time = refl })

send_pending_summaries-tells_example :
    let (ending, s') = send_pending_summaries env true (λ _. calm later) before in
    (ending ≡ done)
    × All (λ b. is_due env later b ≡ false) s'.batches
    × (map fixed s'.batches ≡ map fixed before.batches)
send_pending_summaries-tells_example =
    send_pending_summaries-tells env later before
      (record { same_rows = λ p bs. refl; same_length = λ bs. refl }) refl
      (unfold max_retries scan_limit in omega arith)

Reach-mails_example :
    (length (send_pending_summaries env true (λ _. broken) before).1.mails
      ≤ 3 * length (send_pending_summaries env true (λ _. broken) before).1.batches)
    × All
        (λ b. b.notification_retry_count ≤ 3)
        (send_pending_summaries env true (λ _. broken) before).1.batches
Reach-mails_example =
    Reach-mails
      (Reach.next Reach.here
        (Step.run env true (λ _. broken) before (unfold max_retries in refl) (λ g h. cc)))
      (record { ids = ground arith; counts = ground arith }) refl

notify-again_example :
    let told = find_all_unsent_batch_ids env 5 (codes "20252") before in
    let mail = summary_mail group days (build_summary env 5 (codes "20252") told before) in
    let s' = (notify env broken group days told before).1 in
    (s'.mails ≡ [] ++ mail ∷ []) × (find_all_unsent_batch_ids env 5 (codes "20252") s' ≡ told)
notify-again_example =
    notify-again env broken group days before (ground arith) (unfold max_retries in ground arith)
      refl refl refl (λ h. cc) refl

Ticks-one_example : (start_run (finish_run (start_run (start_run idle)))).under_way ≤ 1
Ticks-one_example = Ticks-one (
    Ticks.next
      (Ticks.next
        (Ticks.next (Ticks.next Ticks.here (Tick.starts idle)) (Tick.starts (start_run idle)))
        (Tick.ends (start_run (start_run idle)) (unfold start_run in omega arith)))
      (Tick.starts (finish_run (start_run (start_run idle)))))

escaped : escape_html (codes "a<b & 'c'") ≡ codes "a&lt;b &amp; &#39;c&#39;"
unfolding escape_html replace
escaped = refl
