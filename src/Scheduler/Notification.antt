-- ===== src/Scheduler/Notification.antt =====
-- apps/scheduler/src/notification/registration-notification.service.ts: the rows that it reads, the
-- batches whose student is still to be told, their groups, and the summary of a group.
pub mod Run
pub mod Budget
pub mod Bounded
pub mod Told
pub mod Resent
pub mod Examples
use do_an_tot_nghiep.Base.{
  ℕ, zero, suc, ◌+◌, Bool, true, false, not, ◌&&◌, Option, none, some, List, [], ◌∷◌, ◌++◌,
  if◌then◌else◌, ltb, ◌==◌, any, find, filter, take, map, is_some,
}
use do_an_tot_nghiep.Base.Text.{Text, text_eq}
use do_an_tot_nghiep.Store.{
  Batch, BatchStatus, Item, ItemStatus, NotificationStatus, Reason, is_success, is_create,
}
use do_an_tot_nghiep.Shared.Counters.{has_id}
use do_an_tot_nghiep.Shared.SlotWindow.{Engine, is_outside_current_window}
use do_an_tot_nghiep.Api.Slots.{Slot, window_of}
use do_an_tot_nghiep.Api.Slots.Students.{is_code_in}
use do_an_tot_nghiep.Worker.Action.{Outcome}
use do_an_tot_nghiep.Scheduler.Mail.{SectionLine, ItemLine, Student, Summary}

-- A row of registration_batches with the columns of the notification.
pub record NoticeBatch : Type 0 where
  pub batch : Batch
  pub open batch use {id, user_id, semester, status}
  pub notification_status : NotificationStatus
  pub notification_retry_count : ℕ
  pub notification_sent_at : Option ℕ
  pub notification_error : Option Text

pub record Mail : Type 0 where
  pub recipient : Text
  pub subject : Text
  pub text : Text
  pub html : Text

-- GroupedPendingBatch
pub record BatchGroup : Type 0 where
  pub user_id : ℕ
  pub semester : Text
  pub user : Student
  pub batch_ids : List ℕ

-- The rows that the service changes, those that it reads with them, and the mails that are out.
pub record State : Type 0 where
  pub batches : List NoticeBatch
  pub items : List Item
  pub mails : List Mail

-- What the service reads and does not change: the relations to users, class sections and slots, the
-- orders of its queries, the texts of the reasons, and its settings.
pub record Env : Type 0 where
  pub engine : Engine
  pub user_of : ℕ → Student
  pub section_of : ℕ → Option SectionLine
  pub reason_text : Reason → Text
  pub slots : List Slot
  pub order_batches : List NoticeBatch → List NoticeBatch
  pub order_slots : List Slot → List Slot
  pub order_items : List Item → List Item
  pub mail_configured : Bool
  pub max_retries : ℕ
  pub scan_limit : ℕ

-- How the calls of processGroup end for one group: whether each read is answered, the mail, the two
-- updates, the text of an error, and the time.
pub record Turn : Type 0 where
  pub slots_read : Bool
  pub ids_read : Bool
  pub summary_read : Bool
  pub mail : Outcome
  pub sent_mark : Outcome
  pub failed_mark : Outcome
  pub message : Text
  pub now : ℕ

pub data Ending : Type 0 where
  done raised : Ending

-- `Number(process.env.X) || DEFAULT`, where none is NaN.
abbrev number_or : Option ℕ → ℕ → ℕ
number_or none default = default
number_or (some zero) default = default
number_or (some (suc n)) default = suc n

-- maxRetries and scanLimit
pub max_retries : Option ℕ → ℕ
max_retries value = number_or value 3

pub scan_limit : Option ℕ → ℕ
scan_limit value = number_or value 200

abbrev is_completed : BatchStatus → Bool
is_completed BatchStatus.completed = true
is_completed BatchStatus.pending = false

abbrev pub is_sent : NotificationStatus → Bool
is_sent NotificationStatus.sent = true
is_sent _ = false

abbrev is_failed : ItemStatus → Bool
is_failed ItemStatus.failed = true
is_failed _ = false

abbrev is_cancelled : ItemStatus → Bool
is_cancelled ItemStatus.cancelled = true
is_cancelled _ = false

-- The condition on the notification that both queries have: `in: [PENDING, FAILED]` and `lt`.
abbrev pub is_unsent : ℕ → NoticeBatch → Bool
is_unsent most b =
    is_completed b.status
    && not (is_sent b.notification_status)
    && ltb b.notification_retry_count most

abbrev pub is_of : ℕ → Text → NoticeBatch → Bool
is_of user semester b = b.user_id == user && text_eq b.semester semester

-- The text of the key is `${userId}:${semester}`; a userId is a UUID and has no colon.
abbrev pub has_key : NoticeBatch → BatchGroup → Bool
has_key b g = is_of g.user_id g.semester b

-- `batch: { userId, semester, type: CREATE }`
abbrev is_created_by : ℕ → Text → List NoticeBatch → Item → Bool
is_created_by user semester batches i =
    any (λ b. b.id == i.batch_id && is_of user semester b && is_create b.batch.type) batches

module _ (env : Env) where
  -- findPendingBatches
  pub find_pending_batches : State → List NoticeBatch
  find_pending_batches s =
      take env.scan_limit (env.order_batches (filter (is_unsent env.max_retries) s.batches))

  -- One round of the loop of groupPendingBatches.
  pub add_to_group : NoticeBatch → List BatchGroup → List BatchGroup
  add_to_group b [] =
      record {
        user_id = b.user_id;
        semester = b.semester;
        user = env.user_of b.user_id;
        batch_ids = b.id ∷ [];
      }
      ∷ []
  add_to_group b (g ∷ gs) =
      if has_key b g
      then record g { batch_ids = g.batch_ids ++ b.id ∷ [] } ∷ gs
      else g ∷ add_to_group b gs

  pub group_onto : List BatchGroup → List NoticeBatch → List BatchGroup
  group_onto groups [] = groups
  group_onto groups (b ∷ bs) = group_onto (add_to_group b groups) bs

  -- groupPendingBatches
  abbrev pub group_pending_batches : List NoticeBatch → List BatchGroup
  group_pending_batches batches = group_onto [] batches

  -- findClosedSlot
  pub find_closed_slot : Text → Text → ℕ → Option Slot
  find_closed_slot semester student_code now =
      find (λ s. is_outside_current_window env.engine (window_of s) now)
        (env.order_slots
          (filter (λ s. text_eq s.semester semester && is_code_in student_code s) env.slots))

  -- findAllUnsentBatchIds
  pub find_all_unsent_batch_ids : ℕ → Text → State → List ℕ
  find_all_unsent_batch_ids user semester s =
      map (λ b. b.id) (filter (λ b. is_of user semester b && is_unsent env.max_retries b) s.batches)

  abbrev reason_line : Option Reason → Option Text
  reason_line none = none
  reason_line (some r) = some (env.reason_text r)

  abbrev line_of : Item → Option SectionLine → ItemLine
  line_of i section = record { failure_reason = reason_line i.failure_reason; section = section }

  abbrev section_line : Option ℕ → Option SectionLine
  section_line none = none
  section_line (some k) = env.section_of k

  abbrev lines : List Item → List ItemLine
  lines items = map (λ i. line_of i (section_line i.class_section_id)) items

  -- `latestBySection`: the first item of each section that is there.
  first_of_sections : List ℕ → List Item → List Item
  first_of_sections seen [] = []
  first_of_sections seen (i ∷ is) = elim (i.class_section_id) [
    | none ↦ first_of_sections seen is
    | some k ↦ elim (has_id k seen) [
      | true ↦ first_of_sections seen is
      | false ↦ elim (env.section_of k) [
        | none ↦ first_of_sections seen is
        | some line ↦ i ∷ first_of_sections (k ∷ seen) is
      ]
    ]
  ]

  -- findActiveRegistrationItems
  find_active_items : ℕ → Text → State → List ItemLine
  find_active_items user semester s = lines (
      first_of_sections [] (
        env.order_items
          (filter (λ i. is_success i.status && is_created_by user semester s.batches i) s.items)))

  abbrev has_section : Item → Bool
  has_section i = is_some i.class_section_id

  -- findRecentBatchItems
  find_recent_batch_items : List ℕ → State → List Item
  find_recent_batch_items ids s =
      env.order_items (filter (λ i. has_id i.batch_id ids && has_section i) s.items)

  -- buildSummary
  pub build_summary : ℕ → Text → List ℕ → State → Summary
  build_summary user semester ids s =
      let recent = find_recent_batch_items ids s in
      record {
        registered_items = find_active_items user semester s;
        failed_items = lines (filter (λ i. is_failed i.status) recent);
        cancelled_items = lines (filter (λ i. is_cancelled i.status) recent);
      }
