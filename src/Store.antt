-- ===== src/Store.antt =====
-- prisma/schema.prisma: the rows of the tables and the values of their enumerations. A UUID, a
-- section code or a course code is only ever compared with another, so each is a number, and 0
-- stands for the empty text; an instant is a number of milliseconds.
use do_an_tot_nghiep.Base.{ℕ, Bool, true, false, Option, List}
use do_an_tot_nghiep.Base.Text.{Text}
use do_an_tot_nghiep.Base.Int.{ℤ}

pub data TimeOfDay : Type 0 where
  morning afternoon evening : TimeOfDay

pub data SectionType : Type 0 where
  lt_bt tn th bt lt da tt datn tttn ttkt ttks datnks kltn klnc : SectionType

pub data SectionStatus : Type 0 where
  adjusting_registration registration_closed cancelled scheduling : SectionStatus
  open_for_registration : SectionStatus

pub data BatchType : Type 0 where
  create cancel : BatchType

pub data BatchStatus : Type 0 where
  pending completed : BatchStatus

pub data ItemStatus : Type 0 where
  pending success cancelled failed : ItemStatus

pub data NotificationStatus : Type 0 where
  pending sent failed : NotificationStatus

-- What an error says: the messages that the worker writes into `failureReason`.
pub data Reason : Type 0 where
  -- "Lớp học đã hết chỗ"
  section_full : Reason
  -- "Thiếu classSectionId hoặc itemId"
  missing_ids : Reason
  -- "Đăng ký không tồn tại hoặc đã hủy"
  no_registration : Reason
  -- Prisma's error for an update of a row that is not there.
  record_not_found : Reason
  -- The connection failed while a query was under way.
  unavailable : Reason
  -- "Invalid JSON payload"
  invalid_json : Reason
  -- "Lỗi hệ thống sau nhiều lần thử lại"
  system_error : Reason

pub record Section : Type 0 where
  pub id : ℕ
  pub section_code : ℕ
  pub linked_section_code : Option ℕ
  pub course_id : ℕ
  pub semester : Text
  pub day_of_week : Option ℕ
  pub time_of_day : Option TimeOfDay
  pub start_period : Option ℕ
  pub end_period : Option ℕ
  pub week_range : Option Text
  pub section_type : Option SectionType
  pub section_status : Option SectionStatus
  pub requires_lab : Bool
  pub max_capacity : ℕ
  pub registered_count : ℕ

pub record Batch : Type 0 where
  pub id : ℕ
  pub user_id : ℕ
  pub semester : Text
  pub type : BatchType
  pub status : BatchStatus
  pub total_items : ℕ
  pub processed_at : Option ℕ

pub record Item : Type 0 where
  pub id : ℕ
  pub batch_id : ℕ
  pub class_section_id : Option ℕ
  pub status : ItemStatus
  pub failure_reason : Option Reason
  pub remaining_slots : Option ℤ
  pub processed_at : Option ℕ

pub record Db : Type 0 where
  pub sections : List Section
  pub batches : List Batch
  pub items : List Item

abbrev pub is_pending : ItemStatus → Bool
is_pending ItemStatus.pending = true
is_pending _ = false

abbrev pub is_success : ItemStatus → Bool
is_success ItemStatus.success = true
is_success _ = false

abbrev pub is_create : BatchType → Bool
is_create BatchType.create = true
is_create BatchType.cancel = false

abbrev pub is_waiting : BatchStatus → Bool
is_waiting BatchStatus.pending = true
is_waiting BatchStatus.completed = false
