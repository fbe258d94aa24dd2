-- ===== src/Api/Settings.antt =====
-- apps/do-an/src/modules/settings/settings.service.ts: the settings of the registration, their row in
-- the database and their copy in Redis.
pub mod Updated
pub mod Partial
pub mod Examples
use do_an_tot_nghiep.Base.{
  ℕ, Bool, true, false, Option, none, some, List, [], ◌∷◌, if◌then◌else◌, ltb, leb,
}
use do_an_tot_nghiep.Base.Text.{Text, codes}
use do_an_tot_nghiep.Api.ReadThrough.{Replies, written, read_settings}
use do_an_tot_nghiep.Api.Validator.{SessionSettings}

-- SystemSettings, whose dates are texts.
pub record SystemSettings : Type 0 where
  pub current_semester : Text
  pub semester_start_date : Text
  pub semester_end_date : Text
  pub registration_open_at : Text
  pub registration_close_at : Text
  pub max_credits_per_semester : ℕ

-- What a property holds.
pub data Value (A : Type 0) : Type 0 where
  undefined null : Value A
  given : A → Value A

-- Partial<SystemSettings>, where none is a property that the object does not have.
pub record Patch : Type 0 where
  pub current_semester : Option (Value Text)
  pub semester_start_date : Option (Value Text)
  pub semester_end_date : Option (Value Text)
  pub registration_open_at : Option (Value Text)
  pub registration_close_at : Option (Value Text)
  pub max_credits_per_semester : Option (Value ℕ)

-- UpdateSettingsDto, whose instances have every property: the fields of a class are defined on its
-- instances (target ES2023), and what a request leaves out stays undefined.
pub record UpdateSettingsDto : Type 0 where
  pub current_semester : Value Text
  pub semester_start_date : Value Text
  pub semester_end_date : Value Text
  pub registration_open_at : Value Text
  pub registration_close_at : Value Text
  pub max_credits_per_semester : Value ℕ

-- The patch that the controller's update hands on.
pub patch_of_dto : UpdateSettingsDto → Patch
patch_of_dto dto = record {
  current_semester = some dto.current_semester;
  semester_start_date = some dto.semester_start_date;
  semester_end_date = some dto.semester_end_date;
  registration_open_at = some dto.registration_open_at;
  registration_close_at = some dto.registration_close_at;
  max_credits_per_semester = some dto.max_credits_per_semester;
}

-- SystemSetting, whose dates are instants.
pub record SettingRow : Type 0 where
  pub current_semester : Text
  pub semester_start_date : Text
  pub semester_end_date : Text
  pub registration_open_at : ℕ
  pub registration_close_at : ℕ
  pub max_credits_per_semester : ℕ

-- The row with the id 1, and the key of the settings.
pub record SettingsStore : Type 0 where
  pub row : Option SettingRow
  pub cache : Option SystemSettings

-- `new Date(text)`, where none is an invalid date, and `toISOString`.
pub record Dates : Type 0 where
  pub parse : Text → Option ℕ
  pub to_iso : ℕ → Text

-- The two BadRequestExceptions, and an error of the upsert.
pub data SettingsError : Type 0 where
  bad_date open_not_before_close not_written : SettingsError

pub data Update : Type 0 where
  updated : SystemSettings → Update
  rejected : SettingsError → Update

-- DEFAULT_SETTINGS
abbrev default_settings : SystemSettings
default_settings = record {
  current_semester = codes "20252";
  semester_start_date = codes "2026-02-17";
  semester_end_date = codes "2026-06-30";
  registration_open_at = codes "2026-05-25T00:00:00.000Z";
  registration_close_at = codes "2026-06-30T16:59:59.000Z";
  max_credits_per_semester = 24;
}

abbrev pub or_current : {A : Type 0} → Option (Value A) → A → Value A
or_current none current = given current
or_current (some v) current = v

-- `{ ...currentSettings, ...patch }`, where an undefined property of the patch takes the place of the
-- current value.
pub merge : SystemSettings → Patch → UpdateSettingsDto
merge current patch = record {
  current_semester = or_current patch.current_semester current.current_semester;
  semester_start_date = or_current patch.semester_start_date current.semester_start_date;
  semester_end_date = or_current patch.semester_end_date current.semester_end_date;
  registration_open_at = or_current patch.registration_open_at current.registration_open_at;
  registration_close_at = or_current patch.registration_close_at current.registration_close_at;
  max_credits_per_semester =
      or_current patch.max_credits_per_semester current.max_credits_per_semester;
}

abbrev check_range : Option ℕ → Option ℕ → Option SettingsError
check_range (some open_at) (some close_at) =
    if leb close_at open_at then some open_not_before_close else none
check_range _ _ = some bad_date

abbrev pub unless_invalid :
    Option SettingsError → SettingsStore → Update × SettingsStore → Update × SettingsStore
unless_invalid none st next = next
unless_invalid (some e) st next = (rejected e, st)

infixl 5 ◌>>=◌
abbrev pub ◌>>=◌ : {A B : Type 0} → Option A → (A → Option B) → Option B
none >>= f = none
some a >>= f = f a

-- The value of a column that must be there, in the data of a row that is created.
abbrev pub required : {A : Type 0} → Value A → Option A
required undefined = none
required null = none
required (given a) = some a

-- What the data of an update put in the place of a value, whose column is not nullable.
abbrev pub or_kept : {A : Type 0} → Option (Value A) → A → A
or_kept (some (given a)) old = a
or_kept _ old = old

module _ (dates : Dates) where
  -- `new Date(value)`, where that of null is the instant 0.
  abbrev pub instant : Value Text → Option ℕ
  instant undefined = none
  instant null = some 0
  instant (given text) = dates.parse text

  -- assertValidRegistrationRange
  pub assert_valid_registration_range : Value Text → Value Text → Option SettingsError
  assert_valid_registration_range open_at close_at =
      check_range (instant open_at) (instant close_at)

  -- toSystemSettings
  pub to_system_settings : SettingRow → SystemSettings
  to_system_settings row = record {
    current_semester = row.current_semester;
    semester_start_date = row.semester_start_date;
    semester_end_date = row.semester_end_date;
    registration_open_at = dates.to_iso row.registration_open_at;
    registration_close_at = dates.to_iso row.registration_close_at;
    max_credits_per_semester = row.max_credits_per_semester;
  }

  -- loadSettingsFromDb
  pub load_settings_from_db : Option SettingRow → SystemSettings
  load_settings_from_db none = default_settings
  load_settings_from_db (some row) = to_system_settings row

  -- getAll
  pub get_all : Replies SystemSettings → SettingsStore → SystemSettings × SettingsStore
  get_all replies st =
      let r = read_settings replies (load_settings_from_db st.row) st.cache in
      (r.0, record { row = st.row; cache = r.1 })

  -- `create`, whose data are refused where a column that has no default is undefined or null.
  abbrev pub created : UpdateSettingsDto → Option SettingRow
  created next = do
    semester ← required next.current_semester
    starts ← required next.semester_start_date
    ends ← required next.semester_end_date
    opens ← instant next.registration_open_at
    closes ← instant next.registration_close_at
    credits ← required next.max_credits_per_semester
    some (record {
      current_semester = semester;
      semester_start_date = starts;
      semester_end_date = ends;
      registration_open_at = opens;
      registration_close_at = closes;
      max_credits_per_semester = credits;
    })

  -- `patch.x !== undefined && { x: new Date(patch.x) }`
  abbrev pub patched_instant : Option (Value Text) → ℕ → ℕ
  patched_instant none old = old
  patched_instant (some v) old = elim (instant v) [ none ↦ old | some t ↦ t ]

  -- `update`
  abbrev pub patched_row : Patch → SettingRow → SettingRow
  patched_row patch row = record {
    current_semester = or_kept patch.current_semester row.current_semester;
    semester_start_date = or_kept patch.semester_start_date row.semester_start_date;
    semester_end_date = or_kept patch.semester_end_date row.semester_end_date;
    registration_open_at = patched_instant patch.registration_open_at row.registration_open_at;
    registration_close_at = patched_instant patch.registration_close_at row.registration_close_at;
    max_credits_per_semester = or_kept patch.max_credits_per_semester row.max_credits_per_semester;
  }

  abbrev change_or_create : Patch → Option SettingRow → SettingRow → SettingRow
  change_or_create patch none new = new
  change_or_create patch (some row) new = patched_row patch row

  -- systemSetting.upsert; the data of `create` are checked whether the row is there or not.
  pub upsert : UpdateSettingsDto → Patch → Option SettingRow → Option SettingRow
  upsert next patch before = do new ← created next; some (change_or_create patch before new)

  abbrev pub write_row : Bool → SettingRow → SettingsStore → Update × SettingsStore
  write_row stored row st =
      let settings = to_system_settings row in
      (updated settings, record { row = some row; cache = written stored settings st.cache })

  abbrev pub write_if : Bool → Option SettingRow → SettingsStore → Update × SettingsStore
  write_if stored none st = (rejected not_written, st)
  write_if stored (some row) st = write_row stored row st

  -- What update does with the settings that getAll gives.
  abbrev pub update_from : Bool → Patch → SystemSettings × SettingsStore → Update × SettingsStore
  update_from stored patch (current, st) =
      let next = merge current patch in
      unless_invalid
        (assert_valid_registration_range next.registration_open_at next.registration_close_at) st
        (write_if stored (upsert next patch st.row) st)

  -- update, where `stored` says whether the SET of writeSettingsCache succeeds.
  pub update_settings :
      Replies SystemSettings → Bool → Patch → SettingsStore → Update × SettingsStore
  update_settings replies stored patch st = update_from stored patch (get_all replies st)

  -- What assertRegistrationSessionOpen reads of the settings.
  abbrev pub session_of : SystemSettings → SessionSettings
  session_of s = record {
    current_semester = s.current_semester;
    registration_open_at = dates.parse s.registration_open_at;
    registration_close_at = dates.parse s.registration_close_at;
  }
