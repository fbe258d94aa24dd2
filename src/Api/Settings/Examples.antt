-- ===== src/Api/Settings/Examples.antt =====
-- Settings whose dates are texts of one unit.
use do_an_tot_nghiep.Base.{ℕ, true, ◌≡◌, refl, Option, none, some, [], ◌∷◌}
use do_an_tot_nghiep.Base.Text.{Text, codes}
use do_an_tot_nghiep.Api.ReadThrough.{Replies, found, granted, read_settings}
use do_an_tot_nghiep.Api.ReadThrough.Fresh.{AreFresh}
use do_an_tot_nghiep.Api.Settings.{
  SystemSettings, undefined, given, Patch, UpdateSettingsDto, SettingRow, SettingsStore, Dates,
  SettingsError, bad_date, updated, rejected, patch_of_dto, merge, assert_valid_registration_range,
  to_system_settings, load_settings_from_db, get_all, upsert, update_settings,
}
use do_an_tot_nghiep.Api.Settings.Updated.{Settled, update_settings-Settled}
use do_an_tot_nghiep.Api.Settings.Partial.{lacks_date, update_settings-partial}

abbrev parse_unit : Text → Option ℕ
parse_unit (n ∷ []) = some n
parse_unit _ = none

abbrev dates : Dates
dates = record { parse = parse_unit; to_iso = λ t. t ∷ [] }

abbrev row : SettingRow
row = record {
  current_semester = codes "20252";
  semester_start_date = codes "2026-02-17";
  semester_end_date = codes "2026-06-30";
  registration_open_at = 10;
  registration_close_at = 20;
  max_credits_per_semester = 24;
}

-- The close is put off.
abbrev whole : UpdateSettingsDto
whole = record {
  current_semester = given (codes "20252");
  semester_start_date = given (codes "2026-02-17");
  semester_end_date = given (codes "2026-06-30");
  registration_open_at = given (10 ∷ []);
  registration_close_at = given (30 ∷ []);
  max_credits_per_semester = given 24;
}

abbrev patch : Patch
patch = patch_of_dto whole

abbrev old : SystemSettings
old = to_system_settings dates row

abbrev new : SystemSettings
new = to_system_settings dates (record row { registration_close_at = 30 })

abbrev store : SettingsStore
store = record { row = some row; cache = some old }

abbrev serves : SystemSettings → Replies SystemSettings
serves s = record { first = found s; lock = granted; stored = true; polls = [] }

abbrev after : SettingsStore
after = (update_settings dates (serves old) true patch store).1

accepted : update_settings dates (serves old) true patch store ≡ (updated new, after)
unfolding update_settings get_all read_settings merge assert_valid_registration_range
    to_system_settings load_settings_from_db upsert patch_of_dto
accepted = refl

old-AreFresh : AreFresh (load_settings_from_db dates (some row)) (serves old)
unfolding load_settings_from_db
old-AreFresh = record { first = refl; polls = tt }

new-AreFresh : AreFresh new (serves new)
new-AreFresh = record { first = refl; polls = tt }

old-loaded : old ≡ load_settings_from_db dates (some row)
unfolding load_settings_from_db
old-loaded = refl

update_settings-Settled_example :
    Settled dates (λ t. refl) (some row) patch new after
    × ((get_all dates (serves new) after).0 ≡ new)
update_settings-Settled_example =
    update_settings-Settled dates (λ t. refl) (serves old) (serves new) patch store new after
      old-AreFresh old-loaded accepted new-AreFresh

-- The same in a request that leaves the other properties out.
abbrev request : UpdateSettingsDto
request = record {
  current_semester = undefined;
  semester_start_date = undefined;
  semester_end_date = undefined;
  registration_open_at = undefined;
  registration_close_at = given (30 ∷ []);
  max_credits_per_semester = undefined;
}

update_settings-partial_example :
    (e : SettingsError) × ((update_settings dates (serves old) true (patch_of_dto request) store).0
      ≡ rejected e)
    × (lacks_date request ≡ true → e ≡ bad_date)
    × ((update_settings dates (serves old) true (patch_of_dto request) store).1.row ≡ some row)
update_settings-partial_example = update_settings-partial dates (serves old) true request store refl
