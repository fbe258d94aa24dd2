-- ===== src/Api/Settings/Partial.antt =====
-- A request to the settings' controller that leaves a property out.
use do_an_tot_nghiep.Base.Text.{Text}
use do_an_tot_nghiep.Base.{
  ℕ, ◌≡◌, refl, inl, inr, Bool, true, false, ◌||◌, none, some, Option, Option-cases,
}
use do_an_tot_nghiep.Api.ReadThrough.{Replies}
use do_an_tot_nghiep.Api.Settings.{
  SystemSettings, Value, undefined, null, given, UpdateSettingsDto, SettingsStore, Dates,
  SettingsError, bad_date, not_written, rejected, patch_of_dto, merge, instant,
  assert_valid_registration_range, created, upsert, get_all, unless_invalid, write_if,
  update_settings,
}
use do_an_tot_nghiep.Api.Settings.Updated.{created-Created}

abbrev is_undefined : {A : Type 0} → Value A → Bool
is_undefined undefined = true
is_undefined _ = false

-- The request leaves out a property.
abbrev is_partial : UpdateSettingsDto → Bool
is_partial dto =
    is_undefined dto.current_semester
    || is_undefined dto.semester_start_date
    || is_undefined dto.semester_end_date
    || is_undefined dto.registration_open_at
    || is_undefined dto.registration_close_at
    || is_undefined dto.max_credits_per_semester

-- The request leaves out a date of the registration.
abbrev pub lacks_date : UpdateSettingsDto → Bool
lacks_date dto = is_undefined dto.registration_open_at || is_undefined dto.registration_close_at

module _ (dates : Dates) where
  defined-instant : (v : Value Text) (t : ℕ) → instant dates v ≡ some t → is_undefined v ≡ false
  defined-instant undefined t h = absurd (cc)
  defined-instant null t h = refl
  defined-instant (given a) t h = refl

  -- A row is created of a whole request only.
  partial-created : (dto : UpdateSettingsDto) → is_partial dto ≡ true → created dates dto ≡ none
  partial-created dto h = elim (Option-cases (created dates dto)) [
    | inl e ↦ e
    | inr (row, e) ↦
        let made = created-Created dates dto row e in
        let opens = defined-instant dto.registration_open_at row.registration_open_at made.opens in
        let closes =
          defined-instant dto.registration_close_at row.registration_close_at made.closes in
        let whole =
          simp (made.semester, made.starts, made.ends, made.credits, opens, closes) at h in
        absurd (cc)
  ]

  refused-range :
      (open_at close_at : Value Text)
      → (is_undefined open_at || is_undefined close_at) ≡ true
      → assert_valid_registration_range dates open_at close_at ≡ some bad_date
  unfolding assert_valid_registration_range
  refused-range undefined close_at h = refl
  refused-range null undefined h = refl
  refused-range (given a) undefined h = elim (Option-cases (dates.parse a)) [
    | inl e ↦ rw e refl
    | inr (t, e) ↦ rw e refl
  ]
  refused-range null null h = absurd (cc)
  refused-range null (given b) h = absurd (cc)
  refused-range (given a) null h = absurd (cc)
  refused-range (given a) (given b) h = absurd (cc)

  refused-checked :
      (checked : Option SettingsError) (stored : Bool) (st : SettingsStore)
      → (e : SettingsError) × (unless_invalid checked st (write_if dates stored none st)
          ≡ (rejected e, st))
        × (checked ≡ some bad_date → e ≡ bad_date)
  refused-checked none stored st = (not_written, refl, λ h. absurd (cc))
  refused-checked (some e) stored st = (e, refl, λ h. cc)

  -- A request that leaves a property out is refused, whatever the settings are, whether they have
  -- a row and whatever Redis does, and leaves the row as it was; the error is that of an invalid
  -- date where a date of the registration is left out.
  pub update_settings-partial :
      (replies : Replies SystemSettings) (stored : Bool) (dto : UpdateSettingsDto)
      (st : SettingsStore)
      → is_partial dto ≡ true
      → let reply = update_settings dates replies stored (patch_of_dto dto) st in
        (e : SettingsError) × (reply.0 ≡ rejected e)
        × (lacks_date dto ≡ true → e ≡ bad_date)
        × (reply.1.row ≡ st.row)
  unfolding update_settings get_all merge patch_of_dto upsert
  update_settings-partial replies stored dto st h =
      let here = (get_all dates replies st).1 in
      let (e, reply, bad) =
        refused-checked
          (assert_valid_registration_range dates dto.registration_open_at dto.registration_close_at)
          stored here in
      rw (partial-created dto h, reply)
        (
          e,
          refl,
          λ l. bad (refused-range dto.registration_open_at dto.registration_close_at l),
          refl,
        )
