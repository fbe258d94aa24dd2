-- ===== src/Shared/SlotWindow.antt =====
-- libs/shared/src/registration-slot-window.util.ts. The dates of the engine are parameters: an
-- instant is a number of milliseconds, and two functions tell the local date and time of an instant
-- and the instant of a local date and time. The texts are compared as the source compares them.
pub mod Calendar
pub mod Opening
pub mod Examples
use do_an_tot_nghiep.Base.{
  ℕ, ◌+◌, ◌*◌, Bool, true, false, not, ◌&&◌, Option, none, some, if◌then◌else◌,
}
use do_an_tot_nghiep.Base.Text.{Text, codes, text_leb, text_ltb}

-- RegistrationSlotWindow
pub record Window : Type 0 where
  pub start_date : Text
  pub end_date : Text
  pub start_time : Text
  pub end_time : Text

-- LocalDateTimeParts
pub record LocalParts : Type 0 where
  pub date : Text
  pub time : Text

-- Intl.DateTimeFormat in the zone of the registration, `new Date(text)`, and whether that is a date.
pub record Engine : Type 0 where
  pub local_parts : ℕ → LocalParts
  pub instant : Text → Text → ℕ
  pub has_instant : Text → Text → Bool

module _ (engine : Engine) where
  -- addRegistrationLocalDays
  pub add_local_days : Text → ℕ → Text
  add_local_days date days =
      (engine.local_parts (engine.instant date (codes "00:00") + days * 86400000)).date

  -- isRegistrationSlotActiveAt
  unfoldable pub is_active_at : Window → ℕ → Bool
  is_active_at slot at =
      let parts = engine.local_parts at in
      text_leb slot.start_date parts.date
      && text_leb parts.date slot.end_date
      && text_leb slot.start_time parts.time
      && text_leb parts.time slot.end_time

  -- getRegistrationSlotNextOpenAt
  unfoldable pub next_open_at : Window → ℕ → Option ℕ
  next_open_at slot at =
      let parts = engine.local_parts at in
      let next_date = add_local_days parts.date 1 in
      if text_ltb parts.date slot.start_date
      then some (engine.instant slot.start_date slot.start_time)
      else if text_ltb slot.end_date parts.date
      then none
      else if text_ltb parts.time slot.start_time
      then some (engine.instant parts.date slot.start_time)
      else if text_leb parts.time slot.end_time
      then some (engine.instant parts.date slot.start_time)
      else if text_leb next_date slot.end_date
      then some (engine.instant next_date slot.start_time)
      else none

  abbrev close_of : Window → Option ℕ → Option ℕ
  close_of slot none = none
  close_of slot (some opening) =
      some (engine.instant (engine.local_parts opening).date slot.end_time)

  -- getRegistrationSlotEffectiveCloseAt
  pub effective_close_at : Window → ℕ → Option ℕ
  effective_close_at slot at = close_of slot (next_open_at slot at)

  -- isRegistrationSlotOutsideCurrentWindow
  unfoldable pub is_outside_current_window : Window → ℕ → Bool
  is_outside_current_window slot at =
      let parts = engine.local_parts at in
      if is_active_at slot at
      then false
      else if text_ltb parts.date slot.start_date
      then false
      else if text_ltb slot.end_date parts.date
      then true
      else text_ltb slot.end_time parts.time
