-- ===== src/Shared/SlotWindow/Calendar.antt =====
-- What the slot windows rely on of the engine's dates, in a zone without summer time.
use do_an_tot_nghiep.Base.{ℕ, ◌≤◌, ◌≡◌, true}
use do_an_tot_nghiep.Base.Text.{Text, text_leb, text_ltb}
use do_an_tot_nghiep.Shared.SlotWindow.{Engine, Window, add_local_days}

-- The text is the date, or the time, of some instant.
abbrev pub IsDate : Engine → Text → Type 0
IsDate z d = (t : ℕ) × ((z.local_parts t).date ≡ d)

abbrev IsTime : Engine → Text → Type 0
IsTime z c = (t : ℕ) × ((z.local_parts t).time ≡ c)

-- A date and a time name an instant that has them; a later instant has a later date, or the same
-- date and a time that is not earlier; and a day of 24 hours on is the next date.
pub record IsCalendar (z : Engine) : Type 0 where
  pub same_date : (d c : Text) → IsDate z d → IsTime z c → (z.local_parts (z.instant d c)).date ≡ d
  pub same_time : (d c : Text) → IsDate z d → IsTime z c → (z.local_parts (z.instant d c)).time ≡ c
  pub later_date : (t u : ℕ) → t ≤ u → text_leb (z.local_parts t).date (z.local_parts u).date ≡ true
  pub later_time :
      (t u : ℕ)
      → t ≤ u
      → (z.local_parts t).date ≡ (z.local_parts u).date
      → text_leb (z.local_parts t).time (z.local_parts u).time ≡ true
  pub next_date : (d : Text) → IsDate z d → text_ltb d (add_local_days z d 1) ≡ true
  pub no_date_between :
      (d e : Text)
      → IsDate z d
      → IsDate z e
      → text_ltb d e ≡ true
      → text_leb (add_local_days z d 1) e ≡ true

-- A window of valid dates and times, each pair in order.
pub record IsWindow (z : Engine) (slot : Window) : Type 0 where
  pub start_date : IsDate z slot.start_date
  pub start_time : IsTime z slot.start_time
  pub dates : text_leb slot.start_date slot.end_date ≡ true
  pub times : text_leb slot.start_time slot.end_time ≡ true
