-- ===== src/Shared/SlotWindow/Opening.antt =====
-- When a slot opens next, against when it is active.
use do_an_tot_nghiep.Base.{
  ℕ, ◌≤◌, ◌≡◌, refl, sym, inl, inr, true, false, none, some, arith, Bool-cases,
}
use do_an_tot_nghiep.Base.Text.{
  Text, text_leb, text_leb_refl, text_leb_trans, text_leb_total, text_leb_antisymm,
}
use do_an_tot_nghiep.Shared.SlotWindow.{
  Engine, Window, add_local_days, is_active_at, next_open_at, effective_close_at,
  is_outside_current_window,
}
use do_an_tot_nghiep.Shared.SlotWindow.Calendar.{IsDate, IsCalendar, IsWindow}

module _ (z : Engine) (calendar : IsCalendar z) (slot : Window) where
  opens_active :
      (d : Text)
      → IsWindow z slot
      → IsDate z d
      → text_leb slot.start_date d ≡ true
      → text_leb d slot.end_date ≡ true
      → is_active_at z slot (z.instant d slot.start_time) ≡ true
  unfolding is_active_at
  opens_active d w valid after before =
      rw
        (
          calendar.same_date d slot.start_time valid w.start_time,
          calendar.same_time d slot.start_time valid w.start_time,
          after,
          before,
          text_leb_refl slot.start_time,
          w.times,
        )
        refl

  next_IsDate : (d : Text) → IsDate z (add_local_days z d 1)
  unfolding add_local_days
  next_IsDate d = (_, refl)

  -- The next date is past the start, if the date was.
  next_after :
      (d : Text)
      → IsDate z d
      → text_leb slot.start_date d ≡ true
      → text_leb slot.start_date (add_local_days z d 1) ≡ true
  next_after d valid after =
      text_leb_trans slot.start_date d (add_local_days z d 1) after
        (ground (arith, text_leb_total d (add_local_days z d 1), calendar.next_date d valid))

  -- For a calendar as the engine documents it and a valid slot, the instant at which the slot
  -- opens next lies in the slot.
  next_open_at-is_active :
      (at t : ℕ) → IsWindow z slot → next_open_at z slot at ≡ some t → is_active_at z slot t ≡ true
  unfolding next_open_at
  next_open_at-is_active at t w h =
      let d = (z.local_parts at).date in
      let valid : IsDate z d = (at, refl) in
      ground (
        arith,
        opens_active slot.start_date w w.start_date (text_leb_refl slot.start_date) w.dates,
        opens_active d w valid,
        opens_active (add_local_days z d 1) w (next_IsDate d),
        next_after d valid,
      )

  -- For a calendar as the engine documents it, a slot that has no next opening is not active from
  -- then on.
  next_open_at-none :
      (at u : ℕ) → next_open_at z slot at ≡ none → at ≤ u → is_active_at z slot u ≡ false
  unfolding next_open_at is_active_at
  next_open_at-none at u h later =
      let d = (z.local_parts at).date in
      let e = (z.local_parts u).date in
      let after = calendar.later_date at u later in
      elim (Bool-cases (text_leb e d)) [
        | inl back ↦
            let same = text_leb_antisymm e d back after in
            ground (
              arith,
              same,
              calendar.later_time at u later (sym same),
              text_leb_trans (z.local_parts at).time (z.local_parts u).time slot.end_time,
            )
        | inr past ↦ ground (
          arith,
          text_leb_trans d e slot.end_date after,
          text_leb_trans (add_local_days z d 1) e slot.end_date
              (calendar.no_date_between d e (at, refl) (u, refl) (ground arith)),
        )
      ]

  -- For a calendar as the engine documents it, while a valid slot is active, its effective close
  -- is its end time on the day that it is.
  effective_close_at-active :
      (at : ℕ)
      → IsWindow z slot
      → is_active_at z slot at ≡ true
      → effective_close_at z slot at ≡ some (z.instant (z.local_parts at).date slot.end_time)
  unfolding next_open_at is_active_at effective_close_at
  effective_close_at-active at w h =
      let d = (z.local_parts at).date in
      ground (arith, calendar.same_date d slot.start_time (at, refl) w.start_time)

  -- For a calendar as the engine documents it, a slot that is outside of its current window is not
  -- active at any later instant of that day.
  is_outside_current_window-later :
      (at u : ℕ)
      → is_outside_current_window z slot at ≡ true
      → at ≤ u
      → (z.local_parts u).date ≡ (z.local_parts at).date
      → is_active_at z slot u ≡ false
  unfolding is_outside_current_window is_active_at
  is_outside_current_window-later at u h later same = ground (
    arith,
    same,
    calendar.later_time at u later (sym same),
    text_leb_trans (z.local_parts at).time (z.local_parts u).time slot.end_time,
  )
