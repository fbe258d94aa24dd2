-- ===== src/Shared/SlotWindow/Examples.antt =====
-- A calendar whose dates are counted from the epoch and whose times are minutes of the day, each as
-- a text of one unit, and a slot of the days 2 to 4 from 8:00 to 17:00.
use do_an_tot_nghiep.Base.{
  ℕ, ◌+◌, ◌*◌, ◌/◌, ◌%◌, ◌≤◌, ◌≡◌, refl, subst, true, none, some, [], ◌∷◌, arith,
}
use do_an_tot_nghiep.Base.Text.{Text, text_leb, text_ltb}
use do_an_tot_nghiep.Shared.SlotWindow.{
  Engine, Window, add_local_days, is_active_at, next_open_at, is_outside_current_window,
}
use do_an_tot_nghiep.Shared.SlotWindow.Calendar.{IsCalendar, IsWindow}

abbrev unit : Text → ℕ
unit (n ∷ []) = n
unit _ = 0

abbrev pub plain : Engine
plain = record {
  local_parts = λ t. record { date = t / 86400000 ∷ []; time = t / 60000 % 1440 ∷ [] };
  instant = λ d c. unit d * 86400000 + unit c * 60000;
  has_instant = λ d c. true;
}

module _ (t u : ℕ) where
  plain_date :
      (plain.local_parts (plain.instant (t / 86400000 ∷ []) (u / 60000 % 1440 ∷ []))).date
      ≡ t / 86400000 ∷ []
  plain_date = ground arith

  plain_time :
      (plain.local_parts (plain.instant (t / 86400000 ∷ []) (u / 60000 % 1440 ∷ []))).time
      ≡ u / 60000 % 1440 ∷ []
  plain_time = ground arith

  plain_later_date : t ≤ u → text_leb (t / 86400000 ∷ []) (u / 86400000 ∷ []) ≡ true
  unfolding text_leb
  plain_later_date h = ground arith

  plain_later_time :
      t ≤ u
      → (t / 86400000 ∷ []) ≡ (u / 86400000 ∷ [])
      → text_leb (t / 60000 % 1440 ∷ []) (u / 60000 % 1440 ∷ []) ≡ true
  unfolding text_leb
  plain_later_time h e = ground arith

  plain_next : text_ltb (t / 86400000 ∷ []) (add_local_days plain (t / 86400000 ∷ []) 1) ≡ true
  unfolding text_leb add_local_days
  plain_next = ground arith

  plain_between :
      text_ltb (t / 86400000 ∷ []) (u / 86400000 ∷ []) ≡ true
      → text_leb (add_local_days plain (t / 86400000 ∷ []) 1) (u / 86400000 ∷ []) ≡ true
  unfolding text_leb add_local_days
  plain_between h = ground arith

pub plain-IsCalendar : IsCalendar plain
plain-IsCalendar = record {
  same_date = λ d c (t, e) (u, f).
      subst (λ c. (plain.local_parts (plain.instant d c)).date ≡ d) f
        (subst (λ d. (plain.local_parts (plain.instant d (u / 60000 % 1440 ∷ []))).date ≡ d) e
          (plain_date t u));
  same_time = λ d c (t, e) (u, f).
      subst (λ c. (plain.local_parts (plain.instant d c)).time ≡ c) f
        (subst
          (λ d.
            (plain.local_parts (plain.instant d (u / 60000 % 1440 ∷ []))).time
            ≡ u / 60000 % 1440 ∷ [])
          e (plain_time t u));
  later_date = plain_later_date;
  later_time = plain_later_time;
  next_date =
      λ d (t, e). subst (λ d. text_ltb d (add_local_days plain d 1) ≡ true) e (plain_next t 0);
  no_date_between = λ d e (t, p) (u, q).
      subst (λ e. text_ltb d e ≡ true → text_leb (add_local_days plain d 1) e ≡ true) q
        (subst
          (λ d.
            text_ltb d (u / 86400000 ∷ []) ≡ true
            → text_leb (add_local_days plain d 1) (u / 86400000 ∷ []) ≡ true)
          p (plain_between t u));
}

abbrev slot : Window
slot = record {
  start_date = 2 ∷ [];
  end_date = 4 ∷ [];
  start_time = 480 ∷ [];
  end_time = 1020 ∷ [];
}

slot-IsWindow : IsWindow plain slot
unfolding text_leb
slot-IsWindow = record {
  start_date = (172800000, refl);
  start_time = (28800000, refl);
  dates = refl;
  times = refl;
}

-- The evening of day 3: the slot opens next on day 4.
next_day : next_open_at plain slot 327600000 ≡ some 374400000
unfolding next_open_at text_leb add_local_days
next_day = refl

-- The evening of day 4 is past the last opening.
no_next : next_open_at plain slot 414000000 ≡ none
unfolding next_open_at text_leb add_local_days
no_next = refl

noon : is_active_at plain slot 302400000 ≡ true
unfolding is_active_at text_leb
noon = refl

evening : is_outside_current_window plain slot 327600000 ≡ true
unfolding is_outside_current_window is_active_at text_leb
evening = refl
