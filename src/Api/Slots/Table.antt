-- ===== src/Api/Slots/Table.antt =====
-- The table of slots and its cache by semester: findAll, findOne, create, update, remove,
-- getSlotsForSemester and clearRegistrationSlotsCache of registration-slots.service.ts. The order of the
-- rows that the database is asked for is a parameter; `deleted` says whether a DEL of Redis succeeds.
pub mod Coherence
pub mod Moves
pub mod Examples
use do_an_tot_nghiep.Base.{
  ℕ, Bool, true, false, not, Option, none, some, List, [], ◌∷◌, ◌++◌, if◌then◌else◌, ◌==◌, find,
  filter, update_where,
}
use do_an_tot_nghiep.Base.Text.{is_blank, Text, text_eq}
use do_an_tot_nghiep.Base.Chars.{trim}
use do_an_tot_nghiep.Shared.SlotWindow.{Engine}
use do_an_tot_nghiep.Api.Validator.{SessionSettings}
use do_an_tot_nghiep.Api.ReadThrough.{Replies, read_slots}
use do_an_tot_nghiep.Api.Slots.{
  Slot, CreateSlot, UpdateSlot, SlotError, slot_not_found, Answer, ok, err, checked_slot,
  updated_slot,
}

abbrev pub Caches : Type 0
Caches = Text → Option (List Slot)

pub record Store : Type 0 where
  pub rows : List Slot
  pub caches : Caches

abbrev pub put : Text → Option (List Slot) → Caches → Caches
put semester value caches t = if text_eq t semester then value else caches t

-- clearRegistrationSlotsCache
pub clear_cache : Bool → Text → Caches → Caches
clear_cache true semester caches = put semester none caches
clear_cache false semester caches = caches

abbrev pub has_id : ℕ → Slot → Bool
has_id id s = s.id == id

abbrev pub in_semester : Text → Slot → Bool
in_semester semester s = text_eq s.semester semester

abbrev found_or_error : Option Slot → Answer Slot
found_or_error none = err slot_not_found
found_or_error (some s) = ok s

-- findOne
pub find_one : ℕ → Store → Answer Slot
find_one id st = found_or_error (find (has_id id) st.rows)

abbrev pub answered : Answer Slot → (Slot → Store) → Store → Answer Slot × Store
answered (err e) write st = (err e, st)
answered (ok s) write st = (ok s, write s)

module _ (order : List Slot → List Slot) where
  -- loadSlotsFromDb
  abbrev pub load : Text → List Slot → List Slot
  load semester rows = order (filter (in_semester semester) rows)

  abbrev given_semester : Option Text → List Slot → List Slot
  given_semester none rows = rows
  given_semester (some t) rows = if is_blank t then rows else filter (in_semester (trim t)) rows

  -- findAll
  find_all : Option Text → Store → List Slot
  find_all semester st = order (given_semester semester st.rows)

  -- getSlotsForSemester
  pub get_slots : Replies (List Slot) → Text → Store → List Slot × Store
  get_slots replies semester st =
      let r = read_slots replies (load semester st.rows) (st.caches semester) in
      (r.0, record { rows = st.rows; caches = put semester r.1 st.caches })

abbrev pub cleared_too : Bool → Slot → Slot → Caches → Caches
cleared_too deleted current s caches =
    if text_eq s.semester current.semester then caches else clear_cache deleted s.semester caches

module _ (engine : Engine) (settings : SessionSettings) where
  -- create
  pub create : Bool → CreateSlot → ℕ → Store → Answer Slot × Store
  create deleted dto id st =
      answered (checked_slot engine settings dto id)
        (λ s. record {
          rows = st.rows ++ s ∷ [];
          caches = clear_cache deleted s.semester st.caches;
        })
        st

  abbrev pub rewritten : Bool → UpdateSlot → Store → Answer Slot → Answer Slot × Store
  rewritten deleted dto st (err e) = (err e, st)
  rewritten deleted dto st (ok current) =
      answered (updated_slot engine settings dto current)
        (λ s. record {
          rows = update_where (has_id current.id) (λ _. s) st.rows;
          caches = cleared_too deleted current s (clear_cache deleted current.semester st.caches);
        })
        st

  -- update
  pub update : Bool → ℕ → UpdateSlot → Store → Answer Slot × Store
  update deleted id dto st = rewritten deleted dto st (find_one id st)

-- remove
pub remove : Bool → ℕ → Store → Answer Slot × Store
remove deleted id st =
    answered (find_one id st)
      (λ current. record {
        rows = filter (λ s. not (has_id id s)) st.rows;
        caches = clear_cache deleted current.semester st.caches;
      })
      st
