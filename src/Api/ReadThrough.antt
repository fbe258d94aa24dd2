-- ===== src/Api/ReadThrough.antt =====
-- readThroughSettingsCache of apps/do-an/src/modules/settings/settings.service.ts and
-- readThroughRegistrationSlotsCache of
-- apps/do-an/src/modules/registration-slots/registration-slots.service.ts: a value that is read from
-- Redis, or from the database by whoever holds the lock. Redis is outside: what it answers is given.
pub mod Fresh
use do_an_tot_nghiep.Base.{Bool, true, false, Option, none, some, List, [], ◌∷◌}

-- The answer of a GET: an error, null, or a value.
pub data Reply (A : Type 0) : Type 0 where
  failed : Reply A
  nothing : Reply A
  found : A → Reply A

-- The answer of SET NX.
pub data Lock : Type 0 where
  granted taken broken : Lock

-- What Redis answers in the course of one read: to the first GET, to the request of the lock, to
-- the write of the holder of the lock (false: an error), and to the GETs of who waits.
pub record Replies (A : Type 0) : Type 0 where
  pub first : Reply A
  pub lock : Lock
  pub stored : Bool
  pub polls : List (Reply A)

module _ {A : Type 0} where
  abbrev pub written : Bool → A → Option A → Option A
  written true a cache = some a
  written false a cache = cache

  -- The loop of registration-slots.service.ts, where an error ends the wait.
  pub wait_for_slots : List (Reply A) → A → A
  wait_for_slots [] db = db
  wait_for_slots (failed ∷ polls) db = db
  wait_for_slots (nothing ∷ polls) db = wait_for_slots polls db
  wait_for_slots (found a ∷ polls) db = a

  -- The loop of settings.service.ts, where an error of a GET counts as null.
  pub wait_for_settings : List (Reply A) → A → A
  wait_for_settings [] db = db
  wait_for_settings (failed ∷ polls) db = wait_for_settings polls db
  wait_for_settings (nothing ∷ polls) db = wait_for_settings polls db
  wait_for_settings (found a ∷ polls) db = a

  abbrev pub locked : (List (Reply A) → A → A) → Lock → Replies A → A → Option A → A × Option A
  locked wait granted replies db cache = (db, written replies.stored db cache)
  locked wait taken replies db cache = (wait replies.polls db, cache)
  locked wait broken replies db cache = (db, cache)

  abbrev pub slots_first : Reply A → Replies A → A → Option A → A × Option A
  slots_first failed replies db cache = (db, cache)
  slots_first nothing replies db cache = locked wait_for_slots replies.lock replies db cache
  slots_first (found a) replies db cache = (a, cache)

  abbrev pub settings_first : Reply A → Replies A → A → Option A → A × Option A
  settings_first failed replies db cache = locked wait_for_settings replies.lock replies db cache
  settings_first nothing replies db cache = locked wait_for_settings replies.lock replies db cache
  settings_first (found a) replies db cache = (a, cache)

  -- readThroughRegistrationSlotsCache: the value that is read, and the cache after it.
  pub read_slots : Replies A → A → Option A → A × Option A
  read_slots replies db cache = slots_first replies.first replies db cache

  -- readThroughSettingsCache
  unfoldable pub read_settings : Replies A → A → Option A → A × Option A
  read_settings replies db cache = settings_first replies.first replies db cache
