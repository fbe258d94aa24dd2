-- ===== src/Api/ReadThrough/Fresh.antt =====
-- What a read through the cache gives while the cache holds what the database does.
use do_an_tot_nghiep.Base.{◌≡◌, refl, Bool, true, false, Option, none, some, List, [], ◌∷◌, All}
use do_an_tot_nghiep.Api.ReadThrough.{
  Reply, failed, nothing, found, Lock, granted, taken, broken, Replies, written, wait_for_slots,
  wait_for_settings, locked, slots_first, settings_first, read_slots, read_settings,
}

module _ {A : Type 0} where
  -- The answer is an error or null, or the value of the database.
  abbrev pub IsFresh : A → Reply A → Type 0
  IsFresh db failed = Unit
  IsFresh db nothing = Unit
  IsFresh db (found a) = a ≡ db

  -- The cache is empty, or holds the value of the database.
  abbrev pub IsCoherent : A → Option A → Type 0
  IsCoherent db none = Unit
  IsCoherent db (some a) = a ≡ db

  -- Every answer that a read may meet is fresh.
  pub record AreFresh (db : A) (replies : Replies A) : Type 0 where
    pub first : IsFresh db replies.first
    pub polls : All (IsFresh db) replies.polls

  abbrev Agrees : A → A × Option A → Type 0
  Agrees db (a, cache) = (a ≡ db) × IsCoherent db cache

  wait_for_slots-fresh :
      (db : A) (polls : List (Reply A)) → All (IsFresh db) polls → wait_for_slots polls db ≡ db
  unfolding wait_for_slots
  wait_for_slots-fresh db [] h = refl
  wait_for_slots-fresh db (failed ∷ polls) h = refl
  wait_for_slots-fresh db (nothing ∷ polls) h = wait_for_slots-fresh db polls h.1
  wait_for_slots-fresh db (found a ∷ polls) h = h.0

  wait_for_settings-fresh :
      (db : A) (polls : List (Reply A)) → All (IsFresh db) polls → wait_for_settings polls db ≡ db
  unfolding wait_for_settings
  wait_for_settings-fresh db [] h = refl
  wait_for_settings-fresh db (failed ∷ polls) h = wait_for_settings-fresh db polls h.1
  wait_for_settings-fresh db (nothing ∷ polls) h = wait_for_settings-fresh db polls h.1
  wait_for_settings-fresh db (found a ∷ polls) h = h.0

  written-IsCoherent :
      (stored : Bool) (db : A) (cache : Option A)
      → IsCoherent db cache
      → IsCoherent db (written stored db cache)
  written-IsCoherent true db cache c = refl
  written-IsCoherent false db cache c = c

  locked-Agrees :
      (wait : List (Reply A) → A → A) (lock : Lock) (replies : Replies A) (db : A)
      (cache : Option A)
      → wait replies.polls db ≡ db
      → IsCoherent db cache
      → Agrees db (locked wait lock replies db cache)
  locked-Agrees wait granted replies db cache w c =
      (refl, written-IsCoherent replies.stored db cache c)
  locked-Agrees wait taken replies db cache w c = (w, c)
  locked-Agrees wait broken replies db cache w c = (refl, c)

  slots_first-Agrees :
      (first : Reply A) (replies : Replies A) (db : A) (cache : Option A)
      → IsFresh db first
      → All (IsFresh db) replies.polls
      → IsCoherent db cache
      → Agrees db (slots_first first replies db cache)
  slots_first-Agrees failed replies db cache f p c = (refl, c)
  slots_first-Agrees nothing replies db cache f p c =
      locked-Agrees wait_for_slots replies.lock replies db cache
        (wait_for_slots-fresh db replies.polls p) c
  slots_first-Agrees (found a) replies db cache f p c = (f, c)

  settings_first-Agrees :
      (first : Reply A) (replies : Replies A) (db : A) (cache : Option A)
      → IsFresh db first
      → All (IsFresh db) replies.polls
      → IsCoherent db cache
      → Agrees db (settings_first first replies db cache)
  settings_first-Agrees failed replies db cache f p c =
      locked-Agrees wait_for_settings replies.lock replies db cache
        (wait_for_settings-fresh db replies.polls p) c
  settings_first-Agrees nothing replies db cache f p c =
      locked-Agrees wait_for_settings replies.lock replies db cache
        (wait_for_settings-fresh db replies.polls p) c
  settings_first-Agrees (found a) replies db cache f p c = (f, c)

  pub read_slots-fresh :
      (replies : Replies A) (db : A) (cache : Option A)
      → AreFresh db replies
      → IsCoherent db cache
      → ((read_slots replies db cache).0 ≡ db) × IsCoherent db (read_slots replies db cache).1
  unfolding read_slots
  read_slots-fresh replies db cache f c =
      slots_first-Agrees replies.first replies db cache f.first f.polls c

  -- Where every value that Redis answers in the course of a read, if it answers one, is that of
  -- the database, and the cache is empty or holds that value, readThroughSettingsCache gives the
  -- value of the database, whatever the lock and the writes do, and the cache is empty or holds
  -- that value afterwards.
  pub read_settings-fresh :
      (replies : Replies A) (db : A) (cache : Option A)
      → AreFresh db replies
      → IsCoherent db cache
      → ((read_settings replies db cache).0 ≡ db) × IsCoherent db (read_settings replies db cache).1
  unfolding read_settings
  read_settings-fresh replies db cache f c =
      settings_first-Agrees replies.first replies db cache f.first f.polls c
