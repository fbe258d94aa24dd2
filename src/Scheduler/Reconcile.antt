-- ===== src/Scheduler/Reconcile.antt =====
-- apps/scheduler/src/prewarm/registration-prewarm.service.ts: the pipeline of
-- reconcileCurrentSemesterSlots.
use do_an_tot_nghiep.Base.{
  ℕ, Bool, false, Option, none, some, List, [], ◌∷◌, if◌then◌else◌, ◌==◌, filter,
}
use do_an_tot_nghiep.Base.Text.{Text, text_eq}
use do_an_tot_nghiep.Base.Int.{ℤ, pos, negsuc}
use do_an_tot_nghiep.Store.{Db, Section}
use do_an_tot_nghiep.Shared.Counters.{Counters, seats_left, set_all}

-- actual === expected
abbrev pub agrees : Option ℤ → ℕ → Bool
agrees none n = false
agrees (some (pos m)) n = m == n
agrees (some (negsuc m)) n = false

abbrev pub of_semester : Text → Section → Bool
of_semester semester s = text_eq s.semester semester

-- The commands of the pipeline, from the values that `mget` has read before.
unfoldable pub fixes : Counters → List Section → List (ℕ × ℕ)
fixes read [] = []
fixes read (s ∷ ss) =
    if agrees (read s.id) (seats_left s)
    then fixes read ss
    else (s.id, seats_left s) ∷ fixes read ss

-- reconcileCurrentSemesterSlots, where there are settings with a current semester.
unfoldable pub reconcile : Text → Db → Counters → Counters
reconcile semester db c = set_all (fixes c (filter (of_semester semester) db.sections)) c
