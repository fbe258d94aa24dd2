-- ===== src/Scheduler/Agreement.antt =====
-- The counters after the scheduler's work, against the tables.
use do_an_tot_nghiep.Base.{
  ℕ, ◌≡◌, ◌≢◌, refl, sym, ◌∙◌, inl, inr, Bool, true, false, Option, none, some, List, [], ◌∷◌,
  if◌then◌else◌, filter, All, All-intro, All-filter, subst, ap, Distinct, arith, Bool-cases,
}
use do_an_tot_nghiep.Base.Text.{Text}
use do_an_tot_nghiep.Base.Int.{ℤ, pos, negsuc}
use do_an_tot_nghiep.Store.{Db, Section}
use do_an_tot_nghiep.Shared.Counters.{Counters, set_counter, seats_left, set_all, slot_writes}
use do_an_tot_nghiep.Scheduler.Reconcile.{agrees, of_semester, fixes, reconcile}

-- The counter of the section shows the seats that are left.
abbrev pub Shows : Counters → Section → Type 0
Shows c s = c s.id ≡ some (pos (seats_left s))

agrees→eq : (o : Option ℤ) (n : ℕ) → agrees o n ≡ true → o ≡ some (pos n)
agrees→eq none n h = cc
agrees→eq (some (pos m)) n h = ground arith
agrees→eq (some (negsuc m)) n h = cc

abbrev Others : ℕ → List Section → Type 0
Others k ss = All (λ s. s.id ≢ k) ss

fixes-miss :
    (read c : Counters) (k : ℕ) (ss : List Section)
    → Others k ss
    → set_all (fixes read ss) c k ≡ c k
unfolding fixes set_all
fixes-miss read c k [] o = refl
fixes-miss read c k (s ∷ ss) o = elim (Bool-cases (agrees (read s.id) (seats_left s))) [
  | inl e ↦ rw e (fixes-miss read c k ss o.1)
  | inr e ↦
      rw e
        (fixes-miss read (set_counter s.id (pos (seats_left s)) c) k ss o.1 ∙ ground (arith, o.0))
]

-- Where a counter agrees with the table, it is the one that was read.
abbrev Fresh : Counters → Counters → Section → Type 0
Fresh read c s = agrees (read s.id) (seats_left s) ≡ true → c s.id ≡ read s.id

set-Fresh :
    (read c : Counters) (k n : ℕ) (ss : List Section)
    → Others k ss
    → All (Fresh read c) ss
    → All (Fresh read (set_counter k (pos n) c)) ss
set-Fresh read c k n [] o f = tt
set-Fresh read c k n (s ∷ ss) o f =
    (λ a. ground (arith, o.0, f.0 a), set-Fresh read c k n ss o.1 f.1)

fixes-Shows :
    (read c : Counters) (ss : List Section)
    → Distinct (λ s. s.id) ss
    → All (Fresh read c) ss
    → All (Shows (set_all (fixes read ss) c)) ss
unfolding fixes set_all
fixes-Shows read c [] d same = tt
fixes-Shows read c (s ∷ ss) d same = elim (Bool-cases (agrees (read s.id) (seats_left s))) [
  | inl e ↦
      subst (λ l. All (Shows (set_all l c)) (s ∷ ss)) (sym (kept e))
        (
          fixes-miss read c s.id ss d.0 ∙ same.0 e ∙ agrees→eq (read s.id) (seats_left s) e,
          fixes-Shows read c ss d.1 same.1,
        )
  | inr e ↦
      subst (λ l. All (Shows (set_all l c)) (s ∷ ss)) (sym (fixed e))
        (
          fixes-miss read (set_counter s.id (pos (seats_left s)) c) s.id ss d.0 ∙ ground arith,
          fixes-Shows read (set_counter s.id (pos (seats_left s)) c) ss d.1
              (set-Fresh read c s.id (seats_left s) ss d.0 same.1),
        )
]
  where
    kept : agrees (read s.id) (seats_left s) ≡ true → fixes read (s ∷ ss) ≡ fixes read ss
    kept e = rw e refl

    fixed :
        agrees (read s.id) (seats_left s) ≡ false
        → fixes read (s ∷ ss) ≡ (s.id, seats_left s) ∷ fixes read ss
    fixed e = rw e refl

Distinct-filter :
    (p : Section → Bool) (ss : List Section)
    → Distinct (λ s. s.id) ss
    → Distinct (λ s. s.id) (filter p ss)
Distinct-filter p [] d = tt
Distinct-filter p (s ∷ ss) d = go (p s) (Distinct-filter p ss d.1)
  where
    go :
        (b : Bool)
        → Distinct (λ s. s.id) (filter p ss)
        → Distinct (λ s. s.id) (if b then s ∷ filter p ss else filter p ss)
    go true rest = (All-filter (λ y. y.id ≢ s.id) p ss d.0, rest)
    go false rest = rest

-- Where the sections have different ids, after the reconciliation every counter of the semester
-- shows the seats that its section has left, whatever it showed before.
pub reconcile-Shows :
    (semester : Text) (db : Db) (c : Counters)
    → Distinct (λ s. s.id) db.sections
    → All (Shows (reconcile semester db c)) (filter (of_semester semester) db.sections)
unfolding reconcile
reconcile-Shows semester db c d =
    fixes-Shows c c _ (Distinct-filter (of_semester semester) db.sections d)
      (All-intro _ (λ s a. refl) _)

-- The reconciliation leaves a counter that is of no section of the semester as it is.
reconcile-others :
    (semester : Text) (db : Db) (c : Counters) (k : ℕ)
    → All (λ s. s.id ≢ k) (filter (of_semester semester) db.sections)
    → reconcile semester db c k ≡ c k
unfolding reconcile
reconcile-others semester db c k o = fixes-miss c c k _ o

slot_writes-fixes : (ss : List Section) → slot_writes ss ≡ fixes (λ k. none) ss
unfolding slot_writes fixes
slot_writes-fixes [] = refl
slot_writes-fixes (s ∷ ss) = ap (λ l. (s.id, seats_left s) ∷ l) (slot_writes-fixes ss)

-- The counters that are set from rows with different ids show the seats that are left.
pub slot_writes-Shows :
    (ss : List Section) (c : Counters)
    → Distinct (λ s. s.id) ss
    → All (Shows (set_all (slot_writes ss) c)) ss
slot_writes-Shows ss c d =
    subst (λ l. All (Shows (set_all l c)) ss) (sym (slot_writes-fixes ss))
      (fixes-Shows (λ k. none) c ss d (All-intro _ (λ s a. absurd (ground arith)) _))
