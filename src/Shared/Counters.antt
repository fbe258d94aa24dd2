-- ===== src/Shared/Counters.antt =====
-- The counters `reg:section:slots:<id>` in Redis, as libs/shared/src/redis/registration-redis-key.ts
-- names them: how many seats of a section are left. Redis is outside; what the program relies on is
-- that INCRBY and DECRBY start from 0 where there is no counter, and that a command is atomic.
pub mod Laws
use do_an_tot_nghiep.Base.{
  ℕ, ◌-◌, Bool, true, false, Option, none, some, List, [], ◌∷◌, ◌++◌, if◌then◌else◌, ◌==◌, any,
}
use do_an_tot_nghiep.Store.{Section}
use do_an_tot_nghiep.Base.Int.{ℤ, pos, ◌+ℤ◌}

abbrev pub Counters : Type 0
Counters = ℕ → Option ℤ

-- SET
abbrev pub set_counter : ℕ → ℤ → Counters → Counters
set_counter id n c k = if k == id then some n else c k

abbrev pub value_of : Option ℤ → ℤ
value_of none = pos 0
value_of (some n) = n

-- INCRBY, and DECRBY by a negative amount.
abbrev pub add_to : ℤ → ℕ → Counters → Counters
add_to amount id c = set_counter id (value_of (c id) +ℤ amount) c

abbrev pub has_id : ℕ → List ℕ → Bool
has_id k ids = any (λ i. i == k) ids

-- `[...new Set(ids)]`: each once, in the order of its first place.
unfoldable pub unique_onto : List ℕ → List ℕ → List ℕ
unique_onto seen [] = seen
unique_onto seen (k ∷ ks) = unique_onto (if has_id k seen then seen else seen ++ k ∷ []) ks

abbrev pub unique : List ℕ → List ℕ
unique ids = unique_onto [] ids

-- The commands of a pipeline, in order.
pub add_all : ℤ → List ℕ → Counters → Counters
add_all amount [] c = c
add_all amount (k ∷ ks) c = add_all amount ks (add_to amount k c)

-- Math.max(section.maxCapacity - section.registeredCount, 0)
abbrev pub seats_left : Section → ℕ
seats_left s = s.max_capacity - s.registered_count

-- The counters of sections, and SET commands in order.
unfoldable pub slot_writes : List Section → List (ℕ × ℕ)
slot_writes [] = []
slot_writes (s ∷ ss) = (s.id, seats_left s) ∷ slot_writes ss

unfoldable pub set_all : List (ℕ × ℕ) → Counters → Counters
set_all [] c = c
set_all ((id, n) ∷ rest) c = set_all rest (set_counter id (pos n) c)
