-- ===== src/Api/Capacity.antt =====
-- assertSectionsHaveCapacityRedisFirst of
-- apps/do-an/src/modules/registrations/registrations.service.ts.
pub mod Room
use do_an_tot_nghiep.Base.{
  ℕ, Bool, true, false, not, Option, none, some, List, [], ◌∷◌, ◌++◌, if◌then◌else◌, ◌==◌, any,
  filter, is_some, map, take,
}
use do_an_tot_nghiep.Base.Int.{ℤ, pos, negsuc}
use do_an_tot_nghiep.Store.{Db, Section}
use do_an_tot_nghiep.Shared.Counters.{Counters, seats_left, slot_writes, set_all}

-- `map.set(s.id, s)`: the place of the first section with the id, and the value of the last.
unfoldable pub put_section : Section → List Section → List Section
put_section s [] = s ∷ []
put_section s (t ∷ ts) = if t.id == s.id then s ∷ ts else t ∷ put_section s ts

-- `[...new Map(sections.map((s) => [s.id, s])).values()]`
unfoldable pub unique_sections_onto : List Section → List Section → List Section
unique_sections_onto seen [] = seen
unique_sections_onto seen (s ∷ ss) = unique_sections_onto (put_section s seen) ss

-- redisRemaining <= 0
abbrev pub is_exhausted : Option ℤ → Bool
is_exhausted none = false
is_exhausted (some (pos n)) = n == 0
is_exhausted (some (negsuc n)) = true

abbrev pub codes_of : List Section → List ℕ
codes_of = map (λ s. s.section_code)

abbrev pub missed : Counters → List Section → List Section
missed c = filter (λ s. not (is_some (c s.id)))

-- classSection.findMany of the sections that were missed
abbrev pub missed_rows : Counters → List Section → Db → List Section
missed_rows c sections db = filter (λ t. any (λ s. s.id == t.id) (missed c sections)) db.sections

-- fullSections: empty where the check passes.
unfoldable pub full_sections : Counters → List Section → Db → List ℕ
full_sections c sections db =
    codes_of (filter (λ s. is_exhausted (c s.id)) sections)
    ++ codes_of (filter (λ t. seats_left t == 0) (missed_rows c sections db))

-- The check, with the codes of the full sections, and the counters that it fills on the way;
-- `reached` commands of the pipeline come to Redis.
unfoldable pub assert_sections_have_capacity : ℕ → List Section → Db → Counters → List ℕ × Counters
assert_sections_have_capacity reached sections db c =
    let unique = unique_sections_onto [] sections in
    (full_sections c unique db, set_all (take reached (slot_writes (missed_rows c unique db))) c)
