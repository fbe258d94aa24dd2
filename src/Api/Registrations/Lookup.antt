-- ===== src/Api/Registrations/Lookup.antt =====
-- resolveSectionCodes, readSectionByCodeCache and writeSectionLookupCaches of
-- registrations.service.ts. What JSON.parse and the tests of the parsed value make of a cached text
-- is given with it: the rows, or nothing that can be read.
use do_an_tot_nghiep.Base.{
  ℕ, zero, suc, ◌-◌, take, length, Bool, true, false, ◌&&◌, List, [], ◌∷◌, ◌++◌, if◌then◌else◌,
  ◌==◌, filter,
}
use do_an_tot_nghiep.Base.Text.{Text, text_eq}
use do_an_tot_nghiep.Base.Groups.{push_all, group}
use do_an_tot_nghiep.Store.{Db, Section}
use do_an_tot_nghiep.Shared.Counters.{Counters, has_id, slot_writes, set_all}

-- The value of `reg:section:code:<semester>:<code>`: a failed GET, null, a text that is not JSON or
-- lacks what is wanted of it, or rows.
pub data Cached : Type 0 where
  failed nothing unreadable : Cached
  section_rows : List Section → Cached

abbrev pub SectionCache : Type 0
SectionCache = Text → ℕ → Cached

unfoldable pub set_cached : Text → ℕ → Cached → SectionCache → SectionCache
set_cached semester code value cache t k =
    if text_eq t semester && k == code then value else cache t k

abbrev pub cached_rows : Cached → List Section
cached_rows (section_rows ss) = ss
cached_rows _ = []

abbrev pub kept_or_deleted : Cached → Cached
kept_or_deleted unreadable = nothing
kept_or_deleted value = value

abbrev pub is_empty : {A : Type 0} → List A → Bool
is_empty [] = true
is_empty (x ∷ xs) = false

-- Where the rows of the codes come from.
pub record Found : Type 0 where
  pub hits : List (ℕ × List Section)
  pub missed : List ℕ
  pub cache : SectionCache

abbrev pub with_code : ℕ → List Section → Found → Found
with_code code ss f =
    if is_empty ss
    then record { hits = f.hits; missed = code ∷ f.missed; cache = f.cache }
    else record { hits = (code, ss) ∷ f.hits; missed = f.missed; cache = f.cache }

-- The first loop: what the cache has, with an unreadable text deleted.
unfoldable pub read_cached : Text → List ℕ → SectionCache → Found
read_cached semester [] cache = record { hits = []; missed = []; cache = cache }
read_cached semester (code ∷ codes) cache =
    let value = cache semester code in
    with_code code (cached_rows value)
      (read_cached semester codes (set_cached semester code (kept_or_deleted value) cache))

-- `rowsBySectionCode.get(code) ?? []`
abbrev pub rows_of : ℕ → List (ℕ × List Section) → List Section
rows_of code groups = group (λ a b. a == b) (λ s. s.section_code) code groups

-- The SET commands for the codes, of which `reached` come to Redis.
unfoldable pub write_cached :
    ℕ → Text → List ℕ → List (ℕ × List Section) → SectionCache → SectionCache
write_cached zero semester codes groups cache = cache
write_cached (suc n) semester [] groups cache = cache
write_cached (suc n) semester (code ∷ codes) groups cache =
    write_cached n semester codes groups
      (set_cached semester code (section_rows (rows_of code groups)) cache)

-- The codes of the second loop, with rows of the database.
abbrev pub pick : List ℕ → List (ℕ × List Section) → List (ℕ × List Section)
pick [] groups = []
pick (code ∷ codes) groups =
    if is_empty (rows_of code groups)
    then pick codes groups
    else (code, rows_of code groups) ∷ pick codes groups

abbrev all_rows_of : List (ℕ × List Section) → List Section
all_rows_of [] = []
all_rows_of ((code, ss) ∷ groups) = ss ++ all_rows_of groups

-- What the database has of the missed codes; `order` is the order that the query asks for.
abbrev pub queried : (List Section → List Section) → Text → List ℕ → Db → List Section
queried order semester missed db =
    order (filter (λ s. has_id s.section_code missed && text_eq s.semester semester) db.sections)

abbrev pub grouped : List Section → List (ℕ × List Section)
grouped ss = push_all (λ a b. a == b) (λ s. s.section_code) ss []

abbrev pub after_cache :
    (List Section → List Section)
    → ℕ
    → Text
    → Db
    → Counters
    → Found
    → List (ℕ × List Section) × (SectionCache × Counters)
after_cache order reached semester db counters f =
    if is_empty f.missed
    then (f.hits, (f.cache, counters))
    else let groups = grouped (queried order semester f.missed db) in
      (
        f.hits ++ pick f.missed groups,
        (
          write_cached reached semester f.missed groups f.cache,
          set_all (take (reached - length f.missed) (slot_writes (all_rows_of groups))) counters,
        ),
      )

-- resolveSectionCodes: the rows by code, and what the pipeline of the cache leaves.
unfoldable pub resolve_section_codes :
    (List Section → List Section)
    → ℕ
    → List ℕ
    → Text
    → Db
    → SectionCache
    → Counters
    → List (ℕ × List Section) × (SectionCache × Counters)
resolve_section_codes order reached codes semester db cache counters =
    after_cache order reached semester db counters (read_cached semester codes cache)
