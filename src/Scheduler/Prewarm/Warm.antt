-- ===== src/Scheduler/Prewarm/Warm.antt =====
-- The caches that the prewarming fills, as the API reads them.
use do_an_tot_nghiep.Base.{
  ℕ, zero, suc, ◌+◌, ◌-◌, ◌≤◌, ◌≡◌, ◌⊎◌, refl, sym, ap, ◌∙◌, subst, inl, inr, Bool, true, false,
  ◌&&◌, Option, none, some, List, [], ◌∷◌, ◌==◌, ==_iff, any, filter, map, length, take_all, leb,
  All, All-map, Distinct, arith, Bool-cases,
}
use do_an_tot_nghiep.Base.Text.{Text, text_eq, text_eq_refl}
use do_an_tot_nghiep.Base.Groups.Entries.{push_all-entries, push_all-present}
use do_an_tot_nghiep.Store.{Db, Section}
use do_an_tot_nghiep.Shared.Counters.{Counters, set_all, slot_writes}
use do_an_tot_nghiep.Api.Settings.{SettingRow}
use do_an_tot_nghiep.Api.Registrations.Lookup.{
  Cached, SectionCache, section_rows, set_cached, grouped, is_empty, read_cached,
  resolve_section_codes,
}
use do_an_tot_nghiep.Api.Registrations.Fresh.{fresh_rows, filter-and}
use do_an_tot_nghiep.Scheduler.Agreement.{Shows, slot_writes-Shows}
use do_an_tot_nghiep.Scheduler.Reconcile.{of_semester}
use do_an_tot_nghiep.Scheduler.Prewarm.{
  Redis, Answers, healed, semester_rows, cache_groups, cache_sections, heal_if_needed, heal_section,
}

set_cached-same :
    (semester : Text) (k : ℕ) (v : Cached) (cache : SectionCache)
    → set_cached semester k v cache semester k ≡ v
unfolding set_cached
set_cached-same semester k v cache = ground (arith, text_eq_refl semester)

set_cached-other :
    (semester : Text) (c k : ℕ) (v : Cached) (cache : SectionCache)
    → (c == k) ≡ false
    → set_cached semester c v cache semester k ≡ cache semester k
unfolding set_cached
set_cached-other semester c k v cache h = ground arith

module _ (semester : Text) (F : ℕ → List Section) where
  -- The rows of its own key, written under any key of the semester.
  set_cached-right :
      (c k : ℕ) (items : List Section) (cache : SectionCache)
      → items ≡ F c
      → ((c == k) ≡ false → cache semester k ≡ section_rows (F k))
      → set_cached semester c (section_rows items) cache semester k ≡ section_rows (F k)
  set_cached-right c k items cache e before = elim (Bool-cases (c == k)) [
    | inl t ↦
        let same : c ≡ k = (==_iff c k).0 t in
        ap (λ j. set_cached semester c (section_rows items) cache semester j) (sym same)
        ∙ set_cached-same semester c (section_rows items) cache
        ∙ ap section_rows (e ∙ ap F same)
    | inr t ↦ set_cached-other semester c k (section_rows items) cache t ∙ before t
  ]

  -- A key of a group is given the group's rows.
  cache_groups-row :
      (n k : ℕ) (groups : List (ℕ × List Section)) (cache : SectionCache)
      → length groups ≤ n
      → All (λ e. e.1 ≡ F e.0) groups
      → (cache semester k ≡ section_rows (F k)) ⊎ (any (λ e. e.0 == k) groups ≡ true)
      → cache_groups n semester groups cache semester k ≡ section_rows (F k)
  unfolding cache_groups
  cache_groups-row zero k [] cache l h (inl c) = c
  cache_groups-row zero k [] cache l h (inr a) = absurd (cc)
  cache_groups-row (suc n) k [] cache l h (inl c) = c
  cache_groups-row (suc n) k [] cache l h (inr a) = absurd (cc)
  cache_groups-row zero k (e ∷ groups) cache l h d = absurd (omega arith)
  cache_groups-row (suc n) k ((code, items) ∷ groups) cache l h (inl c) =
      cache_groups-row n k groups (set_cached semester code (section_rows items) cache)
        (omega arith) h.1 (inl (set_cached-right code k items cache h.0 (λ t. c)))
  cache_groups-row (suc n) k ((code, items) ∷ groups) cache l h (inr a) =
      cache_groups-row n k groups (set_cached semester code (section_rows items) cache)
        (omega arith) h.1
        (elim (Bool-cases (code == k)) [
          | inl t ↦
              inl (set_cached-right code k items cache h.0 (λ f. absurd (ground (arith, t, f))))
          | inr t ↦ inr (ground (arith, a, t))
        ])

  -- Where every code is cached, the lookup has all rows from the cache.
  read_cached-warm :
      (codes : List ℕ) (cache : SectionCache)
      → All (λ c. (cache semester c ≡ section_rows (F c)) × (is_empty (F c) ≡ false)) codes
      → ((read_cached semester codes cache).hits ≡ map (λ c. (c, F c)) codes)
        × ((read_cached semester codes cache).missed ≡ [])
  unfolding read_cached
  read_cached-warm [] cache h = (refl, refl)
  read_cached-warm (c ∷ codes) cache h =
      let later = read_cached-warm codes (set_cached semester c (section_rows (F c)) cache) (
        All-map _ _ (λ k (e, rows). (set_cached-right c k (F c) cache refl (λ f. e), rows)) codes
          h.1) in
      simp (h.0.0, h.0.1) (ap (λ l. (c, F c) ∷ l) later.0, later.1)

any-filter :
    (p q : Section → Bool) (xs : List Section) → any p (filter q xs) ≡ any (λ x. p x && q x) xs
any-filter p q [] = refl
any-filter p q (x ∷ xs) = ground (arith, any-filter p q xs)

any-some : (p : Section → Bool) (xs : List Section) → any p xs ≡ true → is_empty xs ≡ false
any-some p [] h = absurd (cc)
any-some p (x ∷ xs) h = refl

length-slot_writes : (ss : List Section) → length (slot_writes ss) ≡ length ss
unfolding slot_writes
length-slot_writes [] = refl
length-slot_writes (s ∷ ss) = ap suc (length-slot_writes ss)

-- What the order of a query does: it leaves the rows as they are, and does not depend on which rows
-- the query has left out.
pub record Sorts (order : List Section → List Section) : Type 0 where
  pub same_rows : (p : Section → Bool) (xs : List Section) → any p (order xs) ≡ any p xs
  pub apart : (p : Section → Bool) (xs : List Section) → filter p (order xs) ≡ order (filter p xs)

module _ (order : List Section → List Section) (sorts : Sorts order) (semester : Text)
    (db : Db) where
  abbrev in_code : ℕ → Section → Bool
  in_code k s = s.section_code == k && text_eq s.semester semester

  code_rows :
      (k : ℕ)
      → filter (λ s. s.section_code == k) (semester_rows order semester db)
        ≡ fresh_rows order semester k db
  unfolding fresh_rows
  code_rows k = sorts.apart _ _ ∙ ap order (filter-and _ _ _ db.sections (λ s. refl))

  -- A code that has a section in the semester has rows.
  code_rows-some :
      (k : ℕ)
      → any (in_code k) db.sections ≡ true
      → is_empty (fresh_rows order semester k db) ≡ false
  code_rows-some k h =
      any-some (λ s. s.section_code == k) (fresh_rows order semester k db)
        (ap (any (λ s. s.section_code == k)) (sym (code_rows k))
          ∙ any-filter _ _ (semester_rows order semester db)
          ∙ sorts.same_rows _ _
          ∙ any-filter _ _ db.sections
          ∙ any-congr db.sections
          ∙ h)
    where
      any-congr :
          (xs : List Section)
          → any (λ s. (s.section_code == k && s.section_code == k) && of_semester semester s) xs
            ≡ any (in_code k) xs
      any-congr [] = refl
      any-congr (x ∷ xs) = ground (arith, any-congr xs)

  cache_sections-row :
      (reached k : ℕ) (r : Redis)
      → length (semester_rows order semester db)
          + length (grouped (semester_rows order semester db))
        ≤ reached
      → any (in_code k) db.sections ≡ true
      → (cache_sections order reached semester db r).cache semester k
        ≡ section_rows (fresh_rows order semester k db)
  unfolding cache_sections
  cache_sections-row reached k r l h =
      let rows = semester_rows order semester db in
      let present : any (λ s. s.section_code == k) rows ≡ true =
        sorts.same_rows _ _ ∙ any-filter _ _ db.sections ∙ h in
      cache_groups-row semester (λ c. fresh_rows order semester c db) (reached - length rows) k
        (grouped rows) r.cache (omega arith)
        (All-map _ _ (λ e entry. entry ∙ code_rows e.0) (grouped rows)
          (push_all-entries (λ a b. a == b) (λ s. s.section_code) ==_iff rows))
        (inr (push_all-present (λ a b. a == b) (λ s. s.section_code) ==_iff k rows present))

  -- The counters of the rows.
  cache_sections-Shows :
      (reached : ℕ) (r : Redis)
      → length (semester_rows order semester db) ≤ reached
      → Distinct (λ s. s.id) (semester_rows order semester db)
      → All
          (Shows (cache_sections order reached semester db r).counters)
          (semester_rows order semester db)
  unfolding cache_sections
  cache_sections-Shows reached r l d =
      let rows = semester_rows order semester db in
      subst (λ ws. All (Shows (set_all ws r.counters)) rows)
        (sym (
          take_all reached (slot_writes rows)
            (subst (λ n. n ≤ reached) (sym (length-slot_writes rows)) l)))
        (slot_writes-Shows rows r.counters d)

  -- A lookup of codes that have sections, at any later time, once their rows are cached.
  resolve_section_codes-warm :
      (reached : ℕ) (codes : List ℕ) (later : Db) (cache : SectionCache) (counters : Counters)
      → All
          (λ k.
            (cache semester k ≡ section_rows (fresh_rows order semester k db))
            × (is_empty (fresh_rows order semester k db) ≡ false))
          codes
      → (resolve_section_codes order reached codes semester later cache counters).0
        ≡ map (λ k. (k, fresh_rows order semester k db)) codes
  unfolding resolve_section_codes
  resolve_section_codes-warm reached codes later cache counters h =
      let read = read_cached-warm semester (λ k. fresh_rows order semester k db) codes cache h in
      rw read.1 read.0

module _ (order by_code : List Section → List Section) (now : ℕ) (answers : Answers)
    (row : SettingRow) (db : Db) (r : Redis) where
  heal_section-cache :
      (first : Option Section)
      → (heal_section order by_code now answers row.current_semester db r first).1 ≡ healed
      → (heal_section order by_code now answers row.current_semester db r first).0
        ≡ cache_sections order answers.reached row.current_semester db r
  heal_section-cache none h = absurd (cc)
  heal_section-cache (some s) h = ground arith

  -- The healing has run the prewarming.
  heal_if_needed-cache :
      (heal_if_needed order by_code now answers (some row) db r).1 ≡ healed
      → (heal_if_needed order by_code now answers (some row) db r).0
        ≡ cache_sections order answers.reached row.current_semester db r
  unfolding heal_if_needed
  heal_if_needed-cache h = elim (Bool-cases (leb row.registration_close_at now)) [
    | inl e ↦ let skipped = simp e at h in absurd (cc)
    | inr e ↦ simp e (heal_section-cache _ (simp e at h))
  ]

  -- For an order that keeps the rows and does not depend on which rows a query leaves out, once
  -- healIfNeeded has run the prewarming and all its commands have come to Redis,
  -- resolveSectionCodes has, for codes that have sections in the semester, exactly the rows that
  -- the query for each code gave at the time of the prewarming, whatever Redis held before it and
  -- whatever the tables are by then, as long as the keys of those codes hold what the prewarming
  -- wrote; and where the rows have different ids, each counter shows the seats that were left.
  pub heal_if_needed-resolve_section_codes :
      Sorts order
      → (heal_if_needed order by_code now answers (some row) db r).1 ≡ healed
      → length (semester_rows order row.current_semester db)
          + length (grouped (semester_rows order row.current_semester db))
        ≤ answers.reached
      → Distinct (λ s. s.id) (semester_rows order row.current_semester db)
      → (reached : ℕ) (codes : List ℕ) (later : Db) (cache : SectionCache) (counters : Counters)
      → All
          (λ k.
            cache row.current_semester k
            ≡ (heal_if_needed order by_code now answers (some row) db r).0.cache
                row.current_semester k)
          codes
      → All
          (λ k.
            any (λ s. s.section_code == k && text_eq s.semester row.current_semester) db.sections
            ≡ true)
          codes
      → let warm = (heal_if_needed order by_code now answers (some row) db r).0 in
        ((resolve_section_codes order reached codes row.current_semester later cache counters).0
          ≡ map (λ k. (k, fresh_rows order row.current_semester k db)) codes)
        × All (Shows warm.counters) (semester_rows order row.current_semester db)
  heal_if_needed-resolve_section_codes sorts h enough distinct reached codes later cache counters
        kept known =
      let held =
        All-map _ _ (λ k e. e ∙ ap (λ w. w.cache row.current_semester k) (heal_if_needed-cache h))
          codes kept in
      rw (heal_if_needed-cache h) (
        resolve_section_codes-warm order sorts row.current_semester db reached codes later cache
            counters (held_rows codes held known),
        cache_sections-Shows order sorts row.current_semester db answers.reached r
            (omega (arith, enough)) distinct,
      )
    where
      held_rows :
          (ks : List ℕ)
          → All
              (λ k.
                cache row.current_semester k
                ≡ (cache_sections order answers.reached row.current_semester db r).cache
                    row.current_semester k)
              ks
          → All (λ k. any (in_code order sorts row.current_semester db k) db.sections ≡ true) ks
          → All
              (λ k.
                (cache row.current_semester k
                  ≡ section_rows (fresh_rows order row.current_semester k db))
                × (is_empty (fresh_rows order row.current_semester k db) ≡ false))
              ks
      held_rows [] a b = tt
      held_rows (k ∷ ks) a b = (
        (
          a.0
              ∙ cache_sections-row order sorts row.current_semester db answers.reached k r enough
                  b.0,
          code_rows-some order sorts row.current_semester db k b.0,
        ),
        held_rows ks a.1 b.1,
      )
