-- ===== src/Api/Registrations/Fresh.antt =====
-- resolveSectionCodes against the query that it spares.
use do_an_tot_nghiep.Base.{
  ℕ, Bool, true, false, ◌&&◌, List, [], ◌∷◌, ◌++◌, append-nil, ◌≡◌, ◌⊎◌, inl, inr, refl, sym, ap,
  ◌∙◌, subst, if◌then◌else◌, ◌==◌, ==_iff, filter, arith, Bool-cases,
}
use mathlib.Core.List.{append_assoc}
use do_an_tot_nghiep.Base.Text.{Text, text_eq}
use do_an_tot_nghiep.Base.Groups.{push, push_all, group-push}
use do_an_tot_nghiep.Store.{Db, Section}
use do_an_tot_nghiep.Shared.Counters.{Counters, has_id}
use do_an_tot_nghiep.Api.Registrations.Lookup.{
  Cached, failed, nothing, unreadable, section_rows, SectionCache, Found, set_cached, cached_rows,
  kept_or_deleted, is_empty, with_code, read_cached, rows_of, pick, queried, grouped, after_cache,
  resolve_section_codes,
}

abbrev same_code : ℕ → ℕ → Bool
same_code a b = a == b

-- The groups of the rows, by code.
group-push_all :
    (k : ℕ) (ss : List Section) (groups : List (ℕ × List Section))
    → rows_of k (push_all same_code (λ s. s.section_code) ss groups)
      ≡ rows_of k groups ++ filter (λ s. s.section_code == k) ss
group-push_all k [] groups = sym (append-nil _)
group-push_all k (s ∷ ss) groups =
    group-push_all k ss (push same_code (λ t. t.section_code) s.section_code s groups)
    ∙ rw (group-push same_code (λ t. t.section_code) ==_iff k s.section_code s groups)
        (elim (Bool-cases (s.section_code == k)) [
          | inl e ↦ rw e (append_assoc (rows_of k groups) (s ∷ []) _)
          | inr e ↦ rw e refl
        ])

rows_of-grouped :
    (k : ℕ) (ss : List Section) → rows_of k (grouped ss) ≡ filter (λ s. s.section_code == k) ss
rows_of-grouped k ss = group-push_all k ss []

empty_list : {A : Type 0} (xs : List A) → is_empty xs ≡ true → xs ≡ []
empty_list [] h = refl
empty_list (x ∷ xs) h = absurd (cc)

skipped :
    (k c : ℕ) (codes : List ℕ) (groups : List (ℕ × List Section))
    → is_empty (rows_of c groups) ≡ true
    → (if has_id k codes then rows_of k groups else [])
      ≡ (if has_id k (c ∷ codes) then rows_of k groups else [])
skipped k c codes groups e = elim (Bool-cases (c == k)) [
  | inr t ↦ rw t refl
  | inl t ↦
      let none_of : rows_of k groups ≡ [] =
        subst (λ j. rows_of j groups ≡ []) ((==_iff c k).0 t) (empty_list (rows_of c groups) e) in
      rw (t, none_of) (elim (Bool-cases (has_id k codes)) [ inl u ↦ rw u refl | inr u ↦ rw u refl ])
]

-- What the second loop has of a code.
rows_of-pick :
    (k : ℕ) (codes : List ℕ) (groups : List (ℕ × List Section))
    → rows_of k (pick codes groups) ≡ (if has_id k codes then rows_of k groups else [])
rows_of-pick k [] groups = refl
rows_of-pick k (c ∷ codes) groups = elim (Bool-cases (is_empty (rows_of c groups))) [
  | inl e ↦ rw e (rows_of-pick k codes groups ∙ skipped k c codes groups e)
  | inr e ↦ rw e (elim (Bool-cases (c == k)) [
    | inl t ↦ rw t (ap (λ j. rows_of j groups) ((==_iff c k).0 t))
    | inr t ↦ rw t (rows_of-pick k codes groups)
  ])
]

pub filter-and :
    (p q r : Section → Bool) (xs : List Section)
    → ((x : Section) → (p x && q x) ≡ r x)
    → filter p (filter q xs) ≡ filter r xs
filter-and p q r [] h = refl
filter-and p q r (x ∷ xs) h = ground (arith, h x, filter-and p q r xs h)

module _ (order : List Section → List Section) where
  -- The rows of a code in a semester, as the database has them.
  unfoldable pub fresh_rows : Text → ℕ → Db → List Section
  fresh_rows semester code db =
      order (filter (λ s. s.section_code == code && text_eq s.semester semester) db.sections)

  -- Each cached value that holds rows holds those of the database.
  abbrev pub IsRight : Text → Db → SectionCache → Type 0
  IsRight semester db cache =
      (k : ℕ)
      → (cached_rows (cache semester k) ≡ [])
        ⊎ (cached_rows (cache semester k) ≡ fresh_rows semester k db)

module _ (order : List Section → List Section)
    (order-filter : (p : Section → Bool) (xs : List Section)
      → filter p (order xs) ≡ order (filter p xs)) where
  has_id-code :
      (k c : ℕ) (codes : List ℕ) → has_id k codes ≡ true → (c == k) ≡ true → has_id c codes ≡ true
  has_id-code k c codes h e = subst (λ j. has_id j codes ≡ true) (sym ((==_iff c k).0 e)) h

  queried-fresh :
      (semester : Text) (k : ℕ) (codes : List ℕ) (db : Db)
      → has_id k codes ≡ true
      → filter (λ s. s.section_code == k) (queried order semester codes db)
        ≡ fresh_rows order semester k db
  unfolding fresh_rows
  queried-fresh semester k codes db h =
      order-filter _ _
      ∙ ap order
          (filter-and _ _ _ db.sections (λ s. ground (arith, has_id-code k s.section_code codes h)))

  kept_rows : (v : Cached) → cached_rows (kept_or_deleted v) ≡ cached_rows v
  kept_rows failed = refl
  kept_rows nothing = refl
  kept_rows unreadable = refl
  kept_rows (section_rows ss) = refl

  set_cached-rows :
      (semester : Text) (c k : ℕ) (cache : SectionCache)
      → cached_rows (set_cached semester c (kept_or_deleted (cache semester c)) cache semester k)
        ≡ cached_rows (cache semester k)
  unfolding set_cached
  set_cached-rows semester c k cache = elim (Bool-cases (text_eq semester semester && k == c)) [
    | inl e ↦ rw e (
        kept_rows (cache semester c)
        ∙ ap (λ j. cached_rows (cache semester j)) (sym ((==_iff k c).0 (ground arith))))
    | inr e ↦ rw e refl
  ]

  set_cached-IsRight :
      (semester : Text) (c : ℕ) (db : Db) (cache : SectionCache)
      → IsRight order semester db cache
      → IsRight order semester db (set_cached semester c (kept_or_deleted (cache semester c)) cache)
  set_cached-IsRight semester c db cache h k = rw (set_cached-rows semester c k cache) (h k)

  -- The rows of a code that the cache had, or that it was missed.
  abbrev Had : Text → ℕ → List ℕ → Db → List (ℕ × List Section) → Found → Type 0
  Had semester k codes db rest f =
      (rows_of k (f.hits ++ rest) ≡ fresh_rows order semester k db)
      ⊎ ((rows_of k (f.hits ++ rest) ≡ rows_of k rest)
          × (has_id k codes ≡ true → has_id k f.missed ≡ true))

  nonempty-fresh : (ss ss' : List Section) → is_empty ss ≡ false → (ss ≡ []) ⊎ (ss ≡ ss') → ss ≡ ss'
  nonempty-fresh ss ss' e (inr h) = h
  nonempty-fresh ss ss' e (inl h) = absurd (ground (arith, ap is_empty h))

  with_code-Had :
      (semester : Text) (k c : ℕ) (codes : List ℕ) (db : Db) (rest : List (ℕ × List Section))
      (ss : List Section) (f : Found)
      → (ss ≡ []) ⊎ (ss ≡ fresh_rows order semester c db)
      → Had semester k codes db rest f
      → Had semester k (c ∷ codes) db rest (with_code c ss f)
  with_code-Had semester k c codes db rest ss f right had = elim (Bool-cases (is_empty ss)) [
    | inl e ↦ rw e (missing had)
    | inr e ↦ rw e (elim (Bool-cases (c == k)) [
      | inl t ↦ inl (
          rw t (
            nonempty-fresh ss (fresh_rows order semester c db) e right
            ∙ ap (λ j. fresh_rows order semester j db) ((==_iff c k).0 t)))
      | inr t ↦ rw t had
    ])
  ]
    where
      missing :
          Had semester k codes db rest f
          → Had semester k
              (c ∷ codes)
              db
              rest
              (record { hits = f.hits; missed = c ∷ f.missed; cache = f.cache })
      missing (inl h) = inl h
      missing (inr (h, imp)) = inr (h, λ m. ground (arith, imp))

  read_cached-Had :
      (semester : Text) (codes : List ℕ) (db : Db) (cache : SectionCache) (k : ℕ)
      (rest : List (ℕ × List Section))
      → IsRight order semester db cache
      → Had semester k codes db rest (read_cached semester codes cache)
  unfolding read_cached
  read_cached-Had semester [] db cache k rest h = inr (refl, λ m. m)
  read_cached-Had semester (c ∷ codes) db cache k rest h =
      with_code-Had semester k c codes db rest (cached_rows (cache semester c)) _ (h c) (
        read_cached-Had semester codes db
          (set_cached semester c (kept_or_deleted (cache semester c)) cache) k rest
          (set_cached-IsRight semester c db cache h))

  after_cache-fresh :
      (reached : ℕ) (semester : Text) (db : Db) (counters : Counters) (k : ℕ) (codes : List ℕ)
      (f : Found)
      → ((rest : List (ℕ × List Section)) → Had semester k codes db rest f)
      → has_id k codes ≡ true
      → rows_of k (after_cache order reached semester db counters f).0
        ≡ fresh_rows order semester k db
  after_cache-fresh reached semester db counters k codes f had m =
      elim (Bool-cases (is_empty f.missed)) [
        | inl e ↦ rw e (all_hit e (had []))
        | inr e ↦
            rw e (some_missed (had (pick f.missed (grouped (queried order semester f.missed db)))))
      ]
    where
      all_hit :
          is_empty f.missed ≡ true
          → Had semester k codes db [] f
          → rows_of k f.hits ≡ fresh_rows order semester k db
      all_hit e (inl h) =
          subst (λ l. rows_of k l ≡ fresh_rows order semester k db) (append-nil f.hits) h
      all_hit e (inr (h, imp)) =
          absurd (ground (arith, ap (has_id k) (empty_list f.missed e), imp m))

      some_missed :
          Had semester k codes db (pick f.missed (grouped (queried order semester f.missed db))) f
          → rows_of k (f.hits ++ pick f.missed (grouped (queried order semester f.missed db)))
            ≡ fresh_rows order semester k db
      some_missed (inl h) = h
      some_missed (inr (h, imp)) =
          h
          ∙ rows_of-pick k f.missed (grouped (queried order semester f.missed db))
          ∙ rw (imp m) (
              rows_of-grouped k (queried order semester f.missed db)
              ∙ queried-fresh semester k f.missed db (imp m))

  -- Where the order of the query does not depend on which rows it has left out, and every cached
  -- value of the semester that holds rows holds those of the database, resolveSectionCodes gives
  -- for each requested code the rows that the query for that code alone gives, whether they come
  -- from the cache or from the database.
  pub resolve_section_codes-fresh :
      (reached : ℕ) (codes : List ℕ) (semester : Text) (db : Db) (cache : SectionCache)
      (counters : Counters) (k : ℕ)
      → IsRight order semester db cache
      → has_id k codes ≡ true
      → rows_of k (resolve_section_codes order reached codes semester db cache counters).0
        ≡ fresh_rows order semester k db
  unfolding resolve_section_codes
  resolve_section_codes-fresh reached codes semester db cache counters k right m =
      after_cache-fresh reached semester db counters k codes (read_cached semester codes cache)
        (λ rest. read_cached-Had semester codes db cache k rest right) m
