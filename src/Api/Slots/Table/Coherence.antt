-- ===== src/Api/Slots/Table/Coherence.antt =====
-- What the writes and the reads of the slots keep of the table and of its caches.
use do_an_tot_nghiep.Base.{
  ℕ, true, false, not, some, List, [], ◌∷◌, ◌++◌, append-nil, ◌≡◌, ◌≢◌, sym, ◌∙◌, subst, ==_iff,
  find, filter, filter-append, All, All-map, All-filter, All-update_where_keep, Distinct,
  Distinct-update_where, update_where, arith, Bool-cases, inl, inr,
}
use do_an_tot_nghiep.Base.Rows.{
  filter-update_where, filter-filter, Distinct-filter, All-snoc, Distinct-snoc, find-only,
}
use do_an_tot_nghiep.Base.Text.{Text, text_eq, eq_of-text_eq, text_eq_refl}
use do_an_tot_nghiep.Shared.SlotWindow.{Engine}
use do_an_tot_nghiep.Api.ReadThrough.Fresh.{IsCoherent}
use do_an_tot_nghiep.Api.Slots.{Slot}
use do_an_tot_nghiep.Api.Slots.Accepted.{IsSlot}
use do_an_tot_nghiep.Api.Slots.Table.{
  Store, Caches, clear_cache, has_id, in_semester, load, cleared_too,
}

text_eq_sym : (a b : Text) → text_eq a b ≡ false → text_eq b a ≡ false
text_eq_sym a b h = elim (Bool-cases (text_eq b a)) [
  | inr e ↦ e
  | inl e ↦
      absurd
        (ground (arith, subst (λ t. text_eq a t ≡ false) (eq_of-text_eq b a e) h, text_eq_refl a))
]

module _ (engine : Engine) (order : List Slot → List Slot) where
  -- The rows are valid and have their own ids, and each cache is empty or holds the rows of its semester.
  pub record IsGood (st : Store) : Type 0 where
    pub valid : All (IsSlot engine) st.rows
    pub distinct : Distinct (λ s. s.id) st.rows
    pub coherent : (t : Text) → IsCoherent (load order t st.rows) (st.caches t)

  -- Rows that read the same in every semester but one, where its cache is cleared.
  clear_cache-IsCoherent :
      (rows rows' : List Slot) (caches : Caches) (a : Text)
      → ((t : Text)
          → text_eq t a ≡ false
          → filter (in_semester t) rows' ≡ filter (in_semester t) rows)
      → ((t : Text) → IsCoherent (load order t rows) (caches t))
      → (t : Text) → IsCoherent (load order t rows') (clear_cache true a caches t)
  unfolding clear_cache
  clear_cache-IsCoherent rows rows' caches a same c t = elim (Bool-cases (text_eq t a)) [
    | inl e ↦ rw e tt
    | inr e ↦ rw (e, same t e) (c t)
  ]

  -- As it stands after one DEL, or after two where a row has changed its semester.
  cleared_too-IsCoherent :
      (rows rows' : List Slot) (caches : Caches) (current s : Slot)
      → ((t : Text)
          → text_eq t current.semester ≡ false
          → text_eq t s.semester ≡ false
          → filter (in_semester t) rows' ≡ filter (in_semester t) rows)
      → ((t : Text) → IsCoherent (load order t rows) (caches t))
      → (t : Text)
      → IsCoherent
          (load order t rows')
          (cleared_too true current s (clear_cache true current.semester caches) t)
  unfolding clear_cache
  cleared_too-IsCoherent rows rows' caches current s same c t =
      elim (Bool-cases (text_eq s.semester current.semester)) [
        | inl e ↦ rw e (elim (Bool-cases (text_eq t current.semester)) [
          | inl f ↦ rw f tt
          | inr f ↦
              rw (f, same t f (subst (λ x. text_eq t x ≡ false) (sym (eq_of-text_eq _ _ e)) f))
                (c t)
        ])
        | inr e ↦ rw e (elim (Bool-cases (text_eq t s.semester)) [
          | inl g ↦ rw g tt
          | inr g ↦ rw g (elim (Bool-cases (text_eq t current.semester)) [
            | inl f ↦ rw f tt
            | inr f ↦ rw (f, same t f g) (c t)
          ])
        ])
      ]

  pub created-IsGood :
      (s : Slot) (st : Store)
      → IsSlot engine s
      → All (λ r. r.id ≢ s.id) st.rows
      → IsGood st
      → IsGood (record { rows = st.rows ++ s ∷ []; caches = clear_cache true s.semester st.caches })
  created-IsGood s st v fresh g = record {
    valid = All-snoc (IsSlot engine) st.rows s g.valid v;
    distinct = Distinct-snoc (λ r. r.id) st.rows s g.distinct fresh;
    coherent =
        clear_cache-IsCoherent st.rows (st.rows ++ s ∷ []) st.caches s.semester
          (λ t e.
            rw (filter-append (in_semester t) st.rows (s ∷ []), text_eq_sym t s.semester e)
              (append-nil _))
          g.coherent;
  }

  pub removed-IsGood :
      (current : Slot) (id : ℕ) (st : Store)
      → find (has_id id) st.rows ≡ some current
      → IsGood st
      → IsGood (record {
        rows = filter (λ s. not (has_id id s)) st.rows;
        caches = clear_cache true current.semester st.caches;
      })
  removed-IsGood current id st hit g = record {
    valid = All-filter (IsSlot engine) _ st.rows g.valid;
    distinct = Distinct-filter (λ r. r.id) _ st.rows g.distinct;
    coherent =
        clear_cache-IsCoherent st.rows _ st.caches current.semester
          (λ t e. filter-filter (in_semester t) (has_id id) st.rows (
            All-map _ _ (λ r only h. rw (only h) (text_eq_sym t current.semester e)) st.rows
              (find-only (λ r. r.id) id current st.rows g.distinct hit)))
          g.coherent;
  }

  pub updated-IsGood :
      (current s : Slot) (st : Store)
      → find (has_id current.id) st.rows ≡ some current
      → IsSlot engine s
      → s.id ≡ current.id
      → IsGood st
      → IsGood (record {
        rows = update_where (has_id current.id) (λ _. s) st.rows;
        caches = cleared_too true current s (clear_cache true current.semester st.caches);
      })
  updated-IsGood current s st hit v same g = record {
    valid = All-update_where_keep (IsSlot engine) _ _ (λ _ _ _. v) st.rows g.valid;
    distinct =
        Distinct-update_where (λ r. r.id) _ _ (λ r h. same ∙ sym ((==_iff _ _).0 h)) st.rows
          g.distinct;
    coherent =
        cleared_too-IsCoherent st.rows _ st.caches current s
          (λ t e f.
            filter-update_where (in_semester t) (has_id current.id) (λ _. s) st.rows
              (All-map _ _
                (λ r only h.
                  (rw (only h) (text_eq_sym t current.semester e), text_eq_sym t s.semester f))
                st.rows (find-only (λ r. r.id) current.id current st.rows g.distinct hit)))
          g.coherent;
  }
