-- ===== src/Api/Registrations/Held.antt =====
-- What find_active_registration_items finds: registrations that hold a seat.
use do_an_tot_nghiep.Base.{
  ℕ, Bool, true, false, ◌&&◌, Option, none, some, List, [], ◌∷◌, ◌++◌, ◌≡◌, ◌≢◌, refl, sym, ap, ◌∙◌,
  inl, inr, ◌==◌, any, filter, find, map, All, All-map, All-zip, Distinct, Bool-cases, arith,
}
use do_an_tot_nghiep.Base.Rows.{All-snoc}
use do_an_tot_nghiep.Base.Text.{Text}
use do_an_tot_nghiep.Store.{Db, Section, Item, Batch, is_success}
use do_an_tot_nghiep.Worker.Statements.{item_is}
use do_an_tot_nghiep.Worker.Registrations.{HasKeys, is_created_in}
use do_an_tot_nghiep.Api.Registrations.{last_item_of, set_id}
use do_an_tot_nghiep.Api.Registrations.Active.{
  Registration, in_create_batch, in_sections, with_sections, first_by_section, of_section,
  successful_items, find_active_registration_items, joined, section_with,
}

-- A row that holds a seat of the student.
pub record IsHeld (db : Db) (i : Item) : Type 0 where
  pub found : find (item_is i.id) db.items ≡ some i
  pub created : is_created_in db.batches i ≡ true
  pub held : is_success i.status ≡ true

found_itself :
    (xs : List Item) → Distinct (λ i. i.id) xs → All (λ i. find (item_is i.id) xs ≡ some i) xs
found_itself [] d = tt
found_itself (x ∷ xs) d = (
  ground arith,
  All-map _ _ (λ i (ne, e). ground (arith, ne, e)) xs (All-zip _ _ xs d.0 (found_itself xs d.1)),
)

in_create_batch-miss :
    (user : ℕ) (semester : Text) (batches : List Batch) (i : Item)
    → All (λ b. b.id ≢ i.batch_id) batches
    → in_create_batch user semester batches i ≡ false
in_create_batch-miss user semester [] i h = refl
in_create_batch-miss user semester (b ∷ batches) i h =
    ground (arith, h.0, in_create_batch-miss user semester batches i h.1)

in_create_batch-created :
    (user : ℕ) (semester : Text) (batches : List Batch) (i : Item)
    → Distinct (λ b. b.id) batches
    → in_create_batch user semester batches i ≡ true
    → is_created_in batches i ≡ true
unfolding is_created_in
in_create_batch-created user semester [] i d h = absurd (cc)
in_create_batch-created user semester (b ∷ batches) i d h = elim (Bool-cases (b.id == i.batch_id)) [
  | inl e ↦
      let id : b.id ≡ i.batch_id = ground arith in
      let none_later =
        in_create_batch-miss user semester batches i
          (All-map _ _ (λ c ne same. ne (same ∙ sym id)) batches d.0) in
      ground (arith, e, none_later, h)
  | inr e ↦
      rw (e, is_created_in)
        (in_create_batch-created user semester batches i d.1 (ground (arith, e, h)))
]

filter-All {κ} :
    {A : Type 0} (P : A → Type κ) (p : A → Bool) (xs : List A)
    → All P xs
    → All (λ x. (p x ≡ true) × P x) (filter p xs)
filter-All P p [] h = tt
filter-All P p (x ∷ xs) h = elim (Bool-cases (p x)) [
  | inl e ↦ rw e ((e, h.0), filter-All P p xs h.1)
  | inr e ↦ rw e (filter-All P p xs h.1)
]

module _ (P : Item → Type 0) where
  with_sections-All :
      (sections : List Section) (items : List Item)
      → All P items
      → All (λ (r : Registration). P r.0) (with_sections sections items)
  unfolding with_sections
  with_sections-All sections [] h = tt
  with_sections-All sections (i ∷ items) h =
      joined-All (section_with i.class_section_id sections) (with_sections-All sections items h.1)
    where
      joined-All :
          (o : Option Section)
          → All (λ (r : Registration). P r.0) (with_sections sections items)
          → All (λ (r : Registration). P r.0) (joined i o ++ with_sections sections items)
      joined-All none rest = rest
      joined-All (some s) rest = (h.0, rest)

  first_by_section-All :
      (seen rs : List Registration)
      → All (λ (r : Registration). P r.0) seen
      → All (λ (r : Registration). P r.0) rs
      → All (λ (r : Registration). P r.0) (first_by_section seen rs)
  unfolding first_by_section
  first_by_section-All seen [] h k = h
  first_by_section-All seen (r ∷ rs) h k = elim (Bool-cases (any (of_section r.1.id) seen)) [
    | inl e ↦ rw e (first_by_section-All seen rs h k.1)
    | inr e ↦ rw e (first_by_section-All (seen ++ r ∷ []) rs (All-snoc _ seen r h k.0) k.1)
  ]

-- A registration of a section with this id.
abbrev Source : Db → ℕ → ℕ → Type 0
Source db k s = (i : Item) × IsHeld db i × (i.id ≡ s) × (i.class_section_id ≡ some k)

set_id-Source :
    (db : Db) (k s : ℕ) (i : Item) (section found : Option ℕ)
    → IsHeld db i
    → i.class_section_id ≡ section
    → (found ≡ some s → Source db k s)
    → set_id section i.id k found ≡ some s
    → Source db k s
set_id-Source db k s i none found h c before e = before e
set_id-Source db k s i (some j) found h c before e = elim (Bool-cases (j == k)) [
  | inl t ↦ (i, h, ground arith, c ∙ ap some (ground arith))
  | inr f ↦ before (ground arith)
]

-- What the message calls the registration of a section.
pub last_item_of-Source :
    (db : Db) (k s : ℕ) (rs : List Registration) (found : Option ℕ)
    → All (λ (r : Registration). IsHeld db r.0) rs
    → (found ≡ some s → Source db k s)
    → last_item_of k (map (λ r. r.0) rs) found ≡ some s
    → Source db k s
unfolding last_item_of
last_item_of-Source db k s [] found h before e = before e
last_item_of-Source db k s (r ∷ rs) found h before e =
    last_item_of-Source db k s rs (set_id r.0.class_section_id r.0.id k found) h.1
      (set_id-Source db k s r.0 r.0.class_section_id found h.0 refl before) e

-- The order of a query adds no rows.
abbrev pub AddsNone : (List Item → List Item) → Type 1
AddsNone order = (P : Item → Type 0) (xs : List Item) → All P xs → All P (order xs)

pub active-IsHeld :
    (order : List Item → List Item) (user : ℕ) (semester : Text) (ids : Option (List ℕ)) (db : Db)
    → AddsNone order
    → HasKeys db
    → Distinct (λ b. b.id) db.batches
    → All
        (λ (r : Registration). IsHeld db r.0)
        (find_active_registration_items order user semester ids db)
unfolding find_active_registration_items
active-IsHeld order user semester ids db adds keys batches =
    first_by_section-All (IsHeld db) [] _ tt (
      with_sections-All (IsHeld db) db.sections (successful_items order user semester ids db) (
        adds (IsHeld db) _ (
          All-map _ _
            (λ i (t, f). record {
              found = f;
              created = in_create_batch-created user semester db.batches i batches (ground arith);
              held = ground arith;
            })
            _
            (filter-All (λ i. find (item_is i.id) db.items ≡ some i)
              (λ i.
                is_success i.status
                && in_sections ids i.class_section_id
                && in_create_batch user semester db.batches i)
              db.items (found_itself db.items keys.1)))))
