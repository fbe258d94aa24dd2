-- ===== src/Api/Users/WriteExamples.antt =====
-- An account gets another code, and the accounts are read page by page.
use do_an_tot_nghiep.Base.{
  ℕ, ◌≡◌, ◌≤◌, refl, inl, inr, Bool, Bool-cases, true, none, some, List, [], ◌∷◌, if◌then◌else◌,
  leb, length, filter, All, All-map, Pairs, arith,
}
use do_an_tot_nghiep.Base.Text.{Text, codes, text_eq}
use do_an_tot_nghiep.Base.Chars.{trim, is_space, skip_spaces, trim_end}
use do_an_tot_nghiep.Worker.Action.{answered}
use do_an_tot_nghiep.Api.Users.{UserInput}
use do_an_tot_nghiep.Api.Users.Imported.{Apart}
use do_an_tot_nghiep.Api.Users.Examples.{plain, account, before}
use do_an_tot_nghiep.Api.Users.Writes.{UpdateUser, updated, others, find_user, update_user}
use do_an_tot_nghiep.Api.Users.Updated.{update_user-find_user}
use mathlib.Core.List.{Permᴰ}
use mathlib.Core.List.Permᴰ
use do_an_tot_nghiep.Api.Users.Sorted.{UserRecord, Orders}
use do_an_tot_nghiep.Api.Users.Pages.{
  QueryUsers, is_asked, pages_from, find_users, find_users-pages,
}

abbrev renamed : UpdateUser
renamed = record {
  student_code = some (codes " 7 ");
  name = none;
  email = none;
  password = none;
  role = none;
  course_year = none;
  department = none;
  is_active = none;
}

abbrev changed : UserInput
changed = account (codes "7") (codes "z@x.vn")

abbrev after : List UserInput
after = account (codes "8") (codes "y@x.vn") ∷ changed ∷ []

update_user-find_user_example :
    (find_user (codes "7") after ≡ some changed)
    × (others (codes "7") after ≡ others (trim (codes " 9")) before)
    × Pairs Apart after
unfolding update_user find_user updated text_eq trim is_space skip_spaces trim_end
update_user-find_user_example =
    update_user-find_user plain (codes "0f") (codes " 9") renamed answered before after changed
      (((refl, refl), tt), (tt, tt)) refl

abbrev all_users : QueryUsers
all_users = record {
  page = none;
  limit = some 1;
  q = none;
  role = none;
  course_year = none;
  department = none;
  is_active = none;
}

abbrev contains : Text → Text → Bool
contains a b = true

-- The earlier row stands first in the table.
abbrev records : List UserRecord
records =
    record { user = account (codes "8") (codes "y@x.vn"); created_at = 5 }
    ∷ record { user = account (codes "9") (codes "z@x.vn"); created_at = 6 }
    ∷ []

abbrev insert : UserRecord → List UserRecord → List UserRecord
insert a [] = a ∷ []
insert a (b ∷ bs) = if leb b.created_at a.created_at then a ∷ b ∷ bs else b ∷ insert a bs

abbrev by_created_at : List UserRecord → List UserRecord
by_created_at [] = []
by_created_at (a ∷ rest) = insert a (by_created_at rest)

insert-rearranged : (a : UserRecord) (bs : List UserRecord) → Permᴰ (a ∷ bs) (insert a bs)
insert-rearranged a [] = Permᴰ.refl (a ∷ [])
insert-rearranged a (b ∷ bs) = elim (Bool-cases (leb b.created_at a.created_at)) [
  | inl e ↦ rw e (Permᴰ.refl (a ∷ b ∷ bs))
  | inr e ↦ rw e (Permᴰ.trans (Permᴰ.swap refl refl) (Permᴰ.cons refl (insert-rearranged a bs)))
]

insert-All :
    (P : UserRecord → Type 0) (a : UserRecord) (bs : List UserRecord)
    → P a
    → All P bs
    → All P (insert a bs)
insert-All P a [] p h = (p, tt)
insert-All P a (b ∷ bs) p h = elim (Bool-cases (leb b.created_at a.created_at)) [
  | inl e ↦ rw e (p, h)
  | inr e ↦ rw e (h.0, insert-All P a bs p h.1)
]

insert-sorted :
    (a : UserRecord) (bs : List UserRecord)
    → Pairs (λ x y. y.created_at ≤ x.created_at) bs
    → Pairs (λ x y. y.created_at ≤ x.created_at) (insert a bs)
insert-sorted a [] h = (tt, tt)
insert-sorted a (b ∷ bs) h = elim (Bool-cases (leb b.created_at a.created_at)) [
  | inl e ↦
      let below : b.created_at ≤ a.created_at = ground (arith, e) in
      rw e (
        (
          below,
          All-map (λ y. y.created_at ≤ b.created_at) (λ y. y.created_at ≤ a.created_at)
              (λ y l. omega (arith, l, below)) bs h.0,
        ),
        h,
      )
  | inr e ↦
      let above : a.created_at ≤ b.created_at = ground (arith, e) in
      rw e (insert-All (λ y. y.created_at ≤ b.created_at) a bs above h.0, insert-sorted a bs h.1)
]

by_created_at-Orders : Orders by_created_at
by_created_at-Orders = record { rearranged = rearranged; sorted = sorted }
  where
    rearranged : (xs : List UserRecord) → Permᴰ xs (by_created_at xs)
    rearranged [] = Permᴰ.nil
    rearranged (x ∷ xs) =
        Permᴰ.trans (Permᴰ.cons refl (rearranged xs)) (insert-rearranged x (by_created_at xs))

    sorted : (xs : List UserRecord) → Pairs (λ x y. y.created_at ≤ x.created_at) (by_created_at xs)
    sorted [] = tt
    sorted (x ∷ xs) = insert-sorted x (by_created_at xs) (sorted xs)

abbrev orders : ℕ → List UserRecord → List UserRecord
orders p = by_created_at

find_users-pages_example :
    (pages_from contains orders all_users records
        (find_users contains by_created_at all_users records).total_pages
        1
      ≡ by_created_at (filter (λ a. is_asked contains all_users a.user) records))
    × (length (find_users contains by_created_at all_users records).items
        ≤ (find_users contains by_created_at all_users records).limit)
find_users-pages_example =
    find_users-pages contains orders all_users records (omega arith) (λ p. by_created_at-Orders)
      (ground arith)
