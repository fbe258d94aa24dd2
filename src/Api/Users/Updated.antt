-- ===== src/Api/Users/Updated.antt =====
-- An account after an update, as it is looked up by its code.
use do_an_tot_nghiep.Base.{
  ◌≡◌, refl, sym, ap, ◌∙◌, subst, inl, inr, Bool, true, false, Option, none, some, List, [], ◌∷◌,
  any, find, find-holds, All, All-map, Pairs, arith, Bool-cases, Option-cases,
}
use do_an_tot_nghiep.Base.Text.{Text, text_eq, text_eq_refl, eq_of-text_eq}
use do_an_tot_nghiep.Base.Chars.{trim}
use do_an_tot_nghiep.Base.Trim.{trim_idem}
use do_an_tot_nghiep.Worker.Action.{Outcome, answered, refused, lost}
use do_an_tot_nghiep.Api.Users.{TextEngine, UserInput, is_taken, shares_key}
use do_an_tot_nghiep.Api.Users.Imported.{Apart, untaken-Apart, shares_key_sym}
use do_an_tot_nghiep.Api.Users.Writes.{
  UpdateUser, UserError, done, has_student_code, change, updated, replaced, others, write_user,
  find_user, update_user,
}

others-untaken :
    (code : Text) (u a : UserInput) (rest : List UserInput)
    → is_taken u (others code (a ∷ rest)) ≡ false
    → is_taken u (others code rest) ≡ false
others-untaken code u a rest h = ground arith

module _ (code : Text) (u : UserInput) where
  replaced-find :
      (accounts : List UserInput)
      → any (has_student_code code) accounts ≡ true
      → is_taken u (others code accounts) ≡ false
      → find (has_student_code u.student_code) (replaced code u accounts) ≡ some u
  replaced-find [] h t = absurd (cc)
  replaced-find (a ∷ rest) h t = elim (Bool-cases (has_student_code code a)) [
    | inl e ↦ rw (e, text_eq_refl u.student_code) refl
    | inr e ↦ ground (arith, e, replaced-find rest, t)
  ]

  others-replaced :
      (accounts : List UserInput)
      → is_taken u (others code accounts) ≡ false
      → others u.student_code (replaced code u accounts) ≡ others code accounts
  others-replaced [] t = refl
  others-replaced (a ∷ rest) t = elim (Bool-cases (has_student_code code a)) [
    | inl e ↦ ground (arith, e, text_eq_refl u.student_code, others-replaced rest, t)
    | inr e ↦ ground (arith, e, others-replaced rest, t)
  ]

  -- Where no account has the code, nothing is replaced.
  replaced-none :
      (accounts : List UserInput)
      → All (λ a. has_student_code code a ≡ false) accounts
      → (replaced code u accounts ≡ accounts) × (others code accounts ≡ accounts)
  replaced-none [] h = (refl, refl)
  replaced-none (a ∷ rest) h =
      let (r, o) = replaced-none rest h.1 in (ground (arith, h.0, r), ground (arith, h.0, o))

  replaced-All :
      (P : UserInput → Type 0) (xs : List UserInput) → All P xs → P u → All P (replaced code u xs)
  replaced-All P [] h new = tt
  replaced-All P (a ∷ xs) h new = elim (Bool-cases (has_student_code code a)) [
    | inl e ↦ rw e (new, replaced-All P xs h.1 new)
    | inr e ↦ rw e (h.0, replaced-All P xs h.1 new)
  ]

  replaced-Apart :
      (accounts : List UserInput)
      → Pairs Apart accounts
      → is_taken u (others code accounts) ≡ false
      → Pairs Apart (replaced code u accounts)
  replaced-Apart [] p t = tt
  replaced-Apart (a ∷ rest) p t = elim (Bool-cases (has_student_code code a)) [
    | inl e ↦
        let same : a.student_code ≡ code = eq_of-text_eq a.student_code code e in
        let absent =
          All-map (Apart a) (λ b. has_student_code code b ≡ false)
            (λ b h. subst (λ c. text_eq b.student_code c ≡ false) same (ground (arith, h.0))) rest
            p.0 in
        let kept = replaced-none rest absent in
        let untaken : is_taken u rest ≡ false =
          subst (λ l. is_taken u l ≡ false) kept.1 (ground (arith, e, t)) in
        rw (e, kept.0) (All-map _ _ (λ b h. (h.1, h.0)) rest (untaken-Apart u rest untaken), p.1)
    | inr e ↦
        let free : (shares_key u a ≡ false) × (is_taken u (others code rest) ≡ false) =
          (ground (arith, e, t), ground (arith, e, t)) in
        let apart = shares_key_sym u a free.0 in
        rw e (replaced-All (Apart a) rest p.0 (apart.1, apart.0), replaced-Apart rest p.1 free.1)
  ]

-- The row that an update writes has a code without outer spaces.
updated-trim :
    (engine : TextEngine) (salt code : Text) (dto : UpdateUser) (u : UserInput)
    → has_student_code (trim code) u ≡ true
    → trim (updated engine salt dto u).student_code ≡ (updated engine salt dto u).student_code
unfolding updated
updated-trim engine salt code dto u h = go dto.student_code
  where
    go : (c : Option Text) → trim (change c trim u.student_code) ≡ change c trim u.student_code
    go (some c) = trim_idem c
    go none =
        let same = eq_of-text_eq u.student_code (trim code) h in
        ap trim same ∙ trim_idem code ∙ sym same

find-any :
    (p : UserInput → Bool) (xs : List UserInput) (a : UserInput)
    → find p xs ≡ some a
    → any p xs ≡ true
find-any p [] a e = cc
find-any p (x ∷ xs) a e = ground (arith, find-any p xs a)

write_user-done :
    (broken : Bool) (e : UserError) (o : Outcome) (u v : UserInput)
    (after before after' : List UserInput)
    → write_user broken e o u after before ≡ (done v, after')
    → (broken ≡ false) × (u ≡ v) × (after ≡ after')
write_user-done false e answered u v after before after' h = (refl, cc, cc)
write_user-done true e answered u v after before after' h = absurd (cc)
write_user-done broken e refused u v after before after' h = absurd (cc)
write_user-done broken e lost u v after before after' h = absurd (cc)

-- Where no code and no email is shared by two accounts, an update that is done is found by its own
-- code, the other accounts are as they were and in the same order, and no code and no email is
-- shared afterwards.
pub update_user-find_user :
    (engine : TextEngine) (salt code : Text) (dto : UpdateUser) (outcome : Outcome)
    (accounts after : List UserInput) (u : UserInput)
    → Pairs Apart accounts
    → update_user engine salt code dto outcome accounts ≡ (done u, after)
    → (find_user u.student_code after ≡ some u)
      × (others u.student_code after ≡ others (trim code) accounts)
      × Pairs Apart after
unfolding update_user find_user
update_user-find_user engine salt code dto outcome accounts after u p h =
    elim (Option-cases (find (has_student_code (trim code)) accounts)) [
      | inl e ↦ let missing = simp e at h in absurd (cc)
      | inr (old, e) ↦
          let new = updated engine salt dto old in
          let (t, same, left) =
            write_user-done (is_taken new (others (trim code) accounts)) _ outcome new u _ accounts
              after (simp e at h) in
          let trimmed = updated-trim engine salt code dto old (find-holds _ accounts old e) in
          subst
            (λ v.
              (find (has_student_code (trim v.student_code)) after ≡ some v)
              × (others v.student_code after ≡ others (trim code) accounts)
              × Pairs Apart after)
            same
            (subst
              (λ l.
                (find (has_student_code (trim new.student_code)) l ≡ some new)
                × (others new.student_code l ≡ others (trim code) accounts)
                × Pairs Apart l)
              left
              (
                ap (λ c. find (has_student_code c) (replaced (trim code) new accounts)) trimmed
                    ∙ replaced-find (trim code) new accounts (find-any _ accounts old e) t,
                others-replaced (trim code) new accounts t,
                replaced-Apart (trim code) new accounts p t,
              ))
    ]
