-- ===== src/Api/Slots/Answers.antt =====
-- Lemmas on the results of the checks.
use do_an_tot_nghiep.Base.{◌≡◌, refl, ◌⊎◌, inl, inr}
use do_an_tot_nghiep.Api.Slots.{SlotError, Answer, ok, err, ◌>>=◌}

pub Answer-cases :
    {A : Type 0} (m : Answer A) → ((a : A) × (m ≡ ok a)) ⊎ ((e : SlotError) × (m ≡ err e))
Answer-cases (ok a) = inl (a, refl)
Answer-cases (err e) = inr (e, refl)

-- The first of two steps has succeeded too.
pub first_ok :
    {A B : Type 0} (m : Answer A) (k : A → Answer B) (b : B)
    → (m >>= k) ≡ ok b
    → (a : A) × (m ≡ ok a) × (k a ≡ ok b)
first_ok (ok a) k b h = (a, refl, h)
first_ok (err e) k b h = absurd (cc)
