-- ===== src/Registry/Same.antt =====
-- `strncmp` of two names, as a comparison of what stands before their first NULs.
use dysk.Base.{Bytes, [], arith, refl, suc, true, zero, ℕ, ◌∷◌, ◌≡◌}
use dysk.Text.{strncmp_eq}

-- Two texts that agree with a third agree.
pub strncmp_eq-join :
    (a b c : Bytes) (n : ℕ)
    → strncmp_eq a c n ≡ true
    → strncmp_eq b c n ≡ true
    → strncmp_eq a b n ≡ true
unfolding strncmp_eq
strncmp_eq-join a b c zero p q = refl
strncmp_eq-join [] [] c (suc n) p q = refl
strncmp_eq-join [] (y ∷ b) [] (suc n) p q = q
strncmp_eq-join [] (y ∷ b) (z ∷ c) (suc n) p q = ground arith
strncmp_eq-join (x ∷ a) [] [] (suc n) p q = p
strncmp_eq-join (x ∷ a) [] (z ∷ c) (suc n) p q = ground arith
strncmp_eq-join (x ∷ a) (y ∷ b) [] (suc n) p q = ground arith
strncmp_eq-join (x ∷ a) (y ∷ b) (z ∷ c) (suc n) p q =
    let again = strncmp_eq-join a b c n in ground arith

-- A text agrees with itself.
pub strncmp_eq_self : (a : Bytes) (n : ℕ) → strncmp_eq a a n ≡ true
unfolding strncmp_eq
strncmp_eq_self a zero = refl
strncmp_eq_self [] (suc n) = refl
strncmp_eq_self (x ∷ a) (suc n) = let again = strncmp_eq_self a n in ground arith

-- A comparison does not depend on the order.
pub strncmp_eq_comm : (a b : Bytes) (n : ℕ) → strncmp_eq a b n ≡ true → strncmp_eq b a n ≡ true
strncmp_eq_comm a b n p = strncmp_eq-join b a b n (strncmp_eq_self b n) p
