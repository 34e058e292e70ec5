-- ===== src/Slots/Find.antt =====
-- What find_first_zero_bit and find_set_dysk_slots do to the bitmap of module/dysk_bdd.c.
use dysk.Base.{
  ==_iff, Bool, Bool-cases, List, [], ap, arith, eq_ℤ, false, get_or, get_or-set_ne,
  get_or-set_self, if◌then◌else◌, incr, inl, inr, length, negsuc, pos, refl, set, suc, true, zero,
  ℕ, ℤ, ◌<◌, ◌==◌, ◌∙◌, ◌∷◌, ◌≡◌, ◌≢◌, ◌≤◌,
}
use dysk.Slots.{Dyskslist, max_dysks, find_first_zero_bit, find_set_dysk_slots}

pub find_first_zero_bit-le : (bits : List Bool) (size : ℕ) → find_first_zero_bit bits size ≤ size
unfolding find_first_zero_bit
find_first_zero_bit-le bits zero = omega arith
find_first_zero_bit-le [] (suc size) = omega arith
find_first_zero_bit-le (false ∷ bits) (suc size) = omega arith
find_first_zero_bit-le (true ∷ bits) (suc size) = omega (arith, find_first_zero_bit-le bits size)

-- Every bit below the result is set.
pub find_first_zero_bit_below :
    (bits : List Bool) (size j : ℕ) → j < find_first_zero_bit bits size → get_or bits j false ≡ true
unfolding find_first_zero_bit
find_first_zero_bit_below bits zero j h = absurd (omega arith)
find_first_zero_bit_below [] (suc size) j h = absurd (omega arith)
find_first_zero_bit_below (false ∷ bits) (suc size) j h = absurd (omega arith)
find_first_zero_bit_below (true ∷ bits) (suc size) zero h = refl
find_first_zero_bit_below (true ∷ bits) (suc size) (suc j) h =
    find_first_zero_bit_below bits size j (omega arith)

-- A result below `size` is a clear bit.
pub find_first_zero_bit_clear :
    (bits : List Bool) (size : ℕ)
    → find_first_zero_bit bits size < size
    → get_or bits (find_first_zero_bit bits size) false ≡ false
unfolding find_first_zero_bit
find_first_zero_bit_clear bits zero h = absurd (omega arith)
find_first_zero_bit_clear [] (suc size) h = refl
find_first_zero_bit_clear (false ∷ bits) (suc size) h = refl
find_first_zero_bit_clear (true ∷ bits) (suc size) h =
    find_first_zero_bit_clear bits size (omega arith)

-- A clear bit `j` below `size` bounds the result.
pub find_first_zero_bit-le_clear :
    (bits : List Bool) (size j : ℕ)
    → j < size
    → get_or bits j false ≡ false
    → find_first_zero_bit bits size ≤ j
unfolding find_first_zero_bit
find_first_zero_bit-le_clear bits zero j h e = absurd (omega arith)
find_first_zero_bit-le_clear [] (suc size) j h e = omega arith
find_first_zero_bit-le_clear (false ∷ bits) (suc size) j h e = omega arith
find_first_zero_bit-le_clear (true ∷ bits) (suc size) zero h e = ground arith
find_first_zero_bit-le_clear (true ∷ bits) (suc size) (suc j) h e =
    omega (arith, find_first_zero_bit-le_clear bits size j (omega arith) e)

eq_ℤ-false : (z : ℤ) → z ≢ pos max_dysks → eq_ℤ (pos max_dysks) z ≡ false
eq_ℤ-false (pos n) h = ground arith
eq_ℤ-false (negsuc n) h = refl

get_or-set :
    (bits : List Bool) (p i : ℕ)
    → p < length bits
    → get_or (set bits p true) i false ≡ (if i == p then true else get_or bits i false)
get_or-set bits p i h = elim (Bool-cases (i == p)) [
  | inl e ↦ rw e (
      ap (λ k. get_or (set bits p true) k false) ((==_iff i p).0 e)
      ∙ get_or-set_self bits p true false h)
  | inr e ↦ rw e (get_or-set_ne bits p i true false (ground arith))
]

-- With `count` other than its limit and bit `j` of the first 1024 clear, the call hands out a clear
-- bit, none above `j`, sets that one alone, and adds one to `count`. So it is the first clear bit.
find_set-first_clear :
    (s : Dyskslist) (j : ℕ)
    → s.count ≢ pos max_dysks
    → length s.bits ≡ max_dysks
    → j < max_dysks
    → get_or s.bits j false ≡ false
    → (p : ℕ) × ((find_set_dysk_slots s).1 ≡ pos p)
      × (p ≤ j)
      × (get_or s.bits p false ≡ false)
      × ((i : ℕ)
          → get_or (find_set_dysk_slots s).0.bits i false
            ≡ (if i == p then true else get_or s.bits i false))
      × ((find_set_dysk_slots s).0.count ≡ incr s.count)
unfolding find_set_dysk_slots
find_set-first_clear s j room size below clear =
    let p = find_first_zero_bit s.bits max_dysks in
    let bound = find_first_zero_bit-le_clear s.bits max_dysks j below clear in
    rw (eq_ℤ-false s.count room) (
      p,
      refl,
      bound,
      find_first_zero_bit_clear s.bits max_dysks (omega arith),
      λ i. get_or-set s.bits p i (omega arith),
      refl,
    )
