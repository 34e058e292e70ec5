-- ===== src/Slots/Counts.antt =====
-- The counter of module/dysk_bdd.c against its bitmap, for one call of find_set_dysk_slots and of
-- free_dysk_slot.
use dysk.Base.{
  All, Bool, List, [], ap, arith, decr, eq_ℤ, false, get_or, get_or-set_ne, get_or-set_self,
  if◌then◌else◌, incr, length, length-set, negsuc, pos, refl, set, suc, sym, true, zero, ℕ, ℤ, ◌+◌,
  ◌<◌, ◌∙◌, ◌∷◌, ◌≡◌, ◌≢◌, ◌≤◌,
}
use mathlib.Core.Bool.{false≢true}
use dysk.Slots.Find.{find_first_zero_bit_clear}
use dysk.Slots.{
  Dyskslist, track_bits, max_dysks, find_first_zero_bit, find_set_dysk_slots, free_dysk_slot,
}

-- How many of the first `n` bits are set.
abbrev pub popcount : List Bool → ℕ → ℕ
popcount bits zero = 0
popcount [] (suc n) = 0
popcount (b ∷ bits) (suc n) = (if b then 1 else 0) + popcount bits n

pub popcount-set :
    (bits : List Bool) (n i : ℕ)
    → i < n
    → i < length bits
    → get_or bits i false ≡ false
    → popcount (set bits i true) n ≡ popcount bits n + 1
popcount-set bits zero i h k e = absurd (omega arith)
popcount-set [] (suc n) i h k e = absurd (omega arith)
popcount-set (b ∷ bits) (suc n) zero h k e = rw e (omega arith)
popcount-set (b ∷ bits) (suc n) (suc i) h k e =
    omega (arith, popcount-set bits n i (omega arith) (omega arith) e)

pub popcount-clear :
    (bits : List Bool) (n i : ℕ)
    → i < n
    → get_or bits i false ≡ true
    → popcount (set bits i false) n + 1 ≡ popcount bits n
popcount-clear bits zero i h e = absurd (omega arith)
popcount-clear [] (suc n) i h e = cc
popcount-clear (b ∷ bits) (suc n) zero h e = rw e (omega arith)
popcount-clear (b ∷ bits) (suc n) (suc i) h e =
    omega (arith, popcount-clear bits n i (omega arith) e)

pub popcount-le : (bits : List Bool) (n : ℕ) → popcount bits n ≤ n
popcount-le bits zero = omega arith
popcount-le [] (suc n) = omega arith
popcount-le (true ∷ bits) (suc n) = omega (arith, popcount-le bits n)
popcount-le (false ∷ bits) (suc n) = omega (arith, popcount-le bits n)

popcount_nil : (n : ℕ) → 0 ≡ popcount [] n
popcount_nil zero = refl
popcount_nil (suc n) = refl

-- Only the first `n` bits count.
popcount-same :
    (bits bits' : List Bool) (n : ℕ)
    → ((i : ℕ) → i < n → get_or bits i false ≡ get_or bits' i false)
    → popcount bits n ≡ popcount bits' n
popcount-same bits bits' zero h = refl
popcount-same [] [] (suc n) h = refl
popcount-same [] (b ∷ bits') (suc n) h =
    let rest = popcount-same [] bits' n (λ i k. h (suc i) (omega arith)) in
    rw⁻¹ (h 0 (omega arith)) (omega (arith, popcount_nil n, rest))
popcount-same (b ∷ bits) [] (suc n) h =
    let rest = popcount-same bits [] n (λ i k. h (suc i) (omega arith)) in
    rw (h 0 (omega arith)) (omega (arith, popcount_nil n, rest))
popcount-same (b ∷ bits) (b' ∷ bits') (suc n) h = rw (h 0 (omega arith)) (
    ap (λ m. (if b' then 1 else 0) + m)
      (popcount-same bits bits' n (λ i k. h (suc i) (omega arith))))

-- A bitmap with a clear bit among the first `m` has its first clear bit there.
find_first_zero_bit-within :
    (bits : List Bool) (m n : ℕ) → m ≤ n → popcount bits m < m → find_first_zero_bit bits n < m
unfolding find_first_zero_bit
find_first_zero_bit-within bits zero n h k = absurd (omega arith)
find_first_zero_bit-within bits (suc m) zero h k = omega arith
find_first_zero_bit-within [] (suc m) (suc n) h k = omega arith
find_first_zero_bit-within (false ∷ bits) (suc m) (suc n) h k = omega arith
find_first_zero_bit-within (true ∷ bits) (suc m) (suc n) h k =
    omega (arith, find_first_zero_bit-within bits m n (omega arith) (omega arith))

-- The counter starts at -1 (`dysks.count = -1` in _init_module), and stays one below the number of
-- set bits of the array. The bits behind the array, which the search goes on to, are any.
pub record Counts (s : Dyskslist) : Type 0 where
  pub counted : incr s.count ≡ pos (popcount s.bits track_bits)
  pub sized : max_dysks < length s.bits

abbrev pub IsSetIn : Dyskslist → ℕ → Type 0
IsSetIn s i = (get_or s.bits i false ≡ true) × (i < track_bits)

-- The limit test does not fire while `count` is below the limit.
pub limit_open : (n k : ℕ) (z : ℤ) → incr z ≡ pos k → k ≤ n → eq_ℤ (pos n) z ≡ false
limit_open n k (pos m) e h = ground arith
limit_open n k (negsuc m) e h = refl

incr-pos : (k : ℕ) (z : ℤ) → incr z ≡ pos k → incr (incr z) ≡ pos (k + 1)
incr-pos k z e = ap incr e ∙ ap pos (omega arith)

incr-decr-pos : (k : ℕ) (z : ℤ) → incr z ≡ pos (k + 1) → incr (decr z) ≡ pos k
incr-decr-pos k (pos n) e = ground arith
incr-decr-pos k (negsuc n) e = ground arith

set_keeps :
    (bits : List Bool) (g p : ℕ)
    → get_or bits p false ≡ true
    → get_or (set bits g true) p false ≡ true
set_keeps [] g p h = h
set_keeps (b ∷ bits) zero zero h = refl
set_keeps (b ∷ bits) zero (suc p) h = h
set_keeps (b ∷ bits) (suc g) zero h = h
set_keeps (b ∷ bits) (suc g) (suc p) h = set_keeps bits g p h

-- What a mount gets while fewer than 512 bits of the array are set.
module _ (s : Dyskslist) (c : Counts s) (room : popcount s.bits track_bits < track_bits) where
  pub granted : ℕ
  granted = find_first_zero_bit s.bits max_dysks

  pub granted-lt : granted < track_bits
  unfolding granted
  granted-lt = find_first_zero_bit-within s.bits track_bits max_dysks (omega arith) room

  pub granted_clear : get_or s.bits granted false ≡ false
  unfolding granted
  granted_clear = find_first_zero_bit_clear s.bits max_dysks (omega (arith, granted-lt))

  pub find_set-granted :
      find_set_dysk_slots s
      ≡ (record { count = incr s.count; bits = set s.bits granted true }, pos granted)
  unfolding find_set_dysk_slots granted
  find_set-granted =
      rw (limit_open max_dysks (popcount s.bits track_bits) s.count c.counted (omega arith))

  pub find_set-Counts : Counts (find_set_dysk_slots s).0
  find_set-Counts = rw find_set-granted (record {
    counted =
        incr-pos (popcount s.bits track_bits) s.count c.counted
        ∙ ap pos (
            sym (
              popcount-set s.bits track_bits granted granted-lt (omega (arith, c.sized, granted-lt))
                granted_clear));
    sized = rw (length-set s.bits granted true) c.sized;
  })

  pub find_set-held :
      (ps : List ℕ) → All (IsSetIn s) ps → All (IsSetIn (find_set_dysk_slots s).0) ps
  find_set-held [] h = tt
  find_set-held (p ∷ ps) h =
      ((rw find_set-granted (set_keeps s.bits granted p h.0.0), h.0.1), find_set-held ps h.1)

  -- The slot is new: no holder has it.
  pub granted_fresh : (ps : List ℕ) → All (IsSetIn s) ps → All (λ y. granted ≢ y) ps
  granted_fresh [] h = tt
  granted_fresh (p ∷ ps) h = (
    λ e. false≢true (sym granted_clear ∙ ap (λ i. get_or s.bits i false) e ∙ h.0.0),
    granted_fresh ps h.1,
  )

  pub granted-IsSetIn : IsSetIn (find_set_dysk_slots s).0 granted
  granted-IsSetIn = (
    rw find_set-granted
        (get_or-set_self s.bits granted true false (omega (arith, c.sized, granted-lt))),
    granted-lt,
  )

-- Freeing a held slot.
module _ (s : Dyskslist) (c : Counts s) (p : ℕ) (set_p : IsSetIn s p) where
  pub free-Counts : Counts (free_dysk_slot s p)
  unfolding free_dysk_slot
  free-Counts = record {
    counted =
        incr-decr-pos (popcount (set s.bits p false) track_bits) s.count
          (c.counted ∙ ap pos (sym (popcount-clear s.bits track_bits p set_p.1 set_p.0)));
    sized = rw (length-set s.bits p false) c.sized;
  }

  pub free-held :
      (ps : List ℕ)
      → All (IsSetIn s) ps
      → All (λ y. p ≢ y) ps
      → All (IsSetIn (free_dysk_slot s p)) ps
  unfolding free_dysk_slot
  free-held [] h d = tt
  free-held (q ∷ ps) h d =
      ((get_or-set_ne s.bits p q false false d.0 ∙ h.0.0, h.0.1), free-held ps h.1 d.1)

-- The memory behind the array changes, as it does when a dysk is added to the list that starts there.
module _ (s : Dyskslist) (bits : List Bool)
    (same : (i : ℕ) → i < track_bits → get_or bits i false ≡ get_or s.bits i false)
    (sized : max_dysks < length bits) where
  pub elsewhere-Counts : Counts s → Counts (record s { bits = bits })
  elsewhere-Counts c = record {
    counted = c.counted ∙ ap pos (sym (popcount-same bits s.bits track_bits same));
    sized = sized;
  }

  pub elsewhere-held :
      (ps : List ℕ) → All (IsSetIn s) ps → All (IsSetIn (record s { bits = bits })) ps
  elsewhere-held [] h = tt
  elsewhere-held (p ∷ ps) h = ((same p h.0.1 ∙ h.0.0, h.0.1), elsewhere-held ps h.1)
