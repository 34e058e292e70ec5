-- ===== src/Base64/Table.antt =====
-- The digits of base64_table and the bit operations of module/dysk_utils.c, checked value by value.
use dysk.Base.{
  ==_iff, Bool, Bool-cases, arith, bit_and, bit_or, false, if◌then◌else◌, inl, inr, not, refl, suc,
  true, zero, ℕ, ◌%◌, ◌&&◌, ◌*◌, ◌+◌, ◌/◌, ◌<◌, ◌==◌, ◌≡◌, ◌≢◌,
}
use dysk.Base64.{digit, value}

-- A table: the check passes at each of 0, 1, …, size - 1.
passes : (size : ℕ) → (check : ℕ → Bool) → Bool
passes zero check = true
passes (suc size) check = if check size then passes size check else false

entry : (check : ℕ → Bool) (size at : ℕ) → at < size → passes size check ≡ true → check at ≡ true
unfolding passes
entry check zero at lt table = elim lt [ ]
entry check (suc size) at lt table = elim (Bool-cases (check size)) [
  | inl good ↦ ground (arith, entry check size at)
  | inr bad ↦ false_table (rw bad at table)
]
  where
    false_table : false ≡ true → check at ≡ true
    false_table e = cc

digit_table : passes 64 (λ x. value (digit x) == x && not (digit x == b'=')) ≡ true
unfolding passes value digit
digit_table = refl

or4_table : passes 256 (λ n. bit_or (n / 4 * 4) (n % 4) == n) ≡ true
unfolding passes
or4_table = refl

or16_table : passes 1024 (λ n. bit_or (n / 16 * 16) (n % 16) == n) ≡ true
unfolding passes
or16_table = refl

or64_table : passes 4096 (λ n. bit_or (n / 64 * 64) (n % 64) == n) ≡ true
unfolding passes
or64_table = refl

and_table :
    passes 256
      (λ n. bit_and n 0x03 == n % 4 && bit_and n 0x0f == n % 16 && bit_and n 0x3f == n % 64)
    ≡ true
unfolding passes
and_table = refl

-- Each digit stands for its position, and none is '='.
pub value-digit : (x : ℕ) → x < 64 → (value (digit x) ≡ x) × (digit x ≢ b'=')
value-digit x h = ground (arith, entry _ 64 x h digit_table)

pub value_pad : value b'=' ≡ 0
unfolding value
value_pad = refl

-- `|` of two disjoint fields is their sum, from a table of all sums below `m`.
or_of_table :
    (k m q r : ℕ)
    → passes m (λ n. bit_or (n / k * k) (n % k) == n) ≡ true
    → q * k + r < m
    → (q * k + r) / k ≡ q
    → (q * k + r) % k ≡ r
    → bit_or (q * k) r ≡ q * k + r
or_of_table k m q r table h e e' =
    rw (e, e') at ((==_iff _ (q * k + r)).0 (entry _ m (q * k + r) h table))

pub or4 : (q r : ℕ) → q < 64 → r < 4 → bit_or (q * 4) r ≡ q * 4 + r
or4 q r hq hr = or_of_table 4 256 q r or4_table (omega arith) (omega arith) (omega arith)

pub or16 : (q r : ℕ) → q < 64 → r < 16 → bit_or (q * 16) r ≡ q * 16 + r
or16 q r hq hr = or_of_table 16 1024 q r or16_table (omega arith) (omega arith) (omega arith)

pub or64 : (q r : ℕ) → q < 64 → r < 64 → bit_or (q * 64) r ≡ q * 64 + r
or64 q r hq hr = or_of_table 64 4096 q r or64_table (omega arith) (omega arith) (omega arith)

pub and_masks :
    (n : ℕ)
    → n < 256
    → (bit_and n 0x03 ≡ n % 4) × (bit_and n 0x0f ≡ n % 16) × (bit_and n 0x3f ≡ n % 64)
and_masks n h = ground (arith, entry _ 256 n h and_table)
