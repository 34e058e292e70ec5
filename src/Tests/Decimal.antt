-- ===== src/Tests/Decimal.antt =====
-- Decimal numerals, as `%lu` prints and reads them up to 20 digits: a value of `Numerals`.
use dysk.Base.{
  All, Bool-cases, Bytes, Option, [], ap, arith, if◌then◌else◌, inl, inr, length, length-append,
  ltb, ltb→lt, lt→ltb, none, refl, some, suc, sym, zero, ℕ, ◌%◌, ◌*◌, ◌++◌, ◌+◌, ◌-◌, ◌/◌, ◌<◌, ◌^◌,
  ◌∙◌, ◌∷◌, ◌≡◌, ◌≤◌,
}
use dysk.Def.{Numerals}

unfoldable pub print_fuel : ℕ → ℕ → Bytes
print_fuel zero n = (b'0' + n % 10) ∷ []
print_fuel (suc f) n =
    let shorter = print_fuel f (n / 10) ++ (b'0' + n % 10) ∷ [] in
    if ltb n 10 then (b'0' + n) ∷ [] else shorter

unfoldable pub value_from : ℕ → Bytes → ℕ
value_from acc [] = acc
value_from acc (c ∷ cs) = value_from (acc * 10 + (c - b'0')) cs

value_from-append :
    (acc : ℕ) (xs : Bytes) (c : ℕ)
    → value_from acc (xs ++ c ∷ []) ≡ value_from acc xs * 10 + (c - b'0')
unfolding value_from
value_from-append acc [] c = refl
value_from-append acc (x ∷ xs) c = value_from-append (acc * 10 + (x - b'0')) xs c

limit : ℕ → ℕ
limit zero = 10
limit (suc f) = 10 * limit f

value-print : (f n : ℕ) → n < limit f → value_from 0 (print_fuel f n) ≡ n
unfolding print_fuel value_from limit
value-print zero n h = omega arith
value-print (suc f) n h = elim (Bool-cases (ltb n 10)) [
  | inl e ↦ rw e (omega arith)
  | inr e ↦ rw e (
      omega (
        arith,
        value_from-append 0 (print_fuel f (n / 10)) (b'0' + n % 10),
        value-print f (n / 10) (omega arith),
      ))
]

pub length-print_fuel : (f n : ℕ) → length (print_fuel f n) ≤ f + 1
unfolding print_fuel
length-print_fuel zero n = omega arith
length-print_fuel (suc f) n = elim (Bool-cases (ltb n 10)) [
  | inl e ↦ rw e (omega arith)
  | inr e ↦ rw e (
      omega (
        arith,
        length-append (print_fuel f (n / 10)) ((b'0' + n % 10) ∷ []),
        length-print_fuel f (n / 10),
      ))
]

abbrev pub IsDigit : ℕ → Type 0
IsDigit c = (b'0' ≤ c) × (c ≤ b'9')

All-snoc : (xs : Bytes) (c : ℕ) → All IsDigit xs → IsDigit c → All IsDigit (xs ++ c ∷ [])
All-snoc [] c h k = (k, tt)
All-snoc (x ∷ xs) c h k = (h.0, All-snoc xs c h.1 k)

pub print_fuel-digits : (f n : ℕ) → All IsDigit (print_fuel f n)
unfolding print_fuel
print_fuel-digits zero n = omega arith
print_fuel-digits (suc f) n = elim (Bool-cases (ltb n 10)) [
  | inl e ↦ rw e (omega (arith, ltb→lt n 10 e))
  | inr e ↦ rw e (
      All-snoc (print_fuel f (n / 10)) (b'0' + n % 10) (print_fuel-digits f (n / 10)) (omega arith))
]

pub print_fuel_first :
    (f n : ℕ) → (d : ℕ) × (rest : Bytes) × (print_fuel f n ≡ (b'0' + d) ∷ rest) × (d < 10)
unfolding print_fuel
print_fuel_first zero n = (n % 10, [], refl, omega arith)
print_fuel_first (suc f) n = elim (Bool-cases (ltb n 10)) [
  | inl e ↦ (n, [], rw e, ltb→lt n 10 e)
  | inr e ↦
      let (d, rest, first, small) = print_fuel_first f (n / 10) in
      (d, rest ++ (b'0' + n % 10) ∷ [], rw (e, first) refl, small)
]

unfoldable pub scan_digits : Bytes → Option ℕ
scan_digits [] = none
scan_digits (c ∷ cs) = some (value_from 0 (c ∷ cs))

pub scan-print_fuel : (n : ℕ) → n < 2 ^ 64 → scan_digits (print_fuel 19 n) ≡ some n
scan-print_fuel n h =
    let (d, rest, first, _) = print_fuel_first 19 n in
    rw first
      (unfold scan_digits in ap some (ap (value_from 0) (sym first) ∙ value-print 19 n (below h)))
  where
    below : n < 2 ^ 64 → n < limit 19
    below h = unfold limit in omega arith

pub print_fuel_digit : (n : ℕ) → n < 10 → print_fuel 19 n ≡ (b'0' + n) ∷ []
unfolding print_fuel
print_fuel_digit n h = rw (lt→ltb n 10 h)

-- The number of digits, one more for each factor of ten.
print_fuel_one : (f n : ℕ) → n < 10 → length (print_fuel f n) ≡ 1
unfolding print_fuel
print_fuel_one zero n h = refl
print_fuel_one (suc f) n h = rw (lt→ltb n 10 h) refl

print_fuel_more :
    (f n k : ℕ)
    → 10 ≤ n
    → length (print_fuel f (n / 10)) ≡ k
    → length (print_fuel (suc f) n) ≡ k + 1
unfolding print_fuel
print_fuel_more f n k h e = elim (Bool-cases (ltb n 10)) [
  | inl small ↦ absurd (omega (arith, ltb→lt n 10 small))
  | inr large ↦
      rw large (omega (arith, length-append (print_fuel f (n / 10)) ((b'0' + n % 10) ∷ []), e))
]

pub print_fuel_two : (n : ℕ) → 10 ≤ n → n < 100 → length (print_fuel 19 n) ≡ 2
print_fuel_two n h k = print_fuel_more 18 n 1 h (print_fuel_one 18 (n / 10) (omega arith))

pub print_fuel_four : (n : ℕ) → 1000 ≤ n → n < 10000 → length (print_fuel 19 n) ≡ 4
print_fuel_four n h k = print_fuel_more 18 n 3 (omega arith) (
    print_fuel_more 17 (n / 10) 2 (omega arith) (
      print_fuel_more 16 (n / 10 / 10) 1 (omega arith)
        (print_fuel_one 16 (n / 10 / 10 / 10) (omega arith))))

unfoldable pub decimal : Numerals
unfolding print_fuel value_from scan_digits
decimal = record {
  print = print_fuel 19;
  scan = scan_digits;
  scan-print = scan-print_fuel;
  print-digits = print_fuel-digits 19;
  length-print = λ n h. length-print_fuel 19 n;
  print_digit = print_fuel_digit;
  print_two = print_fuel_two;
  print_four = print_fuel_four;
  print_first = print_fuel_first 19;
}
