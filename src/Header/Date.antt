-- ===== src/Header/Date.antt =====
-- The size of the date of utc_rfc1123_date, module/dysk_utils.c.
use dysk.Base.{
  All, Bool-cases, List, [], ap, arith, false, get_or, inl, inr, length, length-append, ltb, ltb→lt,
  suc, zero, ℕ, ◌+◌, ◌<◌, ◌∷◌, ◌≡◌, ◌≤◌,
}
use dysk.Def.{Numerals}
use dysk.Header.{Tm, day_names, month_names, date_length, two_digits, utc_rfc1123_date}

-- A broken-down time of the years 1000 to 9999, as the kernel gives it.
pub record IsTime (t : Tm) : Type 0 where
  pub sec : t.sec < 100
  pub min : t.min < 100
  pub hour : t.hour < 100
  pub mday : t.mday < 100
  pub mon : t.mon < 12
  pub wday : t.wday < 7
  pub year : (1000 ≤ t.year + 1900) × (t.year + 1900 < 10000)

All-get_or {ℓ} :
    {A : Type ℓ} (P : A → Type 0) (xs : List A) (i : ℕ) (d : A)
    → All P xs
    → i < length xs
    → P (get_or xs i d)
All-get_or P [] i d h l = elim l [ ]
All-get_or P (x ∷ xs) zero d h l = h.0
All-get_or P (x ∷ xs) (suc i) d h l = All-get_or P xs i d h.1 (omega arith)

module _ (nums : Numerals) where
  open nums use {print_digit, print_two, print_four}

  length-two_digits : (n : ℕ) → n < 100 → length (two_digits nums n) ≡ 2
  unfolding two_digits
  length-two_digits n h = elim (Bool-cases (ltb n 10)) [
    | inl small ↦ rw small (omega (arith, ap (length {A = ℕ}) (print_digit n (ltb→lt n 10 small))))
    | inr large ↦ rw large (print_two n (not_small n large) h)
  ]
    where
      not_small : (n : ℕ) → ltb n 10 ≡ false → 10 ≤ n
      not_small n h = ground arith

  day_length : (i : ℕ) → i < 7 → length (get_or day_names i []) ≡ 3
  day_length i h = All-get_or (λ s. length s ≡ 3) day_names i [] (omega arith) h

  month_length : (i : ℕ) → i < 12 → length (get_or month_names i []) ≡ 3
  month_length i h = All-get_or (λ s. length s ≡ 3) month_names i [] (omega arith) h

  -- The date of any time of the years 1000 to 9999 is 29 bytes long, and fits its buffer of 32 with
  -- the NUL.
  length-utc_rfc1123_date :
      (t : Tm)
      → IsTime t
      → (length (utc_rfc1123_date nums t) ≡ 29) × (length (utc_rfc1123_date nums t) < date_length)
  unfolding utc_rfc1123_date
  length-utc_rfc1123_date t v =
      let size : length (utc_rfc1123_date nums t) ≡ 29 = simp length-append (
        omega (
          arith,
          day_length t.wday v.wday,
          month_length t.mon v.mon,
          length-two_digits t.mday v.mday,
          length-two_digits t.hour v.hour,
          length-two_digits t.min v.min,
          length-two_digits t.sec v.sec,
          print_four (t.year + 1900) v.year.0 v.year.1,
        )) in
      (size, omega (arith, size))
