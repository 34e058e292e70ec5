-- ===== src/Http/Scan.antt =====
-- sscanf on the two lines of a response that module/az.c reads numbers from.
use mathlib.Core.List.{append-nil}
use dysk.Base.{
  All, Bytes, [], ap, arith, false, lt→ltb, pos, refl, some, sym, true, ℕ, ℤ, ◌%◌, ◌*◌, ◌++◌, ◌+◌,
  ◌-◌, ◌<◌, ◌==◌, ◌^◌, ◌∙◌, ◌∷◌, ◌≡◌, ◌≤◌,
}
use dysk.Http.{
  is_space, is_digit, skip_spaces, word_run, scan_word, digits, starts_number, int32, scan_unsigned,
  scan_signed, scan_int, scan_status, scan_length,
}

abbrev pub NonSpace : Bytes → Type 0
NonSpace = All (λ c. is_space c ≡ false)

abbrev pub AllDigits : Bytes → Type 0
AllDigits = All (λ c. is_digit c ≡ true)

-- The number that digits stand for.
abbrev pub value : ℕ → Bytes → ℕ
value acc [] = acc
value acc (c ∷ cs) = value (acc * 10 + (c - b'0')) cs

word_run-append : (w t : Bytes) → NonSpace w → word_run (w ++ b' ' ∷ t) ≡ (w, b' ' ∷ t)
unfolding word_run
word_run-append [] t h = refl
word_run-append (c ∷ w) t h = rw (h.0, word_run-append w t h.1) refl

digits-append :
    (ds t : Bytes) (acc : ℕ)
    → AllDigits ds
    → starts_number t ≡ false
    → digits acc (ds ++ t) ≡ (value acc ds, t)
unfolding digits
digits-append [] [] acc h e = refl
digits-append [] (c ∷ t) acc h e = rw e refl
digits-append (c ∷ ds) t acc h e = rw h.0 (digits-append ds t _ h.1 e)

int32_small : (n : ℕ) → n < 2 ^ 31 → int32 n ≡ pos n
int32_small n h = let whole : n % 2 ^ 32 ≡ n = omega arith in rw (whole, lt→ltb n (2 ^ 31) h) refl

digit_bounds : (d : ℕ) → is_digit d ≡ true → (b'0' ≤ d) × (d ≤ b'9')
digit_bounds d h = ground arith

digit_not_space : (d : ℕ) → b'0' ≤ d → d ≤ b'9' → is_space d ≡ false
digit_not_space d h k = ground arith

digit_not_minus : (d : ℕ) → b'0' ≤ d → (d == b'-') ≡ false
digit_not_minus d h = ground arith

pub scan_int-append :
    (d : ℕ) (ds t : Bytes)
    → AllDigits (d ∷ ds)
    → starts_number t ≡ false
    → value 0 (d ∷ ds) < 2 ^ 31
    → scan_int (b' ' ∷ d ∷ (ds ++ t)) ≡ some (pos (value 0 (d ∷ ds)), t)
unfolding scan_int skip_spaces scan_signed scan_unsigned
scan_int-append d ds t h e small =
    let (low, high) = digit_bounds d h.0 in
    rw (digit_not_space d low high) (
      rw (digit_not_minus d low)
        (rw (h.0, digits-append (d ∷ ds) t 0 h e) (rw (int32_small (value 0 (d ∷ ds)) small) refl)))

-- The status line: the code, and the word that starts the reason.
pub scan_status-append :
    (v : ℕ) (ver : Bytes) (d : ℕ) (ds reason : Bytes) (status_code : ℤ)
    → NonSpace (v ∷ ver)
    → AllDigits (d ∷ ds)
    → value 0 (d ∷ ds) < 2 ^ 31
    → scan_status (v ∷ (ver ++ b' ' ∷ d ∷ (ds ++ b' ' ∷ reason))) status_code
      ≡ (pos (value 0 (d ∷ ds)), (scan_word (b' ' ∷ reason)).0)
unfolding scan_status
scan_status-append v ver d ds reason status_code h k small =
    rw
      (
        word_run-append (v ∷ ver) (d ∷ (ds ++ b' ' ∷ reason)) h,
        scan_int-append d ds (b' ' ∷ reason) k refl small,
        scan_status,
      )
      refl

-- A line of a name without spaces and a number.
pub scan_length-append :
    (v : ℕ) (name : Bytes) (d : ℕ) (ds : Bytes) (content_length : ℤ)
    → NonSpace (v ∷ name)
    → AllDigits (d ∷ ds)
    → value 0 (d ∷ ds) < 2 ^ 31
    → scan_length (v ∷ (name ++ b' ' ∷ d ∷ ds)) content_length ≡ pos (value 0 (d ∷ ds))
unfolding scan_length
scan_length-append v name d ds content_length h k small =
    let number : scan_int (b' ' ∷ d ∷ ds) ≡ some (pos (value 0 (d ∷ ds)), []) =
      ap (λ t. scan_int (b' ' ∷ d ∷ t)) (sym (append-nil ds))
      ∙ scan_int-append d ds [] k refl small in
    rw (word_run-append (v ∷ name) (d ∷ ds) h, number, scan_length) refl
