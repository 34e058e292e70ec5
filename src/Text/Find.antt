-- ===== src/Text/Find.antt =====
-- What get_until of module/dysk_utils.c finds and copies.
use dysk.Base.{
  All, Bytes, Option-cases, [], ap, arith, drop, false, get_or, get_or-append_right, get_or-drop,
  if◌then◌else◌, inl, inr, length, length-append, length-drop, length-take, neg, none, pos, refl,
  replicate, some, suc, take, take_append, true, zero, ℕ, ℤ, ◌++◌, ◌+◌, ◌-◌, ◌<◌, ◌==◌, ◌∙◌, ◌∷◌,
  ◌≡◌, ◌≢◌, ◌≤◌, ◌⊎◌,
}
use dysk.Text.{c_str, is_prefix, strnstr, memcpy, get_until}

is_prefix-le : (p s : Bytes) → is_prefix p s ≡ true → length p ≤ length s
unfolding is_prefix
is_prefix-le [] s h = omega arith
is_prefix-le (c ∷ cs) [] h = cc
is_prefix-le (c ∷ cs) (d ∷ ds) h = ground (arith, is_prefix-le cs ds)

-- A find lies within the first `len` bytes and within the string.
pub strnstr-le :
    (s needle : Bytes) (len k : ℕ)
    → strnstr s needle len ≡ some k
    → (k + length needle ≤ len) × (k + length needle ≤ length s)
unfolding strnstr
strnstr-le s needle zero k e = ground arith
strnstr-le [] needle (suc len) k e = ground arith
strnstr-le (c ∷ cs) needle (suc len) k e =
    ground (arith, strnstr-le cs needle len (k - 1), is_prefix-le needle (c ∷ cs))

-- The bytes of `s` other than `b`.
abbrev pub Without : ℕ → Bytes → Type 0
Without b = All (λ c. c ≢ b)

strnstr-append :
    (b : ℕ) (s rest : Bytes) (len : ℕ)
    → Without b s
    → length s < len
    → strnstr (s ++ b ∷ rest) (b ∷ []) len ≡ some (length s)
unfolding strnstr
strnstr-append b s rest zero h l = absurd (omega arith)
strnstr-append b [] rest (suc len) h l = ground arith
strnstr-append b (c ∷ s) rest (suc len) h l = ground (arith, strnstr-append b s rest len h.1)

-- A text in front of its delimiter, shorter than `max`, is copied over the first bytes of `to`.
pub get_until-append :
    (b : ℕ) (s rest to : Bytes) (max : ℕ)
    → Without b s
    → length s < max
    → get_until (s ++ b ∷ rest) (b ∷ []) to max ≡ (pos (length s), s ++ drop (length s) to)
unfolding get_until
get_until-append b s rest to max h l =
    ground (arith, strnstr-append b s rest max h l, take_append s (b ∷ rest), copied s)
  where
    copied : (s : Bytes) → length s ≡ 0 → s ++ drop (length s) to ≡ to
    copied [] e = refl
    copied (c ∷ cs) e = absurd (omega arith)

-- A single delimiter is missed exactly when none stands in the first `len` bytes.
strnstr-none :
    (b : ℕ) (s : Bytes) (len : ℕ) → Without b (take len s) → strnstr s (b ∷ []) len ≡ none
unfolding strnstr
strnstr-none b s zero h = refl
strnstr-none b [] (suc len) h = refl
strnstr-none b (c ∷ cs) (suc len) h = ground (arith, strnstr-none b cs len h.1)

pub get_until-missing :
    (b : ℕ) (s to : Bytes) (max : ℕ)
    → Without b (take max s)
    → get_until s (b ∷ []) to max ≡ (neg 1, to)
unfolding get_until
get_until-missing b s to max h = rw (strnstr-none b s max h, get_until)

-- An array of `max` bytes that get_until wrote to: same length, and the last byte as before.
memcpy-last :
    (to s : Bytes) (k : ℕ)
    → k < length to
    → k ≤ length s
    → (length (memcpy to s k) ≡ length to)
      × (get_or (memcpy to s k) (length to - 1) 0 ≡ get_or to (length to - 1) 0)
memcpy-last to s k h l =
    let front : length (take k s) ≡ k = omega (arith, length-take k s) in
    (
      omega (arith, length-append (take k s) (drop k to), length-drop k to, front),
      get_or-append_right (take k s) (drop k to) (length to - 1) 0 (omega arith)
          ∙ get_or-drop k (length to - 1 - length (take k s)) to 0
          ∙ ap (λ i. get_or to i 0) (omega arith),
    )

-- A result of get_until on an array `to` of `max` bytes: the array keeps its length and its last
-- byte, and the number is -1 or less than `max` and within the haystack.
abbrev pub IsSafe : Bytes → Bytes → ℕ → ℤ × Bytes → Type 0
IsSafe haystack to max (cut, to') =
    (length to' ≡ max)
    × (get_or to' (max - 1) 0 ≡ get_or to (max - 1) 0)
    × ((cut ≡ neg 1) ⊎ ((k : ℕ) × (cut ≡ pos k) × (k < max) × (k < length haystack)))

found-IsSafe :
    (haystack to : Bytes) (k max : ℕ)
    → length to ≡ max
    → k < max
    → k < length haystack
    → IsSafe haystack to max (if k == 0 then (pos 0, to) else (pos k, memcpy to haystack k))
found-IsSafe haystack to zero max e h l = (e, refl, inr (0, refl, h, l))
found-IsSafe haystack to (suc k) max e h l =
    let (size, last) = memcpy-last to haystack (suc k) (omega arith) (omega arith) in
    let test : (suc k == 0) ≡ false = ground arith in
    rw test (size ∙ e, rw e at last, inr (suc k, refl, h, l))

-- Whatever the haystack and the delimiter, get_until writes inside an array of `max` bytes and
-- leaves its last byte alone, and its result is -1 or less than `max`.
pub get_until-IsSafe :
    (haystack until to : Bytes) (max : ℕ)
    → 0 < length until
    → length to ≡ max
    → IsSafe haystack to max (get_until haystack until to max)
unfolding get_until
get_until-IsSafe haystack until to max h e = elim (Option-cases (strnstr haystack until max)) [
  | inl missed ↦ rw (missed, get_until) (e, refl, inl refl)
  | inr (k, found) ↦
      rw (found, get_until)
        (found-IsSafe haystack to k max e (omega (arith, strnstr-le haystack until max k found))
          (omega (arith, strnstr-le haystack until max k found)))
]

-- The text of a NUL-terminated array.
pub c_str-append : (s : Bytes) (n : ℕ) → Without 0 s → c_str (s ++ replicate (suc n) 0) ≡ s
unfolding c_str
c_str-append [] n h = refl
c_str-append (c ∷ cs) n h = ground (arith, c_str-append cs n h.1)
