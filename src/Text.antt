-- ===== src/Text.antt =====
-- Character arrays and the string functions that the module calls on them, and get_until of
-- module/dysk_utils.c. A pointer into a buffer is the list of bytes from there on.
pub mod Find
use dysk.Base.{
  Bool, Bytes, Option, [], drop, false, if◌then◌else◌, length, ltb, neg, none, pos, some, suc, take,
  true, zero, ℕ, ℤ, ◌&&◌, ◌++◌, ◌==◌, ◌||◌, ◌∷◌,
}

-- The text of an array: what stands before its first NUL.
unfoldable pub c_str : Bytes → Bytes
c_str [] = []
c_str (c ∷ cs) = if c == 0 then [] else c ∷ c_str cs

unfoldable pub is_prefix : Bytes → Bytes → Bool
is_prefix [] s = true
is_prefix (c ∷ cs) [] = false
is_prefix (c ∷ cs) (d ∷ ds) = c == d && is_prefix cs ds

-- `0 == strncmp(a, b, n)`
unfoldable pub strncmp_eq : Bytes → Bytes → ℕ → Bool
strncmp_eq a b zero = true
strncmp_eq [] [] (suc n) = true
strncmp_eq [] (d ∷ ds) (suc n) = d == 0
strncmp_eq (c ∷ cs) [] (suc n) = c == 0
strncmp_eq (c ∷ cs) (d ∷ ds) (suc n) = c == d && (c == 0 || strncmp_eq cs ds n)

-- strnstr: the offset of the first `needle` that lies within the first `len` bytes.
unfoldable pub strnstr : Bytes → Bytes → ℕ → Option ℕ
unfolding is_prefix
strnstr s needle zero = if length needle == 0 then some 0 else none
strnstr [] needle (suc len) = if length needle == 0 then some 0 else none
strnstr (c ∷ cs) needle (suc len) =
    let later : Option ℕ = elim (strnstr cs needle len) [ none ↦ none | some k ↦ some (suc k) ] in
    if ltb (suc len) (length needle)
    then none
    else if is_prefix needle (c ∷ cs)
    then some 0
    else later

-- `memcpy(to, from, n)`
abbrev pub memcpy : Bytes → Bytes → ℕ → Bytes
memcpy to from n = take n from ++ drop n to

-- The result and the array `to` afterwards. For offset 0 nothing is copied.
unfoldable pub get_until : Bytes → Bytes → Bytes → ℕ → ℤ × Bytes
get_until haystack until to max = elim (strnstr haystack until max) [
  | none ↦ (neg 1, to)
  | some k ↦ if k == 0 then (pos 0, to) else (pos k, memcpy to haystack k)
]
