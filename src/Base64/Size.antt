-- ===== src/Base64/Size.antt =====
-- The buffer size of base64_encode and its overflow test (module/dysk_utils.c).
use dysk.Base.{
  Bool, Bytes, [], arith, false, length, ltb, some, ℕ, ◌*◌, ◌+◌, ◌/◌, ◌<◌, ◌↔◌, ◌∷◌, ◌≡◌, ◌≤◌,
}
use dysk.Base64.{size_t_mod, encode_loop, encode_olen, base64_encode}

-- The encoder writes four characters for each three bytes or part of them.
pub length-encode_loop : (src : Bytes) → length (encode_loop src) ≡ (length src + 2) / 3 * 4
unfolding encode_loop
length-encode_loop [] = omega arith
length-encode_loop (a ∷ []) = omega arith
length-encode_loop (a ∷ b ∷ []) = omega arith
length-encode_loop (a ∷ b ∷ c ∷ rest) = omega (arith, length-encode_loop rest)

-- The test `olen < len` catches the wrap-around of `len * 4` exactly: it lets a length of size_t
-- through if and only if `len * 4` does not wrap.
encode_olen_exact :
    (len : ℕ) → len < size_t_mod → (ltb (encode_olen len) len ≡ false) ↔ (len * 4 < size_t_mod)
unfolding encode_olen
encode_olen_exact len h = (λ e. ground arith, λ k. ground arith)

olen_enough :
    (len : ℕ) → len * 4 < size_t_mod → len < size_t_mod → (len + 2) / 3 * 4 + 1 ≤ encode_olen len
unfolding encode_olen
olen_enough len k h = omega arith

-- Whenever base64_encode returns a text, the text and its terminating NUL fit the `olen` bytes that
-- were allocated.
encode_fits :
    (mem : Bool) (src text : Bytes)
    → length src < size_t_mod
    → base64_encode mem src ≡ some text
    → length text + 1 ≤ encode_olen (length src)
unfolding base64_encode
encode_fits mem src text h e =
    ground (
      arith,
      length-encode_loop src,
      (encode_olen_exact (length src) h).0,
      olen_enough (length src),
    )
