-- ===== src/Http/Lines.antt =====
-- The lines of a response as module/az.c finds them, with get_until and "\r\n".
use dysk.Base.{
  Bytes, [], ap, arith, drop, drop-replicate, drop_append, length, none, pos, refl, replicate, some,
  suc, sym, take_append, true, zero, ℕ, ◌++◌, ◌+◌, ◌-◌, ◌<◌, ◌∙◌, ◌∷◌, ◌≡◌, ◌≢◌, ◌≤◌,
}
use dysk.Text.{c_str, is_prefix, strnstr, get_until}
use dysk.Text.Find.{Without, c_str-append}
use dysk.Http.{empty_buffer, rn, next_line}

-- A line of a head: it has neither a carriage return nor a NUL.
pub record IsLine (max : ℕ) (s : Bytes) : Type 0 where
  pub short : length s ≤ max
  pub one_line : Without b'\r' s
  pub no_nul : Without 0 s

-- A line with its end, and what follows.
abbrev pub line_of : Bytes → Bytes → Bytes
line_of s rest = s ++ b'\r' ∷ b'\n' ∷ rest

strnstr-line :
    (s rest : Bytes) (len : ℕ)
    → Without b'\r' s
    → length s + 2 ≤ len
    → strnstr (line_of s rest) rn len ≡ some (length s)
unfolding strnstr is_prefix
strnstr-line s rest zero h l = absurd (omega arith)
strnstr-line [] rest (suc zero) h l = absurd (omega arith)
strnstr-line [] rest (suc (suc len)) h l = ground arith
strnstr-line (c ∷ s) rest (suc len) h l = ground (arith, strnstr-line s rest len h.1)

get_until-line :
    (s rest to : Bytes) (max : ℕ)
    → Without b'\r' s
    → length s + 2 ≤ max
    → get_until (line_of s rest) rn to max ≡ (pos (length s), s ++ drop (length s) to)
unfolding get_until
get_until-line s rest to max h l =
    ground (arith, strnstr-line s rest max h l, take_append s (b'\r' ∷ b'\n' ∷ rest), copied s)
  where
    copied : (s : Bytes) → length s ≡ 0 → s ++ drop (length s) to ≡ to
    copied [] e = refl
    copied (c ∷ cs) e = absurd (omega arith)

-- The array of 512 bytes that holds a text.
abbrev pub padded : Bytes → Bytes
padded s = s ++ drop (length s) empty_buffer

pub c_str-padded : (s : Bytes) → Without 0 s → length s < 512 → c_str (padded s) ≡ s
unfolding empty_buffer
c_str-padded s h l =
    ap (λ pad. c_str (s ++ pad))
      (drop-replicate (length s) 512 0
        ∙ ap (λ n. replicate n 0) {y = suc (512 - length s - 1)} (omega arith))
    ∙ c_str-append s (512 - length s - 1) h

pub next_line-line_of :
    (response s rest : Bytes) (idx : ℕ)
    → drop idx response ≡ line_of s rest
    → IsLine 508 s
    → next_line response idx ≡ (pos (length s), padded s)
next_line-line_of response s rest idx e h =
    rw e (get_until-line s rest empty_buffer 510 h.one_line (omega (arith, h.short)))

pub status-line_of :
    (s rest : Bytes)
    → IsLine 510 s
    → get_until (line_of s rest) rn empty_buffer 512 ≡ (pos (length s), padded s)
status-line_of s rest h = get_until-line s rest empty_buffer 512 h.one_line (omega (arith, h.short))

drop_nil : (j : ℕ) → drop {A = ℕ} j [] ≡ []
drop_nil zero = refl
drop_nil (suc j) = refl

drop-drop : (i j : ℕ) (s : Bytes) → drop (i + j) s ≡ drop j (drop i s)
drop-drop zero j s = ap (λ k. drop k s) (omega arith)
drop-drop (suc i) j [] = drop_nil (suc i + j) ∙ sym (drop_nil j)
drop-drop (suc i) j (c ∷ s) =
    ap (λ k. drop k (c ∷ s)) {y = suc (i + j)} (omega arith) ∙ drop-drop i j s

-- What follows a line that stands at `idx`.
pub drop-line_of :
    (response s rest : Bytes) (idx : ℕ)
    → drop idx response ≡ line_of s rest
    → drop (idx + length s + 2) response ≡ rest
drop-line_of response s rest idx e =
    ap (λ k. drop k response) {y = idx + (length s + 2)} (omega arith)
    ∙ drop-drop idx (length s + 2) response
    ∙ ap (drop (length s + 2)) e
    ∙ drop-drop (length s) 2 (line_of s rest)
    ∙ ap (drop 2) (drop_append s (b'\r' ∷ b'\n' ∷ rest))

is_prefix-append : (needle b : Bytes) → is_prefix needle (needle ++ b) ≡ true
unfolding is_prefix
is_prefix-append [] b = refl
is_prefix-append (n ∷ needle) b = ground (arith, is_prefix-append needle b)

-- A text that stands in the first `len` bytes is found there.
pub strnstr-ne-none :
    (a : Bytes) (n : ℕ) (needle b : Bytes) (len : ℕ)
    → length a + suc (length needle) ≤ len
    → strnstr (a ++ (n ∷ (needle ++ b))) (n ∷ needle) len ≢ none
unfolding strnstr is_prefix
strnstr-ne-none a n needle b zero h = absurd (omega arith)
strnstr-ne-none [] n needle b (suc len) h = ground (arith, is_prefix-append needle b)
strnstr-ne-none (c ∷ a) n needle b (suc len) h = ground (arith, strnstr-ne-none a n needle b len)
