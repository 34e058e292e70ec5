-- ===== src/Http/Reply.antt =====
-- A whole response, as the storage service writes it, read by process_response of module/az.c.
use dysk.Base.{
  All, Bytes, List, [], ap, arith, codes, drop, length, length-append, suc, ℕ, ◌++◌, ◌+◌, ◌-◌, ◌<◌,
  ◌^◌, ◌∙◌, ◌∷◌, ◌≡◌, ◌≤◌,
}
use dysk.Text.{c_str}
use dysk.Text.Find.{Without}
use dysk.Http.Lines.{IsLine, line_of, drop-line_of}
use dysk.Http.Scan.{NonSpace, AllDigits, value}
use dysk.Http.Loops.{headers, size, IsOther, rounds}

-- A response: version, status code, reason, headers, the length of the body among them, and body.
-- Texts that cannot be empty have their first byte apart.
pub record Reply : Type 0 where
  pub v : ℕ
  pub version : Bytes
  pub d : ℕ
  pub code : Bytes
  pub reason : Bytes
  pub before : List Bytes
  pub l : ℕ
  pub body_length : Bytes
  pub after : List Bytes
  pub payload : Bytes

abbrev pub status_of : Reply → Bytes
status_of r = r.v ∷ (r.version ++ b' ' ∷ r.d ∷ (r.code ++ b' ' ∷ r.reason))

abbrev pub length_of : Reply → Bytes
length_of r = b'C' ∷ (codes "ontent-Length:" ++ b' ' ∷ r.l ∷ r.body_length)

abbrev pub from_length : Reply → Bytes
from_length r = line_of (length_of r) (headers r.after (line_of [] r.payload))

abbrev pub reply_text : Reply → Bytes
reply_text r = line_of (status_of r) (headers r.before (from_length r))

-- The offsets of the Content-Length line and of the body.
abbrev pub length_at : Reply → ℕ
length_at r = length (status_of r) + 2 + size r.before

abbrev pub body_at : Reply → ℕ
body_at r = length_at r + length (length_of r) + 2 + size r.after + 2

-- What the service keeps to, where `total` is the length of the whole body and `payload` what is there
-- of it: the lines fit the buffers of process_response, and Content-Length stands in the first 1024
-- bytes and tells the total.
pub record IsHead (r : Reply) (total : ℕ) : Type 0 where
  pub version : NonSpace (r.v ∷ r.version)
  pub code : AllDigits (r.d ∷ r.code)
  pub code_range : value 0 (r.d ∷ r.code) < 2 ^ 31
  pub code_not_zero : 0 < value 0 (r.d ∷ r.code)
  pub status : IsLine 510 (status_of r)
  pub before : All IsOther r.before
  pub length_line : IsLine 508 (length_of r)
  pub length_digits : AllDigits (r.l ∷ r.body_length)
  pub length_right : value 0 (r.l ∷ r.body_length) ≡ total
  pub length_range : total < 2 ^ 31
  pub after : All IsOther r.after
  pub early : length_at r + 14 ≤ 1024

-- A response whose body is all there.
abbrev pub IsValid : Reply → Type 0
IsValid r = IsHead r (length r.payload)

pub length-headers :
    (ls : List Bytes) (rest : Bytes) → length (headers ls rest) ≡ size ls + length rest
length-headers [] rest = omega arith
length-headers (l ∷ ls) rest =
    omega (arith, length-append l (b'\r' ∷ b'\n' ∷ headers ls rest), length-headers ls rest)

pub length-line_of : (s rest : Bytes) → length (line_of s rest) ≡ length s + 2 + length rest
length-line_of s rest = omega (arith, length-append s (b'\r' ∷ b'\n' ∷ rest))

-- strlen of a text whose first line has no NUL.
pub strlen-line_of :
    (s rest : Bytes)
    → Without 0 s
    → length (c_str (line_of s rest)) ≡ length s + 2 + length (c_str rest)
unfolding c_str
strlen-line_of [] rest h = omega arith
strlen-line_of (c ∷ s) rest h = ground (arith, strlen-line_of s rest h.1)

pub strlen-headers :
    (ls : List Bytes) (rest : Bytes)
    → All IsOther ls
    → length (c_str (headers ls rest)) ≡ size ls + length (c_str rest)
strlen-headers [] rest h = omega arith
strlen-headers (l ∷ ls) rest h =
    omega (arith, strlen-line_of l (headers ls rest) h.0.is_line.no_nul, strlen-headers ls rest h.1)

length-le-size : (ls : List Bytes) → length ls ≤ size ls
length-le-size [] = omega arith
length-le-size (l ∷ ls) = omega (arith, length-le-size ls)

rounds-length : (ls : List Bytes) (fuel : ℕ) → rounds ls fuel ≡ length ls + fuel
rounds-length [] fuel = omega arith
rounds-length (l ∷ ls) fuel = omega (arith, rounds-length ls fuel)

-- Enough rounds are some number of rounds behind the lines.
pub rounds-enough :
    (ls : List Bytes) (n : ℕ) → size ls < n → n ≡ rounds ls (suc (n - length ls - 1))
rounds-enough ls n h = omega (arith, length-le-size ls, rounds-length ls (suc (n - length ls - 1)))

pub drop-headers :
    (ls : List Bytes) (response rest : Bytes) (idx : ℕ)
    → drop idx response ≡ headers ls rest
    → drop (idx + size ls) response ≡ rest
drop-headers [] response rest idx e = ap (λ k. drop k response) {y = idx} (omega arith) ∙ e
drop-headers (l ∷ ls) response rest idx e =
    ap (λ k. drop k response) {y = idx + length l + 2 + size ls} (omega arith)
    ∙ drop-headers ls response rest (idx + length l + 2)
        (drop-line_of response l (headers ls rest) idx e)
