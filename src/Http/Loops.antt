-- ===== src/Http/Loops.antt =====
-- The two loops of process_response in module/az.c over the lines of a head.
use dysk.Base.{
  All, Bytes, List, [], ap, arith, drop, eq_ℤ, false, length, lt→ltb, neg, none, not, pos, refl,
  some, suc, ℕ, ◌+◌, ◌<◌, ◌==◌, ◌∙◌, ◌∷◌, ◌≡◌, ◌≤◌,
}
use dysk.Text.{strnstr}
use dysk.Http.Lines.{IsLine, line_of, padded, c_str-padded, next_line-line_of, drop-line_of}
use dysk.Http.{
  HttpResponse, content_length_name, scan_length, next_line, header_line, length_loop, body_loop,
}

-- Header lines, with what follows them.
abbrev pub headers : List Bytes → Bytes → Bytes
headers [] rest = rest
headers (l ∷ ls) rest = line_of l (headers ls rest)

abbrev pub size : List Bytes → ℕ
size [] = 0
size (l ∷ ls) = length l + 2 + size ls

-- `length ls + fuel`, in a form that computes.
abbrev pub rounds : List Bytes → ℕ → ℕ
rounds [] fuel = fuel
rounds (l ∷ ls) fuel = suc (rounds ls fuel)

-- A header line that is not empty and does not hold the text "Content-Length".
pub record IsOther (l : Bytes) : Type 0 where
  pub is_line : IsLine 508 l
  pub filled : 0 < length l
  pub other : strnstr l content_length_name (length l) ≡ none

pub not_zero : (n : ℕ) → 0 < n → (n == 0) ≡ false
not_zero n h = ground arith

header_line-IsOther :
    (res : HttpResponse) (l : Bytes)
    → IsOther l
    → header_line res (pos (length l), padded l) ≡ record res { idx = res.idx + length l + 2 }
unfolding header_line
header_line-IsOther res l h =
    rw (c_str-padded l h.is_line.no_nul (omega (arith, h.is_line.short))) (rw h.other refl)

-- The first loop passes over other lines.
pub length_loop-headers :
    (ls : List Bytes) (response rest : Bytes) (fuel len : ℕ) (res : HttpResponse)
    → All IsOther ls
    → drop res.idx response ≡ headers ls rest
    → res.content_length ≡ neg 1
    → res.idx + size ls ≤ len
    → length_loop (rounds ls fuel) response len res
      ≡ length_loop fuel response len (record res { idx = res.idx + size ls })
unfolding length_loop
length_loop-headers [] response rest fuel len res h e none_yet below =
    ap (λ i. length_loop fuel response len (record res { idx = i })) (omega arith)
length_loop-headers (l ∷ ls) response rest fuel len res h e none_yet below =
    let passed : header_line res (next_line response res.idx)
        ≡ record res { idx = res.idx + length l + 2 } =
      ap (header_line res) (next_line-line_of response l (headers ls rest) res.idx e h.0.is_line)
      ∙ header_line-IsOther res l h.0 in
    let further =
      length_loop-headers ls response rest fuel len (record res { idx = res.idx + length l + 2 })
        h.1 (drop-line_of response l (headers ls rest) res.idx e) none_yet (omega arith) in
    let unread : not (eq_ℤ res.content_length (neg 1)) ≡ false =
      ap (λ n. not (eq_ℤ n (neg 1))) none_yet in
    rw (lt→ltb res.idx len (omega arith)) (
      rw passed (
        rw unread (
          further
          ∙ ap (λ i. length_loop fuel response len (record res { idx = i })) (omega arith))))

-- The second loop passes over lines that are not empty.
pub body_loop-headers :
    (ls : List Bytes) (response rest : Bytes) (fuel len : ℕ) (res : HttpResponse)
    → All IsOther ls
    → drop res.idx response ≡ headers ls rest
    → res.idx + size ls ≤ len
    → body_loop (rounds ls fuel) response len res
      ≡ body_loop fuel response len (record res { idx = res.idx + size ls })
unfolding body_loop
body_loop-headers [] response rest fuel len res h e below =
    ap (λ i. body_loop fuel response len (record res { idx = i })) (omega arith)
body_loop-headers (l ∷ ls) response rest fuel len res h e below =
    let read = next_line-line_of response l (headers ls rest) res.idx e h.0.is_line in
    let further =
      body_loop-headers ls response rest fuel len (record res { idx = res.idx + length l + 2 }) h.1
        (drop-line_of response l (headers ls rest) res.idx e) (omega arith) in
    rw (lt→ltb res.idx len (omega arith)) (
      rw read (
        rw (not_zero (length l) h.0.filled)
          (further ∙ ap (λ i. body_loop fuel response len (record res { idx = i })) (omega arith))))

header_line-found :
    (res : HttpResponse) (l : Bytes) (n k : ℕ)
    → IsLine 508 l
    → strnstr l content_length_name (length l) ≡ some k
    → scan_length l res.content_length ≡ pos n
    → header_line res (pos (length l), padded l)
      ≡ record res { content_length = pos n; idx = res.idx + length l + 2 }
unfolding header_line
header_line-found res l n k h named scanned =
    let text = c_str-padded l h.no_nul (omega (arith, h.short)) in
    rw text (rw named (rw text (rw scanned refl)))

-- The Content-Length line ends the first loop.
pub length_loop-found :
    (l : Bytes) (response rest : Bytes) (fuel len n k : ℕ) (res : HttpResponse)
    → IsLine 508 l
    → strnstr l content_length_name (length l) ≡ some k
    → scan_length l res.content_length ≡ pos n
    → drop res.idx response ≡ line_of l rest
    → res.idx < len
    → length_loop (suc fuel) response len res
      ≡ record res { content_length = pos n; idx = res.idx + length l + 2 }
unfolding length_loop
length_loop-found l response rest fuel len n k res h named scanned e below =
    let passed : header_line res (next_line response res.idx)
        ≡ record res { content_length = pos n; idx = res.idx + length l + 2 } =
      ap (header_line res) (next_line-line_of response l rest res.idx e h)
      ∙ header_line-found res l n k h named scanned in
    rw (lt→ltb res.idx len below) (rw passed refl)

-- The empty line ends the second loop, with the body behind it.
pub body_loop-found :
    (response rest : Bytes) (fuel len : ℕ) (res : HttpResponse)
    → drop res.idx response ≡ line_of [] rest
    → res.idx < len
    → body_loop (suc fuel) response len res
      ≡ record res { idx = res.idx + 2; body = some (res.idx + 2) }
unfolding body_loop
body_loop-found response rest fuel len res e below =
    let empty : IsLine 508 [] = record { short = omega arith; one_line = tt; no_nul = tt } in
    rw (lt→ltb res.idx len below) (rw (next_line-line_of response [] rest res.idx e empty) refl)
