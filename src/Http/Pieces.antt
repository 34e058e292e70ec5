-- ===== src/Http/Pieces.antt =====
-- A response that comes in two pieces: process_response of module/az.c is called again with the whole
-- buffer. Behind the head it looks at one more line, which is the first of the body.
use mathlib.Core.List.{append_assoc}
use mathlib.Core.Path.{subst}
use dysk.Base.{
  ==_iff, Bool-cases, Bytes, List, [], ap, arith, drop, false, inl, inr, length, length-append, ltb,
  none, pos, refl, some, suc, sym, true, zero, ℕ, ◌++◌, ◌+◌, ◌<◌, ◌==◌, ◌∙◌, ◌∷◌, ◌≡◌,
}
use dysk.Text.{c_str, strnstr, get_until}
use dysk.Worker.{word}
use dysk.Http.Lines.{line_of}
use dysk.Http.Loops.{headers, not_zero}
use dysk.Http.Reply.{length_of, status_of, Reply, reply_text, body_at, IsHead, IsValid}
use dysk.Http.Head.{code_of, reason_of, text_length, completes, at_body, process_response-with_body}
use dysk.Http.Whole.{whole, process_response-whole}
use dysk.Http.{
  http_response_completed, advance, HttpResponse, no_response, rn, content_length_name,
  empty_buffer, next_line, header_line, length_loop, has_content_length, read_headers, status_line,
  process_response,
}

-- The line that process_response reads at the start of a text.
abbrev pub first_line : Bytes → Bytes
first_line text = c_str (get_until text rn (empty_buffer) 510).1

-- A line in which process_response does not find the name Content-Length.
abbrev pub IsSilent : Bytes → Type 0
IsSilent line = strnstr line content_length_name (length line) ≡ none

-- A response with its body found, as process_response meets it again.
module _ (code total body received : ℕ) (status : Bytes) where
  abbrev pub found : ℕ → HttpResponse
  found idx = record {
    status_code = pos code;
    content_length = pos total;
    bytes_received = received;
    body = some body;
    idx = idx;
    status = status;
  }

  header_line_again :
      (idx : ℕ) (response : Bytes)
      → IsSilent (first_line (drop idx response))
      → (i : ℕ) × (header_line (found idx) (next_line response idx) ≡ found i)
  unfolding header_line
  header_line_again idx response h = (advance idx (next_line response idx).0, rw h refl)

  length_loop_again :
      (fuel idx len : ℕ) (response : Bytes)
      → IsSilent (first_line (drop idx response))
      → (i : ℕ) × (length_loop fuel response len (found idx) ≡ found i)
  unfolding length_loop
  length_loop_again zero idx len response h = (idx, refl)
  length_loop_again (suc fuel) idx len response h = elim (Bool-cases (ltb idx len)) [
    | inl below ↦
        let (i, e) = header_line_again idx response h in (i, rw (below, length_loop) (rw e refl))
    | inr past ↦ (idx, rw (past, length_loop) refl)
  ]

  read_headers_again :
      (idx len : ℕ) (response : Bytes)
      → 0 < code
      → IsSilent (first_line (drop idx response))
      → (i : ℕ) × (read_headers response len (found idx) ≡ found i)
  unfolding read_headers
  read_headers_again idx len response h silent =
      let (i, e) = length_loop_again len idx len response silent in
      elim (Bool-cases (has_content_length response (found idx))) [
        | inl named ↦ (i, rw (not_zero code h) (rw named (rw e (rw (not_zero code h) refl))))
        | inr unnamed ↦ (idx, rw (not_zero code h) (rw unnamed (rw (not_zero code h) refl)))
      ]

pub status_again :
    (code total body received : ℕ) (status : Bytes) (idx : ℕ) (response : Bytes)
    → 0 < code
    → status_line response (found code total body received status idx)
      ≡ some (found code total body received status idx)
unfolding status_line
status_again code total body received status idx response h = rw (not_zero code h) refl

-- process_response, called again, only moves its mark on.
process_response_again :
    (code total body before more : ℕ) (status : Bytes) (idx len : ℕ) (response : Bytes)
    → 0 < code
    → IsSilent (first_line (drop idx response))
    → (i : ℕ) × (process_response response len (found code total body before status idx) more ≡ (
      found code total body (before + more) status i,
      http_response_completed (found code total body (before + more) status i) response,
    ))
unfolding process_response
process_response_again code total body before more status idx len response h silent =
    let (i, e) =
      read_headers_again code total body (before + more) status idx len response h silent in
    (
      i,
      rw (status_again code total body (before + more) status idx response h, process_response)
          (rw e refl),
    )

-- The head of `r` with the part `p` of its body.
abbrev pub part_of : Reply → Bytes → Reply
part_of r p = record r { payload = p }

pub part-IsHead : (r : Reply) (p : Bytes) → IsValid r → IsHead (part_of r p) (length r.payload)
part-IsHead r p v = record {
  version = v.version;
  code = v.code;
  code_range = v.code_range;
  code_not_zero = v.code_not_zero;
  status = v.status;
  before = v.before;
  length_line = v.length_line;
  length_digits = v.length_digits;
  length_right = v.length_right;
  length_range = v.length_range;
  after = v.after;
  early = v.early;
}

line_of-append : (l s t : Bytes) → line_of l s ++ t ≡ line_of l (s ++ t)
line_of-append l s t = append_assoc l (b'\r' ∷ b'\n' ∷ s) t

headers-append_rest : (ls : List Bytes) (s t : Bytes) → headers ls s ++ t ≡ headers ls (s ++ t)
headers-append_rest [] s t = refl
headers-append_rest (l ∷ ls) s t =
    line_of-append l (headers ls s) t ∙ ap (line_of l) (headers-append_rest ls s t)

reply_text-append :
    (r : Reply) (p q : Bytes) → reply_text (part_of r p) ++ q ≡ reply_text (part_of r (p ++ q))
reply_text-append r p q =
    line_of-append (status_of r) _ q
    ∙ ap (line_of (status_of r)) (
        headers-append_rest r.before _ q
        ∙ ap (headers r.before) (
            line_of-append (length_of r) _ q
            ∙ ap (line_of (length_of r)) (headers-append_rest r.after _ q)))

-- What process_response says of a response that comes as `first` and then as `text`, `more` bytes
-- longer: it is not complete, and then it is, and has been read as in one call, but for the mark `idx`.
abbrev pub Agrees : Bytes → Bytes → ℕ → Type 0
Agrees first text more =
    let (res₁, complete₁) =
      process_response first (length (c_str first)) no_response (length first) in
    let (res₂, complete₂) = process_response text (length (c_str text)) res₁ more in
    let (res, complete) = process_response text (length (c_str text)) no_response (length text) in
    (complete₁ ≡ false)
    × (complete₂ ≡ true)
    × (complete ≡ true)
    × (res₂ ≡ record res { idx = res₂.idx })

differ : (a b : ℕ) → b < a → (a == b) ≡ false
differ a b h = ground arith

module _ (r : Reply) (p q : Bytes) (v : IsValid r) (split : r.payload ≡ p ++ q) where
  pub joined : reply_text (part_of r p) ++ q ≡ reply_text r
  joined = reply_text-append r p q ∙ ap (λ b. reply_text (part_of r b)) (sym split)

  pub lengths : length r.payload ≡ length p + length q
  lengths = ap length split ∙ length-append p q

  pub not_complete : 0 < length q → (length r.payload == length p) ≡ false
  not_complete some_more = differ (length r.payload) (length p) (omega (arith, lengths, some_more))

  agrees :
      0 < length q
      → length (reply_text r) < word
      → IsSilent (first_line r.payload)
      → Agrees (reply_text (part_of r p)) (reply_text r) (length q)
  agrees some_more short silent =
      let total = length r.payload in
      let head = part-IsHead r p v in
      let first = length (reply_text (part_of r p)) in
      let sizes : first + length q ≡ length (reply_text r) =
        omega (arith, text_length (part_of r p) total head, text_length r total v, lengths) in
      let same : 0 + first + length q ≡ 0 + length (reply_text r) = omega (arith, sizes) in
      let at : IsSilent (first_line (drop (body_at r) (reply_text r))) =
        subst (λ s. IsSilent (first_line s)) (sym (at_body r total v)) silent in
      let (i, again) =
        process_response_again (code_of r total v) total (body_at r) (0 + first) (length q)
          (reason_of r total v) (body_at r) (length (c_str (reply_text r))) (reply_text r)
          v.code_not_zero at in
      let complete =
        completes r total v (reply_text r) (0 + first + length q) total i
          (omega (arith, sizes, text_length r total v)) (omega (arith, sizes, short)) in
      rw (process_response-with_body (part_of r p) total head (omega (arith, sizes, short))) (
        rw again (
          rw (process_response-whole r v short) (
            not_complete some_more,
            complete ∙ (==_iff total total).1 refl,
            refl,
            λ j. record (whole r v) { bytes_received = same j; idx = i },
          )))

  -- A response of the service whose head comes with a part of the body, and whose rest comes later:
  -- the first call of process_response says that it is not complete. When the first line of the body
  -- does not name Content-Length, the second call, on the whole buffer, says that it is complete, and
  -- has read what one call on the whole response reads, but for the mark `idx`.
  pub process_response-pieces :
      0 < length q
      → length (reply_text r) < word
      → IsSilent (first_line r.payload)
      → let first = reply_text (part_of r p) in
        (first ++ q ≡ reply_text r) × Agrees first (first ++ q) (length q)
  process_response-pieces some_more short silent = (
    joined,
    subst (λ t. Agrees (reply_text (part_of r p)) t (length q)) (sym joined)
        (agrees some_more short silent),
  )
