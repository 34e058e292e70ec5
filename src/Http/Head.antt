-- ===== src/Http/Head.antt =====
-- process_response of module/az.c on the head of a response, with as much of the body as came with it.
use mathlib.Core.List.{append_assoc}
use Prim.Native.Nat.{min}
use dysk.Base.{
  Bytes, List, Option-cases, [], ap, arith, codes, drop, inl, inr, length, neg, none, pos, refl,
  some, suc, sym, true, ℕ, ◌%◌, ◌++◌, ◌+◌, ◌-◌, ◌<◌, ◌==◌, ◌∙◌, ◌∷◌, ◌≡◌, ◌≢◌, ◌≤◌,
}
use dysk.Text.{c_str, strnstr}
use dysk.Worker.{word}
use dysk.Http.Lines.{line_of, padded, drop-line_of, strnstr-ne-none}
use dysk.Http.Scan.{value, scan_length-append}
use dysk.Http.Loops.{
  headers, size, length_loop-headers, length_loop-found, body_loop-headers, body_loop-found,
  not_zero,
}
use dysk.Http.Status.{status_line-status_words}
use dysk.Http.Reply.{
  Reply, status_of, length_of, from_length, reply_text, length_at, body_at, IsHead, length-headers,
  length-line_of, strlen-line_of, strlen-headers, rounds-enough, drop-headers,
}
use dysk.Http.{
  HttpResponse, no_response, content_length_name, scan_word, scan_length, status_text, status_line,
  length_loop, body_loop, completed_at, http_response_completed, read_headers, process_response,
  has_content_length,
}

headers-append : (ls : List Bytes) (rest : Bytes) → headers ls rest ≡ headers ls [] ++ rest
headers-append [] rest = refl
headers-append (l ∷ ls) rest =
    ap (line_of l) (headers-append ls rest)
    ∙ sym (append_assoc l (b'\r' ∷ b'\n' ∷ headers ls []) rest)

module _ (r : Reply) (total : ℕ) (valid : IsHead r total) where
  abbrev pub text : Bytes
  text = reply_text r

  abbrev pub code_of : ℕ
  code_of = value 0 (r.d ∷ r.code)

  abbrev pub reason_of : Bytes
  reason_of = status_text (padded (status_of r)) (scan_word (b' ' ∷ r.reason)).0

  -- The response after the status line, after the first loop and after the second.
  abbrev pub with_status : HttpResponse
  with_status = record no_response {
    bytes_received = 0 + length text;
    status_code = pos code_of;
    status = reason_of;
    idx = 0 + length (status_of r) + 2;
  }

  abbrev pub with_length : HttpResponse
  with_length = record with_status {
    content_length = pos total;
    idx = length_at r + length (length_of r) + 2;
  }

  abbrev pub with_body : HttpResponse
  with_body = record with_length { idx = body_at r; body = some (body_at r) }

  pub text_length : length text ≡ body_at r + length r.payload
  text_length = omega (
    arith,
    length-line_of (status_of r) (headers r.before (from_length r)),
    length-headers r.before (from_length r),
    length-line_of (length_of r) (headers r.after (line_of [] r.payload)),
    length-headers r.after (line_of [] r.payload),
  )

  -- strlen of the buffer reaches over the head.
  pub strlen_text : length (c_str text) ≡ body_at r + length (c_str r.payload)
  strlen_text = omega (
    arith,
    strlen-line_of (status_of r) (headers r.before (from_length r)) valid.status.no_nul,
    strlen-headers r.before (from_length r) valid.before,
    strlen-line_of (length_of r) (headers r.after (line_of [] r.payload)) valid.length_line.no_nul,
    strlen-headers r.after (line_of [] r.payload) valid.after,
    strlen-line_of [] r.payload tt,
  )

  text_strlen : body_at r ≤ length (c_str text)
  text_strlen = omega (arith, strlen_text)

  reads_status :
      status_line text (record no_response { bytes_received = 0 + length text }) ≡ some with_status
  reads_status =
      status_line-status_words r.v r.version r.d r.code r.reason (headers r.before (from_length r))
        (0 + length text) valid.version valid.code valid.code_range valid.status

  at_headers : drop (0 + length (status_of r) + 2) text ≡ headers r.before (from_length r)
  at_headers = drop-line_of text (status_of r) (headers r.before (from_length r)) 0 refl

  at_length : drop (length_at r) text ≡ from_length r
  at_length =
      ap (λ k. drop k text) {x = length_at r} {y = 0 + length (status_of r) + 2 + size r.before}
        (omega arith)
      ∙ drop-headers r.before text (from_length r) (0 + length (status_of r) + 2) at_headers

  abbrev pub strlen : ℕ
  strlen = length (c_str text)

  length_named :
      (k : ℕ) × (strnstr (length_of r) content_length_name (length (length_of r)) ≡ some k)
  length_named =
      elim (Option-cases (strnstr (length_of r) content_length_name (length (length_of r)))) [
        | inl missed ↦ absurd (
            strnstr-ne-none [] b'C' (codes "ontent-Length") (b':' ∷ b' ' ∷ r.l ∷ r.body_length)
              (length (length_of r)) (omega arith) missed)
        | inr found ↦ found
      ]

  scans_length : scan_length (length_of r) (neg 1) ≡ pos total
  scans_length =
      scan_length-append b'C' (codes "ontent-Length:") r.l r.body_length (neg 1) (ground arith)
        valid.length_digits (omega (arith, valid.length_right, valid.length_range))
      ∙ ap pos valid.length_right

  finds_length : length_loop strlen text strlen with_status ≡ with_length
  finds_length =
      let (k, named) = length_named in
      let left = strlen - length r.before - 1 in
      ap (λ fuel. length_loop fuel text strlen with_status)
        (rounds-enough r.before strlen (omega (arith, text_strlen)))
      ∙ length_loop-headers r.before text (from_length r) (suc left) strlen with_status valid.before
          at_headers refl (omega (arith, text_strlen))
      ∙ ap (λ i. length_loop (suc left) text strlen (record with_status { idx = i }))
          {y = length_at r} (omega arith)
      ∙ length_loop-found (length_of r) text (headers r.after (line_of [] r.payload)) left strlen
          total k (record with_status { idx = length_at r }) valid.length_line named scans_length
          at_length (omega (arith, text_strlen))

  at_after :
      drop (length_at r + length (length_of r) + 2) text ≡ headers r.after (line_of [] r.payload)
  at_after =
      drop-line_of text (length_of r) (headers r.after (line_of [] r.payload)) (length_at r)
        at_length

  finds_body : body_loop strlen text strlen with_length ≡ with_body
  finds_body =
      let left = strlen - length r.after - 1 in
      let at = length_at r + length (length_of r) + 2 + size r.after in
      ap (λ fuel. body_loop fuel text strlen with_length)
        (rounds-enough r.after strlen (omega (arith, text_strlen)))
      ∙ body_loop-headers r.after text (line_of [] r.payload) (suc left) strlen with_length
          valid.after at_after (omega (arith, text_strlen))
      ∙ body_loop-found text r.payload left strlen (record with_length { idx = at })
          (drop-headers r.after text (line_of [] r.payload) (length_at r + length (length_of r) + 2)
            at_after)
          (omega (arith, text_strlen))

  pub has_length : has_content_length text with_status ≡ true
  has_length = elim (Option-cases (strnstr text content_length_name (min (0 + length text) 1024))) [
    | inl missed ↦ absurd (named missed)
    | inr (k, found) ↦ rw found refl
  ]
    where
      front : Bytes
      front = line_of (status_of r) (headers r.before [])

      split : text ≡ front ++ from_length r
      split =
          ap (line_of (status_of r)) (headers-append r.before (from_length r))
          ∙ sym (append_assoc (status_of r) (b'\r' ∷ b'\n' ∷ headers r.before []) (from_length r))

      front_length : length front ≡ length_at r
      front_length =
          omega
            (arith, length-line_of (status_of r) (headers r.before []), length-headers r.before [])

      named : strnstr text content_length_name (min (0 + length text) 1024) ≢ none
      named = rw split (
          strnstr-ne-none front b'C' (codes "ontent-Length")
            (b':'
              ∷ b' '
              ∷ r.l
              ∷ (r.body_length ++ b'\r' ∷ b'\n' ∷ headers r.after (line_of [] r.payload)))
            (min (0 + length text) 1024) (omega (arith, front_length, valid.early, text_length)))

  -- A response with this head is complete when as many bytes as the total are behind the head.
  pub completes :
      (response : Bytes) (received k idx : ℕ)
      → received ≡ body_at r + k
      → received < word
      → http_response_completed (record with_body { bytes_received = received; idx = idx }) response
        ≡ (total == k)
  unfolding http_response_completed completed_at
  completes response received k idx e short =
      let size : (received + word - body_at r) % word ≡ k = omega arith in
      rw (not_zero code_of valid.code_not_zero) (ap (λ n. total == n) size)

  reads_headers : read_headers text strlen with_status ≡ with_body
  unfolding read_headers
  reads_headers = rw (not_zero code_of valid.code_not_zero) (
      rw has_length
        (rw finds_length (rw finds_body (rw (not_zero code_of valid.code_not_zero) refl))))

  pub at_body : drop (body_at r) text ≡ r.payload
  at_body =
      let at = length_at r + length (length_of r) + 2 + size r.after in
      ap (λ k. drop k text) {x = body_at r} {y = at + length {A = ℕ} [] + 2} (omega arith)
      ∙ drop-line_of text [] r.payload at (
          drop-headers r.after text (line_of [] r.payload) (length_at r + length (length_of r) + 2)
            at_after)

  pub process_response-with_body :
      length text < word
      → process_response text strlen no_response (length text)
        ≡ (with_body, total == length r.payload)
  unfolding process_response
  process_response-with_body short =
      rw (reads_status, process_response)
        (rw
          (
            reads_headers,
            completes text (0 + length text) (length r.payload) (body_at r)
                (omega (arith, text_length)) (omega (arith, short)),
          )
          refl)
