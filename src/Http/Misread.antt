-- ===== src/Http/Misread.antt =====
-- What process_response of module/az.c does to a response in two pieces when the block that is read
-- starts with a line that names Content-Length: the first loop runs again, now over the body.
use dysk.Base.{
  Bytes, ap, arith, drop, false, length, pos, refl, some, suc, true, ℕ, ◌%◌, ◌++◌, ◌+◌, ◌-◌, ◌<◌,
  ◌==◌, ◌∙◌, ◌≡◌,
}
use dysk.Text.{c_str, strnstr}
use dysk.Worker.{word}
use dysk.Http.Lines.{line_of, IsLine}
use dysk.Http.Loops.{length_loop-found, not_zero}
use dysk.Http.Reply.{strlen-line_of, Reply, reply_text, body_at, IsValid}
use dysk.Http.Head.{
  code_of, reason_of, has_length, at_body, strlen_text, text_length, process_response-with_body,
}
use dysk.Http.Pieces.{found, part_of, part-IsHead, joined, lengths, status_again, not_complete}
use dysk.Http.{
  read_headers, length_loop, content_length_name, scan_length, has_content_length, no_response,
  process_response, http_response_completed, completed_at,
}

module _ (code total n received : ℕ) (body : ℕ) (status line : Bytes) where
  -- The line at the mark is read as a header, whatever it belongs to.
  reads_line :
      (response rest : Bytes) (k : ℕ)
      → 0 < code
      → IsLine 508 line
      → strnstr line content_length_name (length line) ≡ some k
      → scan_length line (pos total) ≡ pos n
      → drop body response ≡ line_of line rest
      → body < length (c_str response)
      → has_content_length response (found code total body received status body) ≡ true
      → read_headers response (length (c_str response)) (found code total body received status body)
        ≡ found code n body received status (body + length line + 2)
  unfolding read_headers
  reads_line response rest k h is_line named scanned at below has =
      let found_line =
        length_loop-found line response rest (length (c_str response) - 1) (length (c_str response))
          n k (found code total body received status body) is_line named scanned at below in
      let loop =
        ap
          (λ fuel.
            length_loop fuel response (length (c_str response))
              (found code total body received status body))
          {x = length (c_str response)} {y = suc (length (c_str response) - 1)}
          (omega (arith, below))
        ∙ found_line in
      rw (not_zero code h) (rw has (rw loop (rw (not_zero code h) refl)))

  completes_at :
      (response : Bytes) (k idx : ℕ)
      → 0 < code
      → received ≡ body + k
      → received < word
      → http_response_completed (found code n body received status idx) response ≡ (n == k)
  unfolding http_response_completed completed_at
  completes_at response k idx h e short =
      let size : (received + word - body) % word ≡ k = omega arith in
      rw (not_zero code h) (ap (λ m. n == m) size)

  second_call :
      (response rest : Bytes) (k m before more : ℕ)
      → 0 < code
      → IsLine 508 line
      → strnstr line content_length_name (length line) ≡ some k
      → scan_length line (pos total) ≡ pos n
      → drop body response ≡ line_of line rest
      → body < length (c_str response)
      → has_content_length response (found code total body received status body) ≡ true
      → before + more ≡ received
      → received ≡ body + m
      → received < word
      → process_response response
          (length (c_str response))
          (found code total body before status body)
          more
        ≡ (found code n body received status (body + length line + 2), n == m)
  unfolding process_response
  second_call response rest k m before more h is_line named scanned at below has sum e short =
      let end = body + length line + 2 in
      rw (sum, process_response)
        (rw (status_again code total body received status body response h) (
          rw (reads_line response rest k h is_line named scanned at below has) (
            ap (λ b. (found code n body received status end, b))
              (completes_at response m end h e short))))

module _ (r : Reply) (p q : Bytes) (v : IsValid r) (split : r.payload ≡ p ++ q) where
  -- A response of the service whose head comes with a part of the body, and whose rest comes later:
  -- when the first line of the body names Content-Length and has the number `n` as its second word,
  -- the second call of process_response takes `n` for the length of the body, and says that the
  -- response is complete only if that is the length of the body.
  pub process_response-misread :
      (line rest : Bytes) (k n : ℕ)
      → 0 < length q
      → length (reply_text r) < word
      → r.payload ≡ line_of line rest
      → IsLine 508 line
      → strnstr line content_length_name (length line) ≡ some k
      → scan_length line (pos (length r.payload)) ≡ pos n
      → let first = reply_text (part_of r p) in
        let text = first ++ q in
        let (res₁, complete₁) =
          process_response first (length (c_str first)) no_response (length first) in
        let (res₂, complete₂) = process_response text (length (c_str text)) res₁ (length q) in
        (text ≡ reply_text r)
        × (complete₁ ≡ false)
        × (res₁.content_length ≡ pos (length r.payload))
        × (res₂.content_length ≡ pos n)
        × (complete₂ ≡ (n == length r.payload))
  process_response-misread line rest k n some_more short at is_line named scanned =
      let total = length r.payload in
      let text = reply_text r in
      let first = length (reply_text (part_of r p)) in
      let head = part-IsHead r p v in
      let size : first + length q ≡ 0 + length text = omega (
        arith,
        text_length (part_of r p) total head,
        text_length r total v,
        lengths r p q v split,
      ) in
      let is_text = joined r p q v split in
      let below : body_at r < length (c_str text) = omega (
        arith,
        strlen_text r total v,
        ap (λ b. length (c_str b)) at,
        strlen-line_of line rest is_line.no_nul,
      ) in
      let second =
        second_call (code_of r total v) total n (0 + length text) (body_at r) (reason_of r total v)
          line text rest k total (0 + first) (length q) v.code_not_zero is_line named scanned
          (at_body r total v ∙ at) below (has_length r total v) (omega (arith, size))
          (omega (arith, text_length r total v)) (omega (arith, short)) in
      rw (process_response-with_body (part_of r p) total head (omega (arith, size, short)))
        (rw is_text (rw second (refl, not_complete r p q v split some_more, refl, refl, refl)))
