-- ===== src/Http/Chunked.antt =====
-- A response to a write that has no Content-Length: process_response of module/az.c looks for the end of
-- a chunked body.
use dysk.Base.{
  All, Bytes, List, [], ap, arith, codes, drop, false, length, none, not, pos, refl, some, suc,
  true, ℕ, ◌+◌, ◌-◌, ◌∙◌, ◌∷◌, ◌≡◌, ◌≤◌,
}
use dysk.Text.{c_str, strnstr, strncmp_eq}
use dysk.Http.Lines.{line_of, IsLine, drop-line_of}
use dysk.Http.Scan.{NonSpace}
use dysk.Http.Loops.{headers, size, IsOther, body_loop-headers, body_loop-found}
use dysk.Http.Reply.{strlen-line_of, strlen-headers, rounds-enough, drop-headers}
use dysk.Http.Status.{status_words, reason_text, status_line-status_words}
use dysk.Http.{
  is_none, min, HttpResponse, no_response, content_length_name, chunked_body_mark, body_loop,
  completed_at, http_response_completed, read_headers, process_response, has_content_length,
}

-- A response with an empty chunked body: version, reason and headers.
pub record ChunkedReply : Type 0 where
  pub v : ℕ
  pub version : Bytes
  pub reason : Bytes
  pub lines : List Bytes

abbrev pub created_line : ChunkedReply → Bytes
created_line r = status_words r.v r.version b'2' (codes "01") r.reason

abbrev pub created_text : ChunkedReply → Bytes
created_text r = line_of (created_line r) (headers r.lines (line_of [] chunked_body_mark))

-- The lines fit the buffers of process_response, and no line is Content-Length, nor is that name
-- found across lines in what is looked through.
pub record IsChunked (r : ChunkedReply) : Type 0 where
  pub version : NonSpace (r.v ∷ r.version)
  pub status : IsLine 510 (created_line r)
  pub lines : All IsOther r.lines
  pub unnamed :
      strnstr (created_text r) content_length_name (min (length (created_text r)) 1024) ≡ none

module _ (r : ChunkedReply) where
  abbrev at_lines : ℕ
  at_lines = 0 + length (created_line r) + 2

  abbrev read_so_far : HttpResponse
  read_so_far = record no_response {
    bytes_received = 0 + length (created_text r);
    status_code = pos 201;
    status = reason_text (created_line r) r.reason;
    idx = at_lines;
  }

  -- The response as it is read.
  abbrev pub created_response : HttpResponse
  created_response = record read_so_far {
    idx = at_lines + size r.lines + 2;
    body = some (at_lines + size r.lines + 2);
  }

module _ (r : ChunkedReply) (valid : IsChunked r) where
  strlen_created : at_lines r + size r.lines + 2 ≤ length (c_str (created_text r))
  strlen_created = omega (
    arith,
    strlen-line_of (created_line r) (headers r.lines (line_of [] chunked_body_mark))
        valid.status.no_nul,
    strlen-headers r.lines (line_of [] chunked_body_mark) valid.lines,
    strlen-line_of [] chunked_body_mark tt,
  )

  at_lines-drop :
      drop (at_lines r) (created_text r) ≡ headers r.lines (line_of [] chunked_body_mark)
  at_lines-drop =
      drop-line_of (created_text r) (created_line r)
        (headers r.lines (line_of [] chunked_body_mark)) 0 refl

  at_blank-drop : drop (at_lines r + size r.lines) (created_text r) ≡ line_of [] chunked_body_mark
  at_blank-drop =
      drop-headers r.lines (created_text r) (line_of [] chunked_body_mark) (at_lines r)
        at_lines-drop

  finds_mark :
      body_loop
        (length (c_str (created_text r)))
        (created_text r)
        (length (c_str (created_text r)))
        (read_so_far r)
      ≡ created_response r
  finds_mark =
      let len = length (c_str (created_text r)) in
      let left = len - length r.lines - 1 in
      ap (λ fuel. body_loop fuel (created_text r) len (read_so_far r))
        (rounds-enough r.lines len (omega (arith, strlen_created)))
      ∙ body_loop-headers r.lines (created_text r) (line_of [] chunked_body_mark) (suc left) len
          (read_so_far r) valid.lines at_lines-drop (omega (arith, strlen_created))
      ∙ body_loop-found (created_text r) chunked_body_mark left len
          (record (read_so_far r) { idx = at_lines r + size r.lines }) at_blank-drop
          (omega (arith, strlen_created))

  unnamed_too : has_content_length (created_text r) (read_so_far r) ≡ false
  unnamed_too =
      ap (λ n. not (is_none (strnstr (created_text r) content_length_name (min n 1024))))
        {x = 0 + length (created_text r)} {y = length (created_text r)} (omega arith)
      ∙ ap (λ k. not (is_none k)) valid.unnamed

  reads_created :
      read_headers (created_text r) (length (c_str (created_text r))) (read_so_far r)
      ≡ created_response r
  unfolding read_headers
  reads_created = rw unnamed_too finds_mark

  at_mark-drop : drop (at_lines r + size r.lines + 2) (created_text r) ≡ chunked_body_mark
  at_mark-drop =
      ap (λ k. drop k (created_text r)) {x = at_lines r + size r.lines + 2}
        {y = at_lines r + size r.lines + length {A = ℕ} [] + 2} (omega arith)
      ∙ drop-line_of (created_text r) [] chunked_body_mark (at_lines r + size r.lines) at_blank-drop

  completes_created : http_response_completed (created_response r) (created_text r) ≡ true
  unfolding http_response_completed completed_at strncmp_eq
  completes_created = rw at_mark-drop refl

  -- A response with status 201 that keeps to `IsChunked`, so that it has no Content-Length, and whose
  -- body is the end of a chunked body: when it comes in one piece, process_response reads the status
  -- and the reason, finds the body behind the empty line, and says that the response is complete.
  pub process_response-created_text :
      process_response
        (created_text r)
        (length (c_str (created_text r)))
        no_response
        (length (created_text r))
      ≡ (created_response r, true)
  unfolding process_response
  process_response-created_text =
      rw
        (
          status_line-status_words r.v r.version b'2' (codes "01") r.reason
              (headers r.lines (line_of [] chunked_body_mark)) (0 + length (created_text r))
              valid.version (ground arith) (omega arith) valid.status,
          process_response,
        )
        (rw reads_created (ap (λ b. (created_response r, b)) completes_created))
