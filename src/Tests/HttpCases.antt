-- ===== src/Tests/HttpCases.antt =====
-- A response of the storage service to module/az.c, and the header of a request to it.
use dysk.Base.{[], arith, codes, drop, false, length, pos, refl, some, true, ◌++◌, ◌∷◌, ◌≡◌}
use dysk.Text.{get_until, c_str, strnstr, is_prefix}
use dysk.Http.{no_response, process_response}
use dysk.Http.Reply.{Reply, IsValid, reply_text, body_at}
use dysk.Http.Whole.{process_response-reply_text}
use dysk.Transfer.Send.{BlkRequest}
use dysk.Http.Pieces.{process_response-pieces, Agrees, part_of, first_line, IsSilent}
use dysk.Http.Chunked.{
  ChunkedReply, IsChunked, created_text, created_response, process_response-created_text,
}
use dysk.Http.Misread.{process_response-misread}
use dysk.Http.Lines.{line_of, IsLine}
use dysk.Http.Scan.{scan_length-append}
use dysk.Http.{scan_length, content_length_name}

abbrev pub four_bytes : Reply
four_bytes = record {
  v = b'H';
  version = codes "TTP/1.1";
  d = b'2';
  code = codes "06";
  reason = codes "Partial Content";
  before = codes "Server: x" ∷ [];
  l = b'4';
  body_length = [];
  after = codes "ETag: y" ∷ [];
  payload = codes "abcd";
}

pub four_bytes-IsValid : IsValid four_bytes
unfolding strnstr is_prefix
four_bytes-IsValid = ground arith

process_response-reply_text_example :
    let (res, complete) =
      process_response
        (reply_text four_bytes)
        (length (c_str (reply_text four_bytes)))
        no_response
        (length (reply_text four_bytes)) in
    (complete ≡ true)
    × (res.status_code ≡ pos 206)
    × (res.content_length ≡ pos 4)
    × (res.body ≡ some (body_at four_bytes))
    × (drop (body_at four_bytes) (reply_text four_bytes) ≡ codes "abcd")
process_response-reply_text_example =
    process_response-reply_text four_bytes four_bytes-IsValid (omega arith)

four_bytes-IsSilent : IsSilent (first_line four_bytes.payload)
unfolding strnstr is_prefix get_until c_str dysk.Http.empty_buffer
four_bytes-IsSilent = refl

process_response-pieces_example :
    let first = reply_text (part_of four_bytes (codes "ab")) in
    (first ++ codes "cd" ≡ reply_text four_bytes) × Agrees first (first ++ codes "cd") 2
process_response-pieces_example =
    process_response-pieces four_bytes (codes "ab") (codes "cd") four_bytes-IsValid refl
      (omega arith) (omega arith) four_bytes-IsSilent

abbrev header_like : Reply
header_like = record four_bytes {
  l = b'2';
  body_length = codes "0";
  payload = line_of (codes "Content-Length: 9") (codes "x");
}

header_like-IsValid : IsValid header_like
unfolding strnstr is_prefix
header_like-IsValid = ground arith

header_like-IsLine : IsLine 508 (codes "Content-Length: 9")
header_like-IsLine = ground arith

header_like_named :
    strnstr (codes "Content-Length: 9") content_length_name (length (codes "Content-Length: 9"))
    ≡ some 0
unfolding strnstr is_prefix
header_like_named = refl

header_like_scanned : scan_length (codes "Content-Length: 9") (pos 20) ≡ pos 9
header_like_scanned =
    scan_length-append b'C' (codes "ontent-Length:") b'9' [] (pos 20) (ground arith) (ground arith)
      (omega arith)

process_response-misread_example :
    let first = reply_text (part_of header_like (codes "Content-")) in
    let text = first ++ line_of (codes "Length: 9") (codes "x") in
    let (res₁, complete₁) =
      process_response first (length (c_str first)) no_response (length first) in
    let (res₂, complete₂) = process_response text (length (c_str text)) res₁ 12 in
    (text ≡ reply_text header_like)
    × (complete₁ ≡ false)
    × (res₁.content_length ≡ pos 20)
    × (res₂.content_length ≡ pos 9)
    × (complete₂ ≡ false)
process_response-misread_example =
    process_response-misread header_like (codes "Content-")
      (line_of (codes "Length: 9") (codes "x")) header_like-IsValid refl (codes "Content-Length: 9")
      (codes "x") 0 9 (omega arith) (omega arith) refl header_like-IsLine header_like_named
      header_like_scanned

abbrev chunked : ChunkedReply
chunked = record {
  v = b'H';
  version = codes "TTP/1.1";
  reason = codes "Created";
  lines = codes "Transfer-Encoding: chunked" ∷ codes "ETag: y" ∷ [];
}

chunked-IsChunked : IsChunked chunked
unfolding strnstr is_prefix
chunked-IsChunked = ground arith

process_response-created_text_example :
    process_response
      (created_text chunked)
      (length (c_str (created_text chunked)))
      no_response
      (length (created_text chunked))
    ≡ (created_response chunked, true)
process_response-created_text_example = process_response-created_text chunked chunked-IsChunked

abbrev pub read_four : BlkRequest
read_four = record { write = false; sector = 3; segments = codes "??" ∷ codes "??" ∷ [] }
