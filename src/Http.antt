-- ===== src/Http.antt =====
-- The reading of an HTTP response, module/az.c: struct http_response, http_response_completed and
-- process_response. `response` holds the bytes received so far, followed by NULs; a pointer into it
-- is an offset. sscanf reads `int`s of 32 bits.
pub mod Scan
pub mod Lines
pub mod Loops
pub mod Reply
pub mod Status
pub mod Head
pub mod Whole
pub mod Pieces
pub mod Misread
pub mod Chunked
pub mod Fuel
use dysk.Base.{
  Bool, Bytes, Option, [], codes, drop, eq_ℤ, false, if◌then◌else◌, leb, length, ltb, neg, negsuc,
  none, not, pos, replicate, some, suc, take, true, zero, ℕ, ℤ, ◌%◌, ◌&&◌, ◌*◌, ◌+◌, ◌-◌, ◌==◌, ◌^◌,
  ◌||◌, ◌∷◌,
}
use Prim.Native.Nat.{min}
use dysk.Text.{c_str, strncmp_eq, strnstr, get_until}
use dysk.Worker.{word}

-- `body` is an offset into the buffer. `status` is what was written to the array of that name.
pub record HttpResponse : Type 0 where
  pub status_code : ℤ
  pub content_length : ℤ
  pub bytes_received : ℕ
  pub body : Option ℕ
  pub idx : ℕ
  pub status : Bytes

abbrev pub rn : Bytes
rn = codes "\r\n"

abbrev pub content_length_name : Bytes
content_length_name = codes "Content-Length"

abbrev pub chunked_body_mark : Bytes
chunked_body_mark = codes "0\r\n\r\n"

abbrev pub is_space : ℕ → Bool
is_space c = c == 32 || leb 9 c && leb c 13

abbrev pub is_digit : ℕ → Bool
is_digit c = leb b'0' c && leb c b'9'

unfoldable pub skip_spaces : Bytes → Bytes
skip_spaces [] = []
skip_spaces (c ∷ cs) = if is_space c then skip_spaces cs else c ∷ cs

-- A run of bytes without white space, and what follows it.
unfoldable pub word_run : Bytes → Bytes × Bytes
word_run [] = ([], [])
word_run (c ∷ cs) =
    let (run, rest) = word_run cs in if is_space c then ([], c ∷ cs) else (c ∷ run, rest)

-- `%s` of sscanf. `%*s` is word_run: the sscanf of the kernel skips to the next white space, and no
-- white space in front.
unfoldable pub scan_word : Bytes → Bytes × Bytes
scan_word s = word_run (skip_spaces s)

unfoldable pub digits : ℕ → Bytes → ℕ × Bytes
digits acc [] = (acc, [])
digits acc (c ∷ cs) =
    let more = digits (acc * 10 + (c - b'0')) cs in if is_digit c then more else (acc, c ∷ cs)

abbrev pub starts_number : Bytes → Bool
starts_number [] = false
starts_number (c ∷ cs) = is_digit c

abbrev pub int32 : ℕ → ℤ
int32 n = if ltb (n % 2 ^ 32) (2 ^ 31) then pos (n % 2 ^ 32) else neg (2 ^ 32 - n % 2 ^ 32)

-- `-n` as an `int`.
abbrev pub minus_int32 : ℕ → ℤ
minus_int32 n = int32 (2 ^ 32 - n % 2 ^ 32)

unfoldable pub scan_unsigned : (ℕ → ℤ) → Bytes → Option (ℤ × Bytes)
scan_unsigned convert s =
    if starts_number s then (let (n, rest) = digits 0 s in some (convert n, rest)) else none

unfoldable pub scan_signed : Bytes → Option (ℤ × Bytes)
unfolding scan_unsigned
scan_signed [] = none
scan_signed (c ∷ cs) =
    if c == b'-' then scan_unsigned minus_int32 cs else scan_unsigned int32 (c ∷ cs)

-- `%d` of sscanf.
unfoldable pub scan_int : Bytes → Option (ℤ × Bytes)
scan_int s = scan_signed (skip_spaces s)

-- `sscanf(buffer, "%*s %d %s", &status_code, temp)`: what is stored, and the text in `temp`.
unfoldable pub scan_status : Bytes → ℤ → ℤ × Bytes
scan_status buffer status_code = elim (scan_int (word_run buffer).1) [
  | none ↦ (status_code, [])
  | some (n, rest) ↦ (n, (scan_word rest).0)
]

-- `sscanf(buffer, "%*s %d", &content_length)`
unfoldable pub scan_length : Bytes → ℤ → ℤ
scan_length buffer content_length = elim (scan_int (word_run buffer).1) [
  | none ↦ content_length
  | some (n, rest) ↦ n
]

-- `strnlen(s, n)` bytes of `s`.
abbrev pub first_bytes : ℕ → Bytes → Bytes
first_bytes n s = take n (c_str s)

-- `res->idx += cut + strlen(rn)`, where -1 is the only negative number that get_until returns.
abbrev pub advance : ℕ → ℤ → ℕ
advance idx (pos cut) = idx + cut + 2
advance idx (negsuc n) = idx + 1

-- The text that `temp` is found at in `buffer`; it is always found, since it was read from there.
unfoldable pub status_text : Bytes → Bytes → Bytes
status_text buffer temp = elim (strnstr buffer temp 512) [
  | none ↦ []
  | some k ↦ first_bytes 510 (drop k buffer)
]

-- `char buffer[512] = {0}`
unfoldable pub empty_buffer : Bytes
empty_buffer = replicate 512 0

-- The status line, `none` where process_response returns 0 for it.
unfoldable pub read_status : HttpResponse → ℤ × Bytes → Option HttpResponse
read_status res (negsuc n, buffer) = none
read_status res (pos cut, buffer) =
    let (code, temp) = scan_status (c_str buffer) res.status_code in
    if cut == 0
    then none
    else some (record res {
      status_code = code;
      status = status_text buffer temp;
      idx = res.idx + cut + 2;
    })

unfoldable pub status_line : Bytes → HttpResponse → Option HttpResponse
status_line response res =
    if eq_ℤ res.status_code (pos 0)
    then read_status res (get_until response rn (empty_buffer) 512)
    else some res

-- The next header line, in `buffer`.
abbrev pub next_line : Bytes → ℕ → ℤ × Bytes
next_line response idx = get_until (drop idx response) rn (empty_buffer) 510

-- What one round of the first loop does with a line.
unfoldable pub header_line : HttpResponse → ℤ × Bytes → HttpResponse
header_line res (cut, buffer) =
    let line = c_str buffer in
    record res {
      content_length = elim (strnstr line content_length_name (length line)) [
        | none ↦ res.content_length
        | some k ↦ scan_length line res.content_length
      ];
      idx = advance res.idx cut;
    }

-- The loop for Content-Length. Every round moves `idx` on, so that `response_length` rounds end it.
unfoldable pub length_loop : ℕ → Bytes → ℕ → HttpResponse → HttpResponse
length_loop zero response response_length res = res
length_loop (suc fuel) response response_length res =
    let res' = header_line res (next_line response res.idx) in
    let later = length_loop fuel response response_length res' in
    if not (ltb res.idx response_length)
    then res
    else if not (eq_ℤ res'.content_length (neg 1))
    then res'
    else later

-- The loop for the empty line in front of the body.
unfoldable pub body_loop : ℕ → Bytes → ℕ → HttpResponse → HttpResponse
body_loop zero response response_length res = res
body_loop (suc fuel) response response_length res =
    let (cut, buffer) = next_line response res.idx in
    let later =
      body_loop fuel response response_length (record res { idx = advance res.idx cut }) in
    if not (ltb res.idx response_length)
    then res
    else if eq_ℤ cut (pos 0)
    then record res { idx = res.idx + 2; body = some (res.idx + 2) }
    else later

-- An `int` as a size_t.
abbrev pub to_size : ℤ → ℕ
to_size (pos n) = n
to_size (negsuc n) = word - (n + 1)

unfoldable pub completed_at : HttpResponse → Bytes → ℕ → Bool
completed_at res response body =
    eq_ℤ res.content_length (neg 1)
      && eq_ℤ res.status_code (pos 201)
      && strncmp_eq (drop body response) chunked_body_mark 5
    || to_size res.content_length == (res.bytes_received + word - body) % word

unfoldable pub http_response_completed : HttpResponse → Bytes → Bool
http_response_completed res response =
    if eq_ℤ res.status_code (pos 0)
    then false
    else elim res.body [ none ↦ false | some body ↦ completed_at res response body ]

abbrev pub is_none {ℓ} : {A : Type ℓ} → Option A → Bool
is_none none = true
is_none (some a) = false

abbrev pub has_content_length : Bytes → HttpResponse → Bool
has_content_length response res =
    not (is_none (strnstr response content_length_name (min res.bytes_received 1024)))

-- The two loops of process_response, behind the status line.
unfoldable pub read_headers : Bytes → ℕ → HttpResponse → HttpResponse
read_headers response response_length res =
    let res =
      if not (eq_ℤ res.status_code (pos 0)) && has_content_length response res
      then length_loop response_length response response_length res
      else res in
    if not (eq_ℤ res.status_code (pos 0))
      && (not (eq_ℤ res.content_length (neg 1)) || eq_ℤ res.status_code (pos 201))
      && is_none res.body
    then body_loop response_length response response_length res
    else res

-- process_response: the response afterwards, and whether it is complete.
unfoldable pub process_response : Bytes → ℕ → HttpResponse → ℕ → HttpResponse × Bool
process_response response response_length res received =
    let res = record res { bytes_received = res.bytes_received + received } in
    elim (status_line response res) [
      | none ↦ (res, false)
      | some res ↦
          let res = read_headers response response_length res in
          (res, http_response_completed res response)
    ]

-- A fresh response, as __receive_az_response allocates it.
abbrev pub no_response : HttpResponse
no_response = record {
  status_code = pos 0;
  content_length = neg 1;
  bytes_received = 0;
  body = none;
  idx = 0;
  status = [];
}
