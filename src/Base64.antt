-- ===== src/Base64.antt =====
-- base64_encode and base64_decode of module/dysk_utils.c over byte lists. A buffer is the list of
-- the bytes that `out_len` covers; the flag `mem` says whether kmalloc gives the buffer.
pub mod Table
pub mod RoundTrip
pub mod Size
use dysk.Base.{
  Bool, Bytes, Option, [], bit_and, bit_or, codes, get_or, if◌then◌else◌, length, ltb, none, not,
  replicate, set, some, suc, take, ℕ, ◌%◌, ◌*◌, ◌++◌, ◌+◌, ◌-◌, ◌/◌, ◌==◌, ◌^◌, ◌||◌, ◌∷◌,
}

abbrev pub size_t_mod : ℕ
size_t_mod = 2 ^ 64

unfoldable pub base64_table : Bytes
base64_table = codes "ABCDEFGHIJKLMNOPQRSTUVWXYZabcdefghijklmnopqrstuvwxyz0123456789+/"

-- `base64_table[i]`
unfoldable pub digit : ℕ → ℕ
unfolding base64_table
digit i = get_or base64_table i 0

-- The loop over blocks of three bytes, and the last one or two.
unfoldable pub encode_loop : Bytes → Bytes
encode_loop [] = []
encode_loop (a ∷ []) = digit (a / 4) ∷ digit (bit_and a 0x03 * 16) ∷ b'=' ∷ b'=' ∷ []
encode_loop (a ∷ b ∷ []) =
    digit (a / 4)
    ∷ digit (bit_or (bit_and a 0x03 * 16) (b / 16))
    ∷ digit (bit_and b 0x0f * 4)
    ∷ b'='
    ∷ []
encode_loop (a ∷ b ∷ c ∷ rest) =
    digit (a / 4)
    ∷ digit (bit_or (bit_and a 0x03 * 16) (b / 16))
    ∷ digit (bit_or (bit_and b 0x0f * 4) (c / 64))
    ∷ digit (bit_and c 0x3f)
    ∷ encode_loop rest

-- `olen = len * 4 / 3 + 4; olen++;` in size_t.
unfoldable pub encode_olen : ℕ → ℕ
encode_olen len = ((len * 4) % size_t_mod / 3 + 4 + 1) % size_t_mod

unfoldable pub base64_encode : Bool → Bytes → Option Bytes
base64_encode mem src =
    if ltb (encode_olen (length src)) (length src)
    then none
    else if mem
    then some (encode_loop src)
    else none

-- `dtable`: filled with 0x80, then the digits' values, then '='.
unfoldable pub fill_dtable : Bytes → ℕ → Bytes → Bytes
fill_dtable [] i dtable = dtable
fill_dtable (c ∷ cs) i dtable = fill_dtable cs (suc i) (set dtable c i)

unfoldable pub dtable : Bytes
unfolding fill_dtable base64_table
dtable = set (fill_dtable base64_table 0 (replicate 256 0x80)) b'=' 0

unfoldable pub value : ℕ → ℕ
unfolding dtable
value c = get_or dtable c 0x80

-- The first pass: how many characters of the source are not skipped.
unfoldable pub count_valid : Bytes → ℕ
count_valid [] = 0
count_valid (c ∷ cs) = (if value c == 0x80 then 0 else 1) + count_valid cs

-- Three bytes out of a block of four values, each cut to an `unsigned char`.
unfoldable pub unblock : Bytes → Bytes
unblock block =
    (bit_or (get_or block 0 0 * 4) (get_or block 1 0 / 16) % 256)
    ∷ (bit_or (get_or block 1 0 * 16) (get_or block 2 0 / 4) % 256)
    ∷ (bit_or (get_or block 2 0 * 64) (get_or block 3 0) % 256)
    ∷ []

-- `pos--`, `pos -= 2`, or the refusal, for `pad` characters '='.
unfoldable pub cut_pad : ℕ → Bytes → Option Bytes
cut_pad pad out =
    if pad == 1
    then some (take (length out - 1) out)
    else if pad == 2
    then some (take (length out - 2) out)
    else none

-- The second pass. `block` holds the values read since the last full block, oldest first.
unfoldable pub decode_loop : Bytes → Bytes → ℕ → Bytes → Option Bytes
decode_loop [] block pad out = some out
decode_loop (c ∷ cs) block pad out =
    let block' = block ++ value c ∷ [] in
    let pad' = pad + (if c == b'=' then 1 else 0) in
    let out' = out ++ unblock block' in
    let skipped = decode_loop cs block pad out in
    let partial = decode_loop cs block' pad' out in
    let whole = decode_loop cs [] pad' out' in
    if value c == 0x80
    then skipped
    else if not (length block' == 4)
    then partial
    else if pad' == 0
    then whole
    else cut_pad pad' out'

unfoldable pub base64_decode : Bool → Bytes → Option Bytes
base64_decode mem src =
    let count = count_valid src in
    if count == 0 || not (count % 4 == 0)
    then none
    else if mem
    then decode_loop src [] 0 []
    else none
