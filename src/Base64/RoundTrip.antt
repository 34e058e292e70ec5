-- ===== src/Base64/RoundTrip.antt =====
-- base64_decode undoes base64_encode (module/dysk_utils.c).
use mathlib.Core.List.{append_assoc, append-nil}
use dysk.Base.{
  All, Bytes, [], ap, arith, bit_and, bit_or, inl, inr, length, length-append, refl, some, take,
  take_append, true, ℕ, ◌%◌, ◌*◌, ◌++◌, ◌+◌, ◌-◌, ◌/◌, ◌<◌, ◌^◌, ◌∙◌, ◌∷◌, ◌≡◌, ◌≢◌, ◌⊎◌,
}
use dysk.Base64.{
  digit, encode_loop, base64_encode, encode_olen, count_valid, unblock, cut_pad, decode_loop,
  base64_decode,
}
use dysk.Base64.Table.{value-digit, value_pad, or4, or16, or64, and_masks}

abbrev pub IsBytes : Bytes → Type 0
IsBytes = All (λ b. b < 256)

-- A digit read into a block with room for it, or as its last value.
decode-digit :
    (x : ℕ) (cs block out : Bytes)
    → x < 64
    → length block < 3
    → decode_loop (digit x ∷ cs) block 0 out ≡ decode_loop cs (block ++ x ∷ []) 0 out
unfolding decode_loop
decode-digit x cs block out h room = ground (arith, value-digit x h, length-append block (x ∷ []))

decode-digit_last :
    (x : ℕ) (cs block out : Bytes)
    → x < 64
    → length block ≡ 3
    → decode_loop (digit x ∷ cs) block 0 out
      ≡ decode_loop cs [] 0 (out ++ unblock (block ++ x ∷ []))
unfolding decode_loop
decode-digit_last x cs block out h full =
    ground (arith, value-digit x h, length-append block (x ∷ []))

abbrev Quad : ℕ → ℕ → ℕ → ℕ → Type 0
Quad x y z w = (x < 64) × (y < 64) × (z < 64) × (w < 64)

decode_four :
    (x y z w : ℕ) (cs out : Bytes)
    → Quad x y z w
    → decode_loop (digit x ∷ digit y ∷ digit z ∷ digit w ∷ cs) [] 0 out
      ≡ decode_loop cs [] 0 (out ++ unblock (x ∷ y ∷ z ∷ w ∷ []))
decode_four x y z w cs out h =
    decode-digit x _ [] out h.0 (omega arith)
    ∙ decode-digit y _ (x ∷ []) out h.1 (omega arith)
    ∙ decode-digit z _ (x ∷ y ∷ []) out h.2 (omega arith)
    ∙ decode-digit_last w cs (x ∷ y ∷ z ∷ []) out h.3 (omega arith)

unblock-sum :
    (x y z w : ℕ)
    → Quad x y z w
    → unblock (x ∷ y ∷ z ∷ w ∷ [])
      ≡ ((x * 4 + y / 16) % 256) ∷ ((y * 16 + z / 4) % 256) ∷ ((z * 64 + w) % 256) ∷ []
unfolding unblock
unblock-sum x y z w h =
    rw (or4 x (y / 16) h.0 (omega arith), or16 y (z / 4) h.1 (omega arith), or64 z w h.2 h.3)

list_of_three : {x y z u v w : ℕ} → x ≡ u → y ≡ v → z ≡ w → x ∷ y ∷ z ∷ [] ≡ u ∷ v ∷ w ∷ []
list_of_three p q r = cc

-- The values that the encoder makes of three bytes hold them. A missing byte counts as 0.
bytes_of :
    (a b c x y z w : ℕ)
    → (a < 256) × (b < 256) × (c < 256)
    → (x ≡ a / 4) × (y ≡ a % 4 * 16 + b / 16) × (z ≡ b % 16 * 4 + c / 64) × (w ≡ c % 64)
    → unblock (x ∷ y ∷ z ∷ w ∷ []) ≡ a ∷ b ∷ c ∷ []
bytes_of a b c x y z w h e =
    unblock-sum x y z w (omega arith) ∙ list_of_three (omega arith) (omega arith) (omega arith)

second_value :
    (a b : ℕ) → a < 256 → b < 256 → bit_or (bit_and a 0x03 * 16) (b / 16) ≡ a % 4 * 16 + b / 16
second_value a b ha hb = rw ((and_masks a ha).0) (or16 (a % 4) (b / 16) (omega arith) (omega arith))

third_value :
    (b c : ℕ) → b < 256 → c < 256 → bit_or (bit_and b 0x0f * 4) (c / 64) ≡ b % 16 * 4 + c / 64
third_value b c hb hc = rw ((and_masks b hb).1) (or4 (b % 16) (c / 64) (omega arith) (omega arith))

-- The two last characters of a text that ends in '=' or '=='.
decode_pad_one :
    (x y z : ℕ) (out : Bytes)
    → (x < 64) × (y < 64) × (z < 64)
    → decode_loop (digit x ∷ digit y ∷ digit z ∷ b'=' ∷ []) [] 0 out
      ≡ cut_pad 1 (out ++ unblock (x ∷ y ∷ z ∷ 0 ∷ []))
decode_pad_one x y z out h =
    decode-digit x _ [] out h.0 (omega arith)
    ∙ decode-digit y _ (x ∷ []) out h.1 (omega arith)
    ∙ decode-digit z _ (x ∷ y ∷ []) out h.2 (omega arith)
    ∙ unfold decode_loop in rw value_pad

decode_pad_two :
    (x y : ℕ) (out : Bytes)
    → (x < 64) × (y < 64)
    → decode_loop (digit x ∷ digit y ∷ b'=' ∷ b'=' ∷ []) [] 0 out
      ≡ cut_pad 2 (out ++ unblock (x ∷ y ∷ 0 ∷ 0 ∷ []))
decode_pad_two x y out h =
    decode-digit x _ [] out h.0 (omega arith)
    ∙ decode-digit y _ (x ∷ []) out h.1 (omega arith)
    ∙ unfold decode_loop in rw value_pad

-- The bytes in front of the cut ones.
cut_pad-append :
    (pad : ℕ) (out keep gone : Bytes)
    → (pad ≡ 1) ⊎ (pad ≡ 2)
    → length gone ≡ pad
    → cut_pad pad (out ++ (keep ++ gone)) ≡ some (out ++ keep)
unfolding cut_pad
cut_pad-append pad out keep gone p e = rw (← append_assoc out keep gone) (ground (arith, kept))
  where
    kept : take (length ((out ++ keep) ++ gone) - pad) ((out ++ keep) ++ gone) ≡ out ++ keep
    kept =
        rw (length-append (out ++ keep) gone, e)
          (ap (λ n. take n ((out ++ keep) ++ gone)) {y = length (out ++ keep)} (omega arith)
            ∙ take_append (out ++ keep) gone)

-- The decoder's loop over an encoded text appends the bytes that were encoded.
pub decode_loop-encode_loop :
    (src out : Bytes) → IsBytes src → decode_loop (encode_loop src) [] 0 out ≡ some (out ++ src)
unfolding encode_loop
decode_loop-encode_loop [] out h = unfold decode_loop in rw append-nil
decode_loop-encode_loop (a ∷ []) out h = rw ((and_masks a h.0).0) (
    decode_pad_two (a / 4) (a % 4 * 16) out (omega arith)
    ∙ ap (λ (t : Bytes). cut_pad 2 (out ++ t)) (bytes_of a 0 0 _ _ _ _ (omega arith) (omega arith))
    ∙ cut_pad-append 2 out (a ∷ []) (0 ∷ 0 ∷ []) (inr refl) refl)
decode_loop-encode_loop (a ∷ b ∷ []) out h =
    rw (second_value a b h.0 h.1.0, (and_masks b h.1.0).1)
      (decode_pad_one (a / 4) (a % 4 * 16 + b / 16) (b % 16 * 4) out (omega arith)
        ∙ ap (λ (t : Bytes). cut_pad 1 (out ++ t))
            (bytes_of a b 0 _ _ _ _ (omega arith) (omega arith))
        ∙ cut_pad-append 1 out (a ∷ b ∷ []) (0 ∷ []) (inl refl) refl)
decode_loop-encode_loop (a ∷ b ∷ c ∷ rest) out h =
    rw (second_value a b h.0 h.1.0, third_value b c h.1.0 h.1.1.0, (and_masks c h.1.1.0).2)
      (decode_four (a / 4) (a % 4 * 16 + b / 16) (b % 16 * 4 + c / 64) (c % 64) _ out (omega arith)
        ∙ ap (λ (t : Bytes). decode_loop (encode_loop rest) [] 0 (out ++ t))
            (bytes_of a b c _ _ _ _ (h.0, h.1.0, h.1.1.0) (refl, refl, refl, refl))
        ∙ decode_loop-encode_loop rest (out ++ (a ∷ b ∷ c ∷ [])) h.1.1.1
        ∙ ap some (append_assoc out (a ∷ b ∷ c ∷ []) rest))

count_valid-digit : (x : ℕ) (cs : Bytes) → x < 64 → count_valid (digit x ∷ cs) ≡ 1 + count_valid cs
unfolding count_valid
count_valid-digit x cs h = ground (arith, value-digit x h)

count_valid-pad : (cs : Bytes) → count_valid (b'=' ∷ cs) ≡ 1 + count_valid cs
unfolding count_valid
count_valid-pad cs = rw value_pad

count_valid-nil : count_valid [] ≡ 0
unfolding count_valid
count_valid-nil = refl

-- The decoder's first pass finds whole blocks, and for at least one byte at least one.
count_valid-encode_loop :
    (src : Bytes)
    → IsBytes src
    → (q : ℕ) × (count_valid (encode_loop src) ≡ 4 * q) × ((src ≢ []) → 0 < q)
unfolding encode_loop
count_valid-encode_loop [] h = (0, rw count_valid-nil, λ ne. absurd (ne refl))
count_valid-encode_loop (a ∷ []) h = (1, rw ((and_masks a h.0).0) counted, λ ne. omega arith)
  where
    counted : count_valid (digit (a / 4) ∷ digit (a % 4 * 16) ∷ b'=' ∷ b'=' ∷ []) ≡ 4 * 1
    counted = omega (
      arith,
      h.0,
      count_valid-digit (a / 4) _ (omega (arith, h.0)),
      count_valid-digit (a % 4 * 16) (b'=' ∷ b'=' ∷ []) (omega arith),
      count_valid-pad (b'=' ∷ []),
      count_valid-pad [],
      count_valid-nil,
    )
count_valid-encode_loop (a ∷ b ∷ []) h =
    (1, rw (second_value a b h.0 h.1.0, (and_masks b h.1.0).1) counted, λ ne. omega arith)
  where
    counted :
        count_valid (digit (a / 4) ∷ digit (a % 4 * 16 + b / 16) ∷ digit (b % 16 * 4) ∷ b'=' ∷ [])
        ≡ 4 * 1
    counted = omega (
      arith,
      count_valid-digit (a / 4) _ (omega (arith, h.0)),
      count_valid-digit (a % 4 * 16 + b / 16) _ (omega (arith, h.1.0)),
      count_valid-digit (b % 16 * 4) (b'=' ∷ []) (omega arith),
      count_valid-pad [],
      count_valid-nil,
    )
count_valid-encode_loop (a ∷ b ∷ c ∷ rest) h =
    let (q, e, _) = count_valid-encode_loop rest h.1.1.1 in
    (
      q + 1,
      rw (second_value a b h.0 h.1.0, third_value b c h.1.0 h.1.1.0, (and_masks c h.1.1.0).2)
          (omega (
            arith,
            count_valid-digit (a / 4) _ (omega (arith, h.0)),
            count_valid-digit (a % 4 * 16 + b / 16) _ (omega (arith, h.1.0)),
            count_valid-digit (b % 16 * 4 + c / 64) _ (omega (arith, h.1.1.0)),
            count_valid-digit (c % 64) (encode_loop rest) (omega arith),
            e,
          )),
      λ ne. omega arith,
    )

-- For every non-empty byte list of less than 2 ^ 62 bytes, if the buffers are allocated, encoding
-- succeeds, and decoding the result gives the list back.
pub base64_decode-encode :
    (src : Bytes)
    → IsBytes src
    → src ≢ []
    → length src < 2 ^ 62
    → (text : Bytes) × (base64_encode true src ≡ some text) × (base64_decode true text ≡ some src)
base64_decode-encode src h ne small = (encode_loop src, encodes, decodes)
  where
    encodes : base64_encode true src ≡ some (encode_loop src)
    encodes = unfold base64_encode encode_olen in ground arith

    decodes : base64_decode true (encode_loop src) ≡ some src
    decodes =
        let (q, e, positive) = count_valid-encode_loop src h in
        unfold base64_decode in ground (arith, positive ne, decode_loop-encode_loop src [] h)
