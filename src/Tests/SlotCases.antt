-- ===== src/Tests/SlotCases.antt =====
-- The slot tracker of module/dysk_bdd.c at concrete bitmaps, and base64 at concrete bytes.
use dysk.Base.{
  Bool, Bytes, List, [], arith, codes, false, get_or, get_or-set_ne, length, length-set, negsuc,
  pos, refl, replicate, set, some, suc, true, zero, ℕ, ◌++◌, ◌<◌, ◌∷◌, ◌≡◌, ◌≤◌,
}
use dysk.Base64.{base64_encode, base64_decode, encode_olen, encode_loop, digit}
use dysk.Base64.RoundTrip.{base64_decode-encode}
use dysk.Slots.{Dyskslist, track_bits, find_first_zero_bit, find_set_dysk_slots}
use dysk.Slots.Counts.{Counts}
use dysk.Slots.Ledger.{Ledger, Inv, hook, elsewhere, History, here, next, History-Inv}
use dysk.Slots.Limits.{find_set-beyond_track}

abbrev searched : Dyskslist
searched = record { count = negsuc 0; bits = replicate 1024 false }

-- No dysk is mounted. Behind the array stand a pointer and other words of `head`.
abbrev pub unused : Dyskslist
unused = record {
  count = negsuc 0;
  bits = replicate 512 false ++ (replicate 64 true ++ replicate 449 false);
}

pub unused-Counts : Counts unused
unused-Counts = record { counted = refl; sized = omega arith }

abbrev unused_ledger : Ledger
unused_ledger = record { table = unused; live = [] }

abbrev one_hooked : Ledger
one_hooked = record { table = (find_set_dysk_slots unused).0; live = 0 ∷ [] }

one_mount : History unused_ledger one_hooked
one_mount = next here (hook 0 one_hooked (omega arith) granted_zero refl)
  where
    granted_zero : (find_set_dysk_slots unused).1 ≡ pos 0
    granted_zero = unfold find_set_dysk_slots find_first_zero_bit in refl

-- The mount is added to the list: a pointer behind the array changes.
abbrev one_listed : Ledger
one_listed = record {
  table = record one_hooked.table { bits = set one_hooked.table.bits 700 true };
  live = 0 ∷ [];
}

one_added : History unused_ledger one_listed
one_added = next one_mount (
    elsewhere (set one_hooked.table.bits 700 true) one_listed
      (λ i h. get_or-set_ne one_hooked.table.bits 700 i true false (omega arith))
      (rw (length-set one_hooked.table.bits 700 true) long_enough) refl)
  where
    long_enough : 1024 < length one_hooked.table.bits
    long_enough = unfold find_set_dysk_slots find_first_zero_bit in omega arith

History-Inv_example : Inv one_listed
History-Inv_example =
    History-Inv one_added (record { counts = unused-Counts; held = tt; distinct = tt })

-- 512 dysks are mounted.
abbrev half_full : Dyskslist
half_full = record {
  count = pos 511;
  bits = replicate 512 true ++ (replicate 64 true ++ replicate 449 false);
}

half_full-Counts : Counts half_full
half_full-Counts = record { counted = refl; sized = omega arith }

all_set : (n i : ℕ) (bits : List Bool) → i < n → get_or (replicate n true ++ bits) i false ≡ true
all_set zero i bits h = absurd (omega arith)
all_set (suc n) zero bits h = refl
all_set (suc n) (suc i) bits h = all_set n i bits (omega arith)

find_set-beyond_track_example :
    (p : ℕ) × ((find_set_dysk_slots half_full).1 ≡ pos p)
    × (track_bits ≤ p)
    × (p ≤ 600)
    × (get_or half_full.bits p false ≡ false)
    × (get_or (find_set_dysk_slots half_full).0.bits p false ≡ true)
find_set-beyond_track_example =
    find_set-beyond_track half_full 600 half_full-Counts
      (λ i. all_set 512 i (replicate 64 true ++ replicate 449 false)) (omega arith) refl

abbrev five_bytes : Bytes
five_bytes = 0 ∷ 255 ∷ 16 ∷ 77 ∷ 3 ∷ []

five_encoded : base64_encode true five_bytes ≡ some (codes "AP8QTQM=")
unfolding base64_encode encode_olen encode_loop digit
five_encoded = refl

base64_decode-encode_example :
    (text : Bytes) × (base64_encode true five_bytes ≡ some text)
    × (base64_decode true text ≡ some five_bytes)
base64_decode-encode_example = base64_decode-encode five_bytes (omega arith) (λ e. cc) (omega arith)
