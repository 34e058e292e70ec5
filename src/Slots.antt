-- ===== src/Slots.antt =====
-- Slot tracking of mounted dysks: `struct dyskslist`, find_set_dysk_slots and free_dysk_slot of
-- module/dysk_bdd.c, and the minor numbers that io_hook derives from a slot.
-- `bits` is the memory from `dysks.dysks_slots` on, bit by bit, as the kernel's bit operations see
-- it; the array itself is the first `track_bits` of them, and what follows is the field `head`.
-- Both functions hold `dysks.lock` throughout, so each is one step.
pub mod Find
pub mod Counts
pub mod Ledger
pub mod Limits
use dysk.Base.{
  Bool, List, [], decr, eq_ℤ, false, if◌then◌else◌, incr, neg, pos, set, suc, true, zero, ℕ, ℤ, ◌*◌,
  ◌/◌, ◌∷◌,
}

abbrev pub max_dysks : ℕ
max_dysks = 1024

-- `unsigned int dysks_slots[MAX_DYSKS/64]`, 32 bits to an element.
abbrev pub track_bits : ℕ
track_bits = 1024 / 64 * 32

abbrev pub dysk_minors : ℕ
dysk_minors = 8

pub record Dyskslist : Type 0 where
  pub count : ℤ
  pub bits : List Bool

-- find_first_zero_bit: the first clear bit among the first `size`, or `size`.
unfoldable pub find_first_zero_bit : List Bool → ℕ → ℕ
find_first_zero_bit bits zero = 0
find_first_zero_bit [] (suc size) = 0
find_first_zero_bit (false ∷ bits) (suc size) = 0
find_first_zero_bit (true ∷ bits) (suc size) = suc (find_first_zero_bit bits size)

unfoldable pub find_set_dysk_slots : Dyskslist → Dyskslist × ℤ
find_set_dysk_slots s =
    if eq_ℤ (pos max_dysks) s.count
    then (s, neg 1)
    else let at = find_first_zero_bit s.bits max_dysks in
      (record s { count = incr s.count; bits = set s.bits at true }, pos at)

unfoldable pub free_dysk_slot : Dyskslist → ℕ → Dyskslist
free_dysk_slot s at = record s { bits = set s.bits at false; count = decr s.count }

-- `gd->first_minor = slot * DYSK_MINORS`.
unfoldable pub first_minor : ℕ → ℕ
first_minor slot = slot * dysk_minors
