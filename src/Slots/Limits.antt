-- ===== src/Slots/Limits.antt =====
-- The limits of the slot tracker of module/dysk_bdd.c: its last slots, the size of its array, and
-- the minor numbers of two slots.
use dysk.Base.{
  Bool, List, arith, false, get_or, get_or-set_self, pos, refl, sym, true, ℕ, ◌+◌, ◌<◌, ◌∙◌, ◌≡◌,
  ◌≢◌, ◌≤◌,
}
use mathlib.Core.Bool.{false≢true}
use native.Mathlib.Decide.{dec_lt}
use dysk.Slots.{
  find_first_zero_bit, Dyskslist, max_dysks, track_bits, dysk_minors, find_set_dysk_slots,
  first_minor,
}
use dysk.Slots.Find.{find_first_zero_bit_clear, find_first_zero_bit-le_clear}
use dysk.Slots.Counts.{limit_open, popcount, popcount-le, Counts}

-- A search of a full array ends behind it.
past_track :
    (bits : List Bool)
    → ((i : ℕ) → i < track_bits → get_or bits i false ≡ true)
    → track_bits ≤ find_first_zero_bit bits max_dysks
past_track bits full = elim (dec_lt (find_first_zero_bit bits max_dysks) track_bits) [
  | yes h ↦ absurd (
      false≢true (
        sym (find_first_zero_bit_clear bits max_dysks (omega (arith, h)))
        ∙ full (find_first_zero_bit bits max_dysks) h))
  | no h ↦ omega arith
]

-- With every bit of the 512-bit array set and counted, and bit `j` of the memory behind it clear below
-- 1024, a mount passes the limit test and is granted a slot behind the array, at most `j`: it sets a
-- clear bit there.
pub find_set-beyond_track :
    (s : Dyskslist) (j : ℕ)
    → Counts s
    → ((i : ℕ) → i < track_bits → get_or s.bits i false ≡ true)
    → j < max_dysks
    → get_or s.bits j false ≡ false
    → (p : ℕ) × ((find_set_dysk_slots s).1 ≡ pos p)
      × (track_bits ≤ p)
      × (p ≤ j)
      × (get_or s.bits p false ≡ false)
      × (get_or (find_set_dysk_slots s).0.bits p false ≡ true)
unfolding find_set_dysk_slots
find_set-beyond_track s j c full below clear =
    let p = find_first_zero_bit s.bits max_dysks in
    let bound = find_first_zero_bit-le_clear s.bits max_dysks j below clear in
    rw
      (limit_open max_dysks (popcount s.bits track_bits) s.count c.counted
        (omega (arith, popcount-le s.bits track_bits)))
      (
        p,
        refl,
        past_track s.bits full,
        bound,
        find_first_zero_bit_clear s.bits max_dysks (omega arith),
        get_or-set_self s.bits p true false (omega (arith, c.sized)),
      )

-- The minor numbers of two slots do not overlap: the ranges of 8 minors are disjoint.
minors_disjoint :
    (p q i j : ℕ)
    → p ≢ q
    → i < dysk_minors
    → j < dysk_minors
    → first_minor p + i ≢ first_minor q + j
unfolding first_minor
minors_disjoint p q i j ne hi hj = omega arith
