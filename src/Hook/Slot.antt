-- ===== src/Hook/Slot.antt =====
-- What io_hook and io_unhook of module/dysk_bdd.c do with the slot of a dysk.
use dysk.Base.{
  ==_iff, Bool, Bool-cases, List, Option, [], ap, arith, decr-incr, eq_ℤ, false, get_or,
  get_or-set_ne, incr, inl, inr, is_some, neg, negsuc, none, pos, refl, set, some, suc, sym, true,
  zero, ℕ, ℤ, ◌&&◌, ◌+◌, ◌<◌, ◌==◌, ◌∙◌, ◌∷◌, ◌≡◌, ◌≢◌, ◌≤◌,
}
use dysk.Slots.{Dyskslist, track_bits, max_dysks, find_set_dysk_slots, free_dysk_slot}
use dysk.Slots.Counts.{granted_clear, granted, find_set-granted, limit_open, Counts, popcount}
use dysk.Hook.{
  free_dysk_slot, HookedDysk, BlockLayer, HookEnv, release, hook_slot, io_hook, io_unhook,
}

pub release_head : (p : ℕ) (qs : List ℕ) → release p (p ∷ qs) ≡ qs
release_head p qs = ground arith

get_or-set-false : (bits : List Bool) (i : ℕ) → get_or (set bits i false) i false ≡ false
get_or-set-false [] i = refl
get_or-set-false (b ∷ bits) zero = refl
get_or-set-false (b ∷ bits) (suc i) = get_or-set-false bits i

-- The bits of the array are those of `s`.
abbrev pub SameArray : List Bool → Dyskslist → Type 0
SameArray bits s = (i : ℕ) → i < track_bits → get_or bits i false ≡ get_or s.bits i false

-- `io` with other bits, as another writes the memory behind the array.
abbrev pub with_bits : BlockLayer → List Bool → BlockLayer
with_bits io bits = record io { slots = record io.slots { bits = bits } }

-- The block layer holds the same, and the array of slots and its count are the same.
pub record Restores (io after : BlockLayer) : Type 0 where
  pub queues : after.queues ≡ io.queues
  pub gendisks : after.gendisks ≡ io.gendisks
  pub count : after.slots.count ≡ io.slots.count
  pub array : SameArray after.slots.bits io.slots

apart_from : (i g : ℕ) → (i == g) ≡ false → g ≢ i
apart_from i g e = ground arith

-- While fewer than 512 slots are in use and the kernel has memory, io_hook returns 0.
pub io_hook-succeeds :
    (dysk_major rq gd : ℕ) (d : HookedDysk) (io : BlockLayer)
    → Counts io.slots
    → popcount io.slots.bits track_bits < track_bits
    → (io_hook dysk_major (record { rq = some rq; gd = some gd }) d io).0.0 ≡ pos 0
unfolding io_hook hook_slot
io_hook-succeeds dysk_major rq gd d io c room = rw (find_set-granted io.slots c room) refl

-- Then io_unhook gives back the slot, the queue and the gendisk, whatever was written behind the array
-- in between.
pub io_unhook-io_hook :
    (dysk_major rq gd : ℕ) (d : HookedDysk) (io : BlockLayer) (bits : List Bool)
    → Counts io.slots
    → popcount io.slots.bits track_bits < track_bits
    → let ((_, d'), io') = io_hook dysk_major (record { rq = some rq; gd = some gd }) d io in
      SameArray bits io'.slots → Restores io (io_unhook d' (with_bits io' bits)).1
unfolding io_hook hook_slot io_unhook free_dysk_slot
io_unhook-io_hook dysk_major rq gd d io bits c room =
    let g = granted io.slots c room in
    rw (find_set-granted io.slots c room) (λ same. record {
      queues = release_head rq io.queues;
      gendisks = release_head gd io.gendisks;
      count = decr-incr io.slots.count;
      array = λ i h. elim (Bool-cases (i == g)) [
        | inl e ↦
            let at = (==_iff i g).0 e in
            ap (λ k. get_or (set bits g false) k false) at
            ∙ get_or-set-false bits g
            ∙ sym (granted_clear io.slots c room)
            ∙ ap (λ k. get_or io.slots.bits k false) (sym at)
        | inr e ↦
            get_or-set_ne bits g i false false (apart_from i g e)
            ∙ same i h
            ∙ get_or-set_ne io.slots.bits g i true false (apart_from i g e)
      ];
    })

-- The kernel has no memory for the queue or for the gendisk.
abbrev pub NoMemory : HookEnv → Type 0
NoMemory env = is_some env.rq && is_some env.gd ≡ false

-- Without memory nothing is kept behind find_set_dysk_slots.
hook_slot-NoMemory :
    (dysk_major : ℕ) (rq gd : Option ℕ) (d : HookedDysk) (io : BlockLayer) (slot : ℤ)
    → let env : HookEnv = record { rq = rq; gd = gd } in
      NoMemory env
      → let ((res, d'), io') = hook_slot dysk_major env d io slot in (res ≡ neg 1) × (io' ≡ io)
unfolding hook_slot
hook_slot-NoMemory dysk_major rq gd d io (negsuc n) h = (refl, refl)
hook_slot-NoMemory dysk_major none gd d io (pos slot) h = (refl, refl)
hook_slot-NoMemory dysk_major (some rq) none d io (pos slot) h = (
  refl,
  λ i. record { slots = io.slots; queues = release_head rq io.queues i; gendisks = io.gendisks },
)
hook_slot-NoMemory dysk_major (some rq) (some gd) d io (pos slot) h = ground arith

-- The block layer after `n` calls of io_hook that find no memory.
unfoldable pub after_failures : (ℕ → HookEnv) → ℕ → HookedDysk → ℕ → BlockLayer → BlockLayer
after_failures envs dysk_major d zero io = io
after_failures envs dysk_major d (suc n) io =
    (io_hook dysk_major (envs n) d (after_failures envs dysk_major d n io)).1

-- An io_hook without memory returns -1 and gives back all but the slot.
io_hook-NoMemory :
    (dysk_major : ℕ) (env : HookEnv) (d : HookedDysk) (io : BlockLayer)
    → NoMemory env
    → let ((res, d'), io') = io_hook dysk_major env d io in
      (res ≡ neg 1) × (io' ≡ record io { slots = (find_set_dysk_slots io.slots).0 })
unfolding io_hook
io_hook-NoMemory dysk_major env d io h =
    hook_slot-NoMemory dysk_major env.rq env.gd d _ (find_set_dysk_slots io.slots).1 h

-- find_set_dysk_slots below its limit counts one more, and at its limit fails.
find_set-counted :
    (s : Dyskslist) (n : ℕ)
    → incr s.count ≡ pos n
    → n ≤ max_dysks
    → incr (find_set_dysk_slots s).0.count ≡ pos (n + 1)
unfolding find_set_dysk_slots
find_set-counted s n e h =
    rw (limit_open max_dysks n s.count e h) (ap incr e ∙ ap pos (omega arith))

at_limit : (z : ℤ) → incr z ≡ pos (max_dysks + 1) → eq_ℤ (pos max_dysks) z ≡ true
at_limit (pos n) e = ground arith
at_limit (negsuc n) e = ground arith

find_set_limit :
    (s : Dyskslist) → incr s.count ≡ pos (max_dysks + 1) → find_set_dysk_slots s ≡ (s, neg 1)
unfolding find_set_dysk_slots
find_set_limit s e = rw (at_limit s.count e) refl

module _ (envs : ℕ → HookEnv) (dysk_major : ℕ) (d : HookedDysk)
    (no_memory : (n : ℕ) → NoMemory (envs n)) where
  after_failures-keeps :
      (n : ℕ) (io : BlockLayer)
      → incr io.slots.count ≡ pos 0
      → n ≤ max_dysks + 1
      → (incr (after_failures envs dysk_major d n io).slots.count ≡ pos n)
        × ((after_failures envs dysk_major d n io).queues ≡ io.queues)
        × ((after_failures envs dysk_major d n io).gendisks ≡ io.gendisks)
  unfolding after_failures
  after_failures-keeps zero io e h = (e, refl, refl)
  after_failures-keeps (suc n) io e h =
      let (counted, queues, gendisks) = after_failures-keeps n io e (omega arith) in
      let before = after_failures envs dysk_major d n io in
      let (failed, left) = io_hook-NoMemory dysk_major (envs n) d before (no_memory n) in
      (
        ap (λ io'. incr io'.slots.count) left
            ∙ find_set-counted before.slots n counted (omega arith)
            ∙ ap pos (omega arith),
        ap (λ io'. io'.queues) left ∙ queues,
        ap (λ io'. io'.gendisks) left ∙ gendisks,
      )

  -- After 1025 calls of io_hook that found no memory, on a tracker that is in its first state, no
  -- queue and no gendisk was added, and yet io_hook returns -1 and changes nothing, also where there
  -- is memory.
  pub io_hook-after_failures :
      (n : ℕ) (io : BlockLayer) (env : HookEnv) (d' : HookedDysk)
      → n ≡ max_dysks + 1
      → io.slots.count ≡ neg 1
      → let after = after_failures envs dysk_major d n io in
        (after.queues ≡ io.queues)
        × (after.gendisks ≡ io.gendisks)
        × (io_hook dysk_major env d' after ≡ ((neg 1, d'), after))
  unfolding io_hook hook_slot
  io_hook-after_failures n io env d' e fresh =
      let (counted, queues, gendisks) = after_failures-keeps n io (ap incr fresh) (omega arith) in
      let after = after_failures envs dysk_major d n io in
      (queues, gendisks, rw (find_set_limit after.slots (counted ∙ ap pos e)) refl)
