-- ===== src/Mount/Balance.antt =====
-- What a mount takes from the kernel, and what its failures and the deletion of the dysk give back
-- (module/dysk_bdd.c).
use dysk.Base.{
  All, Bool, List, [], ap, arith, false, refl, some, true, ℕ, ℤ, ◌++◌, ◌<◌, ◌∙◌, ◌∷◌, ◌≡◌, ◌≢◌,
}
use dysk.Def.{DyskDef}
use dysk.Slots.{track_bits}
use dysk.Slots.Counts.{Counts, popcount}
use dysk.Hook.Slot.{
  SameArray, Restores, with_bits, io_hook-succeeds, release_head, io_unhook-io_hook,
}
use dysk.Hook.{BlockLayer, release}
use dysk.Xfer.{fifo, az_init_for_dysk, init_pool, connection_pool_init, az_teardown_for_dysk}
use dysk.Mount.{
  asks, tell, MountEnv, MountedDysk, Pointers, hook_up, blank_dysk, clean_up, mount_allocated,
  mount, delete_now,
}

-- What is given back from behind other addresses differs from these: the addresses of `buffer`, `out`,
-- `dd`, `d`, the transfer state, the pool, its server and its queue.
pub record Apart (b o dd d a p s q : ℕ) : Type 0 where
  pub buffer : All (λ x. x ≢ b) (q ∷ s ∷ p ∷ a ∷ d ∷ dd ∷ o ∷ [])
  pub out : All (λ x. x ≢ o) (q ∷ s ∷ p ∷ a ∷ d ∷ dd ∷ [])
  pub def : d ≢ dd
  pub server : q ≢ s

-- An address is given back from behind others.
pub release_in :
    (x : ℕ) (before behind : List ℕ)
    → All (λ y. y ≢ x) before
    → release x (before ++ x ∷ behind) ≡ before ++ behind
release_in x [] behind h = release_head x behind
release_in x (y ∷ ys) behind h = ground (arith, h.0, release_in x ys behind h.1)

-- What dysk_mount and dysk_add are given.
module _ (b o dd d a p s q : ℕ) where
  abbrev pub pointers : Pointers
  pointers = record { buffer = some b; out = some o; dd = some dd; d = some d }

  abbrev pub all_given : List ℤ → ℕ → ℕ → Bool → MountEnv
  all_given variables rq gd copy_to_user_fails = record {
    buffer = some b;
    out = some o;
    dd = some dd;
    d = some d;
    xfer = record {
      azstate = some a;
      pool = some p;
      server = some s;
      kfifo = fifo q;
      variables = variables;
    };
    hook = record { rq = some rq; gd = some gd };
    copy_to_user_fails = copy_to_user_fails;
  }

module _ (b o dd d a p s q : ℕ) (live : List ℕ) (apart : Apart b o dd d a p s q) where
  pub clean_up-failed : clean_up (pointers b o dd d a p s q) false (d ∷ dd ∷ o ∷ b ∷ live) ≡ live
  unfolding clean_up
  clean_up-failed =
      ap (λ l. release d (release dd (release o l)))
        (release_in b (d ∷ dd ∷ o ∷ []) live apart.buffer.1.1.1.1)
      ∙ ap (λ l. release d (release dd l)) (release_in o (d ∷ dd ∷ []) live apart.out.1.1.1.1)
      ∙ ap (release d) (release_in dd (d ∷ []) live (apart.def, tt))
      ∙ release_head d live

  clean_up-mounted :
      clean_up (pointers b o dd d a p s q) true (q ∷ s ∷ p ∷ a ∷ d ∷ dd ∷ o ∷ b ∷ live)
      ≡ q ∷ s ∷ p ∷ a ∷ d ∷ dd ∷ live
  unfolding clean_up
  clean_up-mounted =
      ap (release o) (release_in b (q ∷ s ∷ p ∷ a ∷ d ∷ dd ∷ o ∷ []) live apart.buffer)
      ∙ release_in o (q ∷ s ∷ p ∷ a ∷ d ∷ dd ∷ []) live apart.out

  -- The addresses of the transfer state are given back.
  pub torn_down :
      (rest : List ℕ) → release a (release p (release q (release s (q ∷ s ∷ p ∷ a ∷ rest)))) ≡ rest
  torn_down rest =
      ap (λ l. release a (release p (release q l)))
        (release_in s (q ∷ []) (p ∷ a ∷ rest) (apart.server, tt))
      ∙ ap (λ l. release a (release p l)) (release_head q (p ∷ a ∷ rest))
      ∙ ap (release a) (release_head p (a ∷ rest))
      ∙ release_head a rest

  given_back :
      release d
        (release dd (release a (release p (release q (release s (q ∷ s ∷ p ∷ a ∷ d ∷ dd ∷ live))))))
      ≡ live
  given_back =
      ap (λ l. release d (release dd l)) (torn_down (d ∷ dd ∷ live))
      ∙ ap (release d) (release_in dd (d ∷ []) live (apart.def, tt))
      ∙ release_head d live

  module _ (variables : List ℤ) (dysk_major rq gd : ℕ) (def : DyskDef) where
    -- With memory for all that it allocates, where what is given back from behind other addresses
    -- differs from these, and with fewer than 512 slots in use and counted, a mount of a definition
    -- succeeds and keeps six of the addresses; the actual delete of the dysk then gives back all that
    -- was taken: memory, slot, queue and gendisk, whatever was written behind the array of slots. The
    -- dysk is mounted also when the answer cannot be copied to the user and the result is -EACCES.
    pub delete_now-mount :
        (copy_to_user_fails : Bool) (io : BlockLayer) (bits : List Bool)
        → Counts io.slots
        → popcount io.slots.bits track_bits < track_bits
        → let ((result, mounted), held) =
            mount dysk_major
              (all_given b o dd d a p s q variables rq gd copy_to_user_fails)
              (asks def)
              (record { live = live; io = io }) in
          SameArray bits held.io.slots
          → (m : MountedDysk) × (mounted ≡ some m)
            × (result ≡ tell copy_to_user_fails)
            × (held.live ≡ q ∷ s ∷ p ∷ a ∷ d ∷ dd ∷ live)
            × ((delete_now m (record held { io = with_bits held.io bits })).live ≡ live)
            × Restores io (delete_now m (record held { io = with_bits held.io bits })).io
    unfolding mount mount_allocated hook_up az_init_for_dysk init_pool connection_pool_init
        delete_now az_teardown_for_dysk
    delete_now-mount copy_to_user_fails io bits c room =
        let hooked = (blank_dysk def).hooked in
        rw (io_hook-succeeds dysk_major rq gd hooked io c room) (λ same. (
          _,
          refl,
          refl,
          clean_up-mounted,
          ap (λ l. release d (release dd (release a (release p (release q (release s l))))))
                clean_up-mounted
              ∙ given_back,
          io_unhook-io_hook dysk_major rq gd hooked io bits c room same,
        ))
