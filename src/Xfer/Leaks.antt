-- ===== src/Xfer/Leaks.antt =====
-- What az_init_for_dysk and az_teardown_for_dysk of module/az.c allocate and give back.
use dysk.Base.{List, Option, ap, arith, none, pos, refl, some, ℕ, ℤ, ◌∙◌, ◌∷◌, ◌≡◌, ◌≢◌}
use dysk.Def.{DyskDef}
use dysk.Hook.Slot.{release_head}
use dysk.Hook.{release}
use dysk.Xfer.{
  error_code, az_teardown_for_dysk, connection_pool_init, init_pool, fifo, az_init_for_dysk,
  XferEnv, XferDysk,
}

-- A dysk that has no transfer state yet.
abbrev pub new_dysk : DyskDef → List ℕ → XferDysk
new_dysk def live = record { def = def; xfer_state = none; live = live }

release_second : (x y : ℕ) (zs : List ℕ) → x ≢ y → release y (x ∷ y ∷ zs) ≡ x ∷ zs
release_second x y zs h = ground arith

module _ (def : DyskDef) (live : List ℕ) (a p s q : ℕ) (variables : List ℤ) where
  abbrev pub enough : XferEnv
  enough = record {
    azstate = some a;
    pool = some p;
    server = some s;
    kfifo = fifo q;
    variables = variables;
  }

  -- With memory, the queue and the server at different addresses, az_init_for_dysk returns 0, and
  -- az_teardown_for_dysk gives back all it took.
  az_teardown-az_init :
      q ≢ s
      → let (res, d) = az_init_for_dysk enough (new_dysk def live) in
        (res ≡ pos 0) × ((az_teardown_for_dysk d).live ≡ live)
  unfolding az_init_for_dysk init_pool connection_pool_init az_teardown_for_dysk
  az_teardown-az_init apart = (
    refl,
    ap (λ l. release a (release p (release q l))) (release_second q s (p ∷ a ∷ live) apart)
        ∙ ap (λ l. release a (release p l)) (release_head q (p ∷ a ∷ live))
        ∙ ap (release a) (release_head p (a ∷ live))
        ∙ release_head a live,
  )

  -- Where there is memory for the state and the pool of a new dysk, at different addresses, and
  -- kfifo_alloc fails, or there is none for the server, az_init_for_dysk fails; the memory of the pool
  -- is still live, and the dysk points to the state, whose memory was given back.
  pub az_init-leaks :
      (server : Option ℕ) (e : ℕ)
      → p ≢ a
      → let (res, d) =
          az_init_for_dysk
            (record enough { server = server; kfifo = error_code e })
            (new_dysk def live) in
        (res ≢ pos 0)
        × (d.live ≡ p ∷ live)
        × (d.xfer_state ≡ some (record { address = a; pool = none }))
  unfolding az_init_for_dysk init_pool connection_pool_init az_teardown_for_dysk
  az_init-leaks none e apart = (λ h. ground arith, release_second p a live apart, refl)
  az_init-leaks (some s') e apart = (
    λ h. ground arith,
    ap (release a) (release_head s' (p ∷ a ∷ live)) ∙ release_second p a live apart,
    refl,
  )
