-- ===== src/Mount/Failures.antt =====
-- What a mount that fails gives back (module/dysk_bdd.c), where there is memory for the server of the
-- pool and for its queue; Xfer.Leaks is about the failures of these.
use dysk.Base.{Bool, List, Option, false, none, some, true, ℕ, ℤ, ◌≡◌}
use dysk.Hook.{HookEnv, BlockLayer}
use dysk.Xfer.{XferEnv, fifo}
use dysk.Mount.{MountRequest, asks, asks, MountRequest, MountEnv}

-- An allocation at an address, which may fail.
abbrev pub given : Bool → ℕ → Option ℕ
given true p = some p
given false p = none

-- What is held of the block layer is, but for the slots, as before.
abbrev pub Keeps : BlockLayer → BlockLayer → Type 0
Keeps io io' = (io'.queues ≡ io.queues) × (io'.gendisks ≡ io.gendisks)

-- What dysk_mount and dysk_add are given.
module _ (b o dd d a p s q : ℕ) (variables : List ℤ) (rq gd : Option ℕ)
    (copy_to_user_fails : Bool) where
  abbrev pub transfer_env : Bool → Bool → XferEnv
  transfer_env has_state has_pool = record {
    azstate = given has_state a;
    pool = given has_pool p;
    server = some s;
    kfifo = fifo q;
    variables = variables;
  }

  abbrev pub hook_env : HookEnv
  hook_env = record { rq = rq; gd = gd }

  abbrev pub mount_env : (has_buffer has_out has_dd has_d has_state has_pool : Bool) → MountEnv
  mount_env has_buffer has_out has_dd has_d has_state has_pool = record {
    buffer = given has_buffer b;
    out = given has_out o;
    dd = given has_dd dd;
    d = given has_d d;
    xfer = transfer_env has_state has_pool;
    hook = hook_env;
    copy_to_user_fails = copy_to_user_fails;
  }
