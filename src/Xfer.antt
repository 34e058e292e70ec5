-- ===== src/Xfer.antt =====
-- The transfer state of a dysk, module/az.c: connection_pool_init, az_init_for_dysk and
-- az_teardown_for_dysk. `live` are the addresses that kmalloc and kfifo_alloc gave and that were not
-- given back.
pub mod Leaks
use dysk.Base.{List, Option, eq_ℤ, if◌then◌else◌, neg, negsuc, none, pos, some, ℕ, ℤ, ◌*◌, ◌∷◌}
use dysk.Def.{DyskDef}
use dysk.Pool.{enomem}
use dysk.Address.{inet_addr}
use dysk.Hook.{release}

pub record Server : Type 0 where
  pub address : ℕ
  pub sin_addr : ℕ
  pub sin_port : ℕ

-- `connection_pool` with its server, and the memory of its queue.
pub record PoolMemory : Type 0 where
  pub address : ℕ
  pub server : Option Server
  pub queue : Option ℕ

-- `az_state`
pub record XferState : Type 0 where
  pub address : ℕ
  pub pool : Option PoolMemory

pub record XferDysk : Type 0 where
  pub def : DyskDef
  pub xfer_state : Option XferState
  pub live : List ℕ

-- The result of kfifo_alloc: memory, or an error code that is not 0, -1 for the code `error_code 0`.
pub data FifoAlloc : Type 0 where
  fifo : ℕ → FifoAlloc
  error_code : ℕ → FifoAlloc

-- What is allocated, and what the variables of inet_addr hold at first.
pub record XferEnv : Type 0 where
  pub azstate : Option ℕ
  pub pool : Option ℕ
  pub server : Option ℕ
  pub kfifo : FifoAlloc
  pub variables : List ℤ

-- `htons(80)`
abbrev pub port_80 : ℕ
port_80 = 80 * 256

-- connection_pool_init of the pool at an address: the result, the pool and what is live.
unfoldable pub connection_pool_init : XferEnv → DyskDef → ℕ → List ℕ → (ℤ × PoolMemory) × List ℕ
connection_pool_init env def at live =
    let empty : PoolMemory = record { address = at; server = none; queue = none } in
    elim env.server [
      | none ↦ ((enomem, empty), live)
      | some p ↦ elim env.kfifo [
        | error_code e ↦ ((negsuc e, empty), release p (p ∷ live))
        | fifo q ↦ (
          (
            pos 0,
            record {
              address = at;
              server = some (record {
                address = p;
                sin_addr = inet_addr env.variables def.ip;
                sin_port = port_80;
              });
              queue = some q;
            },
          ),
          q ∷ p ∷ live,
        )
      ]
    ]

-- `if (p) kfree(p);`
abbrev pub kfree_server : Option Server → List ℕ → List ℕ
kfree_server none live = live
kfree_server (some s) live = release s.address live

abbrev pub kfifo_free : Option ℕ → List ℕ → List ℕ
kfifo_free none live = live
kfifo_free (some q) live = release q live

-- What az_teardown_for_dysk gives back of the pool, that of connection_pool_teardown first.
abbrev pub free_pool : Option PoolMemory → List ℕ → List ℕ
free_pool none live = live
free_pool (some p) live = release p.address (kfifo_free p.queue (kfree_server p.server live))

-- The dysk keeps its pointer.
unfoldable pub az_teardown_for_dysk : XferDysk → XferDysk
az_teardown_for_dysk d = elim d.xfer_state [
  | none ↦ d
  | some azstate ↦ record d { live = release azstate.address (free_pool azstate.pool d.live) }
]

-- az_init_for_dysk behind the allocation of the pool: the pool is put into the state only when
-- connection_pool_init succeeded.
unfoldable pub init_pool : XferEnv → XferDysk → ℕ → ℕ → ℤ × XferDysk
init_pool env d p_state p_pool =
    let ((success, pool), live) = connection_pool_init env d.def p_pool (p_pool ∷ d.live) in
    if eq_ℤ success (pos 0)
    then (
      success,
      record d { xfer_state = some (record { address = p_state; pool = some pool }); live = live },
    )
    else (success, az_teardown_for_dysk (record d { live = live }))

unfoldable pub az_init_for_dysk : XferEnv → XferDysk → ℤ × XferDysk
az_init_for_dysk env d = elim env.azstate [
  | none ↦ (neg 1, az_teardown_for_dysk d)
  | some p ↦
      let d' = record d {
        xfer_state = some (record { address = p; pool = none });
        live = p ∷ d.live;
      } in
      elim env.pool [ none ↦ (neg 1, az_teardown_for_dysk d') | some q ↦ init_pool env d' p q ]
]
