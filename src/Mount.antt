-- ===== src/Mount.antt =====
-- What a mounted dysk holds of the kernel (module/dysk_bdd.c): dysk_mount takes memory and dysk_add a
-- transfer state and a place in the block layer, and __del_dysk_async gives them back. What
-- copy_from_user and dysk_def_from_buffer make of the request is an argument; the name is taken to be
-- free.
pub mod Balance
pub mod Failures
use dysk.Base.{
  Bool, List, Option, eq_ℤ, false, if◌then◌else◌, neg, none, not, pos, some, true, ℕ, ℤ, ◌∷◌,
}
use dysk.Def.{DyskDef}
use dysk.Hook.{HookedDysk, BlockLayer, HookEnv, release, io_hook, io_unhook}
use dysk.Xfer.{XferDysk, XferEnv, XferState, az_init_for_dysk, az_teardown_for_dysk}

-- What the kernel has given and not taken back: `live` are the addresses of kmalloc and kfifo_alloc.
pub record Held : Type 0 where
  pub live : List ℕ
  pub io : BlockLayer

-- The fields of a dysk that are set when it is added.
pub record AddedDysk : Type 0 where
  pub hooked : HookedDysk
  pub xfer_state : Option XferState

-- A mounted dysk, with its address and that of its definition.
pub record MountedDysk : Type 0 where
  pub address : ℕ
  pub def_address : ℕ
  pub dysk : AddedDysk

-- `memset(d, 0, sizeof(dysk)); d->def = dd;`
abbrev pub blank_dysk : DyskDef → AddedDysk
blank_dysk def = record { hooked = record { def = def; slot = 0; gd = none }; xfer_state = none }

abbrev pub transfer_part : AddedDysk → List ℕ → XferDysk
transfer_part d live = record { def = d.hooked.def; xfer_state = d.xfer_state; live = live }

-- dysk_add behind the test of the name.
unfoldable pub hook_up : ℕ → XferEnv → HookEnv → AddedDysk → Held → (ℤ × AddedDysk) × Held
hook_up dysk_major xfer_env hook_env d held =
    let (az_init, x) = az_init_for_dysk xfer_env (transfer_part d held.live) in
    let ((io_hooked, hooked), io) = io_hook dysk_major hook_env d.hooked held.io in
    if not (eq_ℤ az_init (pos 0))
    then ((neg 1, record d { xfer_state = x.xfer_state }), record held { live = x.live })
    else if not (eq_ℤ io_hooked (pos 0))
    then (
      (neg 1, record { hooked = hooked; xfer_state = x.xfer_state }),
      record { live = (az_teardown_for_dysk x).live; io = io },
    )
    else (
      (pos 0, record { hooked = hooked; xfer_state = x.xfer_state }),
      record { live = x.live; io = io },
    )

-- What copy_from_user and dysk_def_from_buffer make of the request.
pub data MountRequest : Type 0 where
  not_read : MountRequest
  not_parsed : MountRequest
  asks : DyskDef → MountRequest

-- What dysk_mount returns: -ENOMEM, -EACCES, or the length of the text that it copied to the user.
pub data MountResult : Type 0 where
  no_memory : MountResult
  no_access : MountResult
  answered : MountResult

-- `if (0 != copy_to_user(user_buffer, out, strlen(out)))` and its two results.
abbrev pub tell : Bool → MountResult
tell copy_to_user_fails = if copy_to_user_fails then no_access else answered

-- What kmalloc gives to dysk_mount, and whether copy_to_user fails.
pub record MountEnv : Type 0 where
  pub buffer : Option ℕ
  pub out : Option ℕ
  pub dd : Option ℕ
  pub d : Option ℕ
  pub xfer : XferEnv
  pub hook : HookEnv
  pub copy_to_user_fails : Bool

-- `if (p) kfree(p);`
abbrev pub kfree : Option ℕ → List ℕ → List ℕ
kfree none live = live
kfree (some p) live = release p live

-- The pointers of dysk_mount.
pub record Pointers : Type 0 where
  pub buffer : Option ℕ
  pub out : Option ℕ
  pub dd : Option ℕ
  pub d : Option ℕ

-- The label `done`.
unfoldable pub clean_up : Pointers → Bool → List ℕ → List ℕ
clean_up p mounted live =
    let live = kfree p.out (kfree p.buffer live) in
    if mounted then live else kfree p.d (kfree p.dd live)

-- dysk_mount behind its allocations. `mounted` is set whether or not the answer could be copied.
unfoldable pub mount_allocated :
    ℕ
    → MountEnv
    → (buffer out dd d : ℕ) → MountRequest
    → Held
    → (MountResult × Option MountedDysk) × Held
mount_allocated dysk_major env buffer out dd d not_read held =
    let p : Pointers = record { buffer = some buffer; out = some out; dd = some dd; d = some d } in
    ((no_access, none), record held { live = clean_up p false held.live })
mount_allocated dysk_major env buffer out dd d not_parsed held =
    let p : Pointers = record { buffer = some buffer; out = some out; dd = some dd; d = some d } in
    ((tell env.copy_to_user_fails, none), record held { live = clean_up p false held.live })
mount_allocated dysk_major env buffer out dd d (asks def) held =
    let p : Pointers = record { buffer = some buffer; out = some out; dd = some dd; d = some d } in
    let ((success, added), held) = hook_up dysk_major env.xfer env.hook (blank_dysk def) held in
    if eq_ℤ success (pos 0)
    then (
      (tell env.copy_to_user_fails, some (record { address = d; def_address = dd; dysk = added })),
      record held { live = clean_up p true held.live },
    )
    else ((tell env.copy_to_user_fails, none), record held { live = clean_up p false held.live })

-- dysk_mount, which leaves at the first kmalloc that fails: the result, the dysk if one is mounted, and
-- what is held.
unfoldable pub mount :
    ℕ → MountEnv → MountRequest → Held → (MountResult × Option MountedDysk) × Held
mount dysk_major env request held =
    let none_yet : Pointers = record { buffer = none; out = none; dd = none; d = none } in
    let leave : Pointers → List ℕ → (MountResult × Option MountedDysk) × Held =
      λ p live. ((no_memory, none), record held { live = clean_up p false live }) in
    elim env.buffer [
      | none ↦ leave none_yet held.live
      | some buffer ↦
          let p = record none_yet { buffer = some buffer } in
          let live = buffer ∷ held.live in
          elim env.out [
            | none ↦ leave p live
            | some out ↦
                let p = record p { out = some out } in
                let live = out ∷ live in
                elim env.dd [
                  | none ↦ leave p live
                  | some dd ↦
                      let p = record p { dd = some dd } in
                      let live = dd ∷ live in
                      elim env.d [
                        | none ↦ leave p live
                        | some d ↦
                            mount_allocated dysk_major env buffer out dd d request
                              (record held { live = d ∷ live })
                      ]
                ]
          ]
    ]

-- __del_dysk_async from "done, actual delete" on.
unfoldable pub delete_now : MountedDysk → Held → Held
delete_now m held =
    let x = az_teardown_for_dysk (transfer_part m.dysk held.live) in
    let (_, io) = io_unhook m.dysk.hooked held.io in
    record { live = release m.address (release m.def_address x.live); io = io }
