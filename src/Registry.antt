-- ===== src/Registry.antt =====
-- The dysks that are mounted, module/dysk_bdd.c: dysk_exist, dysk_add, dysk_del and dysk_catastrophe. Dysks
-- stand in the order of `dysks.head.list`, the last one added first. The errno of az_init_for_dysk
-- and of io_hook, and the failures of kmalloc, are arguments, since the kernel decides them.
pub mod Same
pub mod Names
pub mod Catastrophe
pub mod Race
use dysk.Base.{
  Bool, Bytes, List, Option, [], codes, eq_ℤ, if◌then◌else◌, neg, none, not, pos, some, ℕ, ℤ, ◌++◌,
  ◌||◌, ◌∷◌,
}
use dysk.Text.{c_str, strncmp_eq}
use dysk.Def.{DyskDef, device_name_len}
use dysk.Pool.{enomem}
use dysk.Worker.{Status, dysk_deleting, dysk_catastrophe_mode}

-- `dysk`, as far as it is read here.
pub record Dysk : Type 0 where
  pub def : DyskDef
  pub status : Status

-- `deleting` are the dysks whose __del_dysk_async was queued, `torn_down` those that az was told to
-- tear down, both oldest first.
pub record Registry : Type 0 where
  pub list : List Dysk
  pub deleting : List Dysk
  pub torn_down : List Dysk

-- What io_hook returns and the numbers it gives to the dysk.
pub record Hooked : Type 0 where
  pub errno : ℤ
  pub major : ℕ
  pub minor : ℕ

-- `d` with the numbers that io_hook gave to it.
abbrev pub numbered : Dysk → Hooked → Dysk
numbered d hook = record d { def = record d.def { major = hook.major; minor = hook.minor } }

-- `0 == strncmp(existing->def->deviceName, name, DEVICE_NAME_LEN)`
abbrev pub has_name : Bytes → Dysk → Bool
has_name name d = strncmp_eq d.def.device_name name device_name_len

unfoldable pub dysk_exist : Bytes → List Dysk → Option Dysk
dysk_exist name [] = none
dysk_exist name (d ∷ ds) = if has_name name d then some d else dysk_exist name ds

-- `list_del(&d->list)` of the dysk that dysk_exist finds.
unfoldable pub unlink : Bytes → List Dysk → List Dysk
unlink name [] = []
unlink name (d ∷ ds) = if has_name name d then ds else d ∷ unlink name ds

abbrev pub err_dysk_exists : Bytes → Bytes
err_dysk_exists name =
    codes "Failed to mount dysk, device with name:" ++ (c_str name ++ codes " already exists")

abbrev pub err_dysk_does_not_exist : Bytes → Bytes
err_dysk_does_not_exist name =
    codes "Failed to unmount dysk, device with name:" ++ (c_str name ++ codes " does not exists")

abbrev pub err_dysk_del_no_mem : Bytes → Bytes
err_dysk_del_no_mem name = codes "No memory to delete dysk:" ++ c_str name

-- `print_int` is sprintf of `%d`.
module _ (print_int : ℤ → Bytes) where
  abbrev pub err_dysk_add : Bytes → ℤ → Bytes
  err_dysk_add name errno =
      codes "Failed to mount device:" ++ (c_str name ++ (codes " with errno:" ++ print_int errno))

  -- dysk_add, with what az_init_for_dysk and io_hook return: the result, the text put in `error` and
  -- the dysks afterwards.
  unfoldable pub dysk_add : Dysk → ℤ → Hooked → Registry → (ℤ × Bytes) × Registry
  dysk_add d az_init io_hook reg = elim (dysk_exist d.def.device_name reg.list) [
    | some _ ↦ ((neg 1, err_dysk_exists d.def.device_name), reg)
    | none ↦
        if not (eq_ℤ az_init (pos 0))
        then ((neg 1, err_dysk_add d.def.device_name az_init), reg)
        else if not (eq_ℤ io_hook.errno (pos 0))
        then (
          (neg 1, err_dysk_add d.def.device_name io_hook.errno),
          record reg { torn_down = reg.torn_down ++ d ∷ [] },
        )
        else ((pos 0, []), record reg { list = numbered d io_hook ∷ reg.list })
  ]

-- dysk_del: `kmalloc_fails` is the outcome of its allocation. The loop around queue_w_task ends
-- with the task queued.
unfoldable pub dysk_del : Bytes → Bool → Registry → (ℤ × Bytes) × Registry
dysk_del name kmalloc_fails reg =
    if kmalloc_fails
    then ((enomem, err_dysk_del_no_mem name), reg)
    else elim (dysk_exist name reg.list) [
      | none ↦ ((neg 1, err_dysk_does_not_exist name), reg)
      | some d ↦ (
        (pos 0, []),
        record reg {
          list = unlink name reg.list;
          deleting = reg.deleting ++ record d { status = dysk_deleting } ∷ [];
        },
      )
    ]

-- `d->status = status` of the dysk that is found by `name`.
unfoldable pub set_status : Bytes → Status → List Dysk → List Dysk
set_status name status [] = []
set_status name status (d ∷ ds) =
    if has_name name d then record d { status = status } ∷ ds else d ∷ set_status name status ds

-- The loop of dysk_catastrophe, on the outcomes of kmalloc in its rounds: `none` when it has not
-- ended after them.
unfoldable pub del_until : Bytes → List Bool → Registry → Option Registry
del_until name [] reg = none
del_until name (kmalloc_fails ∷ later) reg =
    let ((success, dummy), reg') = dysk_del name kmalloc_fails reg in
    let again = del_until name later reg' in
    if eq_ℤ success (neg 1) || eq_ℤ success (pos 0) then some reg' else again

-- dysk_catastrophe of a mounted dysk, by its name.
unfoldable pub dysk_catastrophe : Bytes → List Bool → Registry → Option Registry
dysk_catastrophe name kmallocs reg =
    del_until name kmallocs (record reg { list = set_status name dysk_catastrophe_mode reg.list })
