-- ===== src/Commands.antt =====
-- The commands of the endpoint, module/dysk_bdd.c: dysk_mount, dysk_unmount, dysk_get, dysk_list and
-- ep_ioctl, over the mounted dysks of Registry. What the kernel decides is `Kernel`. `out` is the
-- text in the answer buffer, which holds no NUL, so that strlen is its length;
-- as in the source, only dysk_list bounds it. Commands.Overflow has the size of the others.
pub mod Answers
pub mod Listing
pub mod Overflow
use dysk.Base.{
  Bool, Bytes, List, Option, [], codes, eq_ℤ, if◌then◌else◌, length, ltb, neg, none, not, pos,
  replicate, some, take, ℕ, ℤ, ◌++◌, ◌+◌, ◌-◌, ◌∷◌,
}
use dysk.Text.{c_str, get_until}
use dysk.Def.{
  DyskDef, Numerals, Outcome, ok, fail, zeroed, newline, device_name_len, dysk_def_to_buffer,
  dysk_def_from_buffer,
}
use dysk.Worker.{dysk_ok}
use dysk.Registry.{Dysk, Registry, Hooked, dysk_exist, dysk_add, dysk_del}
use dysk.Pool.{enomem}

-- What the kernel decides in one call: whether an allocation of the command fails, and that of
-- dysk_del; the bytes at the user's pointer, `none` when copy_from_user fails; whether copy_to_user
-- fails; what az_init_for_dysk and io_hook return.
pub record Kernel : Type 0 where
  pub kmalloc_fails : Bool
  pub del_kmalloc_fails : Bool
  pub user_memory : Option Bytes
  pub copy_to_user_fails : Bool
  pub az_init : ℤ
  pub io_hook : Hooked

-- How a command ends: with its result and what was copied to the user, or by reading through a null
-- pointer.
pub data Reply : Type 0 where
  returned : ℤ → Option Bytes → Reply
  null_read : Reply

abbrev pub max_in_out : ℕ
max_in_out = 2048

-- `copy_from_user(buffer, user_buffer, len)` takes MAX_IN_OUT bytes.
unfoldable pub copy_from_user : Option Bytes → Option Bytes
copy_from_user none = none
copy_from_user (some user) = some (take max_in_out user)

abbrev pub eacces : ℤ
eacces = neg 13

abbrev pub einval : ℤ
einval = neg 22

abbrev pub ok_line : Bytes
ok_line = codes "OK\n"

abbrev pub err_line : Bytes
err_line = codes "ERR\n"

-- `copy_to_user(user_buffer, out, strlen(out))` with its two results.
unfoldable pub respond : Bool → Bytes → Reply
respond copy_to_user_fails out =
    if copy_to_user_fails then returned eacces none else returned (pos (length out)) (some out)

-- The device name that dysk_unmount and dysk_get read: `line`, or nothing on -1.
unfoldable pub read_name : Bytes → Option Bytes
read_name buffer =
    let (cut, line) = get_until buffer newline (replicate device_name_len 0) device_name_len in
    if eq_ℤ cut (neg 1) then none else some line

abbrev pub err_get_does_not_exist : Bytes → Bytes
err_get_does_not_exist name =
    codes "Failed to get dysk, device with name:" ++ (c_str name ++ codes " does not exists")

-- What dysk_unmount answers to the result of dysk_del. `d` is still null where a failed copy is
-- reported with the name of `d`.
unfoldable pub unmount_reply : Bool → (ℤ × Bytes) × Registry → Reply × Registry
unmount_reply copy_to_user_fails ((res, error), reg) =
    let out = if eq_ℤ res (pos 0) then ok_line else err_line ++ error in
    (if copy_to_user_fails then null_read else returned (pos (length out)) (some out), reg)

unfoldable pub dysk_unmount : Kernel → Registry → Reply × Registry
dysk_unmount k reg =
    if k.kmalloc_fails then (returned enomem none, reg) else elim (copy_from_user k.user_memory) [
      | none ↦ (returned eacces none, reg)
      | some buffer ↦ elim (read_name buffer) [
        | none ↦ (returned einval none, reg)
        | some line ↦ unmount_reply k.copy_to_user_fails (dysk_del line k.del_kmalloc_fails reg)
      ]
    ]

-- The loop of dysk_list from `idx` on, `out` being what was written.
unfoldable pub list_loop : List Dysk → Bytes → Bytes
list_loop [] out = out
list_loop (d ∷ ds) out =
    let buffer_line = c_str d.def.device_name ++ newline in
    let rest = list_loop ds (out ++ buffer_line) in
    if ltb (max_in_out - 1) (length buffer_line + length out) then out else rest

unfoldable pub dysk_list : Kernel → Registry → Reply
dysk_list k reg =
    if k.kmalloc_fails
    then returned enomem none
    else respond k.copy_to_user_fails (list_loop reg.list ok_line)

-- The commands that ep_ioctl knows, and any other number.
pub data Cmd : Type 0 where
  mount_dysk : Cmd
  unmount_dysk : Cmd
  get_dysk : Cmd
  list_dysks : Cmd
  other_cmd : ℕ → Cmd

module _ (nums : Numerals) where
  -- What dysk_get answers to a name.
  unfoldable pub get_text : Bytes → List Dysk → Bytes
  get_text line ds = elim (dysk_exist line ds) [
    | none ↦ err_line ++ err_get_does_not_exist line
    | some d ↦ ok_line ++ dysk_def_to_buffer nums d.def
  ]

  unfoldable pub dysk_get : Kernel → Registry → Reply
  dysk_get k reg =
      if k.kmalloc_fails then returned enomem none else elim (copy_from_user k.user_memory) [
        | none ↦ returned eacces none
        | some buffer ↦ elim (read_name buffer) [
          | none ↦ returned einval none
          | some line ↦ respond k.copy_to_user_fails (get_text line reg.list)
        ]
      ]

module _ (nums : Numerals) (print_int : ℤ → Bytes) where
  -- The answer of dysk_mount to the result of dysk_add for a dysk of definition `dd`.
  unfoldable pub mount_reply : Kernel → DyskDef → (ℤ × Bytes) × Registry → Reply × Registry
  mount_reply k dd ((res, error), reg) = (
    respond k.copy_to_user_fails (
        if eq_ℤ res (pos 0)
        then ok_line
          ++ dysk_def_to_buffer nums
              (record dd { major = k.io_hook.major; minor = k.io_hook.minor })
        else err_line ++ error),
    reg,
  )

  -- dysk_mount behind dysk_def_from_buffer.
  unfoldable pub mount_parsed : Kernel → Registry → Outcome DyskDef → Reply × Registry
  mount_parsed k reg (fail error) = (respond k.copy_to_user_fails (err_line ++ error), reg)
  mount_parsed k reg (ok dd) =
      mount_reply k dd
        (dysk_add print_int (record { def = dd; status = dysk_ok }) k.az_init k.io_hook reg)

  unfoldable pub dysk_mount : Kernel → Registry → Reply × Registry
  dysk_mount k reg =
      if k.kmalloc_fails then (returned enomem none, reg) else elim (copy_from_user k.user_memory) [
        | none ↦ (returned eacces none, reg)
        | some buffer ↦ mount_parsed k reg (dysk_def_from_buffer nums buffer zeroed)
      ]

  unfoldable pub ep_ioctl : Cmd → Kernel → Registry → Reply × Registry
  ep_ioctl mount_dysk k reg = dysk_mount k reg
  ep_ioctl unmount_dysk k reg = dysk_unmount k reg
  ep_ioctl get_dysk k reg = (dysk_get nums k reg, reg)
  ep_ioctl list_dysks k reg = (dysk_list k reg, reg)
  ep_ioctl (other_cmd n) k reg = (returned einval none, reg)
