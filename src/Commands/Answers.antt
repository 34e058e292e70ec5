-- ===== src/Commands/Answers.antt =====
-- What the commands of module/dysk_bdd.c answer, one after the other.
use dysk.Base.{
  Bool-cases, Bytes, List, Option-cases, [], ap, drop-replicate, false, inl, inr, length, none, pos,
  refl, replicate, some, true, ℤ, ◌++◌, ◌∙◌, ◌∷◌, ◌≡◌,
}
use dysk.Text.Find.{get_until-append}
use dysk.Def.{
  DyskDef, Numerals, Outcome, ok, fail, zeroed, device_name_len, dysk_def_to_buffer,
  dysk_def_from_buffer,
}
use dysk.Def.Parse.{
  Fits, pad_to, Request, IsValid, def_of, mount_request, from_buffer-mount_request,
}
use dysk.Def.Print.{mounted}
use dysk.Worker.{dysk_ok, dysk_deleting}
use dysk.Registry.{Dysk, Registry, numbered, dysk_exist, unlink, dysk_add, dysk_del}
use dysk.Registry.Names.{Unique, exist-head, exist-unlink, dysk_add-Unique, dysk_del-Unique}
use dysk.Commands.{
  Kernel, copy_from_user, Reply, returned, null_read, ok_line, err_line, respond, read_name,
  unmount_reply, dysk_unmount, get_text, dysk_get, mount_reply, mount_parsed, dysk_mount, Cmd,
  mount_dysk, unmount_dysk, get_dysk, list_dysks, other_cmd, ep_ioctl, err_get_does_not_exist,
}

-- A kernel without failures, for a command that reads `buffer`, which is at most 2048 bytes long.
pub record Works (k : Kernel) (buffer : Bytes) : Type 0 where
  pub alloc : k.kmalloc_fails ≡ false
  pub del_alloc : k.del_kmalloc_fails ≡ false
  pub read : copy_from_user k.user_memory ≡ some buffer
  pub write : k.copy_to_user_fails ≡ false
  pub init : k.az_init ≡ pos 0
  pub hook : k.io_hook.errno ≡ pos 0

-- A name on a line of its own is read as the array that holds it.
read_name-pad_to :
    (name rest : Bytes)
    → Fits device_name_len name
    → read_name (name ++ b'\n' ∷ rest) ≡ some (pad_to device_name_len name)
unfolding read_name
read_name-pad_to name rest f =
    rw
      (get_until-append b'\n' name rest (replicate device_name_len 0) device_name_len f.one_line
        f.short)
      (ap (λ pad. some (name ++ pad)) (drop-replicate (length name) device_name_len 0))

-- The answer to a text that could be written.
abbrev answer : Bytes → Reply
answer out = returned (pos (length out)) (some out)

dysk_get-Works :
    (nums : Numerals) (name rest : Bytes) (k : Kernel) (reg : Registry)
    → Fits device_name_len name
    → Works k (name ++ b'\n' ∷ rest)
    → dysk_get nums k reg ≡ answer (get_text nums (pad_to device_name_len name) reg.list)
unfolding dysk_get respond
dysk_get-Works nums name rest k reg f w =
    rw (w.alloc, w.read) (rw (read_name-pad_to name rest f) (rw w.write refl))

-- A dysk that dysk_mount makes of a definition, before io_hook.
abbrev fresh : Request → Dysk
fresh r = record { def = def_of r; status = dysk_ok }

dysk_mount-Works :
    (nums : Numerals) (print_int : ℤ → Bytes) (r : Request) (rest : Bytes) (k : Kernel)
    (reg : Registry)
    → IsValid r
    → Works k (mount_request nums r rest)
    → dysk_exist (pad_to device_name_len r.device_name) reg.list ≡ none
    → dysk_mount nums print_int k reg ≡ (
      answer (ok_line ++ dysk_def_to_buffer nums (mounted r k.io_hook.major k.io_hook.minor)),
      record reg { list = numbered (fresh r) k.io_hook ∷ reg.list },
    )
unfolding dysk_mount mount_parsed mount_reply dysk_add respond
dysk_mount-Works nums print_int r rest k reg v w e =
    rw (w.alloc, w.read)
      (rw (from_buffer-mount_request nums r rest v)
        (rw (e, dysk_add) (rw (w.init, w.hook) (rw w.write refl))))

get_text-found :
    (nums : Numerals) (line : Bytes) (d : Dysk) (ds : List Dysk)
    → dysk_exist line ds ≡ some d
    → get_text nums line ds ≡ ok_line ++ dysk_def_to_buffer nums d.def
unfolding get_text
get_text-found nums line d ds e = rw (e, get_text) refl

get_text-missing :
    (nums : Numerals) (line : Bytes) (ds : List Dysk)
    → dysk_exist line ds ≡ none
    → get_text nums line ds ≡ err_line ++ err_get_does_not_exist line
unfolding get_text
get_text-missing nums line ds e = rw (e, get_text) refl

dysk_unmount-Works :
    (name rest : Bytes) (d : Dysk) (k : Kernel) (reg : Registry)
    → Fits device_name_len name
    → Works k (name ++ b'\n' ∷ rest)
    → dysk_exist (pad_to device_name_len name) reg.list ≡ some d
    → dysk_unmount k reg ≡ (
      answer ok_line,
      record reg {
        list = unlink (pad_to device_name_len name) reg.list;
        deleting = reg.deleting ++ record d { status = dysk_deleting } ∷ [];
      },
    )
unfolding dysk_unmount unmount_reply dysk_del
dysk_unmount-Works name rest d k reg f w e =
    rw (w.alloc, w.read)
      (rw (read_name-pad_to name rest f) (rw w.del_alloc (rw (e, dysk_del) (rw w.write refl))))

-- A valid mount request for a name that is not mounted, on a kernel without failures, is answered
-- with "OK" and the definition with the numbers of io_hook, and a get right after, which is the name
-- on a line of its own, has the very same answer.
pub mount-get :
    (nums : Numerals) (print_int : ℤ → Bytes) (r : Request) (rest rest' : Bytes) (k k' : Kernel)
    (reg : Registry)
    → IsValid r
    → Works k (mount_request nums r rest)
    → Works k' (r.device_name ++ b'\n' ∷ rest')
    → dysk_exist (pad_to device_name_len r.device_name) reg.list ≡ none
    → let out = ok_line ++ dysk_def_to_buffer nums (mounted r k.io_hook.major k.io_hook.minor) in
      let (reply, reg') = dysk_mount nums print_int k reg in
      (reply ≡ returned (pos (length out)) (some out)) × (dysk_get nums k' reg' ≡ reply)
mount-get nums print_int r rest rest' k k' reg v w w' e =
    rw (dysk_mount-Works nums print_int r rest k reg v w e) (
      refl,
      dysk_get-Works nums r.device_name rest' k' _ v.device_name w'
          ∙ ap answer (
              get_text-found nums _ (numbered (fresh r) k.io_hook) _
                (exist-head (numbered (fresh r) k.io_hook) reg.list)),
    )

-- With unique names and kernels without failures, an unmount of a name that is mounted is answered
-- with "OK", and a get afterwards, which is the name on a line of its own, with the error that it
-- does not exist.
pub unmount-get :
    (nums : Numerals) (name rest rest' : Bytes) (d : Dysk) (k k' : Kernel) (reg : Registry)
    → Fits device_name_len name
    → Works k (name ++ b'\n' ∷ rest)
    → Works k' (name ++ b'\n' ∷ rest')
    → Unique reg.list
    → dysk_exist (pad_to device_name_len name) reg.list ≡ some d
    → let out = err_line ++ err_get_does_not_exist (pad_to device_name_len name) in
      let (reply, reg') = dysk_unmount k reg in
      (reply ≡ returned (pos 3) (some ok_line))
      × (dysk_get nums k' reg' ≡ returned (pos (length out)) (some out))
unmount-get nums name rest rest' d k k' reg f w w' u e =
    rw (dysk_unmount-Works name rest d k reg f w e) (
      refl,
      dysk_get-Works nums name rest' k' _ f w'
          ∙ ap answer (get_text-missing nums _ _ (exist-unlink _ reg.list u)),
    )

-- When the answer to an unmount cannot be copied to the user, dysk_unmount reads through a null
-- pointer, whether or not the name was mounted; a mounted dysk has left the list by then.
dysk_unmount-null_read :
    (name rest : Bytes) (k : Kernel) (reg : Registry)
    → Fits device_name_len name
    → k.kmalloc_fails ≡ false
    → k.del_kmalloc_fails ≡ false
    → copy_from_user k.user_memory ≡ some (name ++ b'\n' ∷ rest)
    → k.copy_to_user_fails ≡ true
    → Unique reg.list
    → let (reply, reg') = dysk_unmount k reg in
      (reply ≡ null_read) × (dysk_exist (pad_to device_name_len name) reg'.list ≡ none)
unfolding dysk_unmount unmount_reply dysk_del
dysk_unmount-null_read name rest k reg f a da e c u =
    rw (a, e)
      (rw (read_name-pad_to name rest f) (
        rw (c, da)
          (elim (Option-cases (dysk_exist (pad_to device_name_len name) reg.list)) [
            | inl m ↦ rw (m, dysk_del) (refl, m)
            | inr (d, m) ↦ rw (m, dysk_del) (refl, exist-unlink _ reg.list u)
          ])))

dysk_mount-Unique :
    (nums : Numerals) (print_int : ℤ → Bytes) (k : Kernel) (reg : Registry)
    → Unique reg.list
    → Unique (dysk_mount nums print_int k reg).1.list
unfolding dysk_mount mount_parsed mount_reply
dysk_mount-Unique nums print_int k reg u = elim (Bool-cases k.kmalloc_fails) [
  | inl a ↦ rw a u
  | inr a ↦ elim (Option-cases (copy_from_user k.user_memory)) [
    | inl e ↦ rw (a, e) u
    | inr (buffer, e) ↦ rw (a, e) (added (dysk_def_from_buffer nums buffer zeroed))
  ]
]
  where
    added : (o : Outcome DyskDef) → Unique (mount_parsed nums print_int k reg o).1.list
    added (ok dd) =
        dysk_add-Unique print_int (record { def = dd; status = dysk_ok }) k.az_init k.io_hook reg u
    added (fail error) = u

dysk_unmount-Unique :
    (k : Kernel) (reg : Registry) → Unique reg.list → Unique (dysk_unmount k reg).1.list
unfolding dysk_unmount unmount_reply
dysk_unmount-Unique k reg u = elim (Bool-cases k.kmalloc_fails) [
  | inl a ↦ rw a u
  | inr a ↦ elim (Option-cases (copy_from_user k.user_memory)) [
    | inl e ↦ rw (a, e) u
    | inr (buffer, e) ↦ elim (Option-cases (read_name buffer)) [
      | inl m ↦ rw (a, e) (rw m u)
      | inr (line, m) ↦ rw (a, e) (rw m (dysk_del-Unique line k.del_kmalloc_fails reg u))
    ]
  ]
]

-- Every command, whatever its argument and whatever fails, keeps the names of the mounted dysks
-- unique.
pub ep_ioctl-Unique :
    (nums : Numerals) (print_int : ℤ → Bytes) (cmd : Cmd) (k : Kernel) (reg : Registry)
    → Unique reg.list
    → Unique (ep_ioctl nums print_int cmd k reg).1.list
unfolding ep_ioctl
ep_ioctl-Unique nums print_int mount_dysk k reg u = dysk_mount-Unique nums print_int k reg u
ep_ioctl-Unique nums print_int unmount_dysk k reg u = dysk_unmount-Unique k reg u
ep_ioctl-Unique nums print_int get_dysk k reg u = u
ep_ioctl-Unique nums print_int list_dysks k reg u = u
ep_ioctl-Unique nums print_int (other_cmd n) k reg u = u
