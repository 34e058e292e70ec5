-- ===== src/Registry/Race.antt =====
-- Callers of the commands of module/dysk_bdd.c at the same time. `ep_ioctl` is an unlocked_ioctl, and
-- dysk_add and dysk_del hold `dysks.lock` only inside dysk_exist and around list_add and list_del.
-- So each is two turns of its caller: the search, and all that follows it.
pub mod Together
use dysk.Base.{Bytes, [], eq_ℤ, if◌then◌else◌, neg, none, not, pos, some, ℤ, ◌++◌, ◌∷◌}
use dysk.Worker.{dysk_deleting}
use dysk.Registry.{Dysk, Registry, Hooked, numbered, dysk_exist, unlink}

-- Where a caller stands: in front of dysk_exist or behind it, in dysk_add or in dysk_del, or at its
-- end. `faults` is a list_del of a dysk that has left the list.
pub data Caller : Type 0 where
  mounts : Dysk → Caller
  adds : Dysk → Caller
  unmounts : Bytes → Caller
  removes : Bytes → Dysk → Caller
  returns : ℤ → Caller
  faults : Caller

-- What az_init_for_dysk and io_hook return to a caller.
pub record Answers : Type 0 where
  pub az_init : ℤ
  pub io_hook : Hooked

-- dysk_add behind dysk_exist.
unfoldable pub add : Answers → Dysk → Registry → Caller × Registry
add a d reg =
    if not (eq_ℤ a.az_init (pos 0))
    then (returns (neg 1), reg)
    else if not (eq_ℤ a.io_hook.errno (pos 0))
    then (returns (neg 1), record reg { torn_down = reg.torn_down ++ d ∷ [] })
    else (returns (pos 0), record reg { list = numbered d a.io_hook ∷ reg.list })

-- dysk_del behind dysk_exist, which found `d` by `name`.
unfoldable pub remove : Bytes → Dysk → Registry → Caller × Registry
remove name d reg = elim (dysk_exist name reg.list) [
  | none ↦ (faults, reg)
  | some _ ↦ (
    returns (pos 0),
    record reg {
      list = unlink name reg.list;
      deleting = reg.deleting ++ record d { status = dysk_deleting } ∷ [];
    },
  )
]

-- A turn of a caller.
unfoldable pub turn : Answers → Caller → Registry → Caller × Registry
turn a (mounts d) reg = elim (dysk_exist d.def.device_name reg.list) [
  | none ↦ (adds d, reg)
  | some _ ↦ (returns (neg 1), reg)
]
turn a (adds d) reg = add a d reg
turn a (unmounts name) reg = elim (dysk_exist name reg.list) [
  | none ↦ (returns (neg 1), reg)
  | some d ↦ (removes name d, reg)
]
turn a (removes name d) reg = remove name d reg
turn a (returns res) reg = (returns res, reg)
turn a faults reg = (faults, reg)

-- Two callers and the dysks that they share. In each step one of them has a turn.
pub record Shared : Type 0 where
  pub first : Caller
  pub second : Caller
  pub reg : Registry

pub data Step : Shared → Shared → Type 0 where
  first_turn :
      {s : Shared} (a : Answers)
      → Step s (record s { first = (turn a s.first s.reg).0; reg = (turn a s.first s.reg).1 })
  second_turn :
      {s : Shared} (a : Answers)
      → Step s (record s { second = (turn a s.second s.reg).0; reg = (turn a s.second s.reg).1 })

pub data Reach (s : Shared) : Shared → Type 0 where
  here : Reach s s
  next : {t u : Shared} → Reach s t → Step t u → Reach s u
