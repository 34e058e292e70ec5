-- ===== src/Registry/Catastrophe.antt =====
-- dysk_catastrophe of module/dysk_bdd.c: how it ends when memory is short.
use dysk.Base.{
  Bool, Bool-cases, Bytes, List, [], arith, false, inl, inr, none, refl, replicate, some, suc, true,
  zero, ℕ, ◌++◌, ◌∷◌, ◌≡◌,
}
use dysk.Worker.{Status, dysk_deleting, dysk_catastrophe_mode}
use dysk.Registry.{
  Dysk, Registry, has_name, dysk_exist, unlink, dysk_del, set_status, del_until, dysk_catastrophe,
}
use dysk.Registry.Names.{Unique, exist-unlink}

exist-set_status-none :
    (a name : Bytes) (st : Status) (ds : List Dysk)
    → dysk_exist a ds ≡ none
    → dysk_exist a (set_status name st ds) ≡ none
unfolding dysk_exist set_status
exist-set_status-none a name st [] e = refl
exist-set_status-none a name st (d ∷ ds) e =
    let rest = exist-set_status-none a name st ds in ground arith

set_status-Unique :
    (name : Bytes) (st : Status) (ds : List Dysk) → Unique ds → Unique (set_status name st ds)
unfolding set_status
set_status-Unique name st [] u = u
set_status-Unique name st (d ∷ ds) u = elim (Bool-cases (has_name name d)) [
  | inl e ↦ rw e u
  | inr e ↦
      rw e
        (exist-set_status-none d.def.device_name name st ds u.0, set_status-Unique name st ds u.1)
]

exist-set_status :
    (name : Bytes) (st : Status) (d : Dysk) (ds : List Dysk)
    → dysk_exist name ds ≡ some d
    → dysk_exist name (set_status name st ds) ≡ some (record d { status = st })
unfolding dysk_exist set_status
exist-set_status name st d [] e = ground arith
exist-set_status name st d (x ∷ xs) e = elim (Bool-cases (has_name name x)) [
  | inl m ↦ rw (m, m) (let same = (rw m at e) in ground arith)
  | inr m ↦ rw (m, m) (exist-set_status name st d xs (rw m at e))
]

-- Rounds without memory change nothing, and the first one with memory ends the loop.
del_until-replicate :
    (name : Bytes) (n : ℕ) (later : List Bool) (d : Dysk) (reg : Registry)
    → dysk_exist name reg.list ≡ some d
    → del_until name (replicate n true ++ false ∷ later) reg
      ≡ some (record reg {
        list = unlink name reg.list;
        deleting = reg.deleting ++ record d { status = dysk_deleting } ∷ [];
      })
unfolding del_until dysk_del
del_until-replicate name zero later d reg e = rw (e, dysk_del) refl
del_until-replicate name (suc n) later d reg e = del_until-replicate name n later d reg e

-- For a mounted dysk, dysk_catastrophe ends in the first round in which memory is there, whatever
-- number of rounds failed before: the dysk is not found any more, and it is queued for its deletion
-- as deleting, no longer as in catastrophe.
pub dysk_catastrophe-exist :
    (name : Bytes) (n : ℕ) (later : List Bool) (d : Dysk) (reg : Registry)
    → Unique reg.list
    → dysk_exist name reg.list ≡ some d
    → (reg' : Registry) × (dysk_catastrophe name (replicate n true ++ false ∷ later) reg
        ≡ some reg')
      × (dysk_exist name reg'.list ≡ none)
      × (reg'.deleting ≡ reg.deleting ++ record d { status = dysk_deleting } ∷ [])
unfolding dysk_catastrophe
dysk_catastrophe-exist name n later d reg u e = (
  _,
  del_until-replicate name n later (record d { status = dysk_catastrophe_mode })
      (record reg { list = set_status name dysk_catastrophe_mode reg.list })
      (exist-set_status name dysk_catastrophe_mode d reg.list e),
  exist-unlink name (set_status name dysk_catastrophe_mode reg.list)
      (set_status-Unique name dysk_catastrophe_mode reg.list u),
  refl,
)
