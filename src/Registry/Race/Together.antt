-- ===== src/Registry/Race/Together.antt =====
-- Two callers of module/dysk_bdd.c whose turns mix.
use mathlib.Core.Path.{subst}
use mathlib.Core.Option.{none-ne-some}
use dysk.Base.{Bytes, List, [], none, pos, refl, some, sym, true, ◌++◌, ◌∙◌, ◌∷◌, ◌≡◌}
use dysk.Text.{strncmp_eq}
use dysk.Def.{device_name_len}
use dysk.Registry.{dysk_deleting, Dysk, Registry, numbered, dysk_exist, unlink, has_name}
use dysk.Registry.Names.{Unique, exist-agree, exist-unlink}
use dysk.Registry.Race.{
  Answers, Caller, Shared, Step, Reach, first_turn, second_turn, here, next, mounts, adds, unmounts,
  removes, returns, faults, turn, add, remove,
}

-- A turn whose outcome is known.
first_does :
    {x y c : Caller} {reg reg' : Registry} (a : Answers)
    → turn a x reg ≡ (c, reg')
    → Step
        (record { first = x; second = y; reg = reg })
        (record { first = c; second = y; reg = reg' })
first_does {x} {y} {reg} a e =
    subst
      (λ r.
        Step (record { first = x; second = y; reg = reg })
          (record { first = r.0; second = y; reg = r.1 }))
      e (first_turn a)

second_does :
    {x y c : Caller} {reg reg' : Registry} (a : Answers)
    → turn a y reg ≡ (c, reg')
    → Step
        (record { first = x; second = y; reg = reg })
        (record { first = x; second = c; reg = reg' })
second_does {x} {y} {reg} a e =
    subst
      (λ r.
        Step (record { first = x; second = y; reg = reg })
          (record { first = x; second = r.0; reg = r.1 }))
      e (second_turn a)

-- What az_init_for_dysk and io_hook return when they succeed.
abbrev pub Succeeds : Answers → Type 0
Succeeds a = (a.az_init ≡ pos 0) × (a.io_hook.errno ≡ pos 0)

mounts_searches :
    (a : Answers) (d : Dysk) (reg : Registry)
    → dysk_exist d.def.device_name reg.list ≡ none
    → turn a (mounts d) reg ≡ (adds d, reg)
unfolding turn
mounts_searches a d reg e = rw (e, turn) refl

adds_lists :
    (a : Answers) (d : Dysk) (reg : Registry)
    → Succeeds a
    → turn a (adds d) reg ≡ (returns (pos 0), record reg { list = numbered d a.io_hook ∷ reg.list })
unfolding turn add
adds_lists a d reg (az, hook) = rw (az, hook) refl

exist_first :
    (name : Bytes) (d : Dysk) (ds : List Dysk)
    → has_name name d ≡ true
    → dysk_exist name (d ∷ ds) ≡ some d
unfolding dysk_exist
exist_first name d ds e = rw e refl

-- Two mounts of names that agree, neither mounted before, can both succeed: when both have searched
-- the list before either adds its dysk, the names of the mounted dysks are not unique any more.
pub mounts_race :
    (d d' : Dysk) (a a' : Answers) (reg : Registry)
    → strncmp_eq d.def.device_name d'.def.device_name device_name_len ≡ true
    → dysk_exist d.def.device_name reg.list ≡ none
    → Succeeds a
    → Succeeds a'
    → (s : Shared) × Reach (record { first = mounts d; second = mounts d'; reg = reg }) s
      × (s.first ≡ returns (pos 0))
      × (s.second ≡ returns (pos 0))
      × (¬ Unique s.reg.list)
mounts_race d d' a a' reg same gone works works' =
    let gone' = exist-agree d.def.device_name d'.def.device_name reg.list same gone in
    (
      _,
      next
          (next
            (next (next here (first_does a (mounts_searches a d reg gone)))
              (second_does a' (mounts_searches a' d' reg gone')))
            (first_does a (adds_lists a d reg works)))
          (second_does a' (adds_lists a' d' _ works')),
      refl,
      refl,
      λ u.
          none-ne-some (numbered d a.io_hook)
            (sym u.0 ∙ exist_first d'.def.device_name (numbered d a.io_hook) reg.list same),
    )

unmounts_searches :
    (a : Answers) (name : Bytes) (d : Dysk) (reg : Registry)
    → dysk_exist name reg.list ≡ some d
    → turn a (unmounts name) reg ≡ (removes name d, reg)
unfolding turn
unmounts_searches a name d reg e = rw (e, turn) refl

-- Two unmounts of one mounted name, both past their search before either takes the dysk off the list:
-- one returns 0, and the other takes a dysk off the list that has left it.
pub unmounts_race :
    (name : Bytes) (d : Dysk) (a : Answers) (reg : Registry)
    → Unique reg.list
    → dysk_exist name reg.list ≡ some d
    → (s : Shared) × Reach (record { first = unmounts name; second = unmounts name; reg = reg }) s
      × (s.first ≡ returns (pos 0))
      × (s.second ≡ faults)
unfolding turn remove
unmounts_race name d a reg u e =
    let reg' : Registry = record reg {
      list = unlink name reg.list;
      deleting = reg.deleting ++ record d { status = dysk_deleting } ∷ [];
    } in
    (
      _,
      next
          (next
            (next (next here (first_does a (unmounts_searches a name d reg e)))
              (second_does a (unmounts_searches a name d reg e)))
            (first_does {c = returns (pos 0)} {reg' = reg'} a (rw (e, remove) refl)))
          (second_does {c = faults} {reg' = reg'} a
            (rw (exist-unlink name reg.list u, remove) refl)),
      refl,
      refl,
    )
