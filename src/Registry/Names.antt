-- ===== src/Registry/Names.antt =====
-- The names of the mounted dysks, module/dysk_bdd.c: that each is mounted once, and what dysk_exist
-- finds after dysk_add and dysk_del.
use dysk.Base.{
  Bool, Bool-cases, Bytes, List, Option-cases, [], arith, eq_ℤ, false, inl, inr, neg, none, pos,
  refl, some, true, ℤ, ◌++◌, ◌∷◌, ◌≡◌, ◌≢◌, ◌⊎◌,
}
use dysk.Text.{strncmp_eq}
use dysk.Def.{device_name_len}
use dysk.Worker.{dysk_deleting}
use dysk.Registry.{
  Dysk, Registry, Hooked, numbered, has_name, dysk_exist, unlink, dysk_add, dysk_del,
}
use dysk.Registry.Same.{strncmp_eq-join, strncmp_eq_self, strncmp_eq_comm}

-- No later dysk has the name of an earlier one.
abbrev pub Unique : List Dysk → Type 0
Unique [] = Unit
Unique (d ∷ ds) = (dysk_exist d.def.device_name ds ≡ none) × Unique ds

-- No dysk that is found by one name is found by a name that agrees with it.
pub exist-agree :
    (a b : Bytes) (ds : List Dysk)
    → strncmp_eq a b device_name_len ≡ true
    → dysk_exist a ds ≡ none
    → dysk_exist b ds ≡ none
unfolding dysk_exist
exist-agree a b [] s e = refl
exist-agree a b (d ∷ ds) s e =
    let rest = exist-agree a b ds s in
    let same = strncmp_eq-join d.def.device_name a b device_name_len in ground arith

-- A dysk at the front is found by its own name.
pub exist-head : (d : Dysk) (ds : List Dysk) → dysk_exist d.def.device_name (d ∷ ds) ≡ some d
unfolding dysk_exist
exist-head d ds = rw (strncmp_eq_self d.def.device_name device_name_len) refl

-- What is not found is still not found when a dysk left the list.
exist-unlink-none :
    (a name : Bytes) (ds : List Dysk)
    → dysk_exist a ds ≡ none
    → dysk_exist a (unlink name ds) ≡ none
unfolding dysk_exist unlink
exist-unlink-none a name [] e = refl
exist-unlink-none a name (d ∷ ds) e = let rest = exist-unlink-none a name ds in ground arith

-- Taking a dysk out of the list keeps the names unique.
unlink-Unique : (name : Bytes) (ds : List Dysk) → Unique ds → Unique (unlink name ds)
unfolding unlink
unlink-Unique name [] u = u
unlink-Unique name (d ∷ ds) u = elim (Bool-cases (has_name name d)) [
  | inl e ↦ rw e u.1
  | inr e ↦ rw e (exist-unlink-none d.def.device_name name ds u.0, unlink-Unique name ds u.1)
]

-- A name that was taken out once is gone.
pub exist-unlink :
    (name : Bytes) (ds : List Dysk) → Unique ds → dysk_exist name (unlink name ds) ≡ none
unfolding dysk_exist unlink
exist-unlink name [] u = refl
exist-unlink name (d ∷ ds) u =
    let rest = exist-unlink name ds u.1 in
    let gone = exist-agree d.def.device_name name ds in ground arith

-- Every other name is found as before.
exist-unlink-other :
    (name other : Bytes) (ds : List Dysk)
    → strncmp_eq name other device_name_len ≡ false
    → dysk_exist other (unlink name ds) ≡ dysk_exist other ds
unfolding dysk_exist unlink
exist-unlink-other name other [] h = refl
exist-unlink-other name other (d ∷ ds) h =
    let rest = exist-unlink-other name other ds h in
    let apart = strncmp_eq-join name other d.def.device_name device_name_len in
    let turn = strncmp_eq_comm d.def.device_name name device_name_len in
    let turn' = strncmp_eq_comm d.def.device_name other device_name_len in ground arith

-- Whatever az_init_for_dysk and io_hook return, dysk_add keeps the names of the mounted dysks
-- unique.
pub dysk_add-Unique :
    (print_int : ℤ → Bytes) (d : Dysk) (az_init : ℤ) (io_hook : Hooked) (reg : Registry)
    → Unique reg.list
    → Unique (dysk_add print_int d az_init io_hook reg).1.list
unfolding dysk_add
dysk_add-Unique print_int d az_init io_hook reg u =
    elim (Option-cases (dysk_exist d.def.device_name reg.list)) [
      | inl e ↦ elim (Bool-cases (eq_ℤ az_init (pos 0))) [
        | inl a ↦ elim (Bool-cases (eq_ℤ io_hook.errno (pos 0))) [
          | inl b ↦ rw (e, dysk_add) (rw (a, b) (e, u))
          | inr b ↦ rw (e, dysk_add) (rw (a, b) u)
        ]
        | inr a ↦ rw (e, dysk_add) (rw a u)
      ]
      | inr (x, e) ↦ rw (e, dysk_add) u
    ]

-- When az_init_for_dysk and io_hook succeed, dysk_add of a name that is not mounted returns 0, and
-- the dysk, with the numbers that io_hook gave to it, is found by that name from then on.
dysk_add-exist :
    (print_int : ℤ → Bytes) (d : Dysk) (io_hook : Hooked) (reg : Registry)
    → io_hook.errno ≡ pos 0
    → dysk_exist d.def.device_name reg.list ≡ none
    → let ((res, error), reg') = dysk_add print_int d (pos 0) io_hook reg in
      (res ≡ pos 0) × (dysk_exist d.def.device_name reg'.list ≡ some (numbered d io_hook))
unfolding dysk_add
dysk_add-exist print_int d io_hook reg h e =
    rw (e, dysk_add) (rw h (refl, exist-head (numbered d io_hook) reg.list))

-- dysk_add of a name that is mounted already, or whose az_init_for_dysk or io_hook fails, returns -1
-- and leaves the list as it is.
dysk_add-fails :
    (print_int : ℤ → Bytes) (d : Dysk) (az_init : ℤ) (io_hook : Hooked) (reg : Registry)
    → (dysk_exist d.def.device_name reg.list ≢ none)
      ⊎ ((az_init ≢ pos 0) ⊎ ((az_init ≡ pos 0) × (io_hook.errno ≢ pos 0)))
    → let ((res, error), reg') = dysk_add print_int d az_init io_hook reg in
      (res ≡ neg 1) × (reg'.list ≡ reg.list)
unfolding dysk_add
dysk_add-fails print_int d az_init io_hook reg why = ground arith

-- With unique names, dysk_del of a mounted name returns 0 and queues the dysk for its deletion as
-- deleting; the name is not found any more, and a name that differs is found as before.
dysk_del-exist :
    (name other : Bytes) (d : Dysk) (reg : Registry)
    → Unique reg.list
    → dysk_exist name reg.list ≡ some d
    → strncmp_eq name other device_name_len ≡ false
    → let ((res, error), reg') = dysk_del name false reg in
      (res ≡ pos 0)
      × (dysk_exist name reg'.list ≡ none)
      × (dysk_exist other reg'.list ≡ dysk_exist other reg.list)
      × (reg'.deleting ≡ reg.deleting ++ record d { status = dysk_deleting } ∷ [])
unfolding dysk_del
dysk_del-exist name other d reg u e h =
    rw e (refl, exist-unlink name reg.list u, exist-unlink-other name other reg.list h, refl)

-- dysk_del keeps the names of the mounted dysks unique on every branch.
pub dysk_del-Unique :
    (name : Bytes) (kmalloc_fails : Bool) (reg : Registry)
    → Unique reg.list
    → Unique (dysk_del name kmalloc_fails reg).1.list
unfolding dysk_del
dysk_del-Unique name true reg u = u
dysk_del-Unique name false reg u = elim (Option-cases (dysk_exist name reg.list)) [
  | inl e ↦ rw (e, dysk_del) u
  | inr (d, e) ↦ rw (e, dysk_del) (unlink-Unique name reg.list u)
]
