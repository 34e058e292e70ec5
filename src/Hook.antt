-- ===== src/Hook.antt =====
-- io_hook, io_unhook and dysk_getgeo of module/dysk_bdd.c: a dysk gets its slot, its request queue and
-- its gendisk, and gives them back. What the kernel allocates is known by address; `queues` and
-- `gendisks` are those that are alive.
pub mod Slot
pub mod Geometry
use dysk.Base.{
  Bool, Bytes, List, Option, [], if◌then◌else◌, neg, negsuc, none, pos, some, take, ℕ, ℤ, ◌%◌, ◌*◌,
  ◌/◌, ◌==◌, ◌^◌, ◌∷◌,
}
use dysk.Slots.{Dyskslist, find_set_dysk_slots, free_dysk_slot, first_minor, dysk_minors}
use dysk.Def.{DyskDef, device_name_len}

pub record Gendisk : Type 0 where
  pub address : ℕ
  pub queue : ℕ
  pub major : ℕ
  pub minors : ℕ
  pub first_minor : ℕ
  pub disk_name : Bytes
  pub capacity : ℕ
  pub ro : Bool

-- The fields of `dysk` that are read or set here.
pub record HookedDysk : Type 0 where
  pub def : DyskDef
  pub slot : ℕ
  pub gd : Option Gendisk

pub record BlockLayer : Type 0 where
  pub slots : Dyskslist
  pub queues : List ℕ
  pub gendisks : List ℕ

-- What blk_init_queue and alloc_disk give.
pub record HookEnv : Type 0 where
  pub rq : Option ℕ
  pub gd : Option ℕ

abbrev pub release : ℕ → List ℕ → List ℕ
release p [] = []
release p (q ∷ qs) = if q == p then qs else q ∷ release p qs

-- The gendisk of a dysk, as io_hook fills it.
abbrev pub gendisk_of : ℕ → DyskDef → ℕ → ℕ → ℕ → Gendisk
gendisk_of dysk_major def slot rq gd = record {
  address = gd;
  queue = rq;
  major = dysk_major;
  minors = dysk_minors;
  first_minor = first_minor slot;
  disk_name = take device_name_len def.device_name;
  capacity = def.sector_count;
  ro = def.read_only == 1;
}

-- io_hook behind find_set_dysk_slots, whose result is -1 or a slot. The clean-up at `clean_no_mem`
-- gives back the queue, and not the slot.
unfoldable pub hook_slot : ℕ → HookEnv → HookedDysk → BlockLayer → ℤ → (ℤ × HookedDysk) × BlockLayer
hook_slot dysk_major env d io (negsuc n) = ((neg 1, d), io)
hook_slot dysk_major env d io (pos slot) =
    let d' = record d { slot = slot } in
    elim env.rq [
      | none ↦ ((neg 1, d'), io)
      | some rq ↦ elim env.gd [
        | none ↦ ((neg 1, d'), record io { queues = release rq (rq ∷ io.queues) })
        | some gd ↦ (
          (
            pos 0,
            record d' {
              def = record d.def { major = dysk_major; minor = first_minor slot };
              gd = some (gendisk_of dysk_major d.def slot rq gd);
            },
          ),
          record io { queues = rq ∷ io.queues; gendisks = gd ∷ io.gendisks },
        )
      ]
    ]

unfoldable pub io_hook : ℕ → HookEnv → HookedDysk → BlockLayer → (ℤ × HookedDysk) × BlockLayer
io_hook dysk_major env d io =
    let (slots, slot) = find_set_dysk_slots io.slots in
    hook_slot dysk_major env d (record io { slots = slots }) slot

-- io_unhook; it is only called for a dysk that has a gendisk.
unfoldable pub io_unhook : HookedDysk → BlockLayer → HookedDysk × BlockLayer
io_unhook d io = elim d.gd [
  | none ↦ (d, io)
  | some gd ↦ (
    record d { gd = none },
    record {
      slots = free_dysk_slot io.slots d.slot;
      queues = release gd.queue io.queues;
      gendisks = release gd.address io.gendisks;
    },
  )
]

pub record HdGeometry : Type 0 where
  pub cylinders : ℕ
  pub heads : ℕ
  pub sectors : ℕ
  pub start : ℕ

-- dysk_getgeo of a disk with a capacity in sectors: `size` is a size_t, `cylinders` an unsigned short,
-- and `(size & ~0x3f) >> 6` is the quotient by 64.
unfoldable pub dysk_getgeo : ℕ → HdGeometry
dysk_getgeo n_sectors =
    let size = n_sectors * 512 % 2 ^ 64 in
    record { cylinders = size / 64 % 2 ^ 16; heads = 4; sectors = 16; start = 0 }
