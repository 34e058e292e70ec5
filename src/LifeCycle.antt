-- ===== src/LifeCycle.antt =====
-- Loading and unloading of the module: _init_module, unload, endpoint_start and endpoint_stop of
-- module/dysk_bdd.c, dysk_worker_init and dysk_worker_teardown of module/dysk_worker.c, az_init and
-- az_teardown of module/az.c. What the kernel gives is a value of `Kernel`; `calls` are the calls
-- that give something back to it, oldest first.
pub mod Unload
use dysk.Base.{
  Bool, List, Option, [], eq_ℤ, false, if◌then◌else◌, is_some, neg, negsuc, none, not, pos, some,
  suc, true, zero, ℕ, ℤ, ◌++◌, ◌∷◌,
}
use dysk.Pool.{enomem}

-- A pointer that may be an error code.
pub data Pointer : Type 0 where
  null : Pointer
  error_pointer : Pointer
  at : ℕ → Pointer

pub data Call : Type 0 where
  kthread_stop : ℕ → Call
  kmem_cache_free : Option ℕ → ℕ → Call
  kmem_cache_destroy : ℕ → Call
  device_destroy : Pointer → Call
  class_destroy : Pointer → Call
  unregister_chrdev : ℤ → Call
  unregister_blkdev : ℤ → Call

-- `struct dysk_worker`, as far as it is read here.
pub record Worker : Type 0 where
  pub tasks_slab : Option ℕ
  pub head : Option ℕ
  pub worker_thread : Pointer
  pub working : Bool

-- The global variables.
pub record Module : Type 0 where
  pub az_slab : Option ℕ
  pub dysk_major : ℤ
  pub endpoint_major : ℤ
  pub class : Pointer
  pub device : Pointer
  pub default_worker : Worker
  pub count : ℤ
  pub calls : List Call

pub record Kernel : Type 0 where
  pub az_slab : Option ℕ
  pub register_blkdev : ℤ
  pub register_chrdev : ℤ
  pub class_create : Pointer
  pub device_create : Pointer
  pub tasks_slab : Option ℕ
  pub head : Option ℕ
  pub kthread_run : Pointer

abbrev pub call : Call → Module → Module
call c m = record m { calls = m.calls ++ c ∷ [] }

abbrev pub is_positive : ℤ → Bool
is_positive (pos zero) = false
is_positive (pos (suc n)) = true
is_positive (negsuc n) = false

abbrev pub is_err : Pointer → Bool
is_err null = false
is_err error_pointer = true
is_err (at p) = false

abbrev pub is_null : Pointer → Bool
is_null null = true
is_null error_pointer = false
is_null (at p) = false

-- `if (dw->head) kmem_cache_free(...)` and `if (dw->tasks_slab) kmem_cache_destroy(...)`. The fields
-- keep their values.
unfoldable pub free_head : Option ℕ → Module → Module
free_head none m = m
free_head (some p) m = call (kmem_cache_free m.default_worker.tasks_slab p) m

unfoldable pub destroy_slab : Option ℕ → Module → Module
destroy_slab none m = m
destroy_slab (some s) m = call (kmem_cache_destroy s) m

abbrev pub free_worker : Module → Module
free_worker m = destroy_slab m.default_worker.tasks_slab (free_head m.default_worker.head m)

-- dysk_worker_teardown: `none` when kthread_stop is given an error code. A thread that is stopped
-- leaves its loop and clears `working`.
unfoldable pub dysk_worker_teardown : Module → Option Module
dysk_worker_teardown m = elim m.default_worker.worker_thread [
  | null ↦ some (free_worker m)
  | error_pointer ↦ none
  | at t ↦ some (
      free_worker (
        call (kthread_stop t)
          (record m { default_worker = record m.default_worker { working = false } })))
]

-- dysk_worker_init: the result and the module.
abbrev pub worker_fails : Module → Option (ℤ × Module)
worker_fails m = elim (dysk_worker_teardown m) [ none ↦ none | some m' ↦ some (enomem, m') ]

unfoldable pub dysk_worker_init : Kernel → Module → Option (ℤ × Module)
dysk_worker_init k m =
    let m₁ = record m { default_worker = record m.default_worker { tasks_slab = k.tasks_slab } } in
    if not (is_some k.tasks_slab)
    then worker_fails m₁
    else if not (is_some k.head)
    then worker_fails m₁
    else let m₂ : Module = record m₁ {
      default_worker = record {
        tasks_slab = k.tasks_slab;
        head = k.head;
        worker_thread = k.kthread_run;
        working = true;
      };
    } in
      if is_err k.kthread_run then worker_fails m₂ else some (pos 0, m₂)

unfoldable pub destroy_device : Module → Module
destroy_device m = if is_null m.device then m else call (device_destroy m.device) m

unfoldable pub destroy_class : Module → Module
destroy_class m = if is_null m.class then m else call (class_destroy m.class) m

unfoldable pub endpoint_stop : Module → Module
endpoint_stop m =
    let m' = destroy_class (destroy_device m) in call (unregister_chrdev m'.endpoint_major) m'

unfoldable pub endpoint_start : Kernel → Module → ℤ × Module
endpoint_start k m =
    let m₁ = record m { endpoint_major = k.register_chrdev } in
    let m₂ = record m₁ { class = k.class_create } in
    let m₃ = record m₂ { device = k.device_create } in
    if not (is_positive k.register_chrdev)
    then (neg 1, m₁)
    else if is_err k.class_create
    then (neg 1, endpoint_stop m₂)
    else if is_err k.device_create
    then (neg 1, endpoint_stop m₃)
    else (pos 0, m₃)

unfoldable pub az_init : Kernel → Module → ℤ × Module
az_init k m =
    let m' = record m { az_slab = k.az_slab } in
    if is_some k.az_slab then (pos 0, m') else (neg 1, m')

unfoldable pub az_teardown : Module → Module
az_teardown m = destroy_slab m.az_slab m

unfoldable pub unregister_major : Module → Module
unregister_major m =
    if eq_ℤ m.dysk_major (neg 1) then m else call (unregister_blkdev m.dysk_major) m

unfoldable pub unload : Module → Option Module
unload m = elim (dysk_worker_teardown m) [
  | none ↦ none
  | some m' ↦ some (az_teardown (unregister_major (endpoint_stop m')))
]

-- `unload(); return res;`
abbrev pub init_fails : ℤ → Module → Option (ℤ × Module)
init_fails res m = elim (unload m) [ none ↦ none | some m' ↦ some (res, m') ]

-- _init_module from its call of dysk_worker_init on.
unfoldable pub init_worker : Kernel → Module → Option (ℤ × Module)
init_worker k m = elim (dysk_worker_init k m) [
  | none ↦ none
  | some (success, m') ↦
      if eq_ℤ success (pos 0)
      then some (pos 0, record m' { count = neg 1 })
      else init_fails success m'
]

-- _init_module: the result and the module.
unfoldable pub init_module : Kernel → Module → Option (ℤ × Module)
init_module k m =
    let (az_ready, m₁) = az_init k m in
    let m₂ = record m₁ { dysk_major = k.register_blkdev } in
    let (started, m₃) = endpoint_start k m₂ in
    if eq_ℤ az_ready (neg 1)
    then init_fails (neg 1) m₁
    else if not (is_positive k.register_blkdev)
    then init_fails (neg 1) m₂
    else if not (eq_ℤ started (pos 0))
    then init_fails (neg 1) m₃
    else init_worker k m₃

-- The module before it is loaded: static storage.
abbrev pub new_module : Module
new_module = record {
  az_slab = none;
  dysk_major = neg 1;
  endpoint_major = pos 0;
  class = null;
  device = null;
  default_worker = record { tasks_slab = none; head = none; worker_thread = null; working = false };
  count = pos 0;
  calls = [];
}
