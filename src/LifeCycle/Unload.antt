-- ===== src/LifeCycle/Unload.antt =====
-- What loading and unloading the module give back to the kernel, _init_module and unload of
-- module/dysk_bdd.c.
use dysk.Base.{List, [], neg, none, pos, refl, some, suc, ℕ, ◌++◌, ◌∷◌, ◌≡◌}
use dysk.Pool.{enomem}
use dysk.LifeCycle.{
  az_init, kmem_cache_free, kthread_stop, error_pointer, new_module, free_head, destroy_slab,
  az_teardown, unregister_major, destroy_class, destroy_device, endpoint_stop, dysk_worker_teardown,
  unload, dysk_worker_init, unregister_chrdev, init_worker, kmem_cache_destroy, class_destroy,
  endpoint_start, unregister_blkdev, device_destroy, at, init_module, Call, Pointer, Kernel, Module,
}

module _ (a b c cl dv s h t : ℕ) where
  -- Everything that the kernel is asked for is there.
  abbrev pub all_there : Kernel
  all_there = record {
    az_slab = some a;
    register_blkdev = pos (suc b);
    register_chrdev = pos (suc c);
    class_create = at cl;
    device_create = at dv;
    tasks_slab = some s;
    head = some h;
    kthread_run = at t;
  }

  -- What endpoint_stop gives back when `device` is `device`, and what unload does behind it.
  abbrev pub endpoint_calls : Pointer → List Call
  endpoint_calls device =
      device_destroy device ∷ class_destroy (at cl) ∷ unregister_chrdev (pos (suc c)) ∷ []

  abbrev pub last_calls : List Call
  last_calls = unregister_blkdev (pos (suc b)) ∷ kmem_cache_destroy a ∷ []

  -- When the kernel gives all that _init_module asks for, it returns 0 with the count of dysks at -1
  -- and gives nothing back; unload then stops the thread and gives back each of the other things
  -- once.
  pub unload-init_module :
      (m m' : Module) × (init_module all_there new_module ≡ some (pos 0, m))
      × (m.count ≡ neg 1)
      × (m.calls ≡ [])
      × (unload m ≡ some m')
      × (m'.calls
          ≡ kthread_stop t
            ∷ kmem_cache_free (some s) h
            ∷ kmem_cache_destroy s
            ∷ (endpoint_calls (at dv) ++ last_calls))
  unfolding init_module az_init endpoint_start init_worker dysk_worker_init unload
      dysk_worker_teardown endpoint_stop destroy_device destroy_class unregister_major az_teardown
      destroy_slab free_head
  unload-init_module = (_, _, refl, refl, refl, refl, refl)

  -- When the head of the task list cannot be allocated, _init_module returns -ENOMEM, and the slab of
  -- the tasks was destroyed twice. When the device cannot be created, it returns -1, and the class was
  -- destroyed and the major number unregistered twice. When the worker's thread cannot be created, it
  -- does not return: kthread_stop is given the error code.
  pub init_module-bad_clean_up :
      ((m : Module) × (init_module (record all_there { head = none }) new_module ≡ some (enomem, m))
        × (m.calls
            ≡ kmem_cache_destroy s ∷ kmem_cache_destroy s ∷ (endpoint_calls (at dv) ++ last_calls)))
      × ((m : Module) × (init_module (record all_there { device_create = error_pointer }) new_module
            ≡ some (neg 1, m))
          × (m.calls
              ≡ endpoint_calls error_pointer ++ (endpoint_calls error_pointer ++ last_calls)))
      × (init_module (record all_there { kthread_run = error_pointer }) new_module ≡ none)
  unfolding init_module az_init endpoint_start init_worker dysk_worker_init unload
      dysk_worker_teardown endpoint_stop destroy_device destroy_class unregister_major az_teardown
      destroy_slab free_head
  init_module-bad_clean_up = ((_, refl, refl), (_, refl, refl), refl)
