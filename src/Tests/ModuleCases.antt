-- ===== src/Tests/ModuleCases.antt =====
-- The block queue of a dysk, its slot, and loading of the module, module/dysk_bdd.c.
use dysk.Base.{
  Bytes, List, [], arith, codes, if◌then◌else◌, length, neg, none, pos, refl, some, true, ℕ, ◌++◌,
  ◌==◌, ◌∷◌, ◌≡◌, ◌≢◌,
}
use dysk.Def.{zeroed}
use dysk.Registry.{Dysk}
use dysk.Worker.{dysk_ok}
use dysk.Transfer.Send.{BlkRequest}
use dysk.Requests.Once.{Queue, Once, Runs-Once, starts, moves, requests, transfers}
use dysk.Transfer.World.{World, Step, sends, after_turn, run_send, new_reqstate, az_do_request}
use dysk.Transfer.Working.{sending_works}
use dysk.Tests.TransferCases.{no_attempt, quiet}
use dysk.Hash.{Shash, calc_hash, calc_hmac}
use dysk.Address.Dotted.{Octet}
use dysk.Xfer.{error_code, az_init_for_dysk}
use dysk.Xfer.Leaks.{az_init-leaks, enough, new_dysk}
use dysk.Tests.SlotCases.{unused}
use dysk.Pool.{enomem}
use dysk.LifeCycle.Unload.{init_module-bad_clean_up, all_there}
use dysk.Requests.{serve, io_request, erofs, Memory, Disk}
use dysk.Requests.Served.{Served, io_request-Served}
use dysk.Hook.{HookedDysk, BlockLayer, HookEnv, io_hook}
use dysk.Hook.Slot.{after_failures, io_hook-after_failures}
use dysk.LifeCycle.{
  error_pointer, unregister_blkdev, unregister_chrdev, class_destroy, at, device_destroy,
  kmem_cache_destroy, kmem_cache_free, kthread_stop, unload, new_module, init_module, Module,
}
use dysk.Pool.{enomem}
use dysk.LifeCycle.Unload.{unload-init_module}

-- A read-only dysk; request 2 is a write, and the first round has no memory.
abbrev read_only_dysk : Dysk
read_only_dysk = record { def = record zeroed { read_only = 1 }; status = dysk_ok }

abbrev second_writes : ℕ → BlkRequest
second_writes i = record { write = i == 2; sector = i; segments = [] }

abbrev rounds : List Memory
rounds =
    record { reqstate = none; task_alloc = true }
    ∷ record { reqstate = some 30; task_alloc = true }
    ∷ record { reqstate = some 31; task_alloc = true }
    ∷ []

abbrev quiet_disk : Disk
quiet_disk = record { world = quiet; refused = [] }

io_request-Served_example :
    (disk' : Disk) × Served read_only_dysk second_writes rounds (1 ∷ 2 ∷ []) quiet_disk disk'
io_request-Served_example =
    io_request-Served read_only_dysk second_writes rounds (1 ∷ 2 ∷ []) quiet_disk (omega arith)
      (λ id. omega arith)

-- Nothing is hooked yet.
abbrev pub empty_layer : BlockLayer
empty_layer = record { slots = unused; queues = []; gendisks = [] }

abbrev unhooked : HookedDysk
unhooked = record { def = zeroed; slot = 0; gd = none }

-- There is no memory for a queue.
abbrev no_queue : ℕ → HookEnv
no_queue i = record { rq = none; gd = some 41 }

io_hook-after_failures_example :
    let after = after_failures no_queue 252 unhooked 1025 empty_layer in
    (after.queues ≡ [])
    × (after.gendisks ≡ [])
    × (io_hook 252 (record { rq = some 40; gd = some 41 }) unhooked after
        ≡ ((neg 1, unhooked), after))
io_hook-after_failures_example =
    io_hook-after_failures no_queue 252 unhooked (λ i. refl) 1025 empty_layer
      (record { rq = some 40; gd = some 41 }) unhooked refl refl

unload-init_module_example :
    (m m' : Module) × (init_module (all_there 1 252 60 2 3 4 5 6) new_module ≡ some (pos 0, m))
    × (m.count ≡ neg 1)
    × (m.calls ≡ [])
    × (unload m ≡ some m')
    × (m'.calls
        ≡ kthread_stop 6
          ∷ kmem_cache_free (some 4) 5
          ∷ kmem_cache_destroy 4
          ∷ device_destroy (at 3)
          ∷ class_destroy (at 2)
          ∷ unregister_chrdev (pos 61)
          ∷ unregister_blkdev (pos 253)
          ∷ kmem_cache_destroy 1
          ∷ [])
unload-init_module_example = unload-init_module 1 252 60 2 3 4 5 6

init_module-bad_clean_up_example :
    ((m : Module) × (init_module (record (all_there 1 252 60 2 3 4 5 6) { head = none }) new_module
        ≡ some (enomem, m))
      × (m.calls
          ≡ kmem_cache_destroy 4
            ∷ kmem_cache_destroy 4
            ∷ device_destroy (at 3)
            ∷ class_destroy (at 2)
            ∷ unregister_chrdev (pos 61)
            ∷ unregister_blkdev (pos 253)
            ∷ kmem_cache_destroy 1
            ∷ []))
    × ((m : Module) × (init_module
            (record (all_there 1 252 60 2 3 4 5 6) { device_create = error_pointer })
            new_module
          ≡ some (neg 1, m))
        × (m.calls
            ≡ device_destroy error_pointer
              ∷ class_destroy (at 2)
              ∷ unregister_chrdev (pos 61)
              ∷ device_destroy error_pointer
              ∷ class_destroy (at 2)
              ∷ unregister_chrdev (pos 61)
              ∷ unregister_blkdev (pos 253)
              ∷ kmem_cache_destroy 1
              ∷ []))
    × (init_module
          (record (all_there 1 252 60 2 3 4 5 6) { kthread_run = error_pointer })
          new_module
        ≡ none)
init_module-bad_clean_up_example = init_module-bad_clean_up 1 252 60 2 3 4 5 6

abbrev ten : Octet
ten = record { d = b'1'; ds = codes "0" }

abbrev nought : Octet
nought = record { d = b'0'; ds = [] }

abbrev seven : Octet
seven = record { d = b'7'; ds = [] }

az_init-leaks_example :
    let (res, d) =
      az_init_for_dysk
        (record (enough zeroed [] 51 52 53 54 []) { kfifo = error_code 11 })
        (new_dysk zeroed []) in
    (res ≢ pos 0)
    × (d.live ≡ 52 ∷ [])
    × (d.xfer_state ≡ some (record { address = 51; pool = none }))
az_init-leaks_example = az_init-leaks zeroed [] 51 52 53 54 [] (some 53) 11 (omega arith)

-- The queue of two requests is served, and the send task of the first has a turn.
abbrev served_disk : Disk
served_disk = record { world = (az_do_request (some 30) true 1 quiet).0; refused = (2, erofs) ∷ [] }

two_served :
    io_request read_only_dysk second_writes rounds (1 ∷ 2 ∷ []) quiet_disk ≡ some served_disk
unfolding io_request serve az_do_request
two_served = refl

abbrev sent_world : World
sent_world = after_turn served_disk.world [] [] (
    run_send second_writes 30 (new_reqstate 1) (sending_works b'G' (codes "ET") 21 no_attempt)
      served_disk.world.az)

sends_one : Step second_writes served_disk.world sent_world
unfolding az_do_request
sends_one = sends [] [] 30 (new_reqstate 1) (sending_works b'G' (codes "ET") 21 no_attempt) refl

abbrev quiet_queue : Queue
quiet_queue = record { disk = quiet_disk; submitted = [] }

abbrev sent_queue : Queue
sent_queue = record {
  disk = record { world = sent_world; refused = (2, erofs) ∷ [] };
  submitted = 1 ∷ 2 ∷ [];
}

Runs-Once_example : Once sent_queue
Runs-Once_example =
    Runs-Once {blk = second_writes} {q = quiet_queue} {r = sent_queue} (λ id. omega arith)
      (λ id. omega arith)
      (moves (moves starts (requests read_only_dysk rounds (1 ∷ 2 ∷ []) served_disk two_served))
        (transfers sent_world sends_one refl))

-- A transform whose digest is the key in front of the text, and which refuses empty keys.
abbrev plain : Shash Bytes
plain = record {
  desc_size = λ key. 4;
  crypto_shash_setkey = λ key new. if length new == 0 then (neg 22, key) else (pos 0, new);
  crypto_shash_digest = λ key buf. ((pos 0, key ++ buf), 1 ∷ []);
}

hmac_runs :
    calc_hmac plain [] [] (codes "key") (codes "abc") ≡ ((pos 0, codes "keyabc"), codes "key")
unfolding calc_hmac calc_hash
hmac_runs = refl

hmac_without_key : calc_hmac plain (codes "old") [] [] (codes "abc") ≡ ((neg 22, []), codes "old")
unfolding calc_hmac calc_hash
hmac_without_key = refl
