-- ===== src/Tests/MountCases.antt =====
-- Mounts of module/dysk_bdd.c with concrete addresses.
use dysk.Base.{Bool, List, [], arith, false, get_or-set_ne, refl, set, some, true, ◌≡◌}
use dysk.Def.{zeroed}
use dysk.Hook.Slot.{Restores, with_bits}
use dysk.Mount.{asks, tell, hook_up, mount_allocated, Held, MountedDysk, mount}
use dysk.Mount.Balance.{Apart, all_given}
use dysk.Slots.{first_minor}
use dysk.Hook.{gendisk_of}
use dysk.Xfer.{port_80}
use dysk.Address.{inet_addr}
use dysk.Worker.{Sys, clean_done, dequeue_task, execute}
use dysk.Delete.{Deletions, after_three}
use dysk.Delete.Mounted.{execute-mount}
use dysk.Tests.WorkerCases.{del_task, unmounting, deleting}
use dysk.Tests.ModuleCases.{empty_layer}
use dysk.Tests.SlotCases.{unused-Counts}

-- Eight addresses for what a mount allocates.
abbrev addresses : Apart 61 62 63 64 65 66 67 68
addresses = record {
  buffer = (
    omega arith,
    (omega arith, (omega arith, (omega arith, (omega arith, (omega arith, (omega arith, tt)))))),
  );
  out =
      (omega arith, (omega arith, (omega arith, (omega arith, (omega arith, (omega arith, tt))))));
  def = omega arith;
  server = omega arith;
}

abbrev nothing_held : Held
nothing_held = record { live = []; io = empty_layer }

-- What a mount with all that it asks for makes.
abbrev pub mounted_dysk : MountedDysk
mounted_dysk = record {
  address = 64;
  def_address = 63;
  dysk = record {
    hooked = record {
      def = record zeroed { major = 252; minor = first_minor 0 };
      slot = 0;
      gd = some (gendisk_of 252 zeroed 0 40 41);
    };
    xfer_state = some (record {
      address = 65;
      pool = some (record {
        address = 66;
        server =
            some (record { address = 67; sin_addr = inet_addr [] zeroed.ip; sin_port = port_80 });
        queue = some 68;
      });
    });
  };
}

abbrev pub held_by_mount : Held
held_by_mount =
    (mount 252 (all_given 61 62 63 64 65 66 67 68 [] 40 41 true) (asks zeroed) nothing_held).1

is_mounted :
    (mount 252 (all_given 61 62 63 64 65 66 67 68 [] 40 41 true) (asks zeroed) nothing_held).0.1
    ≡ some mounted_dysk
unfolding mount mount_allocated hook_up dysk.Xfer.az_init_for_dysk dysk.Hook.io_hook
    dysk.Hook.hook_slot dysk.Slots.find_set_dysk_slots dysk.Xfer.init_pool
    dysk.Xfer.connection_pool_init dysk.Slots.find_first_zero_bit
is_mounted = refl

-- Meanwhile the dysk was added to the list, behind the array of slots.
abbrev listed_bits : List Bool
listed_bits = set held_by_mount.io.slots.bits 700 true

abbrev mounted_deletions : Deletions
mounted_deletions = record {
  states = λ _. record { counter = 0; d = 7 };
  dysks = λ _. mounted_dysk;
  held = record held_by_mount { io = with_bits held_by_mount.io listed_bits };
  freed = [];
}

abbrev deleting_mounted : Sys Deletions
deleting_mounted = record unmounting { rest = mounted_deletions }

execute-mount_example :
    ((mount 252 (all_given 61 62 63 64 65 66 67 68 [] 40 41 true) (asks zeroed) nothing_held).0.0
      ≡ tell true)
    × (execute 250 deleting del_task deleting_mounted
        ≡ dequeue_task 250 deleting del_task clean_done (after_three del_task deleting_mounted))
    × ((after_three del_task deleting_mounted).rest.held.live ≡ [])
    × Restores empty_layer (after_three del_task deleting_mounted).rest.held.io
execute-mount_example =
    execute-mount 250 deleting 61 62 63 64 65 66 67 68 [] addresses [] 252 40 41 zeroed true
      empty_layer listed_bits del_task deleting_mounted unused-Counts (omega arith) is_mounted
      (λ i h. get_or-set_ne held_by_mount.io.slots.bits 700 i true false (omega arith)) refl
      (λ u. refl) (record { healthy = refl; open_dysk = refl }) refl
