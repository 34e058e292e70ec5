-- ===== src/Tests/WorkerCases.antt =====
-- The worker of module/dysk_worker.c with concrete tasks and handlers.
use dysk.Base.{[], arith, if◌then◌else◌, none, pos, refl, some, true, ◌∷◌, ◌≡◌}
use dysk.Delete.{Deletions, del_async, after_three, del_async_one_call}
use dysk.Mount.{delete_now, blank_dysk, MountedDysk}
use dysk.Def.{zeroed}
use dysk.Tests.ModuleCases.{empty_layer}
use dysk.Worker.Invariant.{queue_w_task-Extends, Inv, Extends-refl, Laws}
use dysk.Worker.Order.{round-execute_each}
use dysk.Worker.Thread.{Between, work_thread_fn, rounds_by_list, work_thread_fn-Inv}
use dysk.Worker.Retry.{later, execute_three_times}
use dysk.Worker.{
  next_id, find_task, after_exec, exec_loop, done, queue_w_task, dysk_ok, retry_later, clean_done,
  clean_timeout, no_throttle, del_dysk_async, default_w_task_state_clean, Task, Sys, Handlers,
  time_after, dequeue_task, execute, round,
}

abbrev pub del_task : Task
del_task = record {
  id = 0;
  expires_on = 900;
  mode = no_throttle;
  exec_fn = del_dysk_async;
  clean_fn = default_w_task_state_clean;
  state = 0;
  d = 0;
}

abbrev no_transfer : MountedDysk
no_transfer = record { address = 64; def_address = 63; dysk = blank_dysk zeroed }

abbrev deletions : Deletions
deletions = record {
  states = λ _. record { counter = 0; d = 7 };
  dysks = λ _. no_transfer;
  held = record { live = 63 ∷ 64 ∷ []; io = empty_layer };
  freed = [];
}

abbrev pub unmounting : Sys Deletions
unmounting = record {
  queue = del_task ∷ [];
  count_tasks = pos 1;
  fresh = 1;
  dysks = λ _. record { status = dysk_ok; throttle_until = 0 };
  jiffies = 100;
  rest = deletions;
}

abbrev pub deleting : Handlers Deletions
deleting = record { exec = del_async; clean = λ w why s. s; on_catastrophe = λ d s. s }

del_async_one_call_example :
    (execute 250 deleting del_task unmounting
      ≡ dequeue_task 250 deleting del_task clean_done (after_three del_task unmounting))
    × ((after_three del_task unmounting).rest.freed ≡ 7 ∷ [])
    × ((after_three del_task unmounting).rest.held ≡ delete_now no_transfer deletions.held)
del_async_one_call_example =
    del_async_one_call 250 deleting del_task unmounting (λ t. refl)
      (record { healthy = refl; open_dysk = refl }) refl

abbrev waiting : Handlers Deletions
waiting = record { exec = λ w s. (s, retry_later); clean = λ w why s. s; on_catastrophe = λ d s. s }

waiting-Laws : Laws waiting
waiting-Laws = record {
  exec = λ w s. Extends-refl s;
  clean = λ w why s. Extends-refl s;
  on_catastrophe = λ d s. Extends-refl s;
}

execute_three_times_example : execute 250 waiting del_task unmounting ≡ (
    if time_after 100 900
    then dequeue_task 250 waiting del_task clean_timeout unmounting
    else unmounting)
execute_three_times_example =
    execute_three_times 250 waiting del_task unmounting
      (record { healthy = refl; open_dysk = refl }) later later later

unmounting-Inv : Inv unmounting
unmounting-Inv = record { counted = refl; known = (omega arith, tt); distinct = (tt, tt) }

abbrev two_waiting : Sys Deletions
two_waiting = record unmounting {
  queue = del_task ∷ record del_task { id = 1 } ∷ [];
  count_tasks = pos 2;
  fresh = 2;
}

two_waiting-Inv : Inv two_waiting
two_waiting-Inv = record {
  counted = refl;
  known = (omega arith, (omega arith, tt));
  distinct = ((omega arith, tt), (tt, tt));
}

-- Each task queues another one and is done, so it leaves the list.
abbrev queueing : Handlers Deletions
queueing = record {
  exec = λ w s. ((queue_w_task 250 true none 0 del_dysk_async none no_throttle 9 s).0, done);
  clean = λ w why s. s;
  on_catastrophe = λ d s. s;
}

queueing-Laws : Laws queueing
queueing-Laws = record {
  exec = λ w s. queue_w_task-Extends 250 true none 0 del_dysk_async none no_throttle 9 s;
  clean = λ w why s. Extends-refl s;
  on_catastrophe = λ d s. Extends-refl s;
}

-- After the first of the two calls its task has left the list, and the queued one is there.
one_left :
    (find_task 0 (execute 250 queueing del_task two_waiting).queue ≡ none)
    × (next_id 1 (execute 250 queueing del_task two_waiting).queue ≡ some 2)
unfolding execute exec_loop after_exec queue_w_task dysk.Worker.execute_as
    dysk.Worker.execute_healthy dysk.Worker.unthrottle dysk.Worker.finish dequeue_task
one_left = (refl, refl)

round-execute_each_example :
    round 250 queueing 2 two_waiting
    ≡ some (
        execute 250 queueing
          (record del_task { id = 1 })
          (execute 250 queueing del_task two_waiting))
round-execute_each_example =
    round-execute_each 250 queueing queueing-Laws two_waiting two_waiting-Inv

-- A task is queued behind the first round, and nothing behind the second.
abbrev queues_one : Between Deletions
queues_one = record {
  ticks = 0;
  others = λ s. (queue_w_task 250 true none 0 del_dysk_async none no_throttle 9 s).0;
}

abbrev queues_none : Between Deletions
queues_none = record { ticks = 0; others = λ s. s }

work_thread_fn-Inv_example :
    (t : Sys Deletions) × (work_thread_fn 250 waiting 5 (queues_one ∷ queues_none ∷ []) unmounting
      ≡ some t)
    × (rounds_by_list 250 waiting 5 (queues_one ∷ queues_none ∷ []) unmounting ≡ some t)
    × Inv t
work_thread_fn-Inv_example =
    work_thread_fn-Inv 250 waiting waiting-Laws 5 (queues_one ∷ queues_none ∷ []) unmounting
      (queue_w_task-Extends 250 true none 0 del_dysk_async none no_throttle 9, (Extends-refl, tt))
      unmounting-Inv
