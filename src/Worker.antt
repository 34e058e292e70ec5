-- ===== src/Worker.antt =====
-- The worker of module/dysk_worker.c (types in module/dysk_bdd.h): queue_w_task, execute and one
-- round of work_thread_fn over the task list. Function pointers in tasks are the names of the
-- functions that the module queues; what these do is given by a value of `Handlers`. Times are
-- jiffies, an unsigned long, and `hz` is the kernel's HZ. `rest` is all other state.
pub mod Queue
pub mod Invariant
pub mod Retry
pub mod Pass
pub mod Order
pub mod Thread
use dysk.Base.{
  Bool, List, Option, [], decr, false, if◌then◌else◌, incr, leb, neg, none, not, pos, some, suc,
  true, zero, ℕ, ℤ, ◌%◌, ◌&&◌, ◌*◌, ◌++◌, ◌+◌, ◌-◌, ◌/◌, ◌==◌, ◌^◌, ◌∷◌,
}

pub data Status : Type 0 where
  dysk_ok dysk_deleting dysk_catastrophe_mode : Status

pub data TaskResult : Type 0 where
  done retry_now retry_later throttle_dysk catastrophe : TaskResult

pub data CleanReason : Type 0 where
  clean_done clean_timeout clean_dysk_del clean_dysk_catastrophe : CleanReason

pub data TaskMode : Type 0 where
  normal no_throttle : TaskMode

pub data ExecFn : Type 0 where
  send_az_req receive_az_response del_dysk_async : ExecFn

pub data CleanFn : Type 0 where
  clean_send_az_req clean_receive_az_response default_w_task_state_clean : CleanFn

-- `id` is the address of the task, `state` and `d` are addresses.
pub record Task : Type 0 where
  pub id : ℕ
  pub expires_on : ℕ
  pub mode : TaskMode
  pub exec_fn : ExecFn
  pub clean_fn : CleanFn
  pub state : ℕ
  pub d : ℕ

-- The fields of a dysk that the worker reads and writes.
pub record DyskState : Type 0 where
  pub status : Status
  pub throttle_until : ℕ

-- `fresh` is an address that no task has had.
pub record Sys (R : Type 0) : Type 0 where
  pub queue : List Task
  pub count_tasks : ℤ
  pub fresh : ℕ
  pub dysks : ℕ → DyskState
  pub jiffies : ℕ
  pub rest : R

pub record Handlers (R : Type 0) : Type 0 where
  pub exec : Task → Sys R → Sys R × TaskResult
  pub clean : Task → CleanReason → Sys R → Sys R
  pub on_catastrophe : ℕ → Sys R → Sys R

abbrev pub word : ℕ
word = 2 ^ 64

-- `time_after(a, b)`: `(long)(b - a) < 0`.
unfoldable pub time_after : ℕ → ℕ → Bool
time_after a b = leb (2 ^ 63) ((b + word - a) % word)

-- `d->throttle_until = v`
abbrev pub set_throttle : {R : Type 0} → Sys R → ℕ → ℕ → Sys R
set_throttle s d v = record s {
  dysks = λ e. if e == d then record (s.dysks e) { throttle_until = v } else s.dysks e;
}

abbrev pub no_memory : ℤ
no_memory = neg 12

abbrev pub list_del : ℕ → List Task → List Task
list_del i [] = []
list_del i (t ∷ ts) = if t.id == i then ts else t ∷ list_del i ts

abbrev pub is_no_throttle : TaskMode → Bool
is_no_throttle no_throttle = true
is_no_throttle normal = false

abbrev pub or_default : Option CleanFn → CleanFn
or_default none = default_w_task_state_clean
or_default (some f) = f

abbrev pub expiry : Option Task → ℕ → ℕ
expiry none timeout = timeout
expiry (some parent) timeout = parent.expires_on

module _ (hz : ℕ) {R : Type 0} where
  -- `mem` says whether kmem_cache_alloc gives a task.
  unfoldable pub queue_w_task :
      Bool → Option Task → ℕ → ExecFn → Option CleanFn → TaskMode → ℕ → Sys R → Sys R × ℤ
  queue_w_task mem parent d exec_fn clean_fn mode state s = if not mem then (s, no_memory) else (
    record s {
      queue =
          s.queue
          ++ record {
            id = s.fresh;
            expires_on = expiry parent ((s.jiffies + 300 * hz) % word);
            mode = mode;
            exec_fn = exec_fn;
            clean_fn = or_default clean_fn;
            state = state;
            d = d;
          }
            ∷ [];
      count_tasks = incr s.count_tasks;
      fresh = s.fresh + 1;
    },
    pos 0,
  )

-- How the loop over exec_fn is left: to `dequeue_task`, or past its last round.
pub data Exit : Type 0 where
  dequeues : CleanReason → Exit
  runs_out : Exit

abbrev pub max_retry_now_count : ℕ
max_retry_now_count = 3

-- `list_for_each_entry_safe`: the next task is looked up before the body runs.
abbrev pub find_task : ℕ → List Task → Option Task
find_task i [] = none
find_task i (t ∷ ts) = if t.id == i then some t else find_task i ts

abbrev pub first_id : List Task → Option ℕ
first_id [] = none
first_id (t ∷ ts) = some t.id

abbrev pub next_id : ℕ → List Task → Option ℕ
next_id i [] = none
next_id i (t ∷ ts) = if t.id == i then first_id ts else next_id i ts

-- A throttling that is over is taken back.
unfoldable pub unthrottle : {R : Type 0} → ℕ → Sys R → Sys R
unthrottle d s =
    let until = (s.dysks d).throttle_until in
    if not (until == 0) && time_after s.jiffies until then set_throttle s d 0 else s

module _ (hz : ℕ) {R : Type 0} (h : Handlers R) where
  open h use {exec, clean, on_catastrophe}

  -- The switch over a task's result. `break` in `case retry_later` leaves the switch, not the loop.
  unfoldable pub after_exec : (Sys R → Sys R × Exit) → Task → Sys R × TaskResult → Sys R × Exit
  after_exec again w (s, done) = (s, dequeues clean_done)
  after_exec again w (s, retry_now) = again s
  after_exec again w (s, retry_later) = again s
  after_exec again w (s, throttle_dysk) = (
    if (s.dysks w.d).throttle_until == 0
        then set_throttle s w.d ((s.jiffies + hz / 10) % word)
        else s,
    dequeues clean_done,
  )
  after_exec again w (s, catastrophe) = (on_catastrophe w.d s, dequeues clean_dysk_catastrophe)

  -- `while (execCount < max_retry_now_count)`, on the number of rounds left.
  unfoldable pub exec_loop : ℕ → Task → Sys R → Sys R × Exit
  exec_loop zero w s = (s, runs_out)
  exec_loop (suc n) w s = after_exec (exec_loop n w) w (exec w s)

  -- The label `dequeue_task`.
  unfoldable pub dequeue_task : Task → CleanReason → Sys R → Sys R
  dequeue_task w reason s =
      clean w reason (record s { queue = list_del w.id s.queue; count_tasks = decr s.count_tasks })

  -- After the loop: expiry, or the cleaning that the loop asked for.
  unfoldable pub finish : Task → Sys R × Exit → Sys R
  finish w (s, dequeues reason) = dequeue_task w reason s
  finish w (s, runs_out) =
      if time_after s.jiffies w.expires_on then dequeue_task w clean_timeout s else s

  unfoldable pub execute_healthy : Task → Sys R → Sys R
  execute_healthy w s =
      let s' = unthrottle w.d s in
      if not ((s'.dysks w.d).throttle_until == 0) && not (is_no_throttle w.mode)
      then s'
      else finish w (exec_loop max_retry_now_count w s')

  unfoldable pub execute_as : Status → Task → Sys R → Sys R
  execute_as dysk_ok w s = execute_healthy w s
  execute_as dysk_deleting w s = dequeue_task w clean_dysk_del s
  execute_as dysk_catastrophe_mode w s = dequeue_task w clean_dysk_catastrophe s

  unfoldable pub execute : Task → Sys R → Sys R
  execute w s = execute_as (s.dysks w.d).status w s

  -- One walk over the list from a task on, `none` at its end. A pointer to a task that is no
  -- longer listed would be a fault, the result `none`.
  unfoldable pub walk : ℕ → Option ℕ → Sys R → Option (Sys R)
  walk zero at s = some s
  walk (suc fuel) none s = some s
  walk (suc fuel) (some i) s = elim (find_task i s.queue) [
    | none ↦ none
    | some w ↦ walk fuel (next_id i s.queue) (execute w s)
  ]

  unfoldable pub round : ℕ → Sys R → Option (Sys R)
  round fuel s = walk fuel (first_id s.queue) s
