-- ===== src/Delete.antt =====
-- The asynchronous part of unmounting, __del_dysk_async of module/dysk_bdd.c, as a task of the
-- worker. `freed` lists the dysks that az_teardown_for_dysk, io_unhook and kfree were called on.
pub mod Mounted
use dysk.Base.{List, ap, arith, if◌then◌else◌, leb, refl, ℕ, ◌+◌, ◌<◌, ◌==◌, ◌∙◌, ◌∷◌, ◌≡◌}
use mathlib.Core.Path.{ap₂}
use dysk.Worker.Retry.{exec_loop-done, IsReady, Again, later, ready, exec_loop_retries}
use dysk.Mount.{Held, MountedDysk, delete_now}
use dysk.Worker.{
  TaskResult, done, retry_later, clean_done, Task, Sys, Handlers, dequeues, exec_loop, dequeue_task,
  finish, execute, max_retry_now_count,
}

-- `struct __dyskdelstate`
pub record DyskDelState : Type 0 where
  pub counter : ℕ
  pub d : ℕ

-- The delete states and the dysks by address, what the kernel has given, and the dysks that are gone.
pub record Deletions : Type 0 where
  pub states : ℕ → DyskDelState
  pub dysks : ℕ → MountedDysk
  pub held : Held
  pub freed : List ℕ

abbrev pub store : Deletions → ℕ → DyskDelState → Deletions
store r at v = record r { states = λ i. if i == at then v else r.states i }

unfoldable pub del_async : Task → Sys Deletions → Sys Deletions × TaskResult
del_async w s =
    let state = s.rest.states w.state in
    let counter = state.counter + 1 in
    let counted = store s.rest w.state (record state { counter = counter }) in
    if leb counter 2 then (record s { rest = counted }, retry_later) else (
      record s {
        rest = record counted {
          held = delete_now (counted.dysks state.d) counted.held;
          freed = state.d ∷ counted.freed;
        };
      },
      done,
    )

-- The state of a delete task after the three rounds of one call of execute.
abbrev pub after_three : Task → Sys Deletions → Sys Deletions
after_three w s = (del_async w (del_async w (del_async w s).0).0).0

-- What a round does while the counter is below 2, and at 2.
del_async-early :
    (w : Task) (s : Sys Deletions)
    → (s.rest.states w.state).counter < 2
    → let t = (del_async w s).0 in
      ((del_async w s).1 ≡ retry_later)
      × ((t.rest.states w.state).counter ≡ (s.rest.states w.state).counter + 1)
      × ((t.rest.states w.state).d ≡ (s.rest.states w.state).d)
      × (t.rest.freed ≡ s.rest.freed)
      × (t.rest.held ≡ s.rest.held)
      × (t.rest.dysks ≡ s.rest.dysks)
unfolding del_async
del_async-early w s h = ground arith

del_async-last :
    (w : Task) (s : Sys Deletions)
    → (s.rest.states w.state).counter ≡ 2
    → ((del_async w s).1 ≡ done)
      × ((del_async w s).0.rest.freed ≡ (s.rest.states w.state).d ∷ s.rest.freed)
      × ((del_async w s).0.rest.held
          ≡ delete_now (s.rest.dysks (s.rest.states w.state).d) s.rest.held)
unfolding del_async
del_async-last w s h = ground arith

module _ (hz : ℕ) (h : Handlers Deletions) where
  open h use {exec}

  -- One call of execute on a new delete task of a dysk that is healthy and not throttled runs the
  -- task three times: it takes the task off the list, and the dysk is freed in this first round of
  -- the worker, where the comment in the code expects two rounds before that, and the kernel gets back
  -- what the actual delete gives back.
  pub del_async_one_call :
      (w : Task) (s : Sys Deletions)
      → ((t : Sys Deletions) → exec w t ≡ del_async w t)
      → IsReady hz h w s
      → (s.rest.states w.state).counter ≡ 0
      → let state = s.rest.states w.state in
        (execute hz h w s ≡ dequeue_task hz h w clean_done (after_three w s))
        × ((after_three w s).rest.freed ≡ state.d ∷ s.rest.freed)
        × ((after_three w s).rest.held ≡ delete_now (s.rest.dysks state.d) s.rest.held)
  del_async_one_call w s e r fresh_counter =
      let s₁ = (del_async w s).0 in
      let s₂ = (del_async w s₁).0 in
      let a = del_async-early w s (omega arith) in
      let b = del_async-early w s₁ (omega (arith, a.1)) in
      let c = del_async-last w s₂ (omega (arith, a.1, b.1)) in
      (
        ready hz h w s r ∙ ap (finish hz h w) (rounds a.0 b.0 c.0) ∙ unfold finish in refl,
        c.1 ∙ ap₂ ◌∷◌ (b.2 ∙ a.2) (b.3 ∙ a.3),
        c.2 ∙ λ i. delete_now ((b.5 ∙ a.5) i ((b.2 ∙ a.2) i)) ((b.4 ∙ a.4) i),
      )
    where
      again : {x : TaskResult} → x ≡ retry_later → Again x
      again e = rw e later

      rounds :
          (del_async w s).1 ≡ retry_later
          → (del_async w (del_async w s).0).1 ≡ retry_later
          → (del_async w (del_async w (del_async w s).0).0).1 ≡ done
          → exec_loop hz h max_retry_now_count w s ≡ (after_three w s, dequeues clean_done)
      rounds a b c =
          exec_loop_retries hz h 2 w s (rw (e s) (again a))
          ∙ ap (λ r. exec_loop hz h 2 w r.0) (e s)
          ∙ exec_loop_retries hz h 1 w _ (rw (e (del_async w s).0) (again b))
          ∙ ap (λ r. exec_loop hz h 1 w r.0) (e (del_async w s).0)
          ∙ exec_loop-done hz h 0 w _ (ap (λ r. r.1) (e (del_async w (del_async w s).0).0) ∙ c)
          ∙ ap (λ r. (r.0, dequeues clean_done)) (e (del_async w (del_async w s).0).0)
