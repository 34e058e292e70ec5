-- ===== src/Worker/Retry.antt =====
-- The retry loop of execute (module/dysk_worker.c): how often a task runs in one call, and what
-- becomes of it.
use dysk.Base.{ap, if◌then◌else◌, refl, suc, ℕ, ◌∙◌, ◌≡◌}
use dysk.Worker.{
  dysk_ok, TaskResult, done, retry_now, retry_later, throttle_dysk, catastrophe, clean_done,
  clean_timeout, Task, Sys, Handlers, dequeues, time_after, after_exec, exec_loop, dequeue_task,
  finish, unthrottle, execute_healthy, execute_as, execute, max_retry_now_count,
}

-- The two results after which a task is tried again.
pub data Again : TaskResult → Type 0 where
  now : Again retry_now
  later : Again retry_later

module _ (hz : ℕ) {R : Type 0} (h : Handlers R) where
  open h use {exec, clean, on_catastrophe}

  pub exec_loop_retries :
      (n : ℕ) (w : Task) (s : Sys R)
      → Again (exec w s).1
      → exec_loop hz h (suc n) w s ≡ exec_loop hz h n w (exec w s).0
  unfolding exec_loop
  exec_loop_retries n w s a = step (exec w s) a
    where
      step :
          (r : Sys R × TaskResult)
          → Again r.1
          → after_exec hz h (exec_loop hz h n w) w r ≡ exec_loop hz h n w r.0
      step (s', retry_now) a = unfold after_exec in refl
      step (s', retry_later) a = unfold after_exec in refl
      step (s', done) a = elim a [ ]
      step (s', throttle_dysk) a = elim a [ ]
      step (s', catastrophe) a = elim a [ ]

  pub exec_loop-done :
      (n : ℕ) (w : Task) (s : Sys R)
      → (exec w s).1 ≡ done
      → exec_loop hz h (suc n) w s ≡ ((exec w s).0, dequeues clean_done)
  unfolding exec_loop
  exec_loop-done n w s e =
      ap (λ r. after_exec hz h (exec_loop hz h n w) w ((exec w s).0, r)) e
      ∙ unfold after_exec in refl

  -- A healthy dysk that is not throttled.
  pub record IsReady (w : Task) (s : Sys R) : Type 0 where
    pub healthy : (s.dysks w.d).status ≡ dysk_ok
    pub open_dysk : (s.dysks w.d).throttle_until ≡ 0

  unthrottle-open : (d : ℕ) (s : Sys R) → (s.dysks d).throttle_until ≡ 0 → unthrottle d s ≡ s
  unfolding unthrottle
  unthrottle-open d s e = rw e

  ready_healthy :
      (w : Task) (s : Sys R)
      → (s.dysks w.d).throttle_until ≡ 0
      → execute_healthy hz h w s ≡ finish hz h w (exec_loop hz h max_retry_now_count w s)
  unfolding execute_healthy
  ready_healthy w s e = rw (unthrottle-open w.d s e, e)

  pub ready :
      (w : Task) (s : Sys R)
      → IsReady w s
      → execute hz h w s ≡ finish hz h w (exec_loop hz h max_retry_now_count w s)
  unfolding execute
  ready w s r =
      ap (λ st. execute_as hz h st w s) r.healthy
      ∙ unfold execute_as in ready_healthy w s r.open_dysk

  -- If a task of a ready dysk asks three times to be tried again, now or later, then one call of
  -- execute runs it three times, and afterwards leaves it listed, or cleans it as timed out once its
  -- time is over.
  pub execute_three_times :
      (w : Task) (s : Sys R)
      → IsReady w s
      → Again (exec w s).1
      → Again (exec w (exec w s).0).1
      → Again (exec w (exec w (exec w s).0).0).1
      → let t = (exec w (exec w (exec w s).0).0).0 in
        execute hz h w s
        ≡ (if time_after t.jiffies w.expires_on then dequeue_task hz h w clean_timeout t else t)
  execute_three_times w s r a b c =
      ready w s r
      ∙ ap (finish hz h w)
          (exec_loop_retries 2 w s a ∙ exec_loop_retries 1 w _ b ∙ exec_loop_retries 0 w _ c)
      ∙ unfold finish exec_loop in refl
