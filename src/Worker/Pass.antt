-- ===== src/Worker/Pass.antt =====
-- execute and the walk of work_thread_fn (module/dysk_worker.c) over the task list, for any
-- functions behind the tasks that satisfy `Laws`.
use mathlib.Core.List.{append_assoc}
use dysk.Base.{
  Bool, Bool-cases, List, Option, ap, arith, decr, false, if◌then◌else◌, inl, inr, length, none,
  pos, refl, some, suc, true, zero, ℕ, ◌++◌, ◌<◌, ◌∙◌, ◌≡◌, ◌≢◌,
}
use dysk.Worker.Queue.{
  Has, find_task-Has, Has-append, Has-list_del, list_del-append, length-list_del, All-list_del,
  Distinct-list_del, next_id-Has, first_id-Has,
}
use dysk.Worker.Invariant.{Inv, Extends, Laws, Extends-refl, Extends-trans, set_throttle-Extends}
use dysk.Worker.{
  Status, dysk_ok, dysk_deleting, dysk_catastrophe_mode, TaskResult, done, retry_now, retry_later,
  throttle_dysk, catastrophe, CleanReason, clean_timeout, clean_dysk_del, clean_dysk_catastrophe,
  Task, Sys, Handlers, Exit, dequeues, runs_out, time_after, after_exec, exec_loop, dequeue_task,
  finish, unthrottle, execute_healthy, execute_as, execute, max_retry_now_count, list_del, next_id,
  first_id, walk, round,
}

-- What a call of execute on a listed task does to the list: the task stays, or it leaves; nothing
-- else leaves, and what is added is added at the end.
pub data Ran {R : Type 0} (w : Task) (s t : Sys R) : Type 0 where
  stays : Extends s t → Ran w s t
  leaves :
      (added : List Task) → t.queue ≡ list_del w.id s.queue ++ added → (Inv s → Inv t) → Ran w s t

pub Ran-Inv : {R : Type 0} {w : Task} {s t : Sys R} → Ran w s t → Inv s → Inv t
Ran-Inv (stays e) v = e.keeps v
Ran-Inv (leaves _ _ k) v = k v

-- Every other task is still listed.
Ran-Has :
    {R : Type 0} {w : Task} {s t : Sys R} (j : ℕ)
    → Ran w s t
    → Has j s.queue
    → j ≢ w.id
    → Has j t.queue
Ran-Has {s} j (stays e) m ne = rw e.queue_is (Has-append j s.queue e.added m)
Ran-Has {w} {s} j (leaves added e _) m ne =
    rw e (Has-append j (list_del w.id s.queue) added (Has-list_del w.id j s.queue ne m))

Extends-if : {R : Type 0} (b : Bool) {s t : Sys R} → Extends s t → Extends s (if b then t else s)
Extends-if true e = e
Extends-if false {s} e = Extends-refl s

Ran-if :
    {R : Type 0} (b : Bool) (w : Task) {s t u : Sys R}
    → Extends s t
    → Ran w s u
    → Ran w s (if b then t else u)
Ran-if true w e r = stays e
Ran-if false w e r = r

unthrottle-Extends : {R : Type 0} (d : ℕ) (s : Sys R) → Extends s (unthrottle d s)
unfolding unthrottle
unthrottle-Extends d s = Extends-if _ (set_throttle-Extends s d 0)

abbrev Listed : Option ℕ → List Task → Type 0
Listed none q = Unit
Listed (some i) q = Has i q

module _ (hz : ℕ) {R : Type 0} (h : Handlers R) (laws : Laws h) where
  unlisted-Inv :
      (w : Task) (s : Sys R)
      → Has w.id s.queue
      → Inv s
      → Inv (record s { queue = list_del w.id s.queue; count_tasks = decr s.count_tasks })
  unlisted-Inv w s m v = record {
    counted = ap decr (
        v.counted
        ∙ ap pos {y = suc (length (list_del w.id s.queue))}
            (omega (arith, length-list_del w.id s.queue m)));
    known = All-list_del (λ t. t.id < s.fresh) w.id s.queue v.known;
    distinct = Distinct-list_del w.id s.queue v.distinct;
  }

  dequeue_task-Ran :
      (w : Task) (why : CleanReason) {s t : Sys R}
      → Has w.id s.queue
      → Extends s t
      → Ran w s (dequeue_task hz h w why t)
  unfolding dequeue_task
  dequeue_task-Ran w why {s} {t} m e =
      let cleaned =
        laws.clean w why
          (record t { queue = list_del w.id t.queue; count_tasks = decr t.count_tasks }) in
      leaves (e.added ++ cleaned.added)
        (cleaned.queue_is
          ∙ ap (λ q. list_del w.id q ++ cleaned.added) e.queue_is
          ∙ ap (λ q. q ++ cleaned.added) (list_del-append w.id s.queue e.added m)
          ∙ append_assoc (list_del w.id s.queue) e.added cleaned.added)
        (λ v.
          cleaned.keeps
            (unlisted-Inv w t (rw e.queue_is (Has-append w.id s.queue e.added m)) (e.keeps v)))

  exec_loop-Extends : (n : ℕ) (w : Task) (s : Sys R) → Extends s (exec_loop hz h n w s).0
  unfolding exec_loop
  exec_loop-Extends zero w s = Extends-refl s
  exec_loop-Extends (suc n) w s =
      Extends-trans (laws.exec w s) (switch (h.exec w s) (exec_loop-Extends n w))
    where
      switch :
          (r : Sys R × TaskResult)
          → ((u : Sys R) → Extends u (exec_loop hz h n w u).0)
          → Extends r.0 (after_exec hz h (exec_loop hz h n w) w r).0
      switch (u, done) rec = unfold after_exec in Extends-refl u
      switch (u, retry_now) rec = unfold after_exec in rec u
      switch (u, retry_later) rec = unfold after_exec in rec u
      switch (u, throttle_dysk) rec =
          unfold after_exec in Extends-if _ (set_throttle-Extends u w.d _)
      switch (u, catastrophe) rec = unfold after_exec in laws.on_catastrophe w.d u

  finish-Ran :
      (w : Task) {s : Sys R} (r : Sys R × Exit)
      → Has w.id s.queue
      → Extends s r.0
      → Ran w s (finish hz h w r)
  unfolding finish
  finish-Ran w (t, dequeues why) m e = dequeue_task-Ran w why m e
  finish-Ran w (t, runs_out) m e = elim (Bool-cases (time_after t.jiffies w.expires_on)) [
    | inl late ↦ rw late (dequeue_task-Ran w clean_timeout m e)
    | inr early ↦ rw early (stays e)
  ]

  -- One call of execute on a listed task.
  pub execute-Ran : (w : Task) (s : Sys R) → Has w.id s.queue → Ran w s (execute hz h w s)
  unfolding execute
  execute-Ran w s m = by_status (s.dysks w.d).status
    where
      healthy : Ran w s (execute_healthy hz h w s)
      healthy =
          unfold execute_healthy in
          Ran-if _ w (unthrottle-Extends w.d s) (
            finish-Ran w (exec_loop hz h max_retry_now_count w (unthrottle w.d s)) m
              (Extends-trans (unthrottle-Extends w.d s) (exec_loop-Extends _ w (unthrottle w.d s))))

      by_status : (st : Status) → Ran w s (execute_as hz h st w s)
      by_status dysk_ok = unfold execute_as in healthy
      by_status dysk_deleting =
          unfold execute_as in dequeue_task-Ran w clean_dysk_del m (Extends-refl s)
      by_status dysk_catastrophe_mode =
          unfold execute_as in dequeue_task-Ran w clean_dysk_catastrophe m (Extends-refl s)

  -- The task that the walk goes on with is still listed after the body.
  still_Listed :
      (w : Task) {s t : Sys R} (at : Option ℕ)
      → Inv s
      → Ran w s t
      → next_id w.id s.queue ≡ at
      → Listed at t.queue
  still_Listed w none v r e = tt
  still_Listed w {s} (some j) v r e =
      let (m, ne) = next_id-Has w.id j s.queue v.distinct e in Ran-Has j r m ne

  -- From a listed task, or at the end of the list, the walk meets no task that is not listed.
  walk-Inv :
      (fuel : ℕ) (at : Option ℕ) (s : Sys R)
      → Inv s
      → Listed at s.queue
      → (t : Sys R) × (walk hz h fuel at s ≡ some t) × Inv t
  unfolding walk
  walk-Inv zero at s v m = (s, refl, v)
  walk-Inv (suc fuel) none s v m = (s, refl, v)
  walk-Inv (suc fuel) (some i) s v m =
      let (w, found, same) = find_task-Has i s.queue m in
      let ran = execute-Ran w s (rw same m) in
      let (t, e, u) =
        walk-Inv fuel (next_id i s.queue) (execute hz h w s) (Ran-Inv ran v)
          (still_Listed w (next_id i s.queue) v ran (ap (λ k. next_id k s.queue) same)) in
      (t, rw (found, walk) e, u)

  -- A round of the worker over a list in good order never follows a pointer to a task that was
  -- taken off the list, and leaves a list in good order: `count_tasks` is its length, and the
  -- addresses are distinct.
  pub round-Inv :
      (fuel : ℕ) (s : Sys R) → Inv s → (t : Sys R) × (round hz h fuel s ≡ some t) × Inv t
  unfolding round
  round-Inv fuel s v = walk-Inv fuel (first_id s.queue) s v (from_head (first_id s.queue) refl)
    where
      from_head : (at : Option ℕ) → first_id s.queue ≡ at → Listed at s.queue
      from_head none e = tt
      from_head (some j) e = first_id-Has j s.queue e
