-- ===== src/Worker/Thread.antt =====
-- work_thread_fn of module/dysk_worker.c: rounds over the task list until kthread_should_stop, with a
-- sleep behind each round that leaves no task. What happens between two rounds outside of the thread
-- is a value of `Between`. LifeCycle has `working`, which the thread resets at its end.
use dysk.Base.{
  All, Bool, List, Option, [], ap, arith, eq_ℤ, false, if◌then◌else◌, length, none, pos, refl, some,
  sym, true, ℕ, ◌%◌, ◌+◌, ◌∙◌, ◌∷◌, ◌≡◌,
}
use dysk.Worker.Invariant.{Inv, Extends, Laws}
use dysk.Worker.Pass.{round-Inv}
use dysk.Worker.{Task, Sys, Handlers, word, round}

-- How many jiffies the sleep takes, and what the rest of the module does to the worker's state.
pub record Between (R : Type 0) : Type 0 where
  pub ticks : ℕ
  pub others : Sys R → Sys R

-- `set_current_state(TASK_INTERRUPTIBLE); schedule_timeout(HZ / 1000);`
abbrev pub sleep : {R : Type 0} → ℕ → Sys R → Sys R
sleep ticks s = record s { jiffies = (s.jiffies + ticks) % word }

-- `if (0 == atomic_read(&dw->count_tasks))`
unfoldable pub yield_cpu : {R : Type 0} → ℕ → Sys R → Sys R
yield_cpu ticks s = if eq_ℤ s.count_tasks (pos 0) then sleep ticks s else s

-- The thread, one entry for each round until kthread_should_stop says true; `fuel` is for the tasks
-- that a round visits.
unfoldable pub work_thread_fn :
    ℕ → {R : Type 0} → Handlers R → ℕ → List (Between R) → Sys R → Option (Sys R)
work_thread_fn hz h fuel [] s = some s
work_thread_fn hz h fuel (b ∷ bs) s = elim (round hz h fuel s) [
  | none ↦ none
  | some t ↦ work_thread_fn hz h fuel bs (b.others (yield_cpu b.ticks t))
]

-- The rest of the module only queues tasks.
abbrev pub OnlyQueue : {R : Type 0} → Between R → Type 0
OnlyQueue {R} b = (s : Sys R) → Extends s (b.others s)

sleep-Inv : {R : Type 0} (ticks : ℕ) (s : Sys R) → Inv s → Inv (sleep ticks s)
sleep-Inv ticks s v = record { counted = v.counted; known = v.known; distinct = v.distinct }

-- The thread sleeps when its list is empty.
abbrev pub sleep_if_empty : {R : Type 0} → List Task → ℕ → Sys R → Sys R
sleep_if_empty [] ticks s = sleep ticks s
sleep_if_empty (w ∷ ws) ticks s = s

yield_cpu-empty :
    {R : Type 0} (ticks : ℕ) (s : Sys R)
    → Inv s
    → yield_cpu ticks s ≡ sleep_if_empty s.queue ticks s
unfolding yield_cpu
yield_cpu-empty ticks s v =
    ap (λ z. if eq_ℤ z (pos 0) then sleep ticks s else s) v.counted ∙ by_list s.queue
  where
    by_list :
        (q : List Task)
        → (if eq_ℤ (pos (length q)) (pos 0) then sleep ticks s else s) ≡ sleep_if_empty q ticks s
    by_list [] = refl
    by_list (w ∷ ws) = ground arith

-- The thread as it is meant: it sleeps when its list is empty, and not by the count.
unfoldable pub rounds_by_list :
    ℕ → {R : Type 0} → Handlers R → ℕ → List (Between R) → Sys R → Option (Sys R)
rounds_by_list hz h fuel [] s = some s
rounds_by_list hz h fuel (b ∷ bs) s = elim (round hz h fuel s) [
  | none ↦ none
  | some t ↦ rounds_by_list hz h fuel bs (b.others (sleep_if_empty t.queue b.ticks t))
]

yield_cpu-Inv : {R : Type 0} (ticks : ℕ) (s : Sys R) → Inv s → Inv (yield_cpu ticks s)
unfolding yield_cpu
yield_cpu-Inv ticks s v = by_test (eq_ℤ s.count_tasks (pos 0))
  where
    by_test : (b : Bool) → Inv (if b then sleep ticks s else s)
    by_test true = sleep-Inv ticks s v
    by_test false = v

module _ (hz : ℕ) {R : Type 0} (h : Handlers R) (laws : Laws h) where
  -- While the rest of the module only queues tasks between rounds, and the functions that tasks point
  -- to only queue tasks, the thread, over any rounds, follows no pointer to a task that was taken off
  -- the list, leaves a list in good order, and sleeps behind just those rounds that leave it empty.
  pub work_thread_fn-Inv :
      (fuel : ℕ) (bs : List (Between R)) (s : Sys R)
      → All OnlyQueue bs
      → Inv s
      → (t : Sys R) × (work_thread_fn hz h fuel bs s ≡ some t)
        × (rounds_by_list hz h fuel bs s ≡ some t)
        × Inv t
  unfolding work_thread_fn rounds_by_list
  work_thread_fn-Inv fuel [] s only v = (s, refl, refl, v)
  work_thread_fn-Inv fuel (b ∷ bs) s only v =
      let (t, e, u) = round-Inv hz h laws fuel s v in
      let same = yield_cpu-empty b.ticks t u in
      let (last, f, g, w) =
        work_thread_fn-Inv fuel bs (b.others (yield_cpu b.ticks t)) only.1
          ((only.0 (yield_cpu b.ticks t)).keeps (yield_cpu-Inv b.ticks t u)) in
      (
        last,
        rw (e, work_thread_fn) f,
        rw (e, rounds_by_list) (ap (λ r. rounds_by_list hz h fuel bs (b.others r)) (sym same) ∙ g),
        w,
      )
