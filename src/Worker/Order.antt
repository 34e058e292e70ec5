-- ===== src/Worker/Order.antt =====
-- The order in which work_thread_fn (module/dysk_worker.c) visits the tasks: list_for_each_entry_safe
-- against a plain pass over the tasks that are listed when a round begins.
use mathlib.Core.List.{append_assoc, append-nil}
use mathlib.Core.Path.{subst}
use dysk.Base.{
  All, List, [], ap, arith, inl, inr, length, refl, some, sym, ℕ, ◌++◌, ◌∙◌, ◌∷◌, ◌≡◌, ◌≢◌,
}
use dysk.Worker.Queue.{Distinct, Has}
use dysk.Worker.Invariant.{Inv, Laws}
use dysk.Worker.Pass.{Ran, stays, leaves, Ran-Inv, execute-Ran}
use dysk.Worker.{Task, Sys, Handlers, execute, list_del, find_task, first_id, next_id, walk, round}

-- Every task of a list, once, in order.
abbrev pub execute_each : ℕ → {R : Type 0} → Handlers R → List Task → Sys R → Sys R
execute_each hz h [] s = s
execute_each hz h (w ∷ ws) s = execute_each hz h ws (execute hz h w s)

-- `q` has the tasks of `ws` in this order and nothing between them.
abbrev Within : List Task → List Task → Type 0
Within ws q = (before : List Task) × (behind : List Task) × (q ≡ before ++ (ws ++ behind))

-- A task among tasks with other addresses.
module _ (w : Task) (rest : List Task) where
  other :
      (t : Task) (before : List Task) → All (λ u. u.id ≢ t.id) (before ++ w ∷ rest) → w.id ≢ t.id
  other t [] a = a.0
  other t (u ∷ us) a = other t us a.1

  found_here :
      (before : List Task)
      → Distinct (before ++ w ∷ rest)
      → find_task w.id (before ++ w ∷ rest) ≡ some w
  found_here [] d = ground arith
  found_here (t ∷ ts) d = ground (arith, found_here ts d.1, other t ts d.0)

  deleted_here :
      (before : List Task)
      → Distinct (before ++ w ∷ rest)
      → list_del w.id (before ++ w ∷ rest) ≡ before ++ rest
  deleted_here [] d = ground arith
  deleted_here (t ∷ ts) d = ground (arith, deleted_here ts d.1, other t ts d.0)

  next_here :
      (before : List Task)
      → Distinct (before ++ w ∷ rest)
      → next_id w.id (before ++ w ∷ rest) ≡ first_id rest
  next_here [] d = ground arith
  next_here (t ∷ ts) d = ground (arith, next_here ts d.1, other t ts d.0)

  Has-here : (before : List Task) → Has w.id (before ++ w ∷ rest)
  Has-here [] = inl refl
  Has-here (t ∷ ts) = inr (Has-here ts)

step_over :
    (w : Task) (ws behind added before : List Task)
    → (before ++ w ∷ (ws ++ behind)) ++ added ≡ (before ++ w ∷ []) ++ (ws ++ (behind ++ added))
step_over w ws behind added [] = ap (λ q. w ∷ q) (append_assoc ws behind added)
step_over w ws behind added (t ∷ ts) = ap (λ q. t ∷ q) (step_over w ws behind added ts)

-- The tasks that are still to be visited stay where they are.
Ran-Within :
    {R : Type 0} (w : Task) (ws : List Task) {s t : Sys R}
    → Ran w s t
    → Distinct s.queue
    → Within (w ∷ ws) s.queue
    → Within ws t.queue
Ran-Within w ws (stays e) d (before, behind, at) = (
  before ++ w ∷ [],
  behind ++ e.added,
  e.queue_is ∙ ap (λ q. q ++ e.added) at ∙ step_over w ws behind e.added before,
)
Ran-Within w ws (leaves added e _) d (before, behind, at) = (
  before,
  behind ++ added,
  e
      ∙ ap (λ q. list_del w.id q ++ added) at
      ∙ ap (λ q. q ++ added) (deleted_here w (ws ++ behind) before (subst Distinct at d))
      ∙ append_assoc before (ws ++ behind) added
      ∙ ap (λ q. before ++ q) (append_assoc ws behind added),
)

module _ (hz : ℕ) {R : Type 0} (h : Handlers R) (laws : Laws h) where
  walk-each :
      (ws : List Task) (s : Sys R)
      → Inv s
      → Within ws s.queue
      → walk hz h (length ws) (first_id ws) s ≡ some (execute_each hz h ws s)
  unfolding walk
  walk-each [] s v m = refl
  walk-each (w ∷ ws) s v (before, behind, at) =
      let d : Distinct (before ++ w ∷ (ws ++ behind)) = subst Distinct at v.distinct in
      let ran =
        execute-Ran hz h laws w s (subst (Has w.id) (sym at) (Has-here w (ws ++ behind) before)) in
      let found = ap (find_task w.id) at ∙ found_here w (ws ++ behind) before d in
      let next = ap (next_id w.id) at ∙ next_here w (ws ++ behind) before d in
      rw (found, walk)
        (rw next (
          ahead ws (execute hz h w s)
          ∙ walk-each ws (execute hz h w s) (Ran-Inv ran v)
              (Ran-Within w ws ran v.distinct (before, behind, at))))
    where
      -- The next task, if one of `ws` is left, is the first of these.
      ahead :
          (us : List Task) (t : Sys R)
          → walk hz h (length us) (first_id (us ++ behind)) t
            ≡ walk hz h (length us) (first_id us) t
      ahead [] t = refl
      ahead (u ∷ us) t = refl

  -- The first visits of a round, as many as tasks are listed when it begins, are one call of execute
  -- for each of these tasks, in the order in which they were queued, if the functions behind the
  -- tasks do no more to the list than to queue tasks (`Laws`).
  pub round-execute_each :
      (s : Sys R) → Inv s → round hz h (length s.queue) s ≡ some (execute_each hz h s.queue s)
  unfolding round
  round-execute_each s v = walk-each s.queue s v ([], [], sym (append-nil s.queue))
