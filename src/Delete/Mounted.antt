-- ===== src/Delete/Mounted.antt =====
-- A dysk from dysk_mount to __del_dysk_async (module/dysk_bdd.c), which runs as a task of the worker.
use mathlib.Core.Option.{some-injective}
use dysk.Base.{Bool, List, ap, some, sym, ℕ, ℤ, ◌<◌, ◌∙◌, ◌≡◌}
use dysk.Def.{DyskDef}
use dysk.Slots.{track_bits}
use dysk.Slots.Counts.{Counts, popcount}
use dysk.Hook.{BlockLayer}
use mathlib.Core.Path.{subst}
use dysk.Hook.Slot.{SameArray, Restores, with_bits}
use dysk.Mount.{asks, tell}
use dysk.Mount.{asks, mount, delete_now}
use dysk.Mount.Balance.{Apart, all_given, delete_now-mount}
use dysk.Worker.Retry.{IsReady}
use dysk.Worker.{clean_done, dequeue_task, Task, Sys, Handlers, execute}
use dysk.Delete.{Deletions, del_async, after_three, del_async_one_call}

module _ (hz : ℕ) (h : Handlers Deletions) (b o dd d a p s q : ℕ) (live : List ℕ)
    (apart : Apart b o dd d a p s q) (variables : List ℤ) (dysk_major rq gd : ℕ) (def : DyskDef)
    (copy_to_user_fails : Bool) (io : BlockLayer) (bits : List Bool) where
  open h use {exec}

  -- A dysk is mounted with memory for all that the mount allocates, where what is given back from
  -- behind other addresses differs from these, and with fewer than 512 slots in use and counted, and
  -- the memory behind the array of slots may be written. One call of execute on a new delete task of
  -- this dysk, of a dysk that is healthy and not throttled, takes the task off the list, and memory,
  -- the array of slots with its count, queues and gendisks are as before the mount. The mount returned
  -- -EACCES if its answer could not be copied to the user, and the length of its answer if it could.
  pub execute-mount :
      (w : Task) (t : Sys Deletions)
      → Counts io.slots
      → popcount io.slots.bits track_bits < track_bits
      → let ((result, mounted), held) =
          mount dysk_major
            (all_given b o dd d a p s q variables rq gd copy_to_user_fails)
            (asks def)
            (record { live = live; io = io }) in
        mounted ≡ some (t.rest.dysks (t.rest.states w.state).d)
        → SameArray bits held.io.slots
        → t.rest.held ≡ record held { io = with_bits held.io bits }
        → ((u : Sys Deletions) → exec w u ≡ del_async w u)
        → IsReady hz h w t
        → (t.rest.states w.state).counter ≡ 0
        → (result ≡ tell copy_to_user_fails)
          × (execute hz h w t ≡ dequeue_task hz h w clean_done (after_three w t))
          × ((after_three w t).rest.held.live ≡ live)
          × Restores io (after_three w t).rest.held.io
  execute-mount w t c room is_mounted same_array is_held runs ready fresh_counter =
      let (m, is_m, told, _, back, restores) =
        delete_now-mount b o dd d a p s q live apart variables dysk_major rq gd def
          copy_to_user_fails io bits c room same_array in
      let same = some-injective _ _ (sym is_mounted ∙ is_m) in
      let (dequeued, _, given) = del_async_one_call hz h w t runs ready fresh_counter in
      let end : (after_three w t).rest.held ≡ delete_now m _ =
        given ∙ (λ i. delete_now (same i) (is_held i)) in
      (
        told,
        dequeued,
        ap (λ k. k.live) end ∙ back,
        subst (λ k. Restores io k.io) (sym end) restores,
      )
