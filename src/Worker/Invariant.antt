-- ===== src/Worker/Invariant.antt =====
-- The invariant of the worker's state (module/dysk_worker.c): `count_tasks` against the list, and
-- the addresses of tasks. What the functions that tasks point to must keep is `Laws`.
use mathlib.Core.List.{append_assoc, append-nil}
use dysk.Base.{
  All, Bool, List, Option, [], ap, arith, false, if◌then◌else◌, incr, length, length-append, pos,
  refl, sym, true, ℕ, ◌%◌, ◌*◌, ◌++◌, ◌+◌, ◌<◌, ◌∙◌, ◌∷◌, ◌≡◌, ◌≢◌,
}
use dysk.Worker.Queue.{Distinct}
use dysk.Worker.{
  no_memory, CleanReason, TaskMode, ExecFn, CleanFn, Task, Sys, Handlers, set_throttle,
  queue_w_task, word, no_memory, expiry, or_default,
}

pub record Inv {R : Type 0} (s : Sys R) : Type 0 where
  pub counted : s.count_tasks ≡ pos (length s.queue)
  pub known : All (λ t. t.id < s.fresh) s.queue
  pub distinct : Distinct s.queue

-- `t` has the tasks of `s`, and perhaps more behind them.
pub record Extends {R : Type 0} (s t : Sys R) : Type 0 where
  pub added : List Task
  pub queue_is : t.queue ≡ s.queue ++ added
  pub keeps : Inv s → Inv t

-- What the functions behind the pointers do to the worker: they queue tasks, and no more.
pub record Laws {R : Type 0} (h : Handlers R) : Type 0 where
  pub exec : (w : Task) (s : Sys R) → Extends s (h.exec w s).0
  pub clean : (w : Task) (why : CleanReason) (s : Sys R) → Extends s (h.clean w why s)
  pub on_catastrophe : (d : ℕ) (s : Sys R) → Extends s (h.on_catastrophe d s)

pub Extends-refl : {R : Type 0} (s : Sys R) → Extends s s
Extends-refl s = record { added = []; queue_is = sym (append-nil s.queue); keeps = λ v. v }

pub Extends-trans : {R : Type 0} {s t u : Sys R} → Extends s t → Extends t u → Extends s u
Extends-trans {s} a b = record {
  added = a.added ++ b.added;
  queue_is = b.queue_is ∙ ap (λ q. q ++ b.added) a.queue_is ∙ append_assoc s.queue a.added b.added;
  keeps = λ v. b.keeps (a.keeps v);
}

pub set_throttle-Extends : {R : Type 0} (s : Sys R) (d v : ℕ) → Extends s (set_throttle s d v)
set_throttle-Extends s d v = record {
  added = [];
  queue_is = sym (append-nil s.queue);
  keeps = λ v. record { counted = v.counted; known = v.known; distinct = v.distinct };
}

Distinct-snoc :
    (q : List Task) (t : Task) → Distinct q → All (λ u. u.id < t.id) q → Distinct (q ++ t ∷ [])
Distinct-snoc [] t d h = (tt, tt)
Distinct-snoc (u ∷ us) t d h = (ne us d.0, Distinct-snoc us t d.1 h.1)
  where
    ne : (vs : List Task) → All (λ v. v.id ≢ u.id) vs → All (λ v. v.id ≢ u.id) (vs ++ t ∷ [])
    ne [] a = (omega (arith, h.0), tt)
    ne (v ∷ vs) a = (a.0, ne vs a.1)

known-snoc :
    (q : List Task) (t : Task) → All (λ u. u.id < t.id) q → All (λ u. u.id < t.id + 1) (q ++ t ∷ [])
known-snoc [] t h = (omega arith, tt)
known-snoc (u ∷ us) t h = (omega (arith, h.0), known-snoc us t h.1)

-- queue_w_task only adds a task at the end, and keeps the invariant.
pub queue_w_task-Extends :
    (hz : ℕ) {R : Type 0} (mem : Bool) (parent : Option Task) (d : ℕ) (f : ExecFn)
    (c : Option CleanFn) (mode : TaskMode) (state : ℕ) (s : Sys R)
    → Extends s (queue_w_task hz mem parent d f c mode state s).0
unfolding queue_w_task
queue_w_task-Extends hz false parent d f c mode state s = Extends-refl s
queue_w_task-Extends hz true parent d f c mode state s = record {
  added = _;
  queue_is = refl;
  keeps = λ v. record {
    counted = ap incr v.counted ∙ ap pos (omega (arith, length-append s.queue (fresh_task ∷ [])));
    known = known-snoc s.queue fresh_task v.known;
    distinct = Distinct-snoc s.queue fresh_task v.distinct v.known;
  };
}
  where
    fresh_task : Task
    fresh_task = record {
      id = s.fresh;
      expires_on = expiry parent ((s.jiffies + 300 * hz) % word);
      mode = mode;
      exec_fn = f;
      clean_fn = or_default c;
      state = state;
      d = d;
    }

-- queue_w_task keeps `count_tasks` and the addresses in order. With memory it returns 0 and adds one
-- task, behind all others, which expires with its parent or else 300 * HZ jiffies later; without
-- memory it returns -ENOMEM and adds none.
queue_w_task-Inv :
    (hz : ℕ) {R : Type 0} (mem : Bool) (parent : Option Task) (d : ℕ) (f : ExecFn)
    (c : Option CleanFn) (mode : TaskMode) (state : ℕ) (s : Sys R)
    → Inv s
    → let (t, result) = queue_w_task hz mem parent d f c mode state s in
      Inv t
      × (result ≡ (if mem then pos 0 else no_memory))
      × ((added : List Task) × (t.queue ≡ s.queue ++ added)
          × (length added ≡ (if mem then 1 else 0))
          × All (λ w. w.expires_on ≡ expiry parent ((s.jiffies + 300 * hz) % word)) added)
unfolding queue_w_task
queue_w_task-Inv hz true parent d f c mode state s v =
    let e = queue_w_task-Extends hz true parent d f c mode state s in
    (e.keeps v, refl, (_, refl, refl, (refl, tt)))
queue_w_task-Inv hz false parent d f c mode state s v =
    (v, refl, ([], sym (append-nil s.queue), refl, tt))
