-- ===== src/Requests/Once.antt =====
-- The requests of the block layer from the queue of a dysk to their end: io_request of
-- module/dysk_bdd.c and the transfer tasks of module/az.c together.
use mathlib.Core.List.{append-nil}
use mathlib.Core.Path.{subst}
use mathlib.Core.Option.{some-injective, none-ne-some}
use dysk.Base.{
  Bool-cases, List, Option, Option-cases, [], ap, arith, inl, inr, is_some, refl, some, sym, ℕ, ℤ,
  ◌&&◌, ◌++◌, ◌+◌, ◌∙◌, ◌∷◌, ◌≡◌, ◌≤◌,
}
use dysk.Registry.{Dysk}
use dysk.Transfer.Send.{BlkRequest}
use dysk.Transfer.World.{World, Step}
use dysk.Transfer.Accounting.{
  ended, accepted, AtMostOnce, ended-append, accepted-append, Step-AtMostOnce,
}
use dysk.Requests.{Memory, Disk, refuse, io_request}
use dysk.Requests.Served.{
  given-memory, given-waits, Served, fate, accepts, refuses, serve-refused, serve-given,
  io_request-started, io_request-again, io_request-refuses, io_request-accepts, io_request-waits,
  given, given-AtMostOnce,
}

module _ (d : Dysk) (blk : ℕ → BlkRequest) where
  -- Whenever io_request ends, it has served its queue.
  io_request_ended-Served :
      (ms : List Memory) (reqs : List ℕ) (disk disk' : Disk)
      → AtMostOnce disk.world
      → io_request d blk ms reqs disk ≡ some disk'
      → Served d blk ms reqs disk disk'
  unfolding io_request
  io_request_ended-Served ms [] disk disk' inv e =
      subst (λ x. Served d blk ms [] disk x) (some-injective disk disk' e)
        (refl, sym (append-nil disk.world.accepted), sym (append-nil disk.refused), inv)
  io_request_ended-Served [] (req ∷ reqs) disk disk' inv e = absurd (none-ne-some disk' e)
  io_request_ended-Served (m ∷ ms) (req ∷ reqs) disk disk' inv e =
      elim (Option-cases (fate d blk req)) [
        | inr (err, refused) ↦
            let at_head =
              io_request-started d blk m ms req reqs disk _
                (serve-refused d blk m req disk err refused) in
            io_request-refuses d blk m ms req reqs disk disk' err refused
              (io_request_ended-Served ms reqs (refuse req err disk) disk' inv (sym at_head ∙ e))
        | inl given_over ↦ elim (Bool-cases (is_some m.reqstate && m.task_alloc)) [
          | inl there ↦
              let started = (given-memory d blk m.reqstate m.task_alloc req disk there).0 in
              let at_head = io_request-started d blk m ms req reqs disk (given m req disk).0 (
                serve-given d blk m req disk given_over
                ∙ ap (λ b. ((given m req disk).0, b)) started) in
              io_request-accepts d blk m ms req reqs disk disk' given_over there (
                io_request_ended-Served ms reqs (given m req disk).0 disk'
                  (given-AtMostOnce d blk m req disk inv) (sym at_head ∙ e))
          | inr missing ↦
              let waits = (given-waits d blk m.reqstate m.task_alloc req disk missing).0 in
              let at_head = io_request-again d blk m ms req reqs disk (given m req disk).0 (
                serve-given d blk m req disk given_over
                ∙ ap (λ b. ((given m req disk).0, b)) waits) in
              io_request-waits d blk m ms req reqs disk disk' given_over missing (
                io_request_ended-Served ms (req ∷ reqs) (given m req disk).0 disk'
                  (given-AtMostOnce d blk m req disk inv) (sym at_head ∙ e))
        ]
      ]

-- What is to be accepted and what is to be refused are together the queue.
accepts-refuses :
    (f : ℕ → Option ℤ) (id : ℕ) (reqs : List ℕ)
    → accepted id (accepts f reqs) + ended id (refuses f reqs) ≡ accepted id reqs
accepts-refuses f id [] = omega arith
accepts-refuses f id (req ∷ reqs) = elim (Option-cases (f req)) [
  | inl e ↦ rw (e, accepts, refuses) (omega (arith, accepts-refuses f id reqs))
  | inr (err, e) ↦ rw (e, accepts, refuses) (omega (arith, accepts-refuses f id reqs))
]

-- A dysk with the requests that its queue has had, oldest first.
pub record Queue : Type 0 where
  pub disk : Disk
  pub submitted : List ℕ

-- io_request runs on new requests until it ends, in whatever state the dysk is, or the worker and the
-- network move a transfer task on, which accepts nothing.
pub data Moves (blk : ℕ → BlkRequest) : Queue → Queue → Type 0 where
  requests :
      {q : Queue} (d : Dysk) (ms : List Memory) (reqs : List ℕ) (disk' : Disk)
      → io_request d blk ms reqs q.disk ≡ some disk'
      → Moves blk q (record { disk = disk'; submitted = q.submitted ++ reqs })
  transfers :
      {q : Queue} (w : World)
      → Step blk q.disk.world w
      → w.accepted ≡ q.disk.world.accepted
      → Moves blk q (record q { disk = record q.disk { world = w } })

pub data Runs (blk : ℕ → BlkRequest) (q : Queue) : Queue → Type 0 where
  starts : Runs blk q q
  moves : {r t : Queue} → Runs blk q r → Moves blk r t → Runs blk q t

-- Every request that was accepted or refused was submitted, as often as that.
abbrev pub Submitted : Queue → Type 0
Submitted q =
    (id : ℕ) → accepted id q.disk.world.accepted + ended id q.disk.refused ≤ accepted id q.submitted

-- No request is ended more often than it was submitted, by io_request and the transfer tasks
-- together.
abbrev pub Once : Queue → Type 0
Once q =
    (id : ℕ) → ended id q.disk.world.az.ended + ended id q.disk.refused ≤ accepted id q.submitted

Moves-Submitted :
    {blk : ℕ → BlkRequest} {q r : Queue}
    → AtMostOnce q.disk.world × Submitted q
    → Moves blk q r
    → AtMostOnce r.disk.world × Submitted r
Moves-Submitted {blk} {q} (inv, sub) (requests d ms reqs disk' e) =
    let (ends, acc, ref, inv') = io_request_ended-Served d blk ms reqs q.disk disk' inv e in
    let f = fate d blk in
    (
      inv',
      λ id. omega (
        arith,
        sub id,
        ap (accepted id) acc,
        ap (ended id) ref,
        accepted-append id q.disk.world.accepted (accepts f reqs),
        ended-append id q.disk.refused (refuses f reqs),
        accepts-refuses f id reqs,
        accepted-append id q.submitted reqs,
      ),
    )
Moves-Submitted {q} (inv, sub) (transfers w st e) =
    (Step-AtMostOnce st inv, λ id. omega (arith, sub id, ap (accepted id) e))

Runs-Submitted :
    {blk : ℕ → BlkRequest} {q r : Queue}
    → AtMostOnce q.disk.world × Submitted q
    → Runs blk q r
    → AtMostOnce r.disk.world × Submitted r
Runs-Submitted inv starts = inv
Runs-Submitted inv (moves rs m) = Moves-Submitted (Runs-Submitted inv rs) m

-- Over any run of io_request, in any state of the dysk, and of the transfer tasks, with any answers
-- of the kernel and the network, from a start where the requests that were ended or are carried by a
-- task were accepted as often and those accepted or refused were submitted as often: no request is
-- ended more often than it was submitted, whether io_request refuses it or the transfer tasks end it.
pub Runs-Once :
    {blk : ℕ → BlkRequest} {q r : Queue}
    → AtMostOnce q.disk.world
    → Submitted q
    → Runs blk q r
    → Once r
Runs-Once inv sub rs =
    let (inv', sub') = Runs-Submitted (inv, sub) rs in λ id. omega (arith, inv' id, sub' id)
