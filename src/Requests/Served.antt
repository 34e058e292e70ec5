-- ===== src/Requests/Served.antt =====
-- What io_request of module/dysk_bdd.c does with the requests of a queue, together with the transfer
-- tasks of module/az.c that it starts.
use mathlib.Core.List.{append-nil, append_assoc}
use dysk.Base.{
  Bool, Bool-cases, List, Option, Option-cases, [], ap, arith, eq_ℤ, false, if◌then◌else◌, inl, inr,
  is_some, length, none, not, pos, refl, some, sym, true, ℕ, ℤ, ◌&&◌, ◌++◌, ◌+◌, ◌==◌, ◌∙◌, ◌∷◌,
  ◌≡◌, ◌≤◌,
}
use dysk.Registry.{Dysk}
use dysk.Transfer.Send.{BlkRequest}
use dysk.Transfer.World.{az_do_request}
use dysk.Transfer.Accounting.{AtMostOnce, az_do_request-AtMostOnce}
use dysk.Requests.{Memory, Disk, enodev, erofs, is_ok, refuse, serve, io_request}

-- How a request of a dysk is to end: with an error at once, or as the storage service answers.
abbrev pub fate : Dysk → (ℕ → BlkRequest) → ℕ → Option ℤ
fate d blk req =
    if not (is_ok d.status)
    then some enodev
    else if (blk req).write && d.def.read_only == 1
    then some erofs
    else none

-- The requests that are to be accepted, and those to be refused, in order.
abbrev pub accepts : (ℕ → Option ℤ) → List ℕ → List ℕ
accepts f [] = []
accepts f (r ∷ rs) = elim (f r) [ none ↦ r ∷ accepts f rs | some e ↦ accepts f rs ]

abbrev pub refuses : (ℕ → Option ℤ) → List ℕ → List (ℕ × ℤ)
refuses f [] = []
refuses f (r ∷ rs) = elim (f r) [ none ↦ refuses f rs | some e ↦ (r, e) ∷ refuses f rs ]

-- The rounds in which there is memory for a request and its task.
abbrev pub memories : List Memory → ℕ
memories [] = 0
memories (m ∷ ms) = (if is_some m.reqstate && m.task_alloc then 1 else 0) + memories ms

memories-le : (m : Memory) (ms : List Memory) → memories (m ∷ ms) ≤ memories ms + 1
memories-le m ms = ground arith

-- What one call of io_request comes to.
abbrev pub Served : Dysk → (ℕ → BlkRequest) → List Memory → List ℕ → Disk → Disk → Type 0
Served d blk ms reqs disk disk' =
    (io_request d blk ms reqs disk ≡ some disk')
    × (disk'.world.accepted ≡ disk.world.accepted ++ accepts (fate d blk) reqs)
    × (disk'.refused ≡ disk.refused ++ refuses (fate d blk) reqs)
    × AtMostOnce disk'.world

abbrev pub given : Memory → ℕ → Disk → Disk × Bool
given m req disk =
    let (w, success) = az_do_request m.reqstate m.task_alloc req disk.world in
    (record disk { world = w }, eq_ℤ success (pos 0))

module _ (d : Dysk) (blk : ℕ → BlkRequest) where
  pub serve-refused :
      (m : Memory) (req : ℕ) (disk : Disk) (e : ℤ)
      → fate d blk req ≡ some e
      → serve d blk m req disk ≡ (refuse req e disk, true)
  unfolding serve
  serve-refused m req disk e h = ground arith

  pub serve-given :
      (m : Memory) (req : ℕ) (disk : Disk)
      → fate d blk req ≡ none
      → serve d blk m req disk ≡ given m req disk
  unfolding serve
  serve-given m req disk h = ground arith

  pub io_request-started :
      (m : Memory) (ms : List Memory) (req : ℕ) (reqs : List ℕ) (disk disk' : Disk)
      → serve d blk m req disk ≡ (disk', true)
      → io_request d blk (m ∷ ms) (req ∷ reqs) disk ≡ io_request d blk ms reqs disk'
  unfolding io_request
  io_request-started m ms req reqs disk disk' e = rw e refl

  pub io_request-again :
      (m : Memory) (ms : List Memory) (req : ℕ) (reqs : List ℕ) (disk disk' : Disk)
      → serve d blk m req disk ≡ (disk', false)
      → io_request d blk (m ∷ ms) (req ∷ reqs) disk ≡ io_request d blk ms (req ∷ reqs) disk'
  unfolding io_request
  io_request-again m ms req reqs disk disk' e = rw e refl

  -- A request that is given over is started when there is memory for it, and stays otherwise.
  pub given-memory :
      (p : Option ℕ) (b : Bool) (req : ℕ) (disk : Disk)
      → is_some p && b ≡ true
      → let (disk', started) = given (record { reqstate = p; task_alloc = b }) req disk in
        (started ≡ true)
        × (disk'.world.accepted ≡ disk.world.accepted ++ req ∷ [])
        × (disk'.refused ≡ disk.refused)
  unfolding az_do_request
  given-memory none b req disk h = ground arith
  given-memory (some p) false req disk h = ground arith
  given-memory (some p) true req disk h = (refl, refl, refl)

  pub io_request-refuses :
      (m : Memory) (ms : List Memory) (req : ℕ) (reqs : List ℕ) (disk disk' : Disk) (e : ℤ)
      → fate d blk req ≡ some e
      → Served d blk ms reqs (refuse req e disk) disk'
      → Served d blk (m ∷ ms) (req ∷ reqs) disk disk'
  io_request-refuses m ms req reqs disk disk' e h (ends, acc, ref, inv) = (
    io_request-started m ms req reqs disk _ (serve-refused m req disk e h) ∙ ends,
    rw (h, accepts) acc,
    rw (h, refuses) (ref ∙ append_assoc disk.refused ((req, e) ∷ []) _),
    inv,
  )

  pub io_request-accepts :
      (m : Memory) (ms : List Memory) (req : ℕ) (reqs : List ℕ) (disk disk' : Disk)
      → fate d blk req ≡ none
      → is_some m.reqstate && m.task_alloc ≡ true
      → Served d blk ms reqs (given m req disk).0 disk'
      → Served d blk (m ∷ ms) (req ∷ reqs) disk disk'
  io_request-accepts m ms req reqs disk disk' h memory (ends, acc, ref, inv) =
      let (started, acc₁, ref₁) = given-memory m.reqstate m.task_alloc req disk memory in
      (
        io_request-started m ms req reqs disk (given m req disk).0
              (serve-given m req disk h ∙ ap (λ b. ((given m req disk).0, b)) started)
            ∙ ends,
        rw (h, accepts)
            (acc
              ∙ ap (λ l. l ++ accepts (fate d blk) reqs) acc₁
              ∙ append_assoc disk.world.accepted (req ∷ []) (accepts (fate d blk) reqs)),
        rw (h, refuses) (ref ∙ ap (λ l. l ++ refuses (fate d blk) reqs) ref₁),
        inv,
      )

  pub given-waits :
      (p : Option ℕ) (b : Bool) (req : ℕ) (disk : Disk)
      → is_some p && b ≡ false
      → let (disk', started) = given (record { reqstate = p; task_alloc = b }) req disk in
        (started ≡ false)
        × (disk'.world.accepted ≡ disk.world.accepted)
        × (disk'.refused ≡ disk.refused)
  unfolding az_do_request
  given-waits none b req disk h = (refl, refl, refl)
  given-waits (some p) false req disk h = (refl, refl, refl)
  given-waits (some p) true req disk h = ground arith

  pub io_request-waits :
      (m : Memory) (ms : List Memory) (req : ℕ) (reqs : List ℕ) (disk disk' : Disk)
      → fate d blk req ≡ none
      → is_some m.reqstate && m.task_alloc ≡ false
      → Served d blk ms (req ∷ reqs) (given m req disk).0 disk'
      → Served d blk (m ∷ ms) (req ∷ reqs) disk disk'
  io_request-waits m ms req reqs disk disk' h no_memory (ends, acc, ref, inv) =
      let (waits, acc₁, ref₁) = given-waits m.reqstate m.task_alloc req disk no_memory in
      (
        io_request-again m ms req reqs disk (given m req disk).0
              (serve-given m req disk h ∙ ap (λ b. ((given m req disk).0, b)) waits)
            ∙ ends,
        acc ∙ ap (λ l. l ++ accepts (fate d blk) (req ∷ reqs)) acc₁,
        ref ∙ ap (λ l. l ++ refuses (fate d blk) (req ∷ reqs)) ref₁,
        inv,
      )

  pub given-AtMostOnce :
      (m : Memory) (req : ℕ) (disk : Disk)
      → AtMostOnce disk.world
      → AtMostOnce (given m req disk).0.world
  given-AtMostOnce m req disk inv =
      az_do_request-AtMostOnce m.reqstate m.task_alloc req disk.world inv

  -- When memory is there in at least as many rounds as there are requests, io_request ends. It has
  -- given the requests that may be served to az_do_request, each accepted once and in the order of
  -- the queue, and has refused the others in that order: all with -ENODEV when the dysk is not
  -- healthy, and writes with -EROFS when it is read-only. That no request is ended more often than it
  -- was accepted holds afterwards when it did before.
  pub io_request-Served :
      (ms : List Memory) (reqs : List ℕ) (disk : Disk)
      → length reqs ≤ memories ms
      → AtMostOnce disk.world
      → (disk' : Disk) × Served d blk ms reqs disk disk'
  unfolding io_request
  io_request-Served ms [] disk h inv =
      (disk, (refl, sym (append-nil disk.world.accepted), sym (append-nil disk.refused), inv))
  io_request-Served [] (req ∷ reqs) disk h inv = absurd (omega (arith, h))
  io_request-Served (m ∷ ms) (req ∷ reqs) disk h inv = elim (Option-cases (fate d blk req)) [
    | inr (e, refused) ↦
        let (disk', s) =
          io_request-Served ms reqs (refuse req e disk) (omega (arith, h, memories-le m ms)) inv in
        (disk', io_request-refuses m ms req reqs disk disk' e refused s)
    | inl given_over ↦ elim (Bool-cases (is_some m.reqstate && m.task_alloc)) [
      | inl there ↦
          let (disk', s) =
            io_request-Served ms reqs (given m req disk).0
              (omega (arith, h, ap {B = ℕ} (λ b. if b then 1 else 0) there))
              (given-AtMostOnce m req disk inv) in
          (disk', io_request-accepts m ms req reqs disk disk' given_over there s)
      | inr missing ↦
          let (disk', s) =
            io_request-Served ms (req ∷ reqs) (given m req disk).0
              (omega (arith, h, ap {B = ℕ} (λ b. if b then 1 else 0) missing))
              (given-AtMostOnce m req disk inv) in
          (disk', io_request-waits m ms req reqs disk disk' given_over missing s)
    ]
  ]
