-- ===== src/Transfer/Accounting.antt =====
-- What becomes of the requests that az_do_request of module/az.c accepts, over any run of the
-- transfer tasks: how often each is ended, and how many tasks carry it.
use mathlib.Core.Path.{subst}
use dysk.Base.{
  Bool, Bool-cases, List, Option, [], ap, arith, false, if◌then◌else◌, inl, inr, none, pos, refl,
  some, true, ℕ, ℤ, ◌++◌, ◌+◌, ◌==◌, ◌∙◌, ◌∷◌, ◌≡◌, ◌≤◌,
}
use dysk.Worker.{TaskResult, done, retry_now, retry_later, throttle_dysk, catastrophe, CleanReason}
use dysk.Transfer.{
  ReqState, ResState, AzState, put_back, slab_free, clean_receive_az_response, clean_send_az_req,
}
use dysk.Transfer.CleanUp.{put_back-ended, slab_free-ended, clean_receive-ends, clean_receive-keeps}
use dysk.Transfer.Send.{BlkRequest, Sender, Queued, receive_task, send_task}
use dysk.Transfer.SendParts.{ForRequest, SendsOnly, send_az_req-SendsOnly}
use dysk.Transfer.Receive.{Receiver}
use dysk.Transfer.ReceiveParts.{ReceivesOnly, receive_az_response-ReceivesOnly}
use dysk.Transfer.World.{
  Job, sending, receiving, World, new_reqstate, az_do_request, Turn, queued_by_send, cleaned_send,
  send_turn, queued_by_receive, cleaned_receive, receive_turn, run_send, run_receive, drop_send,
  drop_receive, after_turn, Step, request, sends, receives, drops_send, drops_receive, Reach, here,
  next,
}

abbrev pub one : ℕ → ℕ → ℕ
one id req = if req == id then 1 else 0

abbrev pub request_of : Job → ℕ
request_of (sending at r) = r.req
request_of (receiving at r) = r.req

-- How many tasks carry a request, how often it was ended, and how often it was accepted.
abbrev pub carried : ℕ → List Job → ℕ
carried id [] = 0
carried id (j ∷ js) = one id (request_of j) + carried id js

abbrev pub ended : ℕ → List (ℕ × ℤ) → ℕ
ended id [] = 0
ended id ((req, err) ∷ es) = one id req + ended id es

abbrev pub accepted : ℕ → List ℕ → ℕ
accepted id [] = 0
accepted id (req ∷ reqs) = one id req + accepted id reqs

carried-append : (id : ℕ) (js ks : List Job) → carried id (js ++ ks) ≡ carried id js + carried id ks
carried-append id [] ks = omega arith
carried-append id (j ∷ js) ks = omega (arith, carried-append id js ks)

pub ended-append : (id : ℕ) (es fs : List (ℕ × ℤ)) → ended id (es ++ fs) ≡ ended id es + ended id fs
ended-append id [] fs = omega arith
ended-append id ((req, err) ∷ es) fs = omega (arith, ended-append id es fs)

pub accepted-append :
    (id : ℕ) (xs ys : List ℕ) → accepted id (xs ++ ys) ≡ accepted id xs + accepted id ys
accepted-append id [] ys = omega arith
accepted-append id (x ∷ xs) ys = omega (arith, accepted-append id xs ys)

-- A turn of a task for `req` leaves one task for it, or ends it once, or neither.
abbrev Accounts : ℕ → ℕ → AzState → Turn → Type 0
Accounts id req az t =
    carried id t.stays + carried id t.queued + ended id t.az.ended ≤ one id req + ended id az.ended

-- The state that a clean-up of a send task leaves is for the request.
abbrev LeftFor : ℕ → Option ReqState → Type 0
LeftFor req none = Unit
LeftFor req (some r) = r.req ≡ req

clean_send-ended :
    (at : ℕ) (r : ReqState) (why : CleanReason) (az : AzState)
    → (clean_send_az_req at r why az).0.ended ≡ az.ended
unfolding clean_send_az_req
clean_send-ended at r why az = elim (Bool-cases r.try_new_request) [
  | inl e ↦ rw e (slab_free-ended r.resstate (put_back r.c az) ∙ put_back-ended r.c az)
  | inr e ↦ rw e (slab_free-ended (some at) az)
]

clean_send-LeftFor :
    (at : ℕ) (r : ReqState) (why : CleanReason) (az : AzState)
    → LeftFor r.req (clean_send_az_req at r why az).1
unfolding clean_send_az_req
clean_send-LeftFor at r why az = elim (Bool-cases r.try_new_request) [
  | inl e ↦ rw e refl
  | inr e ↦ rw e tt
]

-- A clean-up of a receive task ends its request once at most.
clean_receive-le :
    (id at : ℕ) (r : ResState) (why : CleanReason) (az : AzState)
    → ended id (clean_receive_az_response at r why az).ended ≤ one id r.req + ended id az.ended
clean_receive-le id at r why az = elim (Bool-cases r.try_new_request) [
  | inl e ↦ omega (arith, ap (ended id) (clean_receive-keeps at r why az e).0)
  | inr e ↦ omega (
    arith,
    ap (ended id) (clean_receive-ends at r why az e),
    ended-append id az.ended ((r.req, pos 0) ∷ []),
  )
]

module _ (id req : ℕ) where
  queued_by_send-le :
      (at : ℕ) (left : Option ReqState) (q : Option Queued)
      → LeftFor req left
      → ForRequest req q
      → carried id (queued_by_send at left q) ≤ one id req
  unfolding queued_by_send
  queued_by_send-le at left none h k = ground arith
  queued_by_send-le at left (some (receive_task p r)) h k = rw k (omega arith)
  queued_by_send-le at none (some send_task) h k = ground arith
  queued_by_send-le at (some r) (some send_task) h k = rw h (omega arith)

  cleaned_send-Accounts :
      (at : ℕ) (s : Sender) (q : Option Queued) (az : AzState) (why : CleanReason)
      → s.r.req ≡ req
      → ForRequest req q
      → Accounts id req az (cleaned_send at s q az why)
  cleaned_send-Accounts at s q az why h k =
      let az' = record az { pool = s.pool } in
      let left = (clean_send_az_req at s.r why az').1 in
      let for_req = subst (λ n. LeftFor n left) h (clean_send-LeftFor at s.r why az') in
      omega (
        arith,
        queued_by_send-le at left q for_req k,
        ap (ended id) (clean_send-ended at s.r why az'),
      )

  send_turn-Accounts :
      (at : ℕ) (az : AzState) (o : (TaskResult × Sender) × Option Queued)
      → SendsOnly req o
      → Accounts id req az (send_turn at az o)
  unfolding send_turn
  send_turn-Accounts at az ((done, s), q) (h, k) = cleaned_send-Accounts at s q az _ h k
  send_turn-Accounts at az ((throttle_dysk, s), q) (h, k) = cleaned_send-Accounts at s q az _ h k
  send_turn-Accounts at az ((catastrophe, s), q) (h, k) = cleaned_send-Accounts at s q az _ h k
  send_turn-Accounts at az ((retry_now, s), q) (h, k) = rw h (omega arith)
  send_turn-Accounts at az ((retry_later, s), q) (h, k) = rw h (omega arith)

  cleaned_receive-Accounts :
      (at : ℕ) (s : Receiver) (q : Option ℕ) (az : AzState) (why : CleanReason) (res : TaskResult)
      → ReceivesOnly req ((res, s), q)
      → Accounts id req az (cleaned_receive at s q az why)
  unfolding queued_by_receive
  cleaned_receive-Accounts at s none az why res h =
      omega (arith, clean_receive-le id at s.r why (record az { pool = s.pool }), ap (one id) h)
  cleaned_receive-Accounts at s (some p) az why res (h, again) = omega (
    arith,
    ap (ended id) (clean_receive-keeps at s.r why (record az { pool = s.pool }) again).0,
    ap (one id) h,
  )

  receive_turn-Accounts :
      (at : ℕ) (az : AzState) (o : (TaskResult × Receiver) × Option ℕ)
      → ReceivesOnly req o
      → Accounts id req az (receive_turn at az o)
  unfolding receive_turn
  receive_turn-Accounts at az ((done, s), q) h = cleaned_receive-Accounts at s q az _ done h
  receive_turn-Accounts at az ((throttle_dysk, s), q) h =
      cleaned_receive-Accounts at s q az _ done h
  receive_turn-Accounts at az ((catastrophe, s), q) h = cleaned_receive-Accounts at s q az _ done h
  receive_turn-Accounts at az ((retry_now, s), none) h = omega (arith, ap (one id) h)
  receive_turn-Accounts at az ((retry_now, s), some p) h = omega (arith, ap (one id) h.0)
  receive_turn-Accounts at az ((retry_later, s), none) h = omega (arith, ap (one id) h)
  receive_turn-Accounts at az ((retry_later, s), some p) h = omega (arith, ap (one id) h.0)

-- No request is ended, or carried by a task, more often than it was accepted: the times it was ended
-- and the tasks that carry it are together at most the times it was accepted.
abbrev pub AtMostOnce : World → Type 0
AtMostOnce w = (id : ℕ) → carried id w.jobs + ended id w.az.ended ≤ accepted id w.accepted

-- A turn of one task among the others.
after_turn-le :
    (id : ℕ) (w : World) (before after : List Job) (j : Job) (t : Turn)
    → w.jobs ≡ before ++ j ∷ after
    → Accounts id (request_of j) w.az t
    → carried id w.jobs + ended id w.az.ended ≤ accepted id w.accepted
    → carried id (after_turn w before after t).jobs + ended id t.az.ended ≤ accepted id w.accepted
after_turn-le id w before after j t e h inv = omega (
  arith,
  ap (carried id) e,
  carried-append id before (j ∷ after),
  carried-append id before (t.stays ++ (after ++ t.queued)),
  carried-append id t.stays (after ++ t.queued),
  carried-append id after t.queued,
)

pub az_do_request-AtMostOnce :
    (mem : Option ℕ) (task_alloc : Bool) (req : ℕ) (w : World)
    → AtMostOnce w
    → AtMostOnce (az_do_request mem task_alloc req w).0
unfolding az_do_request slab_free
az_do_request-AtMostOnce none task_alloc req w inv = inv
az_do_request-AtMostOnce (some p) true req w inv = λ id. omega (
  arith,
  inv id,
  carried-append id w.jobs (sending p (new_reqstate req) ∷ []),
  accepted-append id w.accepted (req ∷ []),
)
az_do_request-AtMostOnce (some p) false req w inv = inv

pub Step-AtMostOnce :
    {blk : ℕ → BlkRequest} {t u : World} → Step blk t u → AtMostOnce t → AtMostOnce u
unfolding run_send run_receive drop_send drop_receive
Step-AtMostOnce {t = w} (request mem task_alloc req) inv =
    az_do_request-AtMostOnce mem task_alloc req w inv
Step-AtMostOnce {blk} {t = w} (sends before after at r env e) inv = λ id.
    after_turn-le id w before after (sending at r) (run_send blk at r env w.az) e
      (send_turn-Accounts id r.req at w.az _ (
        send_az_req-SendsOnly r.req (blk r.req) env (record { r = r; pool = w.az.pool; sent = [] })
          refl))
      (inv id)
Step-AtMostOnce {blk} {t = w} (receives before after at r env e) inv = λ id.
    after_turn-le id w before after (receiving at r) (run_receive blk at r env w.az) e
      (receive_turn-Accounts id r.req at w.az _ (
        receive_az_response-ReceivesOnly r.req (blk r.req) env
          (record { r = r; pool = w.az.pool; filled = none }) refl))
      (inv id)
Step-AtMostOnce {t = w} (drops_send before after at r reason e) inv = λ id.
    after_turn-le id w before after (sending at r) (drop_send at r reason w.az) e
      (omega (arith, ap (ended id) (clean_send-ended at r reason w.az))) (inv id)
Step-AtMostOnce {t = w} (drops_receive before after at r reason e) inv = λ id.
    after_turn-le id w before after (receiving at r) (drop_receive at r reason w.az) e
      (omega (arith, clean_receive-le id at r reason w.az)) (inv id)

-- Any run, with any answers of the kernel and the network, keeps this: for each request, the times it
-- was ended and the tasks that carry it are together at most the times that az_do_request accepted
-- it. So no request is ended more often than it was accepted.
pub Reach-AtMostOnce :
    {blk : ℕ → BlkRequest} {s w : World} → AtMostOnce s → Reach blk s w → AtMostOnce w
Reach-AtMostOnce inv here = inv
Reach-AtMostOnce inv (next r st) = Step-AtMostOnce st (Reach-AtMostOnce inv r)
