-- ===== src/Transfer/World.antt =====
-- The transfer tasks of one dysk together, module/az.c: az_do_request, and what one turn of the
-- worker (execute of module/dysk_worker.c) does with a task: it runs the task, and cleans it with the
-- reason for its result, or it cleans it unrun when it is late or its dysk is being deleted.
use dysk.Base.{Bool, List, Option, [], false, if◌then◌else◌, none, pos, some, ℕ, ℤ, ◌++◌, ◌∷◌, ◌≡◌}
use dysk.Pool.{enomem}
use dysk.Worker.{
  TaskResult, done, retry_now, retry_later, throttle_dysk, catastrophe, CleanReason, clean_done,
  clean_dysk_catastrophe,
}
use dysk.Transfer.{
  ReqState, ResState, AzState, slab_free, clean_receive_az_response, clean_send_az_req,
}
use dysk.Transfer.Send.{BlkRequest, SendEnv, Sender, Queued, receive_task, send_task, send_az_req}
use dysk.Transfer.Receive.{ReceiveEnv, Receiver, receive_az_response}

-- A queued transfer task with its state and the address of that.
pub data Job : Type 0 where
  sending : ℕ → ReqState → Job
  receiving : ℕ → ResState → Job

-- `accepted` are the requests for which az_do_request returned 0.
pub record World : Type 0 where
  pub jobs : List Job
  pub az : AzState
  pub accepted : List ℕ

-- `memset(reqstate, 0, sizeof(__reqstate))` and `reqstate->req = req`
abbrev pub new_reqstate : ℕ → ReqState
new_reqstate req = record {
  req = req;
  c = none;
  resstate = none;
  try_new_request = false;
  header_sent = false;
  body_sent = false;
  header_buffer = none;
  header_msg = false;
  header_iov = false;
  header_left = [];
  body_buffer = none;
  body_msg = false;
  body_iov = false;
  body_left = [];
}

-- az_do_request, with the address of a request state and the outcome of queue_w_task.
unfoldable pub az_do_request : Option ℕ → Bool → ℕ → World → World × ℤ
az_do_request none task_alloc req w = (w, enomem)
az_do_request (some p) task_alloc req w =
    if task_alloc
    then (
      record w {
        jobs = w.jobs ++ sending p (new_reqstate req) ∷ [];
        accepted = w.accepted ++ req ∷ [];
      },
      pos 0,
    )
    else (record w { az = slab_free (some p) w.az }, enomem)

-- What a turn leaves: the module state, the task if it stays, and the task that was queued.
pub record Turn : Type 0 where
  pub az : AzState
  pub stays : List Job
  pub queued : List Job

-- The tasks that a send task queued: with another try it is its own state, as the clean-up left it.
unfoldable pub queued_by_send : ℕ → Option ReqState → Option Queued → List Job
queued_by_send at left none = []
queued_by_send at left (some (receive_task p r)) = receiving p r ∷ []
queued_by_send at none (some send_task) = []
queued_by_send at (some r) (some send_task) = sending at r ∷ []

abbrev pub cleaned_send : ℕ → Sender → Option Queued → AzState → CleanReason → Turn
cleaned_send at s q az reason =
    let (az', left) = clean_send_az_req at s.r reason (record az { pool = s.pool }) in
    record { az = az'; stays = []; queued = queued_by_send at left q }

unfoldable pub send_turn : ℕ → AzState → (TaskResult × Sender) × Option Queued → Turn
send_turn at az ((done, s), q) = cleaned_send at s q az clean_done
send_turn at az ((throttle_dysk, s), q) = cleaned_send at s q az clean_done
send_turn at az ((catastrophe, s), q) = cleaned_send at s q az clean_dysk_catastrophe
send_turn at az ((retry_now, s), q) = record {
  az = record az { pool = s.pool };
  stays = sending at s.r ∷ [];
  queued = [];
}
send_turn at az ((retry_later, s), q) = record {
  az = record az { pool = s.pool };
  stays = sending at s.r ∷ [];
  queued = [];
}

unfoldable pub queued_by_receive : ℕ → Option ℕ → List Job
queued_by_receive req none = []
queued_by_receive req (some p) = sending p (new_reqstate req) ∷ []

abbrev pub cleaned_receive : ℕ → Receiver → Option ℕ → AzState → CleanReason → Turn
cleaned_receive at s q az reason = record {
  az = clean_receive_az_response at s.r reason (record az { pool = s.pool });
  stays = [];
  queued = queued_by_receive s.r.req q;
}

unfoldable pub receive_turn : ℕ → AzState → (TaskResult × Receiver) × Option ℕ → Turn
receive_turn at az ((done, s), q) = cleaned_receive at s q az clean_done
receive_turn at az ((throttle_dysk, s), q) = cleaned_receive at s q az clean_done
receive_turn at az ((catastrophe, s), q) = cleaned_receive at s q az clean_dysk_catastrophe
receive_turn at az ((retry_now, s), q) = record {
  az = record az { pool = s.pool };
  stays = receiving at s.r ∷ [];
  queued = [];
}
receive_turn at az ((retry_later, s), q) = record {
  az = record az { pool = s.pool };
  stays = receiving at s.r ∷ [];
  queued = [];
}

-- A turn that runs the task.
unfoldable pub run_send : (ℕ → BlkRequest) → ℕ → ReqState → SendEnv → AzState → Turn
run_send blk at r env az =
    send_turn at az (send_az_req (blk r.req) env (record { r = r; pool = az.pool; sent = [] }))

unfoldable pub run_receive : (ℕ → BlkRequest) → ℕ → ResState → ReceiveEnv → AzState → Turn
run_receive blk at r env az =
    receive_turn at az
      (receive_az_response (blk r.req) env (record { r = r; pool = az.pool; filled = none }))

-- A turn that only cleans.
unfoldable pub drop_send : ℕ → ReqState → CleanReason → AzState → Turn
drop_send at r reason az = record {
  az = (clean_send_az_req at r reason az).0;
  stays = [];
  queued = [];
}

unfoldable pub drop_receive : ℕ → ResState → CleanReason → AzState → Turn
drop_receive at r reason az = record {
  az = clean_receive_az_response at r reason az;
  stays = [];
  queued = [];
}

-- The world after a turn of the task between `before` and `after`.
abbrev pub after_turn : World → List Job → List Job → Turn → World
after_turn w before after t = record w {
  jobs = before ++ (t.stays ++ (after ++ t.queued));
  az = t.az;
}

-- What can happen: a request comes in, or some task has its turn, with any answers from outside.
pub data Step (blk : ℕ → BlkRequest) : World → World → Type 0 where
  request :
      {w : World} (mem : Option ℕ) (task_alloc : Bool) (req : ℕ)
      → Step blk w (az_do_request mem task_alloc req w).0
  sends :
      {w : World} (before after : List Job) (at : ℕ) (r : ReqState) (env : SendEnv)
      → w.jobs ≡ before ++ sending at r ∷ after
      → Step blk w (after_turn w before after (run_send blk at r env w.az))
  receives :
      {w : World} (before after : List Job) (at : ℕ) (r : ResState) (env : ReceiveEnv)
      → w.jobs ≡ before ++ receiving at r ∷ after
      → Step blk w (after_turn w before after (run_receive blk at r env w.az))
  drops_send :
      {w : World} (before after : List Job) (at : ℕ) (r : ReqState) (reason : CleanReason)
      → w.jobs ≡ before ++ sending at r ∷ after
      → Step blk w (after_turn w before after (drop_send at r reason w.az))
  drops_receive :
      {w : World} (before after : List Job) (at : ℕ) (r : ResState) (reason : CleanReason)
      → w.jobs ≡ before ++ receiving at r ∷ after
      → Step blk w (after_turn w before after (drop_receive at r reason w.az))

pub data Reach (blk : ℕ → BlkRequest) (s : World) : World → Type 0 where
  here : Reach blk s s
  next : {t u : World} → Reach blk s t → Step blk t u → Reach blk s u
