-- ===== src/Transfer/Send.antt =====
-- __send_az_req of module/az.c (the variant for new kernels). One execution of the task goes through
-- its parts in order; each part ends by going on, by a return, or by `goto retry_new_request`. What
-- the kernel and the network answer in one execution is a value of `SendEnv`.
use dysk.Base.{
  Bool, Bytes, List, Option, [], drop, eq_ℤ, false, if◌then◌else◌, is_some, length, negsuc, none,
  not, pos, some, suc, take, true, zero, ℕ, ℤ, ◌&&◌, ◌++◌, ◌==◌, ◌∷◌,
}
use dysk.Pool.{
  ConnectionPool, Attempt, connection_pool_get, connection_pool_put, connection_failed,
  err_failed_connection,
}
use dysk.Worker.{TaskResult, done, retry_now, retry_later, catastrophe}
use dysk.Transfer.{ReqState, ResState}

-- The parts of `struct request` that are read: its direction, first sector, and segments in order.
pub record BlkRequest : Type 0 where
  pub write : Bool
  pub sector : ℕ
  pub segments : List Bytes

abbrev pub concat : List Bytes → Bytes
concat [] = []
concat (s ∷ ss) = s ++ concat ss

-- blk_rq_bytes
abbrev pub blk_rq_bytes : BlkRequest → ℕ
blk_rq_bytes req = length (concat req.segments)

-- Outcomes of allocations; the text of make_header, `none` if it fails; the address of a receive
-- state; the answers to connection_pool_get; the results of the calls of sock_sendmsg. A call
-- for which there is no result is taken to block.
pub record SendEnv : Type 0 where
  pub header_alloc : Bool
  pub made_header : Option Bytes
  pub resstate_alloc : Option ℕ
  pub attempt : Attempt
  pub header_msg_alloc : Bool
  pub header_iov_alloc : Bool
  pub header_sends : List ℤ
  pub body_alloc : Bool
  pub body_msg_alloc : Bool
  pub body_iov_alloc : Bool
  pub body_sends : List ℤ
  pub task_alloc : Bool

-- `sent` are the bytes that this execution put on its connection, in order.
pub record Sender : Type 0 where
  pub r : ReqState
  pub pool : ConnectionPool
  pub sent : Bytes

pub data Flow : Type 0 where
  goes : Sender → Flow
  leaves : TaskResult → Sender → Flow
  new_request : Sender → Flow

infixl 5 ◌>>=◌
abbrev pub ◌>>=◌ : Flow → (Sender → Flow) → Flow
goes s >>= f = f s
leaves res s >>= f = leaves res s
new_request s >>= f = new_request s

-- The buffer stays allocated when make_header fails.
unfoldable pub header_part : SendEnv → Sender → Flow
header_part env s =
    if is_some s.r.header_buffer
    then goes s
    else if not env.header_alloc
    then leaves retry_now s
    else elim env.made_header [
      | none ↦ leaves retry_now (record s { r = record s.r { header_buffer = some [] } })
      | some text ↦ goes (record s { r = record s.r { header_buffer = some text } })
    ]

unfoldable pub resstate_part : SendEnv → Sender → Flow
resstate_part env s = if is_some s.r.resstate then goes s else elim env.resstate_alloc [
  | none ↦ leaves retry_now s
  | some p ↦ goes (record s { r = record s.r { resstate = some p } })
]

-- connection_pool_get sets `c` also where it fails with a connection.
unfoldable pub connected : Sender → ConnectionPool × ℤ × Option ℕ → Flow
connected s (pool, success, c) =
    let s' : Sender = record { r = record s.r { c = c }; pool = pool; sent = s.sent } in
    if eq_ℤ success (pos 0)
    then goes s'
    else if eq_ℤ success err_failed_connection
    then leaves catastrophe s'
    else leaves retry_later s'

unfoldable pub connection_part : SendEnv → Sender → Flow
connection_part env s =
    if is_some s.r.c then goes s else connected s (connection_pool_get env.attempt s.pool)

unfoldable pub header_msg_part : SendEnv → Sender → Flow
header_msg_part env s =
    if s.r.header_msg
    then goes s
    else if not env.header_msg_alloc
    then leaves retry_now s
    else goes (record s { r = record s.r { header_msg = true } })

abbrev pub text_of : Option Bytes → Bytes
text_of none = []
text_of (some text) = text

-- The message is the text at `header_buffer`.
unfoldable pub header_iov_part : SendEnv → Sender → Flow
header_iov_part env s =
    if s.r.header_iov
    then goes s
    else if not env.header_iov_alloc
    then leaves retry_now s
    else goes
        (record s { r = record s.r { header_iov = true; header_left = text_of s.r.header_buffer } })

-- How `while (msg_data_left(msg))` ends, with the bytes that are left.
pub data Sent : Type 0 where
  sent_all : Sent
  would_block : Bytes → Sent
  broken : Sent

abbrev pub is_empty : Bytes → Bool
is_empty [] = true
is_empty (_ ∷ _) = false

-- With the bytes that went out. -EAGAIN and -EWOULDBLOCK are -11.
unfoldable pub send_loop : List ℤ → Bytes → Sent × Bytes
send_loop [] left = if is_empty left then (sent_all, []) else (would_block left, [])
send_loop (pos zero ∷ later) left = if is_empty left then (sent_all, []) else (broken, [])
send_loop (pos (suc n) ∷ later) left =
    let (how, out) = send_loop later (drop (suc n) left) in
    if is_empty left then (sent_all, []) else (how, take (suc n) left ++ out)
send_loop (negsuc e ∷ later) left =
    if is_empty left
    then (sent_all, [])
    else if e == 10
    then (would_block left, [])
    else (broken, [])

-- The connection is dropped and the request is tried from the start.
abbrev pub drop_connection : Sender → Sender
drop_connection s = record s {
  r = record s.r { c = none };
  pool = elim s.r.c [ none ↦ s.pool | some c ↦ connection_pool_put s.pool c connection_failed ];
}

-- The connection got the bytes `out`.
abbrev pub sends : Bytes → Sender → Sender
sends out s = record s { sent = s.sent ++ out }

unfoldable pub header_sent_part : Sent → Sender → Flow
header_sent_part sent_all s =
    goes (record s { r = record s.r { header_sent = true; header_left = [] } })
header_sent_part (would_block left) s =
    leaves retry_later (record s { r = record s.r { header_left = left } })
header_sent_part broken s = new_request (drop_connection s)

unfoldable pub send_header : SendEnv → Sender → Flow
send_header env s =
    if s.r.header_sent
    then goes s
    else (let (how, out) = send_loop env.header_sends s.r.header_left in
        header_sent_part how (sends out s))

unfoldable pub body_buffer_part : BlkRequest → SendEnv → Sender → Flow
body_buffer_part req env s =
    if is_some s.r.body_buffer
    then goes s
    else if not env.body_alloc
    then leaves retry_now s
    else goes (record s { r = record s.r { body_buffer = some (concat req.segments) } })

unfoldable pub body_msg_part : SendEnv → Sender → Flow
body_msg_part env s =
    if s.r.body_msg
    then goes s
    else if not env.body_msg_alloc
    then leaves retry_now s
    else goes (record s { r = record s.r { body_msg = true } })

-- The message is the first `blk_rq_bytes(req)` bytes at `body_buffer`.
unfoldable pub body_iov_part : BlkRequest → SendEnv → Sender → Flow
body_iov_part req env s =
    if s.r.body_iov
    then goes s
    else if not env.body_iov_alloc
    then leaves retry_now s
    else goes (record s {
      r = record s.r {
        body_iov = true;
        body_left = take (blk_rq_bytes req) (text_of s.r.body_buffer);
      };
    })

unfoldable pub body_sent_part : Sent → Sender → Flow
body_sent_part sent_all s = goes (record s { r = record s.r { body_sent = true; body_left = [] } })
body_sent_part (would_block left) s =
    leaves retry_later (record s { r = record s.r { body_left = left } })
body_sent_part broken s = new_request (drop_connection s)

-- The body of `if (WRITE == dir)`.
unfoldable pub write_body : BlkRequest → SendEnv → Sender → Flow
write_body req env s =
    body_buffer_part req env s >>= body_msg_part env >>= body_iov_part req env >>= λ s.
    let (how, out) = send_loop env.body_sends s.r.body_left in body_sent_part how (sends out s)

-- The body of a write, and `body_sent = 1` behind it.
unfoldable pub send_body : BlkRequest → SendEnv → Sender → Flow
send_body req env s =
    if req.write
    then write_body req env s
    else goes (record s { r = record s.r { body_sent = true } })

-- From the header buffer to `message_sent`.
unfoldable pub send_message : BlkRequest → SendEnv → Sender → Flow
send_message req env s =
    header_part env s
    >>= resstate_part env
    >>= connection_part env
    >>= header_msg_part env
    >>= header_iov_part env
    >>= send_header env
    >>= send_body req env

-- What one execution queues.
pub data Queued : Type 0 where
  receive_task : ℕ → ResState → Queued
  send_task : Queued

-- The receive state as memset and `message_sent` leave it.
abbrev pub receive_state : ReqState → ResState
receive_state r = record {
  req = r.req;
  c = r.c;
  reqstate = none;
  try_new_request = false;
  response_buffer = none;
  httpresponse = none;
  iov = false;
  msg = false;
}

-- From `message_sent` on. The receive state is always there when this point is reached.
unfoldable pub queue_receive : SendEnv → Sender → (TaskResult × Sender) × Option Queued
queue_receive env s = elim s.r.resstate [
  | none ↦ ((retry_now, s), none)
  | some p ↦
      if env.task_alloc
      then ((done, s), some (receive_task p (receive_state s.r)))
      else ((retry_now, s), none)
]

-- From `retry_new_request` on.
unfoldable pub queue_again : SendEnv → Sender → (TaskResult × Sender) × Option Queued
queue_again env s =
    let s' = record s { r = record s.r { try_new_request = true } } in
    if env.task_alloc then ((done, s'), some send_task) else ((retry_now, s'), none)

unfoldable pub after_message : SendEnv → Flow → (TaskResult × Sender) × Option Queued
after_message env (goes s) = queue_receive env s
after_message env (leaves res s) = ((res, s), none)
after_message env (new_request s) = queue_again env s

-- __send_az_req: the result, the state and pool afterwards, and the task that was queued.
unfoldable pub send_az_req : BlkRequest → SendEnv → Sender → (TaskResult × Sender) × Option Queued
send_az_req req env s =
    if s.r.try_new_request
    then queue_again env s
    else if s.r.header_sent && s.r.body_sent
    then queue_receive env s
    else after_message env (send_message req env s)
