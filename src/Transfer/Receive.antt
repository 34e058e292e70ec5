-- ===== src/Transfer/Receive.antt =====
-- __receive_az_response of module/az.c (the variant for new kernels). What the kernel and the network
-- answer in one execution is a value of `ReceiveEnv`.
use dysk.Base.{
  Bool, Bytes, List, Option, [], drop, eq_ℤ, if◌then◌else◌, is_some, length, none, not, pos, set,
  some, take, true, ℕ, ℤ, ◌++◌, ◌+◌, ◌-◌, ◌==◌, ◌||◌, ◌∷◌,
}
use dysk.Text.{c_str}
use dysk.Http.{HttpResponse, no_response, http_response_completed, process_response}
use dysk.Pool.{ConnectionPool, connection_pool_put, connection_failed}
use dysk.Worker.{TaskResult, done, retry_now, retry_later, throttle_dysk, catastrophe}
use dysk.Transfer.{ResState}
use dysk.Transfer.Send.{BlkRequest, blk_rq_bytes, text_of}

-- az_is_catastrophe, az_is_throttle and az_is_done
unfoldable pub az_is_catastrophe : ℤ → Bool
az_is_catastrophe code =
    eq_ℤ code (pos 403) || eq_ℤ code (pos 412) || eq_ℤ code (pos 404) || eq_ℤ code (pos 416)

unfoldable pub az_is_throttle : ℤ → Bool
az_is_throttle code = eq_ℤ code (pos 503) || eq_ℤ code (pos 500) || eq_ℤ code (pos 429)

unfoldable pub az_is_done : ℤ → Bool
az_is_done code = eq_ℤ code (pos 206) || eq_ℤ code (pos 201)

-- What a call of sock_recvmsg finds: bytes that have come, the end of the stream, or an error.
pub data Received : Type 0 where
  got : ℕ → Bytes → Received
  no_bytes : Received
  error : ℕ → Received

-- Outcomes of allocations, the address of a request state, and the results of the calls of
-- sock_recvmsg. A call for which there is no result is taken to block.
pub record ReceiveEnv : Type 0 where
  pub buffer_alloc : Bool
  pub response_alloc : Bool
  pub reqstate_alloc : Option ℕ
  pub msg_alloc : Bool
  pub iov_alloc : Bool
  pub received : List Received
  pub task_alloc : Bool

-- RESPONSE_HEADER_LENGTH
abbrev pub response_header_length : ℕ
response_header_length = 1024

-- The size of the response buffer.
unfoldable pub response_size : BlkRequest → ℕ
response_size req =
    if not req.write then blk_rq_bytes req + response_header_length else response_header_length

-- `filled` is what was copied into the segments of the request, once it was.
pub record Receiver : Type 0 where
  pub r : ResState
  pub pool : ConnectionPool
  pub filled : Option (List Bytes)

-- A part goes on, returns, or jumps to `retry_throttle` or `retry_new_request`.
pub data Flow : Type 0 where
  goes : Receiver → Flow
  leaves : TaskResult → Receiver → Flow
  new_request : TaskResult → Receiver → Flow

infixl 5 ◌>>=◌
abbrev pub ◌>>=◌ : Flow → (Receiver → Flow) → Flow
goes s >>= f = f s
leaves res s >>= f = leaves res s
new_request res s >>= f = new_request res s

abbrev pub allocate : Bool → Bool → (ResState → ResState) → Receiver → Flow
allocate there alloc set s =
    if there
    then goes s
    else if alloc
    then goes (record s { r = set s.r })
    else leaves retry_later s

-- The buffer has `response_size` bytes; the model keeps those that were received.
unfoldable pub buffer_part : ReceiveEnv → Receiver → Flow
buffer_part env s =
    allocate (is_some s.r.response_buffer) env.buffer_alloc
      (λ r. record r { response_buffer = some [] }) s

unfoldable pub response_part : ReceiveEnv → Receiver → Flow
response_part env s =
    allocate (is_some s.r.httpresponse) env.response_alloc
      (λ r. record r { httpresponse = some no_response }) s

unfoldable pub reqstate_part : ReceiveEnv → Receiver → Flow
reqstate_part env s = if is_some s.r.reqstate then goes s else elim env.reqstate_alloc [
  | none ↦ leaves retry_later s
  | some p ↦ goes (record s { r = record s.r { reqstate = some p } })
]

unfoldable pub msg_part : ReceiveEnv → Receiver → Flow
msg_part env s = allocate s.r.msg env.msg_alloc (λ r. record r { msg = true }) s

unfoldable pub iov_part : ReceiveEnv → Receiver → Flow
iov_part env s = allocate s.r.iov env.iov_alloc (λ r. record r { iov = true }) s

abbrev pub response_of : Option HttpResponse → HttpResponse
response_of none = no_response
response_of (some response) = response

abbrev pub is_complete : ResState → Bool
is_complete r = http_response_completed (response_of r.httpresponse) (text_of r.response_buffer)

-- The bytes of one sock_recvmsg are behind the others in the buffer, and process_response reads on.
-- The byte behind a full buffer is taken to be 0.
unfoldable pub take_in : ResState → Bytes → ResState
take_in r bytes =
    let response = text_of r.response_buffer ++ bytes in
    record r {
      response_buffer = some response;
      httpresponse =
          some
            (process_response response (length (c_str response)) (response_of r.httpresponse)
              (length bytes)).0;
    }

abbrev pub drop_connection : Receiver → Receiver
drop_connection s = record s {
  r = record s.r { c = none };
  pool = elim s.r.c [ none ↦ s.pool | some c ↦ connection_pool_put s.pool c connection_failed ];
}

-- The loop of sock_recvmsg, until the response is complete. The vector of the message covers the
-- `size` bytes of the buffer, and sock_recvmsg moves it on: a call gets at most as many bytes as
-- there is room for, and 0 where there is none.
unfoldable pub receive_loop : ℕ → List Received → Receiver → Flow
receive_loop size [] s = if is_complete s.r then goes s else leaves retry_later s
receive_loop size (got b bs ∷ later) s =
    let room = size - length (text_of s.r.response_buffer) in
    let rest = receive_loop size later (record s { r = take_in s.r (take room (b ∷ bs)) }) in
    if is_complete s.r
    then goes s
    else if room == 0
    then new_request done (drop_connection s)
    else rest
receive_loop size (no_bytes ∷ later) s =
    if is_complete s.r then goes s else new_request done (drop_connection s)
receive_loop size (error e ∷ later) s =
    if is_complete s.r
    then goes s
    else if e == 11
    then leaves retry_later s
    else new_request done (drop_connection s)

-- `memcpy` of the body into the segments, by their lengths.
unfoldable pub fill : List Bytes → Bytes → List Bytes
fill [] body = []
fill (s ∷ ss) body = take (length s) body ∷ fill ss (drop (length s) body)

abbrev pub offset : Option ℕ → ℕ
offset none = 0
offset (some n) = n

abbrev pub body_of : ResState → Bytes
body_of r = drop (offset (response_of r.httpresponse).body) (text_of r.response_buffer)

-- What is done with a complete response.
unfoldable pub use_response : BlkRequest → Receiver → Flow
use_response req s =
    let code = (response_of s.r.httpresponse).status_code in
    if az_is_catastrophe code
    then leaves catastrophe s
    else if az_is_throttle code
    then new_request throttle_dysk s
    else if not (az_is_done code)
    then leaves catastrophe s
    else if req.write
    then leaves done s
    else leaves done (record s { filled = some (fill req.segments (body_of s.r)) })

unfoldable pub receive_message : BlkRequest → ReceiveEnv → Receiver → Flow
receive_message req env s =
    buffer_part env s
    >>= response_part env
    >>= reqstate_part env
    >>= msg_part env
    >>= iov_part env
    >>= receive_loop (response_size req) env.received
    >>= use_response req

-- From `retry_new_request` on: the result, the state, and the address of the request state that was
-- queued for another try.
unfoldable pub queue_again : ReceiveEnv → TaskResult → Receiver → (TaskResult × Receiver) × Option ℕ
queue_again env res s =
    let s' = record s { r = record s.r { try_new_request = true } } in
    if env.task_alloc then ((res, s'), s.r.reqstate) else ((retry_now, s'), none)

unfoldable pub after_receive : ReceiveEnv → Flow → (TaskResult × Receiver) × Option ℕ
after_receive env (goes s) = queue_again env throttle_dysk s
after_receive env (leaves res s) = ((res, s), none)
after_receive env (new_request res s) = queue_again env res s

-- __receive_az_response
unfoldable pub receive_az_response :
    BlkRequest → ReceiveEnv → Receiver → (TaskResult × Receiver) × Option ℕ
receive_az_response req env s =
    if s.r.try_new_request
    then queue_again env done s
    else after_receive env (receive_message req env s)
