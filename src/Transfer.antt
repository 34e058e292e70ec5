-- ===== src/Transfer.antt =====
-- The transfer of one block request over the network, module/az.c: the states of the two tasks that
-- carry it and what their clean-up functions do. A message or vector that a state owns is a flag,
-- set while allocated, with the bytes that the message has left to send. A buffer is its
-- text. `AzState` is the module state of one dysk with what the
-- block layer was told: the requests ended, with their codes, oldest first.
pub mod CleanUp
pub mod Send
pub mod Receive
pub mod World
pub mod SendParts
pub mod ReceiveParts
pub mod Accounting
pub mod Working
pub mod Delivery
pub mod Writes
pub mod Failures
pub mod TooLong
use dysk.Base.{
  Bool, Bytes, List, Option, [], false, if◌then◌else◌, neg, none, not, pos, some, true, ℕ, ℤ, ◌++◌,
  ◌∷◌,
}
use dysk.Http.{HttpResponse}
use dysk.Pool.{ConnectionPool, connection_pool_put, connection_ok}
use dysk.Worker.{CleanReason, clean_timeout}

-- `struct __reqstate`. `resstate` is the address of the receive state.
pub record ReqState : Type 0 where
  pub req : ℕ
  pub c : Option ℕ
  pub resstate : Option ℕ
  pub try_new_request : Bool
  pub header_sent : Bool
  pub body_sent : Bool
  pub header_buffer : Option Bytes
  pub header_msg : Bool
  pub header_iov : Bool
  pub header_left : Bytes
  pub body_buffer : Option Bytes
  pub body_msg : Bool
  pub body_iov : Bool
  pub body_left : Bytes

-- `struct __resstate`. `reqstate` is the address of a request state for another try.
pub record ResState : Type 0 where
  pub req : ℕ
  pub c : Option ℕ
  pub reqstate : Option ℕ
  pub try_new_request : Bool
  pub response_buffer : Option Bytes
  pub httpresponse : Option HttpResponse
  pub iov : Bool
  pub msg : Bool

-- `slab_freed` are the addresses given back to az_slab.
pub record AzState : Type 0 where
  pub pool : ConnectionPool
  pub ended : List (ℕ × ℤ)
  pub slab_freed : List ℕ

abbrev pub eio : ℤ
eio = neg 5

abbrev pub eagain : ℤ
eagain = neg 11

abbrev pub is_timeout : CleanReason → Bool
is_timeout clean_timeout = true
is_timeout _ = false

-- `if (p) connection_pool_put(pool, &p, connection_ok);`
unfoldable pub put_back : Option ℕ → AzState → AzState
put_back none az = az
put_back (some c) az = record az { pool = connection_pool_put az.pool c connection_ok }

-- `if (p) kmem_cache_free(az_slab, p);`
unfoldable pub slab_free : Option ℕ → AzState → AzState
slab_free none az = az
slab_free (some p) az = record az { slab_freed = az.slab_freed ++ p ∷ [] }

-- io_end_request
unfoldable pub io_end_request : ℕ → ℤ → AzState → AzState
io_end_request req err az = record az { ended = az.ended ++ (req, err) ∷ [] }

-- The value of `if (clean_done)`: the test is of the constant 1, and not of `clean_reason`.
abbrev pub clean_done_test : CleanReason → Bool
clean_done_test clean_reason = true

-- __clean_receive_az_response of a task with the state `res` at address `at`.
unfoldable pub clean_receive_az_response : ℕ → ResState → CleanReason → AzState → AzState
clean_receive_az_response at res clean_reason az =
    let az = put_back res.c az in
    let failed =
      io_end_request res.req (if is_timeout clean_reason then eagain else eio)
        (slab_free res.reqstate az) in
    slab_free (some at) (
      if clean_done_test clean_reason
      then (if not res.try_new_request
          then io_end_request res.req (pos 0) (slab_free res.reqstate az)
          else az)
      else failed)

-- What is left of a request state whose buffers were freed.
abbrev pub without_buffers : ReqState → ReqState
without_buffers r = record r {
  header_buffer = none;
  header_msg = false;
  header_iov = false;
  body_buffer = none;
  body_msg = false;
  body_iov = false;
}

-- __clean_send_az_req of a task with the state `r` at address `at`: the state after it, `none` once
-- it was freed.
unfoldable pub clean_send_az_req : ℕ → ReqState → CleanReason → AzState → AzState × Option ReqState
clean_send_az_req at r clean_reason az =
    if clean_done_test clean_reason
    then (if not r.try_new_request then (slab_free (some at) az, none) else (
      slab_free r.resstate (put_back r.c az),
      some (
          without_buffers (record r {
            c = none;
            header_sent = false;
            body_sent = false;
            try_new_request = false;
            resstate = none;
          })),
    ))
    else (
      slab_free (some at) (
          io_end_request r.req (if is_timeout clean_reason then eagain else eio)
            (put_back r.c (slab_free r.resstate az))),
      none,
    )
