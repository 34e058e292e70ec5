-- ===== src/Transfer/Failures.antt =====
-- What a lack of memory does to a send task of module/az.c.
use dysk.Base.{List, [], false, negsuc, none, pos, refl, some, suc, true, zero, ℕ, ℤ, ◌∷◌, ◌≡◌}
use dysk.Pool.{ConnectionPool, connection_pool_get}
use dysk.Worker.{done, retry_now}
use dysk.Transfer.{ReqState}
use dysk.Transfer.Send
use dysk.Transfer.Send.{
  BlkRequest, SendEnv, Sender, receive_task, receive_state, send_loop, sent_all, send_az_req,
}
use dysk.Transfer.World.{new_reqstate}

-- Nothing is left to send, so nothing is sent.
send_loop-nothing : (results : List ℤ) → send_loop results [] ≡ (sent_all, [])
unfolding send_loop
send_loop-nothing [] = refl
send_loop-nothing (pos zero ∷ later) = refl
send_loop-nothing (pos (suc n) ∷ later) = refl
send_loop-nothing (negsuc e ∷ later) = refl

-- What make_header leaves when it fails.
abbrev without_header : ℕ → ReqState
without_header id = record (new_reqstate id) { header_buffer = some [] }

first_try :
    (b : BlkRequest) (id : ℕ) (env : SendEnv) (pool : ConnectionPool)
    → env.header_alloc ≡ true
    → env.made_header ≡ none
    → send_az_req b env (record { r = new_reqstate id; pool = pool; sent = [] })
      ≡ ((retry_now, record { r = without_header id; pool = pool; sent = [] }), none)
unfolding send_az_req Send.after_message Send.send_message
first_try b id env pool a m = rw header_failed refl
  where
    header_failed :
        Send.header_part env (record { r = new_reqstate id; pool = pool; sent = [] })
        ≡ Send.leaves retry_now (record { r = without_header id; pool = pool; sent = [] })
    header_failed = unfold Send.header_part in rw a (rw (m, Send.header_part) refl)

module _ (b : BlkRequest) (id c n p : ℕ) (rest : List ℕ) (env : SendEnv) (read : b.write ≡ false)
    (msg : env.header_msg_alloc ≡ true) (iov : env.header_iov_alloc ≡ true)
    (task : env.task_alloc ≡ true) (slab : env.resstate_alloc ≡ some p) where
  abbrev retried : Sender
  retried = record {
    r = record (without_header id) {
      c = some c;
      resstate = some p;
      header_msg = true;
      header_iov = true;
      header_left = [];
      header_sent = true;
      body_sent = true;
    };
    pool = record { connection_queue = rest; count = n };
    sent = [];
  }

  second_try :
      send_az_req b env (record {
        r = without_header id;
        pool = record { connection_queue = c ∷ rest; count = n };
        sent = [];
      })
      ≡ (
        (done, retried),
        some (receive_task p (receive_state (record (new_reqstate id) { c = some c }))),
      )
  unfolding send_az_req Send.after_message Send.send_message Send.header_part Send.resstate_part
      Send.connection_part Send.connected connection_pool_get Send.header_msg_part
      Send.header_iov_part Send.send_header Send.header_sent_part Send.send_body Send.queue_receive
  second_try =
      rw (slab, Send.resstate_part)
        (rw msg (rw iov (rw (send_loop-nothing env.header_sends) (rw read (rw task refl)))))

-- When make_header fails in the first execution, the second one does not make the header again: with
-- memory and an idle connection, and whatever sock_sendmsg would answer, a read request is taken to
-- be sent with no byte of a header sent, and its receive task is queued.
pub send_az_req-no_header :
    (b : BlkRequest) (id c n : ℕ) (rest : List ℕ) (env env' : SendEnv)
    → b.write ≡ false
    → env.header_alloc ≡ true
    → env.made_header ≡ none
    → env'.header_msg_alloc ≡ true
    → env'.header_iov_alloc ≡ true
    → env'.task_alloc ≡ true
    → (p : ℕ) → env'.resstate_alloc ≡ some p
    → let pool : ConnectionPool = record { connection_queue = c ∷ rest; count = n } in
      let ((res, s), q) =
        send_az_req b env (record { r = new_reqstate id; pool = pool; sent = [] }) in
      let ((res', s'), q') = send_az_req b env' s in
      (res ≡ retry_now)
      × (q ≡ none)
      × (res' ≡ done)
      × (s'.r.header_buffer ≡ some [])
      × (s'.r.header_sent ≡ true)
      × (s'.sent ≡ [])
      × (q' ≡ some (receive_task p (receive_state (record (new_reqstate id) { c = some c }))))
send_az_req-no_header b id c n rest env env' read a m msg iov task p slab =
    rw (first_try b id env (record { connection_queue = c ∷ rest; count = n }) a m) (
      rw (second_try b id c n p rest env' read msg iov task slab)
        (refl, refl, refl, refl, refl, refl, refl))
