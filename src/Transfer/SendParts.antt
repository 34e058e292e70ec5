-- ===== src/Transfer/SendParts.antt =====
-- The request that the state of a send task carries through __send_az_req of module/az.c.
use dysk.Base.{
  Bool-cases, Option, Option-cases, arith, if_ind, inl, inr, none, some, ℕ, ℤ, ◌&&◌, ◌≡◌,
}
use dysk.Worker.{TaskResult}
use dysk.Pool.{ConnectionPool, connection_pool_get}
use dysk.Transfer.Send.{
  BlkRequest, SendEnv, Sender, Flow, goes, leaves, new_request, ◌>>=◌, Sent, sent_all, would_block,
  broken, Queued, receive_task, send_task, header_part, resstate_part, connected, connection_part,
  header_msg_part, header_iov_part, send_loop, sends, header_sent_part, send_header,
  body_buffer_part, body_msg_part, body_iov_part, body_sent_part, write_body, send_body,
  send_message, queue_receive, queue_again, after_message, send_az_req,
}

module _ (req : ℕ) where
  -- A part ends with a state for the request.
  abbrev Keeps : Flow → Type 0
  Keeps (goes s) = s.r.req ≡ req
  Keeps (leaves res s) = s.r.req ≡ req
  Keeps (new_request s) = s.r.req ≡ req

  Keeps->>= :
      (m : Flow) (f : Sender → Flow)
      → Keeps m
      → ((s : Sender) → s.r.req ≡ req → Keeps (f s))
      → Keeps (m >>= f)
  Keeps->>= (goes s) f h k = k s h
  Keeps->>= (leaves res s) f h k = h
  Keeps->>= (new_request s) f h k = h

  header_sent_part-Keeps :
      (how : Sent) (s : Sender) → s.r.req ≡ req → Keeps (header_sent_part how s)
  unfolding header_sent_part
  header_sent_part-Keeps sent_all s h = h
  header_sent_part-Keeps (would_block left) s h = h
  header_sent_part-Keeps broken s h = h

  body_sent_part-Keeps : (how : Sent) (s : Sender) → s.r.req ≡ req → Keeps (body_sent_part how s)
  unfolding body_sent_part
  body_sent_part-Keeps sent_all s h = h
  body_sent_part-Keeps (would_block left) s h = h
  body_sent_part-Keeps broken s h = h

  module _ (env : SendEnv) (s : Sender) (h : s.r.req ≡ req) where
    header_part-Keeps : Keeps (header_part env s)
    unfolding header_part
    header_part-Keeps = ground arith

    resstate_part-Keeps : Keeps (resstate_part env s)
    unfolding resstate_part
    resstate_part-Keeps = ground arith

    connected-Keeps : (got : ConnectionPool × ℤ × Option ℕ) → Keeps (connected s got)
    unfolding connected
    connected-Keeps (pool, success, c) = ground arith

    connection_part-Keeps : Keeps (connection_part env s)
    unfolding connection_part
    connection_part-Keeps = ground (arith, connected-Keeps (connection_pool_get env.attempt s.pool))

    header_msg_part-Keeps : Keeps (header_msg_part env s)
    unfolding header_msg_part
    header_msg_part-Keeps = ground arith

    header_iov_part-Keeps : Keeps (header_iov_part env s)
    unfolding header_iov_part
    header_iov_part-Keeps = ground arith

    send_header-Keeps : Keeps (send_header env s)
    unfolding send_header
    send_header-Keeps = if_ind Keeps s.r.header_sent h (
        let (how, out) = send_loop env.header_sends s.r.header_left in
        header_sent_part-Keeps how (sends out s) h)

    body_buffer_part-Keeps : (b : BlkRequest) → Keeps (body_buffer_part b env s)
    unfolding body_buffer_part
    body_buffer_part-Keeps b = ground arith

    body_msg_part-Keeps : Keeps (body_msg_part env s)
    unfolding body_msg_part
    body_msg_part-Keeps = ground arith

    body_iov_part-Keeps : (b : BlkRequest) → Keeps (body_iov_part b env s)
    unfolding body_iov_part
    body_iov_part-Keeps b = ground arith

  write_body-Keeps :
      (b : BlkRequest) (env : SendEnv) (s : Sender) → s.r.req ≡ req → Keeps (write_body b env s)
  unfolding write_body
  write_body-Keeps b env s h =
      Keeps->>= _ _
        (Keeps->>= _ _ (Keeps->>= _ _ (body_buffer_part-Keeps env s h b) (body_msg_part-Keeps env))
          (λ s h. body_iov_part-Keeps env s h b))
        (λ s h.
          let (how, out) = send_loop env.body_sends s.r.body_left in
          body_sent_part-Keeps how (sends out s) h)

  send_body-Keeps :
      (b : BlkRequest) (env : SendEnv) (s : Sender) → s.r.req ≡ req → Keeps (send_body b env s)
  unfolding send_body
  send_body-Keeps b env s h = ground (arith, write_body-Keeps b env s)

  send_message-Keeps :
      (b : BlkRequest) (env : SendEnv) (s : Sender) → s.r.req ≡ req → Keeps (send_message b env s)
  unfolding send_message
  send_message-Keeps b env s h =
      Keeps->>= _ _
        (Keeps->>= _ _
          (Keeps->>= _ _
            (Keeps->>= _ _
              (Keeps->>= _ _ (Keeps->>= _ _ (header_part-Keeps env s h) (resstate_part-Keeps env))
                (connection_part-Keeps env))
              (header_msg_part-Keeps env))
            (header_iov_part-Keeps env))
          (send_header-Keeps env))
        (send_body-Keeps b env)

  -- A receive task that was queued is for the request.
  abbrev pub ForRequest : Option Queued → Type 0
  ForRequest none = Unit
  ForRequest (some send_task) = Unit
  ForRequest (some (receive_task p r)) = r.req ≡ req

  abbrev pub SendsOnly : (TaskResult × Sender) × Option Queued → Type 0
  SendsOnly ((res, s), q) = (s.r.req ≡ req) × ForRequest q

  queue_receive-SendsOnly :
      (env : SendEnv) (s : Sender) → s.r.req ≡ req → SendsOnly (queue_receive env s)
  unfolding queue_receive
  queue_receive-SendsOnly env s h = elim (Option-cases s.r.resstate) [
    | inl e ↦ rw (e, queue_receive) (h, tt)
    | inr (p, e) ↦ elim (Bool-cases env.task_alloc) [
      | inl t ↦ rw (e, queue_receive) (rw t (h, h))
      | inr t ↦ rw (e, queue_receive) (rw t (h, tt))
    ]
  ]

  queue_again-SendsOnly :
      (env : SendEnv) (s : Sender) → s.r.req ≡ req → SendsOnly (queue_again env s)
  unfolding queue_again
  queue_again-SendsOnly env s h = elim (Bool-cases env.task_alloc) [
    | inl t ↦ rw t (h, tt)
    | inr t ↦ rw t (h, tt)
  ]

  after_message-SendsOnly : (env : SendEnv) (m : Flow) → Keeps m → SendsOnly (after_message env m)
  unfolding after_message
  after_message-SendsOnly env (goes s) h = queue_receive-SendsOnly env s h
  after_message-SendsOnly env (leaves res s) h = (h, tt)
  after_message-SendsOnly env (new_request s) h = queue_again-SendsOnly env s h

  -- Whatever the answers, an execution of a send task leaves its state with its request, and a
  -- receive task that it queued is for that request.
  pub send_az_req-SendsOnly :
      (b : BlkRequest) (env : SendEnv) (s : Sender)
      → s.r.req ≡ req
      → SendsOnly (send_az_req b env s)
  unfolding send_az_req
  send_az_req-SendsOnly b env s h =
      if_ind SendsOnly s.r.try_new_request (queue_again-SendsOnly env s h) (
        if_ind SendsOnly (s.r.header_sent && s.r.body_sent) (queue_receive-SendsOnly env s h)
          (after_message-SendsOnly env (send_message b env s) (send_message-Keeps b env s h)))
