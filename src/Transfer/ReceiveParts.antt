-- ===== src/Transfer/ReceiveParts.antt =====
-- The request that the state of a receive task carries through __receive_az_response of module/az.c.
use dysk.Base.{
  Bool-cases, List, Option, Option-cases, [], arith, if_ind, inl, inr, length, none, refl, some,
  take, true, ℕ, ◌-◌, ◌==◌, ◌∷◌, ◌≡◌,
}
use dysk.Worker.{TaskResult}
use dysk.Transfer.Send.{text_of, BlkRequest}
use dysk.Transfer.Receive.{
  Received, got, no_bytes, error, ReceiveEnv, Receiver, Flow, goes, leaves, new_request, ◌>>=◌,
  buffer_part, response_part, reqstate_part, msg_part, iov_part, take_in, is_complete,
  response_size, receive_loop, use_response, receive_message, queue_again, after_receive,
  receive_az_response,
}

module _ (req : ℕ) where
  abbrev Keeps : Flow → Type 0
  Keeps (goes s) = s.r.req ≡ req
  Keeps (leaves res s) = s.r.req ≡ req
  Keeps (new_request res s) = s.r.req ≡ req

  Keeps->>= :
      (m : Flow) (f : Receiver → Flow)
      → Keeps m
      → ((s : Receiver) → s.r.req ≡ req → Keeps (f s))
      → Keeps (m >>= f)
  Keeps->>= (goes s) f h k = k s h
  Keeps->>= (leaves res s) f h k = h
  Keeps->>= (new_request res s) f h k = h

  module _ (env : ReceiveEnv) (s : Receiver) (h : s.r.req ≡ req) where
    buffer_part-Keeps : Keeps (buffer_part env s)
    unfolding buffer_part
    buffer_part-Keeps = ground arith

    response_part-Keeps : Keeps (response_part env s)
    unfolding response_part
    response_part-Keeps = ground arith

    reqstate_part-Keeps : Keeps (reqstate_part env s)
    unfolding reqstate_part
    reqstate_part-Keeps = ground arith

    msg_part-Keeps : Keeps (msg_part env s)
    unfolding msg_part
    msg_part-Keeps = ground arith

    iov_part-Keeps : Keeps (iov_part env s)
    unfolding iov_part
    iov_part-Keeps = ground arith

  receive_loop-Keeps :
      (size : ℕ) (received : List Received) (s : Receiver)
      → s.r.req ≡ req
      → Keeps (receive_loop size received s)
  unfolding receive_loop take_in
  receive_loop-Keeps size [] s h = ground arith
  receive_loop-Keeps size (got b bs ∷ later) s h =
      let room = size - length (text_of s.r.response_buffer) in
      if_ind Keeps (is_complete s.r) h (
        if_ind Keeps (room == 0) h
          (receive_loop-Keeps size later (record s { r = take_in s.r (take room (b ∷ bs)) }) h))
  receive_loop-Keeps size (no_bytes ∷ later) s h = ground arith
  receive_loop-Keeps size (error e ∷ later) s h = ground arith

  use_response-Keeps : (b : BlkRequest) (s : Receiver) → s.r.req ≡ req → Keeps (use_response b s)
  unfolding use_response
  use_response-Keeps b s h = ground arith

  receive_message-Keeps :
      (b : BlkRequest) (env : ReceiveEnv) (s : Receiver)
      → s.r.req ≡ req
      → Keeps (receive_message b env s)
  unfolding receive_message
  receive_message-Keeps b env s h =
      Keeps->>= _ _
        (Keeps->>= _ _
          (Keeps->>= _ _
            (Keeps->>= _ _
              (Keeps->>= _ _ (Keeps->>= _ _ (buffer_part-Keeps env s h) (response_part-Keeps env))
                (reqstate_part-Keeps env))
              (msg_part-Keeps env))
            (iov_part-Keeps env))
          (receive_loop-Keeps (response_size b) env.received))
        (use_response-Keeps b)

  -- A state for the request, that says so when another try was queued.
  abbrev pub ReceivesOnly : (TaskResult × Receiver) × Option ℕ → Type 0
  ReceivesOnly ((res, s), none) = s.r.req ≡ req
  ReceivesOnly ((res, s), some p) = (s.r.req ≡ req) × (s.r.try_new_request ≡ true)

  queue_again-ReceivesOnly :
      (env : ReceiveEnv) (res : TaskResult) (s : Receiver)
      → s.r.req ≡ req
      → ReceivesOnly (queue_again env res s)
  unfolding queue_again
  queue_again-ReceivesOnly env res s h = elim (Bool-cases env.task_alloc) [
    | inl t ↦ elim (Option-cases s.r.reqstate) [
      | inl e ↦ rw t (rw e h)
      | inr (p, e) ↦ rw t (rw e (h, refl))
    ]
    | inr t ↦ rw t h
  ]

  after_receive-ReceivesOnly :
      (env : ReceiveEnv) (m : Flow) → Keeps m → ReceivesOnly (after_receive env m)
  unfolding after_receive
  after_receive-ReceivesOnly env (goes s) h = queue_again-ReceivesOnly env _ s h
  after_receive-ReceivesOnly env (leaves res s) h = h
  after_receive-ReceivesOnly env (new_request res s) h = queue_again-ReceivesOnly env res s h

  -- Whatever the answers, an execution of a receive task leaves its state with its request, and
  -- marks the state when it queued another try.
  pub receive_az_response-ReceivesOnly :
      (b : BlkRequest) (env : ReceiveEnv) (s : Receiver)
      → s.r.req ≡ req
      → ReceivesOnly (receive_az_response b env s)
  unfolding receive_az_response
  receive_az_response-ReceivesOnly b env s h =
      if_ind ReceivesOnly s.r.try_new_request (queue_again-ReceivesOnly env _ s h)
        (after_receive-ReceivesOnly env (receive_message b env s) (receive_message-Keeps b env s h))
