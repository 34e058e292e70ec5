-- ===== src/Transfer/Writes.antt =====
-- One write request from az_do_request to io_end_request, module/az.c, when nothing fails: header and
-- body are sent in one piece each, and the response, with a Content-Length, comes in one piece.
use dysk.Base.{
  Bytes, List, [], arith, length, lt→ltb, none, pos, refl, some, suc, true, ℕ, ◌++◌, ◌<◌, ◌∷◌, ◌≡◌,
}
use dysk.Worker.{word, done}
use dysk.Pool.{ConnectionPool, Attempt, connection_pool_get, connection_pool_put}
use dysk.Http.Scan.{value}
use dysk.Http.Reply.{Reply, IsValid, reply_text}
use dysk.Transfer.{
  ReqState, AzState, put_back, slab_free, io_end_request, clean_receive_az_response,
  clean_send_az_req,
}
use dysk.Transfer.Send
use dysk.Transfer.Send.{BlkRequest, blk_rq_bytes, concat, SendEnv, receive_task, send_az_req}
use dysk.Transfer.Receive
use dysk.Transfer.Receive.{response_size, receive_az_response}
use dysk.Transfer.Working.{
  sending_works, receiving_works, awaiting, sent_state, received_state, received_once,
  send_loop-once, take-all,
}
use dysk.Transfer.World.{
  receiving, new_reqstate, send_turn, receive_turn, queued_by_send, queued_by_receive, run_send,
  run_receive,
}

-- The body of `m + 1` bytes goes out at once, too.
abbrev pub writing_works : ℕ → Bytes → ℕ → Attempt → ℕ → SendEnv
writing_works h hs p attempt m = record (sending_works h hs p attempt) {
  body_sends = pos (suc m) ∷ [];
}

-- The state of a send task whose header and body went out.
abbrev pub written_state : ℕ → ℕ → ℕ → ℕ → Bytes → BlkRequest → ReqState
written_state id p c h hs b = record (sent_state id p c h hs) {
  body_buffer = some (concat b.segments);
  body_msg = true;
  body_iov = true;
  body_left = [];
}

module _ (b : BlkRequest) (write : b.write ≡ true) where
  sent_write :
      (id p c h n m : ℕ) (hs : Bytes) (rest : List ℕ) (attempt : Attempt)
      → blk_rq_bytes b ≡ suc m
      → send_az_req b (writing_works h hs p attempt m) (record {
        r = new_reqstate id;
        pool = record { connection_queue = c ∷ rest; count = n };
        sent = [];
      })
        ≡ (
          (
            done,
            record {
              r = written_state id p c h hs b;
              pool = record { connection_queue = rest; count = n };
              sent = (h ∷ hs) ++ concat b.segments;
            },
          ),
          some (receive_task p (awaiting id c)),
        )
  unfolding send_az_req Send.after_message Send.send_message Send.header_part Send.resstate_part
      Send.connection_part Send.connected connection_pool_get Send.header_msg_part
      Send.header_iov_part Send.send_header Send.header_sent_part Send.send_body Send.queue_receive
      Send.write_body Send.body_buffer_part Send.body_msg_part Send.body_iov_part
      Send.body_sent_part
  sent_write id p c h n m hs rest attempt size = rw (send_loop-once (length hs) (h ∷ hs) refl) (
      rw write (
        rw (take-all (blk_rq_bytes b) (concat b.segments) (omega arith))
          (rw (send_loop-once m (concat b.segments) size) refl)))

  module _ (r : Reply) (v : IsValid r) (short : length (reply_text r) < word) where
    used_write :
        (id c q : ℕ) (pool : ConnectionPool)
        → value 0 (r.d ∷ r.code) ≡ 201
        → Receive.use_response b
            (record { r = received_state r v id c q; pool = pool; filled = none })
          ≡ Receive.leaves done
              (record { r = received_state r v id c q; pool = pool; filled = none })
    unfolding Receive.use_response Receive.az_is_catastrophe Receive.az_is_throttle
        Receive.az_is_done
    used_write id c q pool code = rw code (rw write refl)

    received_write :
        (id c q : ℕ) (pool : ConnectionPool)
        → length (reply_text r) < response_size b
        → value 0 (r.d ∷ r.code) ≡ 201
        → receive_az_response b
            (receiving_works r q)
            (record { r = awaiting id c; pool = pool; filled = none })
          ≡ ((done, record { r = received_state r v id c q; pool = pool; filled = none }), none)
    unfolding receive_az_response Receive.after_receive Receive.receive_message Receive.buffer_part
        Receive.response_part Receive.reqstate_part Receive.msg_part Receive.iov_part
    received_write id c q pool fits code =
        rw (received_once r v short (response_size b) id c q pool fits)
          (rw (used_write id c q pool code) refl)

-- A write request of at least one byte, whose header and body go out at once over an idle connection,
-- and whose response comes at once with status 201 and is shorter than the response buffer of 1024
-- bytes, takes two turns: the send task puts the header and then the segments in order on the
-- connection, and nothing else, and queues the receive task, and the receive task ends the request,
-- once and with success. The connection is back in the pool.
pub run_write :
    (blk : ℕ → BlkRequest) (id at p q c h n m : ℕ) (hs : Bytes) (rest : List ℕ) (attempt : Attempt)
    (az : AzState) (r : Reply)
    → (blk id).write ≡ true
    → blk_rq_bytes (blk id) ≡ suc m
    → length rest < 64
    → IsValid r
    → length (reply_text r) < word
    → length (reply_text r) < response_size (blk id)
    → value 0 (r.d ∷ r.code) ≡ 201
    → let idle : ConnectionPool = record { connection_queue = c ∷ rest; count = n } in
      let env = writing_works h hs p attempt m in
      let sent = run_send blk at (new_reqstate id) env (record az { pool = idle }) in
      let received = run_receive blk p (awaiting id c) (receiving_works r q) sent.az in
      (sent.stays ≡ [])
      × (sent.queued ≡ receiving p (awaiting id c) ∷ [])
      × ((send_az_req
            (blk id)
            env
            (record { r = new_reqstate id; pool = idle; sent = [] })).0.1.sent
          ≡ (h ∷ hs) ++ concat (blk id).segments)
      × ((send_az_req (blk id) env (record { r = new_reqstate id; pool = idle; sent = [] })).0.1.r
          ≡ written_state id p c h hs (blk id))
      × (received.stays ≡ [])
      × (received.queued ≡ [])
      × (received.az.ended ≡ az.ended ++ (id, pos 0) ∷ [])
      × (received.az.pool ≡ record { connection_queue = rest ++ c ∷ []; count = n })
unfolding run_send run_receive send_turn receive_turn queued_by_send queued_by_receive
    clean_send_az_req clean_receive_az_response put_back slab_free io_end_request
    connection_pool_put
run_write blk id at p q c h n m hs rest attempt az r write size room v short fits code =
    rw (sent_write (blk id) write id p c h n m hs rest attempt size) (
      rw
        (received_write (blk id) write r v short id c q
          (record { connection_queue = rest; count = n }) fits code)
        (rw (lt→ltb (length rest) 64 room) (refl, refl, refl, refl, refl, refl, refl, refl)))
