-- ===== src/Transfer/Delivery.antt =====
-- One read request from az_do_request to io_end_request, module/az.c, when nothing fails: the header
-- is sent in one piece, and the response comes in one piece.
use dysk.Base.{
  Bytes, List, [], ap, arith, drop, false, length, length-append, length-drop, lt→ltb, none, pos,
  refl, some, suc, take, zero, ℕ, ◌++◌, ◌<◌, ◌∙◌, ◌∷◌, ◌≡◌,
}
use dysk.Worker.{word, done}
use dysk.Pool.{ConnectionPool, Attempt, connection_pool_get, connection_pool_put}
use dysk.Http.Scan.{value}
use dysk.Http.Reply.{Reply, IsValid, reply_text}
use dysk.Http.Head.{at_body}
use dysk.Transfer.{
  AzState, put_back, slab_free, io_end_request, clean_receive_az_response, clean_send_az_req,
}
use dysk.Transfer.Send
use dysk.Transfer.Send.{BlkRequest, blk_rq_bytes, concat, receive_task, send_az_req}
use dysk.Transfer.Receive
use dysk.Transfer.Receive.{fill, response_size, receive_az_response}
use dysk.Transfer.Working.{
  send_loop-once, sending_works, receiving_works, awaiting, sent_state, received_state,
  received_once,
}
use dysk.Transfer.World.{
  receiving, new_reqstate, send_turn, receive_turn, queued_by_send, queued_by_receive, run_send,
  run_receive,
}

-- The segments are filled with the body, in order.
take-drop : (n : ℕ) (s : Bytes) → take n s ++ drop n s ≡ s
take-drop zero s = refl
take-drop (suc n) [] = refl
take-drop (suc n) (x ∷ s) = ap (◌∷◌ x) (take-drop n s)

concat-fill :
    (segments : List Bytes) (body : Bytes)
    → length body ≡ length (concat segments)
    → concat (fill segments body) ≡ body
unfolding fill
concat-fill [] [] h = refl
concat-fill [] (b ∷ bs) h = absurd (omega arith)
concat-fill (s ∷ ss) body h =
    let size = length-append s (concat ss) in
    ap (λ b. take (length s) body ++ b)
      (concat-fill ss (drop (length s) body) (omega (arith, size, length-drop (length s) body)))
    ∙ take-drop (length s) body

module _ (b : BlkRequest) (read : b.write ≡ false) where
  sent_read :
      (id p c h n : ℕ) (hs : Bytes) (rest : List ℕ) (attempt : Attempt)
      → send_az_req b (sending_works h hs p attempt) (record {
        r = new_reqstate id;
        pool = record { connection_queue = c ∷ rest; count = n };
        sent = [];
      })
        ≡ (
          (
            done,
            record {
              r = sent_state id p c h hs;
              pool = record { connection_queue = rest; count = n };
              sent = h ∷ hs;
            },
          ),
          some (receive_task p (awaiting id c)),
        )
  unfolding send_az_req Send.after_message Send.send_message Send.header_part Send.resstate_part
      Send.connection_part Send.connected connection_pool_get Send.header_msg_part
      Send.header_iov_part Send.send_header Send.header_sent_part Send.send_body Send.queue_receive
  sent_read id p c h n hs rest attempt =
      rw (send_loop-once (length hs) (h ∷ hs) refl) (rw read refl)

  module _ (r : Reply) (v : IsValid r) (short : length (reply_text r) < word) where
    used :
        (id c q : ℕ) (pool : ConnectionPool)
        → value 0 (r.d ∷ r.code) ≡ 206
        → Receive.use_response b
            (record { r = received_state r v id c q; pool = pool; filled = none })
          ≡ Receive.leaves done (record {
            r = received_state r v id c q;
            pool = pool;
            filled = some (fill b.segments r.payload);
          })
    unfolding Receive.use_response Receive.az_is_catastrophe Receive.az_is_throttle
        Receive.az_is_done
    used id c q pool code = rw code (rw read (rw (at_body r (length r.payload) v) refl))

    received_read :
        (id c q : ℕ) (pool : ConnectionPool)
        → length (reply_text r) < response_size b
        → value 0 (r.d ∷ r.code) ≡ 206
        → receive_az_response b
            (receiving_works r q)
            (record { r = awaiting id c; pool = pool; filled = none })
          ≡ (
            (
              done,
              record {
                r = received_state r v id c q;
                pool = pool;
                filled = some (fill b.segments r.payload);
              },
            ),
            none,
          )
    unfolding receive_az_response Receive.after_receive Receive.receive_message Receive.buffer_part
        Receive.response_part Receive.reqstate_part Receive.msg_part Receive.iov_part
    received_read id c q pool fits code =
        rw (received_once r v short (response_size b) id c q pool fits)
          (rw (used id c q pool code) refl)

-- A read request whose header goes out at once over an idle connection, and whose response comes at
-- once with status 206 and as many bytes as were asked for, and is shorter than the response buffer
-- (so that its head has less than 1024 bytes), takes two turns: the send task queues the
-- receive task, and the receive task ends the request, once and with success, after the body was
-- copied into the segments of the request in order. The connection is back in the pool.
pub run_read :
    (blk : ℕ → BlkRequest) (id at p q c h n : ℕ) (hs : Bytes) (rest : List ℕ) (attempt : Attempt)
    (az : AzState) (r : Reply)
    → (blk id).write ≡ false
    → length rest < 64
    → IsValid r
    → length (reply_text r) < word
    → length (reply_text r) < response_size (blk id)
    → value 0 (r.d ∷ r.code) ≡ 206
    → length r.payload ≡ blk_rq_bytes (blk id)
    → let idle : ConnectionPool = record { connection_queue = c ∷ rest; count = n } in
      let sent =
        run_send blk at
          (new_reqstate id)
          (sending_works h hs p attempt)
          (record az { pool = idle }) in
      let received = run_receive blk p (awaiting id c) (receiving_works r q) sent.az in
      (sent.stays ≡ [])
      × (sent.queued ≡ receiving p (awaiting id c) ∷ [])
      × (received.stays ≡ [])
      × (received.queued ≡ [])
      × (received.az.ended ≡ az.ended ++ (id, pos 0) ∷ [])
      × (received.az.pool ≡ record { connection_queue = rest ++ c ∷ []; count = n })
      × ((filled : List Bytes) × ((receive_az_response
              (blk id)
              (receiving_works r q)
              (record { r = awaiting id c; pool = sent.az.pool; filled = none })).0.1.filled
            ≡ some filled)
          × (concat filled ≡ r.payload))
unfolding run_send run_receive send_turn receive_turn queued_by_send queued_by_receive
    clean_send_az_req clean_receive_az_response put_back slab_free io_end_request
    connection_pool_put
run_read blk id at p q c h n hs rest attempt az r read room v short fits code size =
    rw (sent_read (blk id) read id p c h n hs rest attempt) (
      rw
        (received_read (blk id) read r v short id c q
          (record { connection_queue = rest; count = n }) fits code)
        (rw (lt→ltb (length rest) 64 room) (
          refl,
          refl,
          refl,
          refl,
          refl,
          refl,
          (fill (blk id).segments r.payload, refl, concat-fill (blk id).segments r.payload size),
        )))
