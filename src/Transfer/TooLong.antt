-- ===== src/Transfer/TooLong.antt =====
-- A response that does not fit the response buffer of __receive_az_response, module/az.c.
use dysk.Base.{
  Bytes, [], ap, arith, false, length, length-append, none, refl, some, sym, take, take_append,
  true, ℕ, ◌++◌, ◌+◌, ◌-◌, ◌<◌, ◌==◌, ◌∙◌, ◌∷◌, ◌≡◌,
}
use dysk.Worker.{word, done}
use dysk.Pool.{ConnectionPool, connection_pool_put, connection_failed}
use dysk.Http.Reply.{body_at, Reply, IsValid, reply_text}
use dysk.Http.Head.{with_body, completes, text_length, process_response-with_body}
use dysk.Http.Pieces.{part_of, part-IsHead, joined, not_complete}
use dysk.Transfer.{AzState, ResState, slab_free, put_back, clean_receive_az_response}
use dysk.Transfer.Send.{BlkRequest, text_of}
use dysk.Transfer.Receive
use dysk.Transfer.Receive.{got, response_size, ReceiveEnv, receive_az_response}
use dysk.Transfer.Working.{receiving_works, awaiting, ready_state, rest_of, first_not_complete}
use dysk.Transfer.World.{sending, new_reqstate, run_receive, receive_turn, queued_by_receive}

-- The response comes, and more bytes are there at the next call.
abbrev pub receiving_more : Reply → ℕ → ℕ → Bytes → ReceiveEnv
receiving_more r s x xs = record (receiving_works r s) {
  received = got r.v (rest_of r) ∷ got x xs ∷ [];
}

module _ (b : BlkRequest) (r : Reply) (p q : Bytes) (v : IsValid r) (split : r.payload ≡ p ++ q)
    (some_more : 0 < length q) (short : length (reply_text r) < word)
    (full : length (reply_text (part_of r p)) ≡ response_size b) where
  first_short : length (reply_text (part_of r p)) < word
  first_short =
      omega
        (arith, length-append (reply_text (part_of r p)) q, ap length (joined r p q v split), short)

  -- The receive state with the buffer full.
  abbrev full_state : ℕ → ℕ → ℕ → ResState
  full_state id c s = record (ready_state id c s) {
    response_buffer = some (reply_text (part_of r p));
    httpresponse = some (with_body (part_of r p) (length r.payload) (part-IsHead r p v));
  }

  kept :
      take (response_size b - length (text_of (some []))) (r.v ∷ rest_of r)
      ≡ reply_text (part_of r p)
  kept =
      let first = reply_text (part_of r p) in
      let size : response_size b - 0 ≡ length first = omega (arith, full) in
      ap (λ n. take n (reply_text r)) size
      ∙ ap (take (length first)) (sym (joined r p q v split))
      ∙ take_append first q

  taken_in_part :
      (id c s : ℕ)
      → Receive.take_in (ready_state id c s) (reply_text (part_of r p)) ≡ full_state id c s
  unfolding Receive.take_in
  taken_in_part id c s =
      rw
        (process_response-with_body (part_of r p) (length r.payload) (part-IsHead r p v)
          first_short)
        refl

  still_not_complete : (id c s : ℕ) → Receive.is_complete (full_state id c s) ≡ false
  still_not_complete id c s =
      let first = part_of r p in
      let total = length r.payload in
      completes first total (part-IsHead r p v) (reply_text first) (0 + length (reply_text first))
        (length p) (body_at first) (omega (arith, text_length first total (part-IsHead r p v)))
        (omega (arith, first_short))
      ∙ not_complete r p q v split some_more

  no_room : (response_size b - length (reply_text (part_of r p)) == 0) ≡ true
  no_room = grind (arith, full)

  has_room : (response_size b - length (text_of (some [])) == 0) ≡ false
  has_room = grind (arith, full)

  dropped :
      (id c s x : ℕ) (xs : Bytes) (pool : ConnectionPool)
      → Receive.receive_loop
          (response_size b)
          (got r.v (rest_of r) ∷ got x xs ∷ [])
          (record { r = ready_state id c s; pool = pool; filled = none })
        ≡ Receive.new_request done
            (Receive.drop_connection (record { r = full_state id c s; pool = pool; filled = none }))
  unfolding Receive.receive_loop
  dropped id c s x xs pool = rw first_not_complete (
      rw has_room
        (rw kept (rw (taken_in_part id c s) (rw (still_not_complete id c s) (rw no_room refl)))))

  received_too_long :
      (id c s x : ℕ) (xs : Bytes) (pool : ConnectionPool)
      → receive_az_response b
          (receiving_more r s x xs)
          (record { r = awaiting id c; pool = pool; filled = none })
        ≡ (
          (
            done,
            record {
              r = record (full_state id c s) { c = none; try_new_request = true };
              pool = connection_pool_put pool c connection_failed;
              filled = none;
            },
          ),
          some s,
        )
  unfolding receive_az_response Receive.after_receive Receive.receive_message Receive.buffer_part
      Receive.response_part Receive.reqstate_part Receive.msg_part Receive.iov_part
      Receive.queue_again
  received_too_long id c s x xs pool = rw (dropped id c s x xs pool) refl

-- A response whose whole text is longer than the response buffer, and of which a part of the body
-- still fits, is never complete: when more bytes are there at the second call of sock_recvmsg, the
-- receive task drops the connection as failed and queues a new request for the same request of the
-- block layer, which is not ended.
pub run_receive-too_long :
    (blk : ℕ → BlkRequest) (id at c s x : ℕ) (xs : Bytes) (az : AzState) (r : Reply) (p q : Bytes)
    → IsValid r
    → r.payload ≡ p ++ q
    → 0 < length q
    → length (reply_text r) < word
    → length (reply_text (part_of r p)) ≡ response_size (blk id)
    → let turn = run_receive blk at (awaiting id c) (receiving_more r s x xs) az in
      (turn.stays ≡ [])
      × (turn.queued ≡ sending s (new_reqstate id) ∷ [])
      × (turn.az.ended ≡ az.ended)
      × (turn.az.pool ≡ connection_pool_put az.pool c connection_failed)
unfolding run_receive receive_turn queued_by_receive clean_receive_az_response put_back slab_free
run_receive-too_long blk id at c s x xs az r p q v split some_more short full =
    rw (received_too_long (blk id) r p q v split some_more short full id c s x xs az.pool)
      (refl, refl, refl, refl)
