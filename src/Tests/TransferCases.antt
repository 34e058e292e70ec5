-- ===== src/Tests/TransferCases.antt =====
-- The clean-up of the transfer tasks of module/az.c for a request that is timed out or deleted.
use dysk.Base.{
  Bytes, List, [], arith, codes, false, length, none, pos, refl, replicate, some, true, ◌++◌, ◌∷◌,
  ◌≡◌,
}
use dysk.Http.{no_response}
use dysk.Worker.{clean_timeout}
use dysk.Transfer.{ReqState, ResState, AzState, clean_receive_az_response}
use dysk.Pool.{connection_failed, connection_pool_put, Attempt}
use dysk.Worker.{retry_now, done}
use dysk.Tests.HttpCases.{four_bytes, four_bytes-IsValid, read_four}
use dysk.Transfer.Send.{BlkRequest, SendEnv, concat, receive_task, receive_state, send_az_req}
use dysk.Transfer.Receive.{response_size, receive_az_response}
use dysk.Transfer.World.{
  World, receiving, sending, new_reqstate, az_do_request, run_send, run_receive, after_turn, here,
  next, request, sends,
}
use dysk.Transfer.Accounting.{AtMostOnce, Reach-AtMostOnce}
use dysk.Text.{strnstr, is_prefix}
use dysk.Http.Reply.{reply_text, Reply, IsValid}
use dysk.Transfer.Writes.{run_write, writing_works, written_state}
use dysk.Transfer.Working.{sending_works, receiving_works, awaiting}
use dysk.Transfer.Delivery.{run_read}
use dysk.Transfer.TooLong.{run_receive-too_long, receiving_more}
use dysk.Http.Pieces.{part_of}
use dysk.Transfer.Failures.{send_az_req-no_header}
use dysk.Transfer.CleanUp.{clean_receive-ends}

-- Request 3 was ended before; one connection is out.
abbrev busy : AzState
busy = record {
  pool = record { connection_queue = []; count = 1 };
  ended = (3, pos 0) ∷ [];
  slab_freed = [];
}

abbrev waiting : ResState
waiting = record {
  req = 4;
  c = some 7;
  reqstate = some 20;
  try_new_request = false;
  response_buffer = some (codes "HTTP");
  httpresponse = some no_response;
  iov = true;
  msg = true;
}

abbrev half_sent : ReqState
half_sent = record {
  req = 4;
  c = some 7;
  resstate = some 21;
  try_new_request = false;
  header_sent = false;
  body_sent = false;
  header_buffer = some (codes "GET");
  header_left = codes "GET";
  body_left = [];
  header_msg = true;
  header_iov = true;
  body_buffer = none;
  body_msg = false;
  body_iov = false;
}

clean_receive-ends_example :
    (clean_receive_az_response 21 waiting clean_timeout busy).ended ≡ (3, pos 0) ∷ (4, pos 0) ∷ []
clean_receive-ends_example = clean_receive-ends 21 waiting clean_timeout busy refl

-- No task and no request yet.
abbrev pub quiet : World
quiet = record {
  jobs = [];
  az = record {
    pool = record { connection_queue = 9 ∷ []; count = 1 };
    ended = [];
    slab_freed = [];
  };
  accepted = [];
}

abbrev pub no_attempt : Attempt
no_attempt = record { newcon = none; socket = false; connect = λ n. pos 0 }

one_job : (az_do_request (some 20) true 4 quiet).0.jobs ≡ [] ++ sending 20 (new_reqstate 4) ∷ []
unfolding az_do_request
one_job = refl

-- The request comes in, and its send task has a turn.
abbrev one_sent : World
one_sent = after_turn (az_do_request (some 20) true 4 quiet).0 [] [] (
    run_send (λ i. read_four) 20 (new_reqstate 4) (sending_works b'G' (codes "ET") 21 no_attempt)
      (az_do_request (some 20) true 4 quiet).0.az)

Reach-AtMostOnce_example : AtMostOnce one_sent
Reach-AtMostOnce_example =
    Reach-AtMostOnce {blk = λ i. read_four} {s = quiet} {w = one_sent} (λ id. omega arith)
      (next (next here (request (some 20) true 4))
        (sends [] [] 20 (new_reqstate 4) (sending_works b'G' (codes "ET") 21 no_attempt) one_job))

run_read_example :
    let sent =
      run_send
        (λ i. read_four)
        20
        (new_reqstate 4)
        (sending_works b'G' (codes "ET") 21 no_attempt)
        quiet.az in
    let received =
      run_receive (λ i. read_four) 21 (awaiting 4 9) (receiving_works four_bytes 22) sent.az in
    (sent.stays ≡ [])
    × (sent.queued ≡ receiving 21 (awaiting 4 9) ∷ [])
    × (received.stays ≡ [])
    × (received.queued ≡ [])
    × (received.az.ended ≡ (4, pos 0) ∷ [])
    × (received.az.pool ≡ record { connection_queue = 9 ∷ []; count = 1 })
    × ((filled : List Bytes) × ((receive_az_response read_four
            (receiving_works four_bytes 22)
            (record { r = awaiting 4 9; pool = sent.az.pool; filled = none })).0.1.filled
          ≡ some filled)
        × (concat filled ≡ codes "abcd"))
run_read_example =
    run_read (λ i. read_four) 4 20 21 22 9 b'G' 1 (codes "ET") [] no_attempt quiet.az four_bytes
      refl (omega arith) four_bytes-IsValid (omega arith) (unfold response_size in omega arith) refl
      refl

-- make_header fails.
abbrev no_date : SendEnv
no_date = record (sending_works b'G' (codes "ET") 21 no_attempt) { made_header = none }

send_az_req-no_header_example :
    let ((res, s), q) =
      send_az_req read_four no_date
        (record { r = new_reqstate 4; pool = quiet.az.pool; sent = [] }) in
    let ((res', s'), q') =
      send_az_req read_four (sending_works b'G' (codes "ET") 21 no_attempt) s in
    (res ≡ retry_now)
    × (q ≡ none)
    × (res' ≡ done)
    × (s'.r.header_buffer ≡ some [])
    × (s'.r.header_sent ≡ true)
    × (s'.sent ≡ [])
    × (q' ≡ some (receive_task 21 (receive_state (record (new_reqstate 4) { c = some 9 }))))
send_az_req-no_header_example =
    send_az_req-no_header read_four 4 9 1 [] no_date (sending_works b'G' (codes "ET") 21 no_attempt)
      refl refl refl refl refl refl 21 refl

abbrev write_four : BlkRequest
write_four = record { write = true; sector = 3; segments = codes "ab" ∷ codes "cd" ∷ [] }

abbrev created : Reply
created = record four_bytes { code = codes "01"; reason = codes "Created"; l = b'0'; payload = [] }

created-IsValid : IsValid created
unfolding strnstr is_prefix
created-IsValid = ground arith

run_write_example :
    let env = writing_works b'P' (codes "UT") 21 no_attempt 3 in
    let sent = run_send (λ i. write_four) 20 (new_reqstate 4) env quiet.az in
    let received =
      run_receive (λ i. write_four) 21 (awaiting 4 9) (receiving_works created 22) sent.az in
    (sent.stays ≡ [])
    × (sent.queued ≡ receiving 21 (awaiting 4 9) ∷ [])
    × ((send_az_req write_four env
          (record { r = new_reqstate 4; pool = quiet.az.pool; sent = [] })).0.1.sent
        ≡ codes "PUTabcd")
    × ((send_az_req write_four env
          (record { r = new_reqstate 4; pool = quiet.az.pool; sent = [] })).0.1.r
        ≡ written_state 4 21 9 b'P' (codes "UT") write_four)
    × (received.stays ≡ [])
    × (received.queued ≡ [])
    × (received.az.ended ≡ (4, pos 0) ∷ [])
    × (received.az.pool ≡ record { connection_queue = 9 ∷ []; count = 1 })
run_write_example =
    run_write (λ i. write_four) 4 20 21 22 9 b'P' 1 3 (codes "UT") [] no_attempt quiet.az created
      refl refl (omega arith) created-IsValid (omega arith) (unfold response_size in omega arith)
      refl

-- Two header lines fill the buffer of 1028 bytes up to the last two bytes of the body.
abbrev long_head : Reply
long_head = record four_bytes { after = replicate 480 b'y' ∷ replicate 480 b'y' ∷ [] }

long_head-IsValid : IsValid long_head
unfolding strnstr is_prefix
long_head-IsValid = ground arith

long_head_full : length (reply_text (part_of long_head (codes "ab"))) ≡ response_size read_four
unfolding response_size
long_head_full = refl

run_receive-too_long_example :
    let turn =
      run_receive
        (λ i. read_four)
        21
        (awaiting 4 9)
        (receiving_more long_head 22 b'c' (codes "d"))
        quiet.az in
    (turn.stays ≡ [])
    × (turn.queued ≡ sending 22 (new_reqstate 4) ∷ [])
    × (turn.az.ended ≡ [])
    × (turn.az.pool ≡ connection_pool_put quiet.az.pool 9 connection_failed)
run_receive-too_long_example =
    run_receive-too_long (λ i. read_four) 4 21 9 22 b'c' (codes "d") quiet.az long_head (codes "ab")
      (codes "cd") long_head-IsValid refl (omega arith) (omega arith) long_head_full
