-- ===== src/Transfer/Working.antt =====
-- The transfer tasks of module/az.c when nothing fails: what they are answered, the states that they
-- come to, and the receipt of a response that comes in one piece.
use dysk.Base.{
  Bytes, [], ap, arith, drop, false, length, none, pos, refl, some, suc, take, true, zero, ℕ, ◌++◌,
  ◌-◌, ◌<◌, ◌==◌, ◌∷◌, ◌≡◌, ◌≤◌,
}
use mathlib.Core.List.{append-nil}
use dysk.Worker.{word}
use dysk.Pool.{ConnectionPool, Attempt}
use dysk.Http.{no_response, http_response_completed}
use dysk.Http.Loops.{headers}
use dysk.Http.Reply.{Reply, IsValid, reply_text, from_length}
use dysk.Http.Whole.{whole, process_response-whole, http_response_completed-whole}
use dysk.Transfer.{ReqState, ResState}
use dysk.Transfer.Send.{text_of, SendEnv, receive_state, send_loop, sent_all}
use dysk.Transfer.Receive
use dysk.Transfer.Receive.{got, ReceiveEnv}
use dysk.Transfer.World.{new_reqstate}

pub take-all : (n : ℕ) (s : Bytes) → length s ≤ n → take n s ≡ s
take-all zero [] h = refl
take-all (suc n) [] h = refl
take-all zero (b ∷ s) h = absurd (omega arith)
take-all (suc n) (b ∷ s) h = ap (◌∷◌ b) (take-all n s (omega arith))

drop-all : (n : ℕ) (s : Bytes) → length s ≤ n → drop n s ≡ []
drop-all zero [] h = refl
drop-all (suc n) [] h = refl
drop-all zero (b ∷ s) h = absurd (omega arith)
drop-all (suc n) (b ∷ s) h = drop-all n s (omega arith)

-- All of a message goes out at once.
pub send_loop-once :
    (n : ℕ) (s : Bytes) → length s ≡ suc n → send_loop (pos (suc n) ∷ []) s ≡ (sent_all, s)
unfolding send_loop
send_loop-once n [] h = absurd (omega arith)
send_loop-once n (b ∷ s) h =
    rw (drop-all n s (omega arith)) (rw (take-all n s (omega arith)) (rw (append-nil s) refl))

-- Answers without a failure: the header goes out at once.
abbrev pub sending_works : ℕ → Bytes → ℕ → Attempt → SendEnv
sending_works h hs p attempt = record {
  header_alloc = true;
  made_header = some (h ∷ hs);
  resstate_alloc = some p;
  attempt = attempt;
  header_msg_alloc = true;
  header_iov_alloc = true;
  header_sends = pos (suc (length hs)) ∷ [];
  body_alloc = true;
  body_msg_alloc = true;
  body_iov_alloc = true;
  body_sends = [];
  task_alloc = true;
}

-- The bytes of a response behind the first.
abbrev pub rest_of : Reply → Bytes
rest_of r =
    (r.version ++ b' ' ∷ r.d ∷ (r.code ++ b' ' ∷ r.reason))
    ++ b'\r' ∷ b'\n' ∷ headers r.before (from_length r)

-- The response comes at once.
abbrev pub receiving_works : Reply → ℕ → ReceiveEnv
receiving_works r p = record {
  buffer_alloc = true;
  response_alloc = true;
  reqstate_alloc = some p;
  msg_alloc = true;
  iov_alloc = true;
  received = got r.v (rest_of r) ∷ [];
  task_alloc = true;
}

-- The receive state that a send task queues, with its connection.
abbrev pub awaiting : ℕ → ℕ → ResState
awaiting id c = receive_state (record (new_reqstate id) { c = some c })

-- The state of a send task whose header went out.
abbrev pub sent_state : ℕ → ℕ → ℕ → ℕ → Bytes → ReqState
sent_state id p c h hs = record (new_reqstate id) {
  c = some c;
  resstate = some p;
  header_sent = true;
  body_sent = true;
  header_buffer = some (h ∷ hs);
  header_msg = true;
  header_iov = true;
  header_left = [];
}

-- The state of a receive task that has its whole response.
abbrev pub received_state : (r : Reply) → IsValid r → ℕ → ℕ → ℕ → ResState
received_state r v id c q = record (awaiting id c) {
  reqstate = some q;
  response_buffer = some (reply_text r);
  httpresponse = some (whole r v);
  iov = true;
  msg = true;
}

-- The same before the bytes come.
abbrev pub ready_state : ℕ → ℕ → ℕ → ResState
ready_state id c q = record (awaiting id c) {
  reqstate = some q;
  response_buffer = some [];
  httpresponse = some no_response;
  iov = true;
  msg = true;
}

pub first_not_complete : http_response_completed no_response [] ≡ false
unfolding http_response_completed
first_not_complete = refl

module _ (r : Reply) (v : IsValid r) (short : length (reply_text r) < word) where
  taken_in :
      (id c q : ℕ) → Receive.take_in (ready_state id c q) (reply_text r) ≡ received_state r v id c q
  unfolding Receive.take_in
  taken_in id c q = rw (process_response-whole r v short) refl

  module _ (id c q size : ℕ) (fits : length (reply_text r) < size) where
    there_is_room : (size - length (text_of (ready_state id c q).response_buffer) == 0) ≡ false
    there_is_room = grind arith

    fits_whole :
        take (size - length (text_of (ready_state id c q).response_buffer)) (r.v ∷ rest_of r)
        ≡ reply_text r
    fits_whole = take-all (size - 0) (reply_text r) (omega arith)

  -- The response fits its buffer of `size` bytes.
  pub received_once :
      (size id c q : ℕ) (pool : ConnectionPool)
      → length (reply_text r) < size
      → Receive.receive_loop size
          (got r.v (rest_of r) ∷ [])
          (record { r = ready_state id c q; pool = pool; filled = none })
        ≡ Receive.goes (record { r = received_state r v id c q; pool = pool; filled = none })
  unfolding Receive.receive_loop
  received_once size id c q pool room = rw first_not_complete (
      rw (there_is_room id c q size room) (
        rw (fits_whole id c q size room)
          (rw (taken_in id c q) (rw (http_response_completed-whole r v short) refl))))
