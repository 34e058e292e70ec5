-- ===== src/Http/Whole.antt =====
-- process_response of module/az.c on a whole response.
use dysk.Base.{==_iff, ap, arith, drop, length, pos, refl, some, true, ◌+◌, ◌<◌, ◌∙◌, ◌∷◌, ◌≡◌}
use dysk.Worker.{word}
use dysk.Http.Scan.{value}
use dysk.Http.Reply.{Reply, reply_text, body_at, IsValid}
use dysk.Http.Head.{with_body, text_length, completes, at_body, process_response-with_body}
use dysk.Http.{c_str, HttpResponse, no_response, http_response_completed, process_response}

module _ (r : Reply) (valid : IsValid r) where
  abbrev pub whole : HttpResponse
  whole = with_body r (length r.payload) valid

  pub http_response_completed-whole :
      length (reply_text r) < word → http_response_completed whole (reply_text r) ≡ true
  http_response_completed-whole short =
      completes r (length r.payload) valid (reply_text r) (0 + length (reply_text r))
        (length r.payload) (body_at r) (omega (arith, text_length r (length r.payload) valid))
        (omega (arith, short))
      ∙ (==_iff (length r.payload) (length r.payload)).1 refl

  pub process_response-whole :
      length (reply_text r) < word
      → process_response
          (reply_text r)
          (length (c_str (reply_text r)))
          no_response
          (length (reply_text r))
        ≡ (whole, true)
  process_response-whole short =
      process_response-with_body r (length r.payload) valid short
      ∙ ap (λ b. (whole, b)) ((==_iff (length r.payload) (length r.payload)).1 refl)

  -- The service's response, received in one piece, is read as it was written: the status code, the
  -- length of the body, and the place of the body, which is complete.
  pub process_response-reply_text :
      length (reply_text r) < word
      → let (res, complete) =
          process_response
            (reply_text r)
            (length (c_str (reply_text r)))
            no_response
            (length (reply_text r)) in
        (complete ≡ true)
        × (res.status_code ≡ pos (value 0 (r.d ∷ r.code)))
        × (res.content_length ≡ pos (length r.payload))
        × (res.body ≡ some (body_at r))
        × (drop (body_at r) (reply_text r) ≡ r.payload)
  process_response-reply_text short =
      rw (process_response-whole short) (refl, refl, refl, refl, at_body r (length r.payload) valid)
