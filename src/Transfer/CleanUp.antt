-- ===== src/Transfer/CleanUp.antt =====
-- The clean-up of the two transfer tasks of module/az.c, by the reason that the worker gives.
use dysk.Base.{Option, [], ap, false, none, pos, refl, some, true, ℕ, ◌++◌, ◌∷◌, ◌≡◌}
use dysk.Worker.{CleanReason}
use dysk.Transfer.{
  ReqState, ResState, AzState, put_back, slab_free, io_end_request, clean_receive_az_response,
  clean_send_az_req,
}

-- A connection that goes back ends no request.
pub put_back-ended : (c : Option ℕ) (az : AzState) → (put_back c az).ended ≡ az.ended
unfolding put_back
put_back-ended none az = refl
put_back-ended (some c) az = refl

-- A connection that goes back frees no state.
put_back-slab_freed : (c : Option ℕ) (az : AzState) → (put_back c az).slab_freed ≡ az.slab_freed
unfolding put_back
put_back-slab_freed none az = refl
put_back-slab_freed (some c) az = refl

-- A state that is freed ends no request.
pub slab_free-ended : (p : Option ℕ) (az : AzState) → (slab_free p az).ended ≡ az.ended
unfolding slab_free
slab_free-ended none az = refl
slab_free-ended (some p) az = refl

-- Whatever the reason, a timeout, a deletion or a catastrophe included, a receive task that did not
-- queue another try ends its request exactly once, with success.
pub clean_receive-ends :
    (at : ℕ) (res : ResState) (why : CleanReason) (az : AzState)
    → res.try_new_request ≡ false
    → (clean_receive_az_response at res why az).ended ≡ az.ended ++ (res.req, pos 0) ∷ []
unfolding clean_receive_az_response io_end_request
clean_receive-ends at res why az e =
    rw
      (
        e,
        slab_free-ended (some at),
        slab_free-ended res.reqstate (put_back res.c az),
        put_back-ended res.c az,
      )
      refl

-- Whatever the reason, a receive task that queued another try ends no request and keeps the request
-- state of that try: only its own state is freed.
pub clean_receive-keeps :
    (at : ℕ) (res : ResState) (why : CleanReason) (az : AzState)
    → res.try_new_request ≡ true
    → let az' = clean_receive_az_response at res why az in
      (az'.ended ≡ az.ended) × (az'.slab_freed ≡ az.slab_freed ++ at ∷ [])
unfolding clean_receive_az_response slab_free
clean_receive-keeps at res why az e =
    rw e (put_back-ended res.c az, ap (λ freed. freed ++ at ∷ []) (put_back-slab_freed res.c az))

-- Whatever the reason, a send task that did not queue another try is freed and ends no request, and
-- its connection does not go back to the pool.
clean_send-drops :
    (at : ℕ) (r : ReqState) (why : CleanReason) (az : AzState)
    → r.try_new_request ≡ false
    → let (az', left) = clean_send_az_req at r why az in
      (left ≡ none)
      × (az'.ended ≡ az.ended)
      × (az'.pool ≡ az.pool)
      × (az'.slab_freed ≡ az.slab_freed ++ at ∷ [])
unfolding clean_send_az_req slab_free
clean_send-drops at r why az e = rw e (refl, refl, refl, refl)
