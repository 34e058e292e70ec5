-- ===== src/Http/Fuel.antt =====
-- The rounds that the two loops of process_response in module/az.c need.
use dysk.Base.{
  Bytes, ap, arith, eq_ℤ, if◌then◌else◌, ltb, neg, negsuc, not, pos, refl, some, suc, zero, ℕ, ℤ,
  ◌+◌, ◌<◌, ◌≡◌, ◌≤◌,
}
use dysk.Http.{HttpResponse, advance, next_line, header_line, length_loop, body_loop}

advance-gt : (idx : ℕ) (cut : ℤ) → idx < advance idx cut
advance-gt idx (pos cut) = omega arith
advance-gt idx (negsuc n) = omega arith

module _ (response : Bytes) (response_length : ℕ) where
  -- More rounds than there are bytes left do not change what the loop for the body finds.
  body_loop_enough :
      (fuel more : ℕ) (res : HttpResponse)
      → response_length ≤ res.idx + fuel
      → fuel ≤ more
      → body_loop more response response_length res ≡ body_loop fuel response response_length res
  unfolding body_loop
  body_loop_enough zero zero res h le = refl
  body_loop_enough zero (suc more) res h le = ground arith
  body_loop_enough (suc fuel) zero res h le = absurd (omega (arith, le))
  body_loop_enough (suc fuel) (suc more) res h le =
      let cut = (next_line response res.idx).0 in
      let rest =
        body_loop_enough fuel more (record res { idx = advance res.idx cut })
          (omega (arith, h, advance-gt res.idx cut)) (omega (arith, le)) in
      ap
        (λ later.
          if not (ltb res.idx response_length)
          then res
          else if eq_ℤ cut (pos 0)
          then record res { idx = res.idx + 2; body = some (res.idx + 2) }
          else later)
        rest

  -- Nor what the loop for the length of the body finds.
  length_loop_enough :
      (fuel more : ℕ) (res : HttpResponse)
      → response_length ≤ res.idx + fuel
      → fuel ≤ more
      → length_loop more response response_length res
        ≡ length_loop fuel response response_length res
  unfolding length_loop header_line
  length_loop_enough zero zero res h le = refl
  length_loop_enough zero (suc more) res h le = ground arith
  length_loop_enough (suc fuel) zero res h le = absurd (omega (arith, le))
  length_loop_enough (suc fuel) (suc more) res h le =
      let res' = header_line res (next_line response res.idx) in
      let rest =
        length_loop_enough fuel more res'
          (omega (arith, h, advance-gt res.idx (next_line response res.idx).0))
          (omega (arith, le)) in
      ap
        (λ later.
          if not (ltb res.idx response_length)
          then res
          else if not (eq_ℤ res'.content_length (neg 1))
          then res'
          else later)
        rest
