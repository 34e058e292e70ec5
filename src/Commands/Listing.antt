-- ===== src/Commands/Listing.antt =====
-- The answer of dysk_list, module/dysk_bdd.c, against the list of all names.
use mathlib.Core.List.{append-nil, append_assoc}
use dysk.Base.{
  Bool-cases, Bytes, List, [], ap, arith, false, inl, inr, length, length-append, ltb, ltb→lt, pos,
  refl, some, suc, sym, take, ℕ, ◌++◌, ◌+◌, ◌-◌, ◌<◌, ◌∙◌, ◌∷◌, ◌≡◌, ◌≤◌, ◌⊎◌,
}
use dysk.Text.{c_str}
use dysk.Def.{newline}
use dysk.Registry.{Dysk, Registry}
use dysk.Commands.{Kernel, returned, max_in_out, ok_line, respond, list_loop, dysk_list}

-- The names of dysks, a line each.
abbrev pub lines : List Dysk → Bytes
lines [] = []
lines (d ∷ ds) = (c_str d.def.device_name ++ newline) ++ lines ds

-- `out` is `start` with the names of the first `count` dysks, and there is no room for another.
pub record IsListing (start : Bytes) (ds : List Dysk) (count : ℕ) (out : Bytes) : Type 0 where
  pub text : out ≡ start ++ lines (take count ds)
  pub fits : length out ≤ max_in_out - 1
  pub full :
      (count ≡ length ds) ⊎ (max_in_out - 1 < length start + length (lines (take (suc count) ds)))

ltb-no : (a b : ℕ) → ltb a b ≡ false → b ≤ a
ltb-no a b h = ground arith

list_loop-IsListing :
    (ds : List Dysk) (start : Bytes)
    → length start ≤ max_in_out - 1
    → (count : ℕ) × IsListing start ds count (list_loop ds start)
unfolding list_loop
list_loop-IsListing [] start h =
    (0, record { text = sym (append-nil start); fits = h; full = inl refl })
list_loop-IsListing (d ∷ ds) start h =
    let line = c_str d.def.device_name ++ newline in
    elim (Bool-cases (ltb (max_in_out - 1) (length line + length start))) [
      | inl over ↦ rw over (
        0,
        record {
          text = sym (append-nil start);
          fits = h;
          full = inr (omega (arith, ltb→lt _ _ over, length-append line []));
        },
      )
      | inr room ↦
          let (count, rest) =
            list_loop-IsListing ds (start ++ line)
              (omega (arith, length-append start line, ltb-no _ _ room)) in
          rw room (
            suc count,
            record {
              text = rest.text ∙ append_assoc start line (lines (take count ds));
              fits = rest.fits;
              full = elim rest.full [
                | inl all ↦ inl (ap suc all)
                | inr more ↦ inr (
                    omega (
                      arith,
                      length-append start line,
                      length-append line (lines (take (suc count) ds)),
                    ))
              ];
            },
          )
    ]

-- dysk_list answers "OK" and the names of the first dysks of the list, each alone on its line, with
-- the length of this text as its result: as many names as keep the text within 2047 bytes, so that it
-- fits the buffer with its NUL, and all of them if they fit.
pub dysk_list-IsListing :
    (k : Kernel) (reg : Registry)
    → k.kmalloc_fails ≡ false
    → k.copy_to_user_fails ≡ false
    → (count : ℕ) × (out : Bytes) × (dysk_list k reg ≡ returned (pos (length out)) (some out))
      × IsListing ok_line reg.list count out
unfolding dysk_list respond
dysk_list-IsListing k reg alloc copied =
    let (count, listing) = list_loop-IsListing reg.list ok_line (omega arith) in
    (count, list_loop reg.list ok_line, rw (alloc, copied) refl, listing)
