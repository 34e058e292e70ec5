-- ===== src/Address/Dotted.antt =====
-- inet_addr of module/dysk_utils.c on an address in four parts.
use mathlib.Core.List.{append-nil}
use dysk.Base.{
  Bytes, List, [], ap, arith, drop, false, if◌then◌else◌, pos, refl, some, sym, ℕ, ℤ, ◌*◌, ◌++◌,
  ◌+◌, ◌<◌, ◌∙◌, ◌∷◌, ◌≡◌,
}
use dysk.Text.{c_str}
use dysk.Http.{scan_int, skip_spaces, starts_number}
use dysk.Http.Scan.{AllDigits, value, scan_int-append}
use dysk.Address.{from_bytes, scan_ints, starts_dot, inet_addr}

-- A part of an address: its digits.
pub record Octet : Type 0 where
  pub d : ℕ
  pub ds : Bytes

abbrev pub octet_text : Octet → Bytes
octet_text o = o.d ∷ o.ds

abbrev pub octet_value : Octet → ℕ
octet_value o = value 0 (o.d ∷ o.ds)

pub record IsOctet (o : Octet) : Type 0 where
  pub digits_only : AllDigits (o.d ∷ o.ds)
  pub small : octet_value o < 256

abbrev pub dotted : Octet → Octet → Octet → Octet → Bytes
dotted a b c d =
    octet_text a ++ (b'.' ∷ (octet_text b ++ (b'.' ∷ (octet_text c ++ (b'.' ∷ octet_text d)))))

scan_ints-octet :
    (o : Octet) (t : Bytes) (v : ℤ) (vs : List ℤ)
    → IsOctet o
    → starts_number t ≡ false
    → scan_ints (octet_text o ++ t) (v ∷ vs)
      ≡ pos (octet_value o) ∷ (if starts_dot t then scan_ints (drop 1 t) vs else vs)
unfolding scan_ints
scan_ints-octet o t v vs i e =
    let number : scan_int (octet_text o ++ t) ≡ some (pos (octet_value o), t) =
      unfold scan_int skip_spaces in
      scan_int-append o.d o.ds t i.digits_only e (omega (arith, i.small)) in
    rw (number, scan_ints) refl

scan_ints-dotted :
    (a b c d : Octet) (v₁ v₂ v₃ v₄ : ℤ)
    → IsOctet a
    → IsOctet b
    → IsOctet c
    → IsOctet d
    → scan_ints (dotted a b c d) (v₁ ∷ v₂ ∷ v₃ ∷ v₄ ∷ [])
      ≡ pos (octet_value a) ∷ pos (octet_value b) ∷ pos (octet_value c) ∷ pos (octet_value d) ∷ []
scan_ints-dotted a b c d v₁ v₂ v₃ v₄ ia ib ic id' =
    let last : scan_ints (octet_text d) (v₄ ∷ []) ≡ pos (octet_value d) ∷ [] =
      ap (λ t. scan_ints t (v₄ ∷ [])) (sym (append-nil (octet_text d)))
      ∙ scan_ints-octet d [] v₄ [] id' refl in
    scan_ints-octet a _ v₁ (v₂ ∷ v₃ ∷ v₄ ∷ []) ia refl
    ∙ ap (◌∷◌ (pos (octet_value a))) (
        scan_ints-octet b _ v₂ (v₃ ∷ v₄ ∷ []) ib refl
        ∙ ap (◌∷◌ (pos (octet_value b)))
            (scan_ints-octet c _ v₃ (v₄ ∷ []) ic refl ∙ ap (◌∷◌ (pos (octet_value c))) last))

-- Of an address of four parts that are less than 256, the first is the lowest byte of the result.
inet_addr-dotted :
    (a b c d : Octet) (ip : Bytes) (v₁ v₂ v₃ v₄ : ℤ)
    → IsOctet a
    → IsOctet b
    → IsOctet c
    → IsOctet d
    → c_str ip ≡ dotted a b c d
    → inet_addr (v₁ ∷ v₂ ∷ v₃ ∷ v₄ ∷ []) ip
      ≡ octet_value a + 256 * (octet_value b + 256 * (octet_value c + 256 * octet_value d))
unfolding inet_addr
inet_addr-dotted a b c d ip v₁ v₂ v₃ v₄ ia ib ic id' e =
    ap from_bytes (
      ap (λ s. scan_ints s (v₁ ∷ v₂ ∷ v₃ ∷ v₄ ∷ [])) e
      ∙ scan_ints-dotted a b c d v₁ v₂ v₃ v₄ ia ib ic id')
    ∙ omega (arith, ia.small, ib.small, ic.small, id'.small)
