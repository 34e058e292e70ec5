-- ===== src/Def/Print.antt =====
-- dysk_def_to_buffer (module/dysk_bdd.c): the answer to a mount or a get, read back.
use mathlib.Core.List.{append_assoc}
use dysk.Text.Find.{c_str-append}
use dysk.Text.{c_str}
use dysk.Base.{
  Bool, Bytes, [], ap, arith, codes, false, if◌then◌else◌, length, refl, replicate, set, suc, true,
  ℕ, ◌++◌, ◌+◌, ◌-◌, ◌<◌, ◌==◌, ◌^◌, ◌∙◌, ◌∷◌, ◌≡◌,
}
use dysk.Def.{
  DyskDef, zeroed, Numerals, ok, dysk_def_to_buffer, dysk_def_from_buffer, vhd_from_buffer,
  scan_line, line_length,
}
use dysk.Def.Parse.{
  Fits, pad_to, field_reads, Request, IsValid, def_of, line_of, mode_of, head_lines, text_lines,
  print-Fits, from_buffer_reads,
}

c_str-pad_to : (max : ℕ) (s : Bytes) → Fits max s → c_str (pad_to max s) ≡ s
c_str-pad_to max s f =
    ap (λ n. c_str (s ++ replicate n 0)) {y = suc (max - length s - 1)} (omega (arith, f.short))
    ∙ c_str-append s (max - length s - 1) f.no_nul

mode_read_only :
    (w : Bool) → (if (if w then 0 else 1) == 0 then codes "RW" else codes "R") ≡ mode_of w
mode_read_only true = refl
mode_read_only false = refl

-- The definition of a mounted dysk.
abbrev pub mounted : Request → ℕ → ℕ → DyskDef
mounted r major minor = record (def_of r) { major = major; minor = minor }

module _ (nums : Numerals) where
  open nums use {print, scan, scan-print, print_first, print_digit}

  -- The answer in full: the fields up to the lease as in the request, then the major number, the
  -- minor number and the vhd flag, a line each.
  pub to_buffer-lines :
      (r : Request) (major minor : ℕ) (rest : Bytes)
      → IsValid r
      → dysk_def_to_buffer nums (mounted r major minor) ++ rest
        ≡ head_lines nums r (
            text_lines nums r
              (line_of (print major) (line_of (print minor) (line_of (print r.is_vhd) rest))))
  unfolding dysk_def_to_buffer
  to_buffer-lines r major minor rest v =
      rw
        (
          mode_read_only r.writable,
          c_str-pad_to _ r.device_name v.device_name,
          c_str-pad_to _ r.account_name v.account_name,
          c_str-pad_to _ r.sas v.sas,
          c_str-pad_to _ r.path v.path,
          c_str-pad_to _ r.host v.host,
          c_str-pad_to _ r.ip v.ip,
          c_str-pad_to _ r.lease_id v.lease_id,
        )
        (simp append_assoc)

  -- The vhd line that dysk_def_from_buffer scans after the lease: one digit of the number there.
  scan_line_first :
      (n : ℕ) (error : Bytes)
      → n < 2 ^ 64
      → (d : ℕ) × (tail : Bytes) × (print n ≡ (b'0' + d) ∷ tail)
        × (scan_line nums (pad_to line_length (print n)) 1 error ≡ ok d)
  scan_line_first n error h =
      let (d, tail, e, small) = print_first n in (d, tail, e, rw e (cut_line d tail small))
    where
      one_digit :
          (d : ℕ) (tail : Bytes)
          → c_str (set (pad_to line_length ((b'0' + d) ∷ tail)) 1 0) ≡ (b'0' + d) ∷ []
      one_digit d [] = unfold c_str in ground arith
      one_digit d (x ∷ xs) = unfold c_str in ground arith

      cut_line :
          (d : ℕ) (tail : Bytes)
          → d < 10
          → scan_line nums (pad_to line_length ((b'0' + d) ∷ tail)) 1 error ≡ ok d
      cut_line d tail small =
          unfold scan_line in
          rw (one_digit d tail, ← print_digit d small, scan-print d (omega arith)) refl

  -- What dysk_def_to_buffer writes for a mounted dysk, with any bytes behind it, parses as a mount
  -- request: every entry up to the lease reads back, and the first digit of the major number reads
  -- as the vhd flag. The vhd flag and the minor number that were written are not read.
  pub from_buffer-to_buffer :
      (r : Request) (major minor : ℕ) (rest : Bytes)
      → IsValid r
      → major < 2 ^ 31
      → (d : ℕ) × (tail : Bytes) × (print major ≡ (b'0' + d) ∷ tail)
        × (dysk_def_from_buffer nums
              (dysk_def_to_buffer nums (mounted r major minor) ++ rest)
              zeroed
            ≡ ok (record (def_of r) { is_vhd = d }))
  unfolding vhd_from_buffer
  from_buffer-to_buffer r major minor rest v small =
      let (d, tail, e, scanned) =
        scan_line_first major (codes "Can't determine vhd") (omega arith) in
      (
        d,
        tail,
        e,
        rw (to_buffer-lines r major minor rest v) (
            from_buffer_reads nums r _ v
            ∙ rw
                (
                  field_reads (print major) _ (codes "Can't determine vhd") line_length
                      (print-Fits nums major (omega arith)),
                  scanned,
                )
                refl),
      )
