-- ===== src/Http/Status.antt =====
-- The status line, as process_response of module/az.c reads it.
use dysk.Base.{Bytes, arith, length, pos, refl, some, ℕ, ◌++◌, ◌+◌, ◌<◌, ◌^◌, ◌∷◌, ◌≡◌}
use dysk.Http.Lines.{line_of, IsLine, padded, c_str-padded, status-line_of}
use dysk.Http.Scan.{NonSpace, AllDigits, value, scan_status-append}
use dysk.Http.Loops.{not_zero}
use dysk.Http.{no_response, scan_word, status_text, status_line, read_status}

-- A status line: the version, the code and the reason.
abbrev pub status_words : (v : ℕ) (version : Bytes) (d : ℕ) (code reason : Bytes) → Bytes
status_words v version d code reason = v ∷ (version ++ b' ' ∷ d ∷ (code ++ b' ' ∷ reason))

-- What is read of it.
abbrev pub reason_text : Bytes → Bytes → Bytes
reason_text status reason = status_text (padded status) (scan_word (b' ' ∷ reason)).0

pub status_line-status_words :
    (v : ℕ) (version : Bytes) (d : ℕ) (code reason rest : Bytes) (received : ℕ)
    → NonSpace (v ∷ version)
    → AllDigits (d ∷ code)
    → value 0 (d ∷ code) < 2 ^ 31
    → let status = status_words v version d code reason in
      IsLine 510 status
      → status_line (line_of status rest) (record no_response { bytes_received = received })
        ≡ some (record no_response {
          bytes_received = received;
          status_code = pos (value 0 (d ∷ code));
          status = reason_text status reason;
          idx = 0 + length status + 2;
        })
unfolding status_line read_status
status_line-status_words v version d code reason rest received is_version is_code range is_line =
    let status = status_words v version d code reason in
    rw (status-line_of status rest is_line) (
      rw (c_str-padded status is_line.no_nul (omega (arith, is_line.short))) (
        rw (scan_status-append v version d code reason (pos 0) is_version is_code range)
          (rw (not_zero (length status) (omega arith)) refl)))
