-- ===== src/Commands/Overflow.antt =====
-- The size of the answer to a mount or a get, module/dysk_bdd.c, against the buffer `out` of
-- MAX_IN_OUT bytes that dysk_def_to_buffer prints into.
use dysk.Base.{Bytes, [], ap, arith, length, length-append, ℕ, ◌++◌, ◌+◌, ◌∷◌, ◌≡◌}
use dysk.Def.{Numerals, dysk_def_to_buffer}
use dysk.Def.Parse.{Request, IsValid, line_of, head_lines, text_lines, mount_request}
use dysk.Def.Print.{mounted, to_buffer-lines}
use dysk.Commands.{ok_line}

length-line_of : (s rest : Bytes) → length (line_of s rest) ≡ length s + 1 + length rest
length-line_of s rest = omega (arith, length-append s (b'\n' ∷ rest))

length-request_lines :
    (nums : Numerals) (r : Request) (rest : Bytes)
    → length (head_lines nums r (text_lines nums r rest))
      ≡ length (head_lines nums r (text_lines nums r [])) + length rest
length-request_lines nums r rest = simp length-line_of (omega arith)

-- The answer to a valid mount request is longer than the request by the printed major and minor
-- numbers and 5 bytes.
pub mount_answer-length :
    (nums : Numerals) (r : Request) (major minor : ℕ)
    → IsValid r
    → length (ok_line ++ dysk_def_to_buffer nums (mounted r major minor))
      ≡ length (mount_request nums r []) + length (nums.print major) + length (nums.print minor) + 5
mount_answer-length nums r major minor v =
    let numbers =
      line_of (nums.print major) (line_of (nums.print minor) (line_of (nums.print r.is_vhd) [])) in
    omega (
      arith,
      ap (length {A = ℕ}) (to_buffer-lines nums r major minor [] v),
      length-append (dysk_def_to_buffer nums (mounted r major minor)) [],
      length-request_lines nums r numbers,
      length-request_lines nums r (line_of (nums.print r.is_vhd) []),
      length-line_of (nums.print major)
          (line_of (nums.print minor) (line_of (nums.print r.is_vhd) [])),
      length-line_of (nums.print minor) (line_of (nums.print r.is_vhd) []),
    )
