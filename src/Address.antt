-- ===== src/Address.antt =====
-- inet_addr of module/dysk_utils.c: an IPv4 address in dots as an unsigned int, on a little-endian
-- machine. Variables that sscanf does not reach keep what they held, which is an argument.
pub mod Dotted
use dysk.Base.{
  Bool, Bytes, List, [], drop, false, if◌then◌else◌, negsuc, none, pos, some, ℕ, ℤ, ◌%◌, ◌*◌, ◌+◌,
  ◌-◌, ◌==◌, ◌∷◌,
}
use dysk.Text.{c_str}
use dysk.Http.{scan_int}

abbrev pub starts_dot : Bytes → Bool
starts_dot [] = false
starts_dot (c ∷ cs) = c == b'.'

-- `sscanf(ip, "%d.%d.%d.%d", &a, &b, &c, &d)` on the variables in a list.
unfoldable pub scan_ints : Bytes → List ℤ → List ℤ
scan_ints s [] = []
scan_ints s (v ∷ vs) = elim (scan_int s) [
  | none ↦ v ∷ vs
  | some (n, rest) ↦
      let more = scan_ints (drop 1 rest) vs in n ∷ (if starts_dot rest then more else vs)
]

-- An int stored in a char.
abbrev pub as_char : ℤ → ℕ
as_char (pos n) = n % 256
as_char (negsuc n) = 255 - n % 256

-- `*(unsigned int *)addr`
abbrev pub from_bytes : List ℤ → ℕ
from_bytes [] = 0
from_bytes (v ∷ vs) = as_char v + 256 * from_bytes vs

unfoldable pub inet_addr : List ℤ → Bytes → ℕ
inet_addr variables ip = from_bytes (scan_ints (c_str ip) variables)
