-- ===== src/Def.antt =====
-- `dysk_def` and its two translations for the endpoint, dysk_def_to_buffer and
-- dysk_def_from_buffer of module/dysk_bdd.c. Character arrays are byte lists of the declared
-- lengths (module/dysk_bdd.h). `buffer + idx` is the rest of the buffer behind what was read.
pub mod Print
pub mod Parse
pub mod Safety
use dysk.Text.{c_str, strncmp_eq, get_until}
use dysk.Base.{
  All, Bytes, Option, [], codes, drop, if◌then◌else◌, length, negsuc, none, pos, replicate, set,
  some, ℕ, ℤ, ◌++◌, ◌+◌, ◌<◌, ◌==◌, ◌^◌, ◌∷◌, ◌≡◌, ◌≤◌,
}

abbrev pub account_name_len : ℕ
account_name_len = 256

abbrev pub sas_len : ℕ
sas_len = 128

abbrev pub device_name_len : ℕ
device_name_len = 32

abbrev pub blob_path_len : ℕ
blob_path_len = 1024

abbrev pub host_len : ℕ
host_len = 512

abbrev pub ip_len : ℕ
ip_len = 32

abbrev pub lease_id_len : ℕ
lease_id_len = 64

abbrev pub line_length : ℕ
line_length = 32

pub record DyskDef : Type 0 where
  pub device_name : Bytes
  pub sector_count : ℕ
  pub read_only : ℕ
  pub account_name : Bytes
  pub sas : Bytes
  pub path : Bytes
  pub host : Bytes
  pub ip : Bytes
  pub lease_id : Bytes
  pub major : ℕ
  pub minor : ℕ
  pub is_vhd : ℕ

-- `memset(dd, 0, sizeof(dysk_def))`
abbrev pub zeroed : DyskDef
zeroed = record {
  device_name = replicate device_name_len 0;
  sector_count = 0;
  read_only = 0;
  account_name = replicate account_name_len 0;
  sas = replicate sas_len 0;
  path = replicate blob_path_len 0;
  host = replicate host_len 0;
  ip = replicate ip_len 0;
  lease_id = replicate lease_id_len 0;
  major = 0;
  minor = 0;
  is_vhd = 0;
}

-- sprintf and sscanf of `%lu` and `%d` at numbers that are not negative: what they print is
-- decimal digits, at most 20 of them for 64 bits, and they read back what they print.
pub record Numerals : Type 0 where
  pub print : ℕ → Bytes
  pub scan : Bytes → Option ℕ
  pub scan-print : (n : ℕ) → n < 2 ^ 64 → scan (print n) ≡ some n
  pub print-digits : (n : ℕ) → All (λ c. (b'0' ≤ c) × (c ≤ b'9')) (print n)
  pub length-print : (n : ℕ) → n < 2 ^ 64 → length (print n) ≤ 20
  pub print_digit : (n : ℕ) → n < 10 → print n ≡ (b'0' + n) ∷ []
  pub print_two : (n : ℕ) → 10 ≤ n → n < 100 → length (print n) ≡ 2
  pub print_four : (n : ℕ) → 1000 ≤ n → n < 10000 → length (print n) ≡ 4
  pub print_first : (n : ℕ) → (d : ℕ) × (rest : Bytes) × (print n ≡ (b'0' + d) ∷ rest) × (d < 10)

-- `n` of the source: the text "\n".
abbrev pub newline : Bytes
newline = b'\n' ∷ []

pub data Outcome {ℓ} (A : Type ℓ) : Type ℓ where
  ok : A → Outcome A
  fail : Bytes → Outcome A

infixl 5 ◌>>=◌
abbrev pub ◌>>=◌ {ℓ κ} : {A : Type ℓ} {B : Type κ} → Outcome A → (A → Outcome B) → Outcome B
ok a >>= f = f a
fail e >>= f = fail e

unfoldable pub after_cut : Bytes → Bytes → ℤ × Bytes → Outcome (Bytes × Bytes)
after_cut at error (pos k, dest) = ok (dest, drop (k + 1) at)
after_cut at error (negsuc _, dest) = fail error

-- One `get_until` of dysk_def_from_buffer with its test: the array afterwards, and `buffer + idx`
-- after `idx += cut + strlen(n)`.
unfoldable pub field : Bytes → Bytes → ℕ → Bytes → Outcome (Bytes × Bytes)
unfolding after_cut
field at dest max error = after_cut at error (get_until at newline dest max)

-- The test of a sscanf that must read one number.
unfoldable pub or_fail : Option ℕ → Bytes → Outcome ℕ
or_fail none error = fail error
or_fail (some n) error = ok n

module _ (nums : Numerals) where
  open nums use {print, scan}

  unfoldable pub dysk_def_to_buffer : DyskDef → Bytes
  dysk_def_to_buffer dd =
      (if dd.read_only == 0 then codes "RW" else codes "R")
      ++ (newline
          ++ (c_str dd.device_name
              ++ (newline
                  ++ (print dd.sector_count
                      ++ (newline
                          ++ (c_str dd.account_name
                              ++ (newline
                                  ++ (c_str dd.sas
                                      ++ (newline
                                          ++ (c_str dd.path
                                              ++ (newline
                                                  ++ (c_str dd.host
                                                      ++ (newline
                                                          ++ (c_str dd.ip
                                                            ++ (newline
                                                            ++ (c_str dd.lease_id
                                                            ++ (newline
                                                            ++ (print dd.major
                                                            ++ (newline
                                                            ++ (print dd.minor
                                                            ++ (newline
                                                            ++ (print dd.is_vhd
                                                            ++ newline))))))))))))))))))))))

  -- `line[at] = '\0'` and sscanf of one number.
  unfoldable pub scan_line : Bytes → ℕ → Bytes → Outcome ℕ
  unfolding or_fail
  scan_line line at error = or_fail (scan (c_str (set line at 0))) error

  -- The fields up to the sector count, and what is left of the buffer.
  unfoldable pub head_from_buffer : Bytes → DyskDef → Outcome (DyskDef × Bytes)
  head_from_buffer buffer dd = do
    (line, at) ←
        field buffer (replicate line_length 0) line_length (codes "Can't determine read/write flag")
    (name, at) ← field at dd.device_name device_name_len (codes "Can't determine deviceName")
    (count, at) ←
        field at (replicate line_length 0) line_length (codes "Can't determine sector count")
    sectors ← scan_line count 31 (codes "Can't determine sector count")
    ok (
      record dd {
        read_only = if strncmp_eq line (codes "RW") 2 then 0 else 1;
        device_name = name;
        sector_count = sectors;
      },
      at,
    )

  unfoldable pub texts_from_buffer : DyskDef × Bytes → Outcome (DyskDef × Bytes)
  texts_from_buffer (dd, at) = do
    (account, at) ← field at dd.account_name account_name_len (codes "Can't determine account name")
    (key, at) ← field at dd.sas sas_len (codes "Can't determine account key")
    (blob, at) ← field at dd.path blob_path_len (codes "Can't determine path")
    (host_name, at) ← field at dd.host host_len (codes "Can't determine host")
    (address, at) ← field at dd.ip ip_len (codes "Can't determine ip")
    (lease, at) ← field at dd.lease_id lease_id_len (codes "Can't determine lease")
    ok (
      record dd {
        account_name = account;
        sas = key;
        path = blob;
        host = host_name;
        ip = address;
        lease_id = lease;
      },
      at,
    )

  unfoldable pub vhd_from_buffer : DyskDef × Bytes → Outcome DyskDef
  vhd_from_buffer (dd, at) = do
    (line, at) ← field at (replicate line_length 0) line_length (codes "Can't determine vhd")
    vhd ← scan_line line 1 (codes "Can't determine vhd")
    ok (record dd { is_vhd = vhd })

  unfoldable pub dysk_def_from_buffer : Bytes → DyskDef → Outcome DyskDef
  dysk_def_from_buffer buffer dd =
      head_from_buffer buffer dd >>= texts_from_buffer >>= vhd_from_buffer
