-- ===== src/Def/Parse.antt =====
-- dysk_def_from_buffer (module/dysk_bdd.c) against the mount request of module/ioctl_cmds.md.
use dysk.Text.Find.{Without, get_until-append, get_until-missing, c_str-append}
use dysk.Text.{c_str, strncmp_eq}
use dysk.Base.{
  All, Bool, Bytes, [], ap, arith, codes, drop-replicate, drop_append_cons, false, get_or,
  get_or-append_right, get_or-replicate, if◌then◌else◌, length, refl, replicate, set, set-get_or,
  suc, sym, take, true, ℕ, ◌++◌, ◌-◌, ◌<◌, ◌^◌, ◌∙◌, ◌∷◌, ◌≡◌, ◌≤◌,
}
use dysk.Def.{
  DyskDef, zeroed, Numerals, ok, fail, ◌>>=◌, field, scan_line, head_from_buffer, texts_from_buffer,
  vhd_from_buffer, dysk_def_from_buffer, account_name_len, sas_len, device_name_len, blob_path_len,
  host_len, ip_len, lease_id_len, line_length,
}

-- A text that fits an array of `max` bytes with its NUL, and holds neither NUL nor newline.
pub record Fits (max : ℕ) (s : Bytes) : Type 0 where
  pub short : length s < max
  pub one_line : Without b'\n' s
  pub no_nul : Without 0 s

-- The array that holds a text.
abbrev pub pad_to : ℕ → Bytes → Bytes
pad_to n s = s ++ replicate (n - length s) 0

pub field_reads :
    (s rest error : Bytes) (max : ℕ)
    → Fits max s
    → field (s ++ b'\n' ∷ rest) (replicate max 0) max error ≡ ok (pad_to max s, rest)
unfolding field
field_reads s rest error max f =
    rw (get_until-append b'\n' s rest (replicate max 0) max f.one_line f.short)
      (cc (drop-replicate {A = ℕ} (length s) max 0, drop_append_cons s rest b'\n'))

pub field_misses :
    (at dest error : Bytes) (max : ℕ)
    → Without b'\n' (take max at)
    → field at dest max error ≡ fail error
unfolding field
field_misses at dest error max h = rw (get_until-missing b'\n' at dest max h)

-- A mount request: the texts and numbers that the user sends.
pub record Request : Type 0 where
  pub writable : Bool
  pub device_name : Bytes
  pub sector_count : ℕ
  pub account_name : Bytes
  pub sas : Bytes
  pub path : Bytes
  pub host : Bytes
  pub ip : Bytes
  pub lease_id : Bytes
  pub is_vhd : ℕ

pub record IsValid (r : Request) : Type 0 where
  pub device_name : Fits device_name_len r.device_name
  pub sector_count : r.sector_count < 2 ^ 64
  pub account_name : Fits account_name_len r.account_name
  pub sas : Fits sas_len r.sas
  pub path : Fits blob_path_len r.path
  pub host : Fits host_len r.host
  pub ip : Fits ip_len r.ip
  pub lease_id : Fits lease_id_len r.lease_id
  pub is_vhd : r.is_vhd < 10

-- The definition that a request asks for. `major` and `minor` are set by io_hook.
abbrev pub def_of : Request → DyskDef
def_of r = record {
  device_name = pad_to device_name_len r.device_name;
  sector_count = r.sector_count;
  read_only = if r.writable then 0 else 1;
  account_name = pad_to account_name_len r.account_name;
  sas = pad_to sas_len r.sas;
  path = pad_to blob_path_len r.path;
  host = pad_to host_len r.host;
  ip = pad_to ip_len r.ip;
  lease_id = pad_to lease_id_len r.lease_id;
  major = 0;
  minor = 0;
  is_vhd = r.is_vhd;
}

-- One entry of a message, and what follows it.
abbrev pub line_of : Bytes → Bytes → Bytes
line_of s rest = s ++ b'\n' ∷ rest

abbrev pub mode_of : Bool → Bytes
mode_of writable = if writable then codes "RW" else codes "R"

mode_of-Fits : (w : Bool) → Fits line_length (mode_of w)
mode_of-Fits true = record { short = omega arith; one_line = omega arith; no_nul = omega arith }
mode_of-Fits false = record { short = omega arith; one_line = omega arith; no_nul = omega arith }

strncmp-mode_of : (w : Bool) → strncmp_eq (pad_to line_length (mode_of w)) (codes "RW") 2 ≡ w
unfolding strncmp_eq
strncmp-mode_of true = refl
strncmp-mode_of false = refl

-- A NUL written behind a text leaves the text.
c_str-set :
    (max : ℕ) (s : Bytes) (at : ℕ)
    → Fits max s
    → length s ≤ at
    → c_str (set (pad_to max s) at 0) ≡ s
c_str-set max s at f l =
    ap c_str (ap (set (pad_to max s) at) (sym padding) ∙ set-get_or (pad_to max s) at 0)
    ∙ ap (λ n. c_str (s ++ replicate n 0)) {y = suc (max - length s - 1)} (omega (arith, f.short))
    ∙ c_str-append s (max - length s - 1) f.no_nul
  where
    padding : get_or (pad_to max s) at 0 ≡ 0
    padding =
        get_or-append_right s (replicate (max - length s) 0) at 0 l
        ∙ get_or-replicate (max - length s) (at - length s) 0

module _ (nums : Numerals) where
  open nums use {print, scan, scan-print, print-digits, length-print, print_digit}

  -- The entries of the request in the order of module/ioctl_cmds.md.
  abbrev pub head_lines : Request → Bytes → Bytes
  head_lines r rest =
      line_of (mode_of r.writable) (line_of r.device_name (line_of (print r.sector_count) rest))

  abbrev pub text_lines : Request → Bytes → Bytes
  text_lines r rest =
      line_of r.account_name
        (line_of r.sas (line_of r.path (line_of r.host (line_of r.ip (line_of r.lease_id rest)))))

  abbrev pub mount_request : Request → Bytes → Bytes
  mount_request r rest = head_lines r (text_lines r (line_of (print r.is_vhd) rest))

  digits-Without :
      (b : ℕ) (s : Bytes) → (b < b'0') → All (λ c. (b'0' ≤ c) × (c ≤ b'9')) s → Without b s
  digits-Without b [] lt h = tt
  digits-Without b (c ∷ cs) lt h = (omega (arith, h.0.0), digits-Without b cs lt h.1)

  pub print-Fits : (n : ℕ) → n < 2 ^ 64 → Fits line_length (print n)
  print-Fits n h = record {
    short = omega (arith, length-print n h);
    one_line = digits-Without b'\n' (print n) (omega arith) (print-digits n);
    no_nul = digits-Without 0 (print n) (omega arith) (print-digits n);
  }

  -- A number in a line of 32 bytes reads back.
  scan_line_short :
      (n at : ℕ) (error : Bytes)
      → n < 2 ^ 64
      → length (print n) ≤ at
      → scan_line nums (pad_to line_length (print n)) at error ≡ ok n
  unfolding scan_line
  scan_line_short n at error h l =
      rw (c_str-set line_length (print n) at (print-Fits n h) l) (rw (scan-print n h))

  head_reads :
      (r : Request) (rest : Bytes) (dd : DyskDef)
      → IsValid r
      → dd.device_name ≡ replicate device_name_len 0
      → head_from_buffer nums (head_lines r rest) dd
        ≡ ok (
          record dd {
            read_only = if r.writable then 0 else 1;
            device_name = pad_to device_name_len r.device_name;
            sector_count = r.sector_count;
          },
          rest,
        )
  unfolding head_from_buffer
  head_reads r rest dd v e =
      rw
        (
          e,
          field_reads (mode_of r.writable) _ (codes "Can't determine read/write flag") line_length
              (mode_of-Fits r.writable),
          field_reads r.device_name _ (codes "Can't determine deviceName") device_name_len
              v.device_name,
          field_reads (print r.sector_count) rest (codes "Can't determine sector count") line_length
              (print-Fits r.sector_count v.sector_count),
          scan_line_short r.sector_count 31 (codes "Can't determine sector count") v.sector_count
              (omega (arith, length-print r.sector_count v.sector_count)),
          strncmp-mode_of r.writable,
        )
        refl

  texts_reads :
      (r : Request) (rest : Bytes) (dd : DyskDef)
      → IsValid r
      → dd.account_name ≡ replicate account_name_len 0
      → dd.sas ≡ replicate sas_len 0
      → dd.path ≡ replicate blob_path_len 0
      → dd.host ≡ replicate host_len 0
      → dd.ip ≡ replicate ip_len 0
      → dd.lease_id ≡ replicate lease_id_len 0
      → texts_from_buffer nums (dd, text_lines r rest)
        ≡ ok (
          record dd {
            account_name = pad_to account_name_len r.account_name;
            sas = pad_to sas_len r.sas;
            path = pad_to blob_path_len r.path;
            host = pad_to host_len r.host;
            ip = pad_to ip_len r.ip;
            lease_id = pad_to lease_id_len r.lease_id;
          },
          rest,
        )
  unfolding texts_from_buffer
  texts_reads r rest dd v e₁ e₂ e₃ e₄ e₅ e₆ =
      rw
        (
          e₁,
          e₂,
          e₃,
          e₄,
          e₅,
          e₆,
          field_reads r.account_name _ (codes "Can't determine account name") account_name_len
              v.account_name,
          field_reads r.sas _ (codes "Can't determine account key") sas_len v.sas,
          field_reads r.path _ (codes "Can't determine path") blob_path_len v.path,
          field_reads r.host _ (codes "Can't determine host") host_len v.host,
          field_reads r.ip _ (codes "Can't determine ip") ip_len v.ip,
          field_reads r.lease_id rest (codes "Can't determine lease") lease_id_len v.lease_id,
        )
        refl

  -- Everything up to the lease of a valid request reads back, whatever follows.
  pub from_buffer_reads :
      (r : Request) (rest : Bytes)
      → IsValid r
      → dysk_def_from_buffer nums (head_lines r (text_lines r rest)) zeroed
        ≡ vhd_from_buffer nums (record (def_of r) { is_vhd = 0 }, rest)
  unfolding dysk_def_from_buffer
  from_buffer_reads r rest v =
      ap (λ o. o >>= texts_from_buffer nums >>= vhd_from_buffer nums)
        (head_reads r (text_lines r rest) zeroed v refl)
      ∙ ap (λ o. o >>= vhd_from_buffer nums) (texts_reads r rest _ v refl refl refl refl refl refl)

  -- A valid mount request, written as module/ioctl_cmds.md says and with any bytes behind it,
  -- parses to the definition that it asks for.
  pub from_buffer-mount_request :
      (r : Request) (rest : Bytes)
      → IsValid r
      → dysk_def_from_buffer nums (mount_request r rest) zeroed ≡ ok (def_of r)
  unfolding vhd_from_buffer
  from_buffer-mount_request r rest v =
      from_buffer_reads r _ v
      ∙ rw
          (
            field_reads (print r.is_vhd) rest (codes "Can't determine vhd") line_length
                (print-Fits r.is_vhd (omega (arith, v.is_vhd))),
            scan_line_short r.is_vhd 1 (codes "Can't determine vhd") (omega (arith, v.is_vhd))
                (rw (print_digit r.is_vhd v.is_vhd) (omega arith)),
          )
          refl
