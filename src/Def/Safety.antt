-- ===== src/Def/Safety.antt =====
-- dysk_def_from_buffer (module/dysk_bdd.c) on any bytes: the arrays it fills, and its refusals.
use mathlib.Core.Path.{subst}
use dysk.Text.{get_until}
use dysk.Text.Find.{IsSafe, get_until-IsSafe}
use dysk.Base.{
  Bytes, arith, codes, get_or, get_or-replicate, length, length-replicate, negsuc, pos, replicate,
  ℕ, ℤ, ◌-◌, ◌<◌, ◌∙◌, ◌≡◌,
}
use dysk.Def.{
  DyskDef, zeroed, Numerals, newline, Outcome, ok, fail, ◌>>=◌, after_cut, field, scan_line,
  head_from_buffer, texts_from_buffer, vhd_from_buffer, dysk_def_from_buffer, account_name_len,
  sas_len, device_name_len, blob_path_len, host_len, ip_len, lease_id_len, line_length,
}

-- A character array of `n` bytes that ends in a NUL.
abbrev pub IsArray : ℕ → Bytes → Type 0
IsArray n s = (length s ≡ n) × (get_or s (n - 1) 0 ≡ 0)

pub record IsTerminated (dd : DyskDef) : Type 0 where
  pub device_name : IsArray device_name_len dd.device_name
  pub account_name : IsArray account_name_len dd.account_name
  pub sas : IsArray sas_len dd.sas
  pub path : IsArray blob_path_len dd.path
  pub host : IsArray host_len dd.host
  pub ip : IsArray ip_len dd.ip
  pub lease_id : IsArray lease_id_len dd.lease_id

abbrev pub Ensures {ℓ} : {A : Type 0} → (A → Type ℓ) → Outcome A → Type ℓ
Ensures P (ok a) = P a
Ensures P (fail e) = Unit

Ensures->>= {ℓ κ} :
    {A B : Type 0} (P : A → Type ℓ) (Q : B → Type κ) (m : Outcome A) (f : A → Outcome B)
    → Ensures P m
    → ((a : A) → P a → Ensures Q (f a))
    → Ensures Q (m >>= f)
Ensures->>= P Q (ok a) f h k = k a h
Ensures->>= P Q (fail e) f h k = tt

Ensures-any : {A : Type 0} (m : Outcome A) → Ensures (λ a. Unit {0}) m
Ensures-any (ok a) = tt
Ensures-any (fail e) = tt

replicate-IsArray : (n : ℕ) → 0 < n → IsArray n (replicate n 0)
replicate-IsArray n h = (length-replicate n 0, get_or-replicate n (n - 1) 0)

field-IsArray :
    (at dest error : Bytes) (max : ℕ)
    → IsArray max dest
    → Ensures (λ r. IsArray max r.0) (field at dest max error)
unfolding field
field-IsArray at dest error max h =
    cut_IsArray (get_until at newline dest max)
      (get_until-IsSafe at newline dest max (omega arith) h.0)
  where
    cut_IsArray :
        (r : ℤ × Bytes)
        → IsSafe at dest max r
        → Ensures (λ r. IsArray max r.0) (after_cut at error r)
    cut_IsArray (pos k, to) s = (s.0, s.1 ∙ h.1)
    cut_IsArray (negsuc k, to) s = tt

Ensures-field {κ} :
    {B : Type 0} (Q : B → Type κ) (at dest error : Bytes) (max : ℕ) (f : Bytes × Bytes → Outcome B)
    → IsArray max dest
    → ((r : Bytes × Bytes) → IsArray max r.0 → Ensures Q (f r))
    → Ensures Q (field at dest max error >>= f)
Ensures-field Q at dest error max f h k =
    Ensures->>= (λ r. IsArray max r.0) Q (field at dest max error) f
      (field-IsArray at dest error max h) k

Ensures-each {κ} :
    {A B : Type 0} (Q : B → Type κ) (m : Outcome A) (f : A → Outcome B)
    → ((a : A) → Ensures Q (f a))
    → Ensures Q (m >>= f)
Ensures-each Q m f k = Ensures->>= (λ _. Unit {0}) Q m f (Ensures-any m) (λ a _. k a)

abbrev DoneTerminated : DyskDef × Bytes → Type 0
DoneTerminated r = IsTerminated r.0

module _ (nums : Numerals) where
  head-IsTerminated :
      (buffer : Bytes) (dd : DyskDef)
      → IsTerminated dd
      → Ensures DoneTerminated (head_from_buffer nums buffer dd)
  unfolding head_from_buffer
  head-IsTerminated buffer dd t =
      Ensures-each DoneTerminated
        (field buffer (replicate line_length 0) line_length
          (codes "Can't determine read/write flag"))
        _
        λ a.
          Ensures-field DoneTerminated a.1 dd.device_name (codes "Can't determine deviceName")
            device_name_len _ t.device_name
            λ b hb.
              Ensures-each DoneTerminated
                (field b.1 (replicate line_length 0) line_length
                  (codes "Can't determine sector count"))
                _
                λ c.
                  Ensures-each DoneTerminated
                    (scan_line nums c.0 31 (codes "Can't determine sector count")) _
                    λ d. record {
                      device_name = hb;
                      account_name = t.account_name;
                      sas = t.sas;
                      path = t.path;
                      host = t.host;
                      ip = t.ip;
                      lease_id = t.lease_id;
                    }

  texts-IsTerminated :
      (dd : DyskDef) (at : Bytes)
      → IsTerminated dd
      → Ensures DoneTerminated (texts_from_buffer nums (dd, at))
  unfolding texts_from_buffer
  texts-IsTerminated dd at t =
      Ensures-field DoneTerminated at dd.account_name (codes "Can't determine account name")
        account_name_len _ t.account_name
        λ a ha.
          Ensures-field DoneTerminated a.1 dd.sas (codes "Can't determine account key") sas_len _
            t.sas
            λ b hb.
              Ensures-field DoneTerminated b.1 dd.path (codes "Can't determine path") blob_path_len
                _ t.path
                λ c hc.
                  Ensures-field DoneTerminated c.1 dd.host (codes "Can't determine host") host_len _
                    t.host
                    λ d hd.
                      Ensures-field DoneTerminated d.1 dd.ip (codes "Can't determine ip") ip_len _
                        t.ip
                        λ e he.
                          Ensures-field DoneTerminated e.1 dd.lease_id
                            (codes "Can't determine lease") lease_id_len _ t.lease_id
                            λ f hf. record {
                              device_name = t.device_name;
                              account_name = ha;
                              sas = hb;
                              path = hc;
                              host = hd;
                              ip = he;
                              lease_id = hf;
                            }

  vhd-IsTerminated :
      (dd : DyskDef) (at : Bytes)
      → IsTerminated dd
      → Ensures IsTerminated (vhd_from_buffer nums (dd, at))
  unfolding vhd_from_buffer
  vhd-IsTerminated dd at t =
      Ensures-each IsTerminated
        (field at (replicate line_length 0) line_length (codes "Can't determine vhd")) _
        λ a. Ensures-each IsTerminated (scan_line nums a.0 1 (codes "Can't determine vhd")) _ λ n.
          record {
            device_name = t.device_name;
            account_name = t.account_name;
            sas = t.sas;
            path = t.path;
            host = t.host;
            ip = t.ip;
            lease_id = t.lease_id;
          }

  zeroed-IsTerminated : IsTerminated zeroed
  zeroed-IsTerminated = record {
    device_name = replicate-IsArray device_name_len (omega arith);
    account_name = replicate-IsArray account_name_len (omega arith);
    sas = replicate-IsArray sas_len (omega arith);
    path = replicate-IsArray blob_path_len (omega arith);
    host = replicate-IsArray host_len (omega arith);
    ip = replicate-IsArray ip_len (omega arith);
    lease_id = replicate-IsArray lease_id_len (omega arith);
  }

  -- Whatever bytes the user sends, if dysk_def_from_buffer succeeds on a zeroed definition, then
  -- every character array of the definition has its length and ends in a NUL.
  pub from_buffer-IsTerminated :
      (buffer : Bytes) (dd : DyskDef)
      → dysk_def_from_buffer nums buffer zeroed ≡ ok dd
      → IsTerminated dd
  from_buffer-IsTerminated buffer dd e = subst (Ensures IsTerminated) e all_parts
    where
      all_parts : Ensures IsTerminated (dysk_def_from_buffer nums buffer zeroed)
      all_parts =
          unfold dysk_def_from_buffer in
          Ensures->>= DoneTerminated IsTerminated
            (head_from_buffer nums buffer zeroed >>= texts_from_buffer nums) (vhd_from_buffer nums)
            (Ensures->>= DoneTerminated DoneTerminated (head_from_buffer nums buffer zeroed)
              (texts_from_buffer nums) (head-IsTerminated buffer zeroed zeroed-IsTerminated)
              (λ r t. texts-IsTerminated r.0 r.1 t))
            (λ r t. vhd-IsTerminated r.0 r.1 t)
