-- ===== src/Tests/TextCases.antt =====
-- get_until and the mount request of module/dysk_bdd.c at a concrete request.
use dysk.Base.{Bytes, [], arith, codes, length-replicate, replicate, true, ℕ, ◌++◌, ◌+◌, ◌∷◌, ◌≡◌}
use dysk.Def.{zeroed, ok, dysk_def_from_buffer, dysk_def_to_buffer, newline}
use dysk.Def.Parse.{Request, IsValid, def_of, mount_request, from_buffer-mount_request}
use dysk.Def.Print.{mounted, from_buffer-to_buffer}
use dysk.Def.Safety.{IsTerminated, from_buffer-IsTerminated}
use dysk.Text.{get_until}
use dysk.Text.Find.{IsSafe, get_until-IsSafe}
use dysk.Tests.Decimal.{decimal}

abbrev mount_sample : Request
mount_sample = record {
  writable = true;
  device_name = codes "dysk01";
  sector_count = 8;
  account_name = codes "acct";
  sas = codes "sig";
  path = codes "/c/disk";
  host = codes "h";
  ip = codes "10.0.0.4";
  lease_id = codes "l1";
  is_vhd = 1;
}

mount_sample-IsValid : IsValid mount_sample
mount_sample-IsValid = omega arith

from_buffer-mount_request_example :
    dysk_def_from_buffer decimal (mount_request decimal mount_sample (0 ∷ 0 ∷ [])) zeroed
    ≡ ok (def_of mount_sample)
from_buffer-mount_request_example =
    from_buffer-mount_request decimal mount_sample (0 ∷ 0 ∷ []) mount_sample-IsValid

from_buffer-to_buffer_example :
    (d : ℕ) × (tail : Bytes) × (decimal.print 252 ≡ (b'0' + d) ∷ tail)
    × (dysk_def_from_buffer decimal
          (dysk_def_to_buffer decimal (mounted mount_sample 252 8) ++ [])
          zeroed
        ≡ ok (record (def_of mount_sample) { is_vhd = d }))
from_buffer-to_buffer_example =
    from_buffer-to_buffer decimal mount_sample 252 8 [] mount_sample-IsValid (omega arith)

from_buffer-IsTerminated_example : IsTerminated (def_of mount_sample)
from_buffer-IsTerminated_example =
    from_buffer-IsTerminated decimal (mount_request decimal mount_sample []) (def_of mount_sample)
      (from_buffer-mount_request decimal mount_sample [] mount_sample-IsValid)

get_until-IsSafe_example :
    IsSafe (codes "ab\ncd") (replicate 8 0) 8 (get_until (codes "ab\ncd") newline (replicate 8 0) 8)
get_until-IsSafe_example =
    get_until-IsSafe (codes "ab\ncd") newline (replicate 8 0) 8 (omega arith)
      (length-replicate {A = ℕ} 8 0)
