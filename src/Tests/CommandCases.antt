-- ===== src/Tests/CommandCases.antt =====
-- The commands of module/dysk_bdd.c on a node with two dysks, and a mount of a third.
use dysk.Base.{
  Bytes, [], ap, arith, codes, false, length, neg, negsuc, none, pos, refl, some, suc, take, true,
  zero, ℕ, ℤ, ◌++◌, ◌+◌, ◌∷◌, ◌≡◌, ◌≤◌,
}
use dysk.Text.{strncmp_eq}
use dysk.Def.{zeroed, device_name_len, dysk_def_to_buffer}
use dysk.Def.Parse.{Request, mount_request, pad_to}
use dysk.Def.Print.{mounted}
use dysk.Worker.{dysk_ok, dysk_deleting}
use dysk.Registry.{Dysk, Registry, Hooked, dysk_exist, dysk_catastrophe}
use dysk.Registry.Names.{Unique}
use dysk.Commands.{
  copy_from_user, max_in_out, Kernel, returned, ok_line, err_line, dysk_list, dysk_mount, dysk_get,
  dysk_unmount, unmount_dysk, ep_ioctl, err_get_does_not_exist,
}
use dysk.Commands.Answers.{Works, mount-get, unmount-get, ep_ioctl-Unique}
use dysk.Registry.Catastrophe.{dysk_catastrophe-exist}
use dysk.Commands.Overflow.{mount_answer-length}
use dysk.Commands.Listing.{IsListing, dysk_list-IsListing}
use dysk.Tests.Decimal.{decimal}

abbrev pub named : Bytes → Dysk
named name = record {
  def = record zeroed { device_name = pad_to device_name_len name };
  status = dysk_ok;
}

abbrev pub two_dysks : Registry
two_dysks = record {
  list = named (codes "b") ∷ named (codes "a") ∷ [];
  deleting = [];
  torn_down = [];
}

abbrev pub hooked : Hooked
hooked = record { errno = pos 0; major = 252; minor = 8 }

-- io_hook without memory.
abbrev pub not_hooked : Hooked
not_hooked = record { errno = neg 12; major = 0; minor = 0 }

abbrev working : Bytes → Kernel
working buffer = record {
  kmalloc_fails = false;
  del_kmalloc_fails = false;
  user_memory = some buffer;
  copy_to_user_fails = false;
  az_init = pos 0;
  io_hook = hooked;
}

take-short : (n : ℕ) (s : Bytes) → length s ≤ n → take n s ≡ s
take-short zero [] h = refl
take-short zero (x ∷ s) h = absurd (omega arith)
take-short (suc n) [] h = refl
take-short (suc n) (x ∷ s) h = ap (◌∷◌ x) (take-short n s (omega arith))

working-Works : (buffer : Bytes) → length buffer ≤ max_in_out → Works (working buffer) buffer
unfolding copy_from_user
working-Works buffer short = record {
  alloc = refl;
  del_alloc = refl;
  read = ap some (take-short max_in_out buffer short);
  write = refl;
  init = refl;
  hook = refl;
}

abbrev pub errno_text : ℤ → Bytes
errno_text (pos n) = decimal.print n
errno_text (negsuc n) = b'-' ∷ decimal.print (n + 1)

abbrev request_c : Request
request_c = record {
  writable = true;
  device_name = codes "c";
  sector_count = 8;
  account_name = codes "acct";
  sas = codes "sig";
  path = codes "/c/disk";
  host = codes "h";
  ip = codes "10.0.0.4";
  lease_id = codes "l1";
  is_vhd = 1;
}

pub two_dysks-Unique : Unique two_dysks.list
unfolding dysk_exist strncmp_eq
two_dysks-Unique = (refl, (refl, tt))

pub c_not_mounted : dysk_exist (pad_to device_name_len (codes "c")) two_dysks.list ≡ none
unfolding dysk_exist strncmp_eq
c_not_mounted = refl

pub b_mounted :
    dysk_exist (pad_to device_name_len (codes "b")) two_dysks.list ≡ some (named (codes "b"))
unfolding dysk_exist strncmp_eq
b_mounted = refl

a_not_b :
    strncmp_eq
      (pad_to device_name_len (codes "b"))
      (pad_to device_name_len (codes "a"))
      device_name_len
    ≡ false
unfolding strncmp_eq
a_not_b = refl

mount-get_example :
    let out = ok_line ++ dysk_def_to_buffer decimal (mounted request_c 252 8) in
    let (reply, reg') =
      dysk_mount decimal errno_text (working (mount_request decimal request_c [])) two_dysks in
    (reply ≡ returned (pos (length out)) (some out))
    × (dysk_get decimal (working (codes "c\n")) reg' ≡ reply)
unfolding decimal
mount-get_example =
    mount-get decimal errno_text request_c [] [] (working (mount_request decimal request_c []))
      (working (codes "c\n")) two_dysks (omega arith) (working-Works _ (omega arith))
      (working-Works _ (omega arith)) c_not_mounted

unmount-get_example :
    let out = err_line ++ err_get_does_not_exist (pad_to device_name_len (codes "b")) in
    let (reply, reg') = dysk_unmount (working (codes "b\n")) two_dysks in
    (reply ≡ returned (pos 3) (some ok_line))
    × (dysk_get decimal (working (codes "b\n")) reg' ≡ returned (pos (length out)) (some out))
unmount-get_example =
    unmount-get decimal (codes "b") [] [] (named (codes "b")) (working (codes "b\n"))
      (working (codes "b\n")) two_dysks (omega arith) (working-Works _ (omega arith))
      (working-Works _ (omega arith)) two_dysks-Unique b_mounted

ep_ioctl-Unique_example :
    Unique (ep_ioctl decimal errno_text unmount_dysk (working (codes "b\n")) two_dysks).1.list
ep_ioctl-Unique_example =
    ep_ioctl-Unique decimal errno_text unmount_dysk (working (codes "b\n")) two_dysks
      two_dysks-Unique

dysk_list-IsListing_example :
    (count : ℕ) × (out : Bytes) × (dysk_list (working []) two_dysks
      ≡ returned (pos (length out)) (some out))
    × IsListing ok_line two_dysks.list count out
dysk_list-IsListing_example = dysk_list-IsListing (working []) two_dysks refl refl

mount_answer-length_example :
    length (ok_line ++ dysk_def_to_buffer decimal (mounted request_c 252 8))
    ≡ length (mount_request decimal request_c [])
      + length (decimal.print 252)
      + length (decimal.print 8)
      + 5
mount_answer-length_example = mount_answer-length decimal request_c 252 8 (omega arith)

dysk_catastrophe-exist_example :
    (reg' : Registry) × (dysk_catastrophe
        (pad_to device_name_len (codes "b"))
        (true ∷ true ∷ false ∷ [])
        two_dysks
      ≡ some reg')
    × (dysk_exist (pad_to device_name_len (codes "b")) reg'.list ≡ none)
    × (reg'.deleting ≡ record (named (codes "b")) { status = dysk_deleting } ∷ [])
dysk_catastrophe-exist_example =
    dysk_catastrophe-exist (pad_to device_name_len (codes "b")) 2 [] (named (codes "b")) two_dysks
      two_dysks-Unique b_mounted
