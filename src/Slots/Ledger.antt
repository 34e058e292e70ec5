-- ===== src/Slots/Ledger.antt =====
-- The slot tracker of module/dysk_bdd.c over a history of mounts and unmounts: `count` against the
-- bitmap, and the slots that mounted dysks hold.
use dysk.Base.{
  ==_iff, All, Bool, Bool-cases, List, [], ap, arith, false, get_or, if◌then◌else◌, inl, inr,
  length, pos, sym, true, ℕ, ◌<◌, ◌==◌, ◌∙◌, ◌∷◌, ◌≡◌, ◌≢◌, ◌⊎◌,
}
use mathlib.Core.Path.{subst}
use dysk.Slots.{Dyskslist, max_dysks, track_bits, find_set_dysk_slots, free_dysk_slot}
use dysk.Slots.Counts.{
  Counts, IsSetIn, find_set-Counts, find_set-granted, elsewhere-Counts, elsewhere-held,
  find_set-held, free-Counts, free-held, granted, granted-IsSetIn, granted_fresh, popcount,
}

-- A mounted dysk holds the slot that find_set_dysk_slots gave it.
pub record Ledger : Type 0 where
  pub table : Dyskslist
  pub live : List ℕ

abbrev pub remove : ℕ → List ℕ → List ℕ
remove p [] = []
remove p (x ∷ xs) = if x == p then xs else x ∷ remove p xs

abbrev pub Distinct : List ℕ → Type 0
Distinct [] = Unit
Distinct (x ∷ xs) = All (λ y. x ≢ y) xs × Distinct xs

abbrev pub IsLive : ℕ → List ℕ → Type 0
IsLive p [] = ⊥
IsLive p (x ∷ xs) = (x ≡ p) ⊎ IsLive p xs

-- One mount, unmount, or mount that fails in io_hook after it took its slot, or any change of the
-- memory behind the array, where `head` is. Fewer than 512 slots are in use before a mount.
pub data Step (l : Ledger) : Ledger → Type 0 where
  hook :
      (p : ℕ) (m : Ledger)
      → popcount l.table.bits track_bits < track_bits
      → (find_set_dysk_slots l.table).1 ≡ pos p
      → m ≡ record { table = (find_set_dysk_slots l.table).0; live = p ∷ l.live }
      → Step l m
  leak :
      (p : ℕ) (m : Ledger)
      → popcount l.table.bits track_bits < track_bits
      → (find_set_dysk_slots l.table).1 ≡ pos p
      → m ≡ record { table = (find_set_dysk_slots l.table).0; live = l.live }
      → Step l m
  unhook :
      (p : ℕ) (m : Ledger)
      → IsLive p l.live
      → m ≡ record { table = free_dysk_slot l.table p; live = remove p l.live }
      → Step l m
  elsewhere :
      (bits : List Bool) (m : Ledger)
      → ((i : ℕ) → i < track_bits → get_or bits i false ≡ get_or l.table.bits i false)
      → max_dysks < length bits
      → m ≡ record { table = record l.table { bits = bits }; live = l.live }
      → Step l m

pub data History (l : Ledger) : Ledger → Type 0 where
  here : History l l
  next : {m n : Ledger} → History l m → Step m n → History l n

pub record Inv (l : Ledger) : Type 0 where
  pub counts : Counts l.table
  pub held : All (IsSetIn l.table) l.live
  pub distinct : Distinct l.live

All-remove {κ} : (P : ℕ → Type κ) (p : ℕ) (ps : List ℕ) → All P ps → All P (remove p ps)
All-remove P p [] h = tt
All-remove P p (x ∷ ps) h = elim (x == p) as (λ b. All P (if b then ps else x ∷ remove p ps)) [
  | true ↦ h.1
  | false ↦ (h.0, All-remove P p ps h.1)
]

Distinct-remove : (p : ℕ) (ps : List ℕ) → Distinct ps → Distinct (remove p ps)
Distinct-remove p [] d = tt
Distinct-remove p (x ∷ ps) d =
    elim (x == p) as (λ b. Distinct (if b then ps else x ∷ remove p ps)) [
      | true ↦ d.1
      | false ↦ (All-remove (λ y. x ≢ y) p ps d.0, Distinct-remove p ps d.1)
    ]

-- What is left after the removal of `p` from distinct slots is not `p`.
remove_ne : (p : ℕ) (ps : List ℕ) → Distinct ps → All (λ y. p ≢ y) (remove p ps)
remove_ne p [] d = tt
remove_ne p (x ∷ ps) d = elim (Bool-cases (x == p)) [
  | inl e ↦ rw e (subst (λ z. All (λ y. z ≢ y) ps) ((==_iff x p).0 e) d.0)
  | inr e ↦ rw e ((λ q. ground arith), remove_ne p ps d.1)
]

IsLive-IsSetIn :
    (s : Dyskslist) (p : ℕ) (ps : List ℕ) → IsLive p ps → All (IsSetIn s) ps → IsSetIn s p
IsLive-IsSetIn s p [] v h = absurd v
IsLive-IsSetIn s p (x ∷ ps) (inl e) h = subst (IsSetIn s) e h.0
IsLive-IsSetIn s p (x ∷ ps) (inr v) h = IsLive-IsSetIn s p ps v h.1

pos-injective : {a b : ℕ} → pos a ≡ pos b → a ≡ b
pos-injective e = ground arith

pub Step-Inv : {l m : Ledger} → Step l m → Inv l → Inv m
Step-Inv {l} (hook p m room got e) v =
    let s = l.table in
    let same : granted s v.counts room ≡ p =
      pos-injective (ap (λ r. r.1) (sym (find_set-granted s v.counts room)) ∙ got) in
    rw e (record {
      counts = find_set-Counts s v.counts room;
      held = (
        subst (IsSetIn (find_set_dysk_slots s).0) same (granted-IsSetIn s v.counts room),
        find_set-held s v.counts room l.live v.held,
      );
      distinct = (
        subst (λ z. All (λ y. z ≢ y) l.live) same (granted_fresh s v.counts room l.live v.held),
        v.distinct,
      );
    })
Step-Inv {l} (leak p m room got e) v = rw e (record {
  counts = find_set-Counts l.table v.counts room;
  held = find_set-held l.table v.counts room l.live v.held;
  distinct = v.distinct;
})
Step-Inv {l} (unhook p m live e) v =
    let set_p = IsLive-IsSetIn l.table p l.live live v.held in
    rw e (record {
      counts = free-Counts l.table v.counts p set_p;
      held =
          free-held l.table v.counts p set_p (remove p l.live)
            (All-remove (IsSetIn l.table) p l.live v.held) (remove_ne p l.live v.distinct);
      distinct = Distinct-remove p l.live v.distinct;
    })
Step-Inv {l} (elsewhere bits m same sized e) v = rw e (record {
  counts = elsewhere-Counts l.table bits same sized v.counts;
  held = elsewhere-held l.table bits same sized l.live v.held;
  distinct = v.distinct;
})

-- Over any history of mounts with fewer than 512 slots in use, failed mounts and unmounts, between
-- which the memory behind the array may change in any way, that starts from a state with the
-- invariant: the slots of the mounted dysks stay distinct and below 512, their bits stay set, and
-- `count` stays one below the number of set bits of the array.
pub History-Inv : {l m : Ledger} → History l m → Inv l → Inv m
History-Inv here v = v
History-Inv (next r st) v = Step-Inv st (History-Inv r v)
