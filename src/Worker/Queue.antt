-- ===== src/Worker/Queue.antt =====
-- The task list of module/dysk_worker.c as a list of tasks with distinct addresses.
use mathlib.Core.Option.{some-injective}
use dysk.Base.{
  All, Bool-cases, List, [], arith, inl, inr, length, some, sym, ℕ, ◌++◌, ◌+◌, ◌==◌, ◌∙◌, ◌∷◌, ◌≡◌,
  ◌≢◌, ◌⊎◌,
}
use dysk.Worker.{Task, list_del, find_task, first_id, next_id}

-- A task with address `i` is listed.
abbrev pub Has : ℕ → List Task → Type 0
Has i [] = ⊥
Has i (t ∷ ts) = (t.id ≡ i) ⊎ Has i ts

abbrev pub Distinct : List Task → Type 0
Distinct [] = Unit
Distinct (t ∷ ts) = All (λ u. u.id ≢ t.id) ts × Distinct ts

pub find_task-Has :
    (i : ℕ) (q : List Task) → Has i q → (w : Task) × (find_task i q ≡ some w) × (w.id ≡ i)
find_task-Has i [] h = absurd h
find_task-Has i (t ∷ ts) (inl e) = (t, ground arith, e)
find_task-Has i (t ∷ ts) (inr h) = elim (Bool-cases (t.id == i)) [
  | inl e ↦ (t, rw e, ground arith)
  | inr e ↦ let (w, f, g) = find_task-Has i ts h in (w, rw e f, g)
]

pub Has-append : (i : ℕ) (q r : List Task) → Has i q → Has i (q ++ r)
Has-append i [] r h = absurd h
Has-append i (t ∷ ts) r (inl e) = inl e
Has-append i (t ∷ ts) r (inr h) = inr (Has-append i ts r h)

pub Has-list_del : (i j : ℕ) (q : List Task) → j ≢ i → Has j q → Has j (list_del i q)
Has-list_del i j [] ne h = absurd h
Has-list_del i j (t ∷ ts) ne h = elim (Bool-cases (t.id == i)) [
  | inl e ↦ rw e (later h (ground arith))
  | inr e ↦ rw e (kept (Has-list_del i j ts ne) h)
]
  where
    later : Has j (t ∷ ts) → t.id ≡ i → Has j ts
    later (inl e) k = absurd (ne (sym e ∙ k))
    later (inr g) k = g

    kept : (Has j ts → Has j (list_del i ts)) → Has j (t ∷ ts) → Has j (t ∷ list_del i ts)
    kept rec (inl e) = inl e
    kept rec (inr g) = inr (rec g)

pub list_del-append : (i : ℕ) (q r : List Task) → Has i q → list_del i (q ++ r) ≡ list_del i q ++ r
list_del-append i [] r h = absurd h
list_del-append i (t ∷ ts) r (inl e) = ground arith
list_del-append i (t ∷ ts) r (inr h) = ground (arith, list_del-append i ts r h)

pub length-list_del : (i : ℕ) (q : List Task) → Has i q → length (list_del i q) + 1 ≡ length q
length-list_del i [] h = absurd h
length-list_del i (t ∷ ts) (inl e) = ground arith
length-list_del i (t ∷ ts) (inr h) = ground (arith, length-list_del i ts h)

pub All-list_del {κ} : (P : Task → Type κ) (i : ℕ) (q : List Task) → All P q → All P (list_del i q)
All-list_del P i [] h = tt
All-list_del P i (t ∷ ts) h = elim (Bool-cases (t.id == i)) [
  | inl e ↦ rw e h.1
  | inr e ↦ rw e (h.0, All-list_del P i ts h.1)
]

pub Distinct-list_del : (i : ℕ) (q : List Task) → Distinct q → Distinct (list_del i q)
Distinct-list_del i [] d = tt
Distinct-list_del i (t ∷ ts) d = elim (Bool-cases (t.id == i)) [
  | inl e ↦ rw e d.1
  | inr e ↦ rw e (All-list_del (λ u. u.id ≢ t.id) i ts d.0, Distinct-list_del i ts d.1)
]

All-ne-Has : (i j : ℕ) (q : List Task) → All (λ u. u.id ≢ i) q → Has j q → j ≢ i
All-ne-Has i j [] a h = absurd h
All-ne-Has i j (t ∷ ts) a (inl e) = λ k. a.0 (e ∙ k)
All-ne-Has i j (t ∷ ts) a (inr h) = All-ne-Has i j ts a.1 h

-- The task behind `i` in the list is another one.
pub next_id-Has : (i j : ℕ) (q : List Task) → Distinct q → next_id i q ≡ some j → Has j q × (j ≢ i)
next_id-Has i j [] d e = cc
next_id-Has i j (t ∷ ts) d e = elim (Bool-cases (t.id == i)) [
  | inl same ↦ behind ts d.0 (rw same at e) (ground arith)
  | inr other ↦ let (h, ne) = next_id-Has i j ts d.1 (rw other at e) in (inr h, ne)
]
  where
    behind :
        (us : List Task)
        → All (λ u. u.id ≢ t.id) us
        → first_id us ≡ some j
        → t.id ≡ i
        → Has j (t ∷ us) × (j ≢ i)
    behind [] a e k = cc
    behind (u ∷ us) a e k =
        (inr (inl (some-injective u.id j e)), λ l. a.0 (some-injective u.id j e ∙ l ∙ sym k))

pub first_id-Has : (j : ℕ) (q : List Task) → first_id q ≡ some j → Has j q
first_id-Has j [] e = cc
first_id-Has j (t ∷ ts) e = inl (some-injective t.id j e)
