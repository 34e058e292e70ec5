-- ===== src/Pool/Leases.antt =====
-- The pool of module/az.c with the connections that requests hold: as long as connect succeeds or
-- fails for lack of memory, `count` is what is idle plus what is held, at most MAX_CONNECTIONS.

use dysk.Base.{
  List, Option, [], arith, eq_ℤ, if◌then◌else◌, inl, inr, length, length-append, none, pos, some,
  true, ℕ, ◌++◌, ◌+◌, ◌==◌, ◌∷◌, ◌≡◌, ◌≤◌, ◌⊎◌,
}
use dysk.Pool.{
  ConnectionPool, PutConnectionReason, connection_failed, connection_ok, Attempt, connect_round,
  connection_create, after_create, connection_pool_get, connection_pool_put, max_connections,
  enomem,
}

-- `held` are the connections that requests hold.
pub record Leased : Type 0 where
  pub pool : ConnectionPool
  pub held : List ℕ

pub record Inv (l : Leased) : Type 0 where
  pub counted : l.pool.count ≡ length l.pool.connection_queue + length l.held
  pub bounded : l.pool.count ≤ max_connections

abbrev pub without : ℕ → List ℕ → List ℕ
without c [] = []
without c (x ∷ xs) = if x == c then xs else x ∷ without c xs

abbrev pub Holds : ℕ → List ℕ → Type 0
Holds c [] = ⊥
Holds c (x ∷ xs) = (x ≡ c) ⊎ Holds c xs

-- The answers under which a get keeps the count.
abbrev pub Connects : Attempt → Type 0
Connects a = (eq_ℤ (a.connect 1) (pos 0) ≡ true) ⊎ (eq_ℤ (a.connect 1) enomem ≡ true)

-- A request that gets a connection holds it.
abbrev pub hold : List ℕ → Option ℕ → List ℕ
hold held none = held
hold held (some c) = c ∷ held

pub data Step (l : Leased) : Leased → Type 0 where
  get :
      (a : Attempt) (m : Leased)
      → Connects a
      → m ≡ record {
        pool = (connection_pool_get a l.pool).0;
        held = hold l.held (connection_pool_get a l.pool).2;
      }
      → Step l m
  put :
      (c : ℕ) (why : PutConnectionReason) (m : Leased)
      → Holds c l.held
      → m ≡ record { pool = connection_pool_put l.pool c why; held = without c l.held }
      → Step l m

pub data Reach (l : Leased) : Leased → Type 0 where
  here : Reach l l
  next : {m n : Leased} → Reach l m → Step m n → Reach l n

length-without : (c : ℕ) (xs : List ℕ) → Holds c xs → length (without c xs) + 1 ≡ length xs
length-without c [] h = absurd h
length-without c (x ∷ xs) (inl e) = ground arith
length-without c (x ∷ xs) (inr h) = ground (arith, length-without c xs h)

get-Inv :
    (a : Attempt) (l : Leased)
    → Connects a
    → Inv l
    → Inv (record {
      pool = (connection_pool_get a l.pool).0;
      held = hold l.held (connection_pool_get a l.pool).2;
    })
unfolding connection_pool_get connection_create connect_round after_create
get-Inv a l k v = ground arith

put-Inv :
    (c : ℕ) (why : PutConnectionReason) (l : Leased)
    → Holds c l.held
    → Inv l
    → Inv (record { pool = connection_pool_put l.pool c why; held = without c l.held })
unfolding connection_pool_put
put-Inv c connection_failed l m v = ground (arith, length-without c l.held m)
put-Inv c connection_ok l m v =
    ground (arith, length-without c l.held m, length-append l.pool.connection_queue (c ∷ []))

pub Step-Inv : {l m : Leased} → Step l m → Inv l → Inv m
Step-Inv {l} (get a m k e) v = rw e (get-Inv a l k v)
Step-Inv {l} (put c why m h e) v = rw e (put-Inv c why l h v)

-- Over any sequence of gets, in which connect succeeds or fails for lack of memory, and of puts of
-- held connections, `count` stays the number of idle and held connections together, and at most 64.
pub Reach-Inv : {l m : Leased} → Reach l m → Inv l → Inv m
Reach-Inv here v = v
Reach-Inv (next r s) v = Step-Inv s (Reach-Inv r v)

-- So the queue is never full when a held connection comes back, and keeps the connection: it is
-- handed out again when those before it are.
put_ok-appends :
    (l : Leased) (c : ℕ)
    → Inv l
    → Holds c l.held
    → (connection_pool_put l.pool c connection_ok).connection_queue
      ≡ l.pool.connection_queue ++ c ∷ []
unfolding connection_pool_put
put_ok-appends l c v m = ground (arith, length-without c l.held m)
