-- ===== src/Pool.antt =====
-- The connection pool of module/az.c: connection_create, connection_pool_get, connection_pool_put
-- and connection_pool_teardown. A connection is an address. `connection_queue` is a kfifo of
-- MAX_CONNECTIONS pointers; `count` is an `unsigned int`. What kmalloc, sock_create and
-- `ops->connect` answer is a value of `Attempt`.
pub mod Leases
pub mod Failures
use dysk.Base.{
  Bool, List, Option, [], eq_ℤ, if◌then◌else◌, leb, length, ltb, neg, none, not, pos, some, ℕ, ℤ,
  ◌%◌, ◌++◌, ◌+◌, ◌-◌, ◌==◌, ◌^◌, ◌∷◌,
}

abbrev pub max_connections : ℕ
max_connections = 64

abbrev pub max_try_connect : ℕ
max_try_connect = 3

abbrev pub err_failed_connection : ℤ
err_failed_connection = neg 999

abbrev pub enomem : ℤ
enomem = neg 12

abbrev pub uint : ℕ
uint = 2 ^ 32

pub record ConnectionPool : Type 0 where
  pub connection_queue : List ℕ
  pub count : ℕ

pub data PutConnectionReason : Type 0 where
  connection_failed connection_ok : PutConnectionReason

-- The answers to one try: the address from kmalloc, sock_create's success, and the results of
-- the calls of `connect`, by the number of the attempt.
pub record Attempt : Type 0 where
  pub newcon : Option ℕ
  pub socket : Bool
  pub connect : ℕ → ℤ

-- How connection_create ends: with `*c` set, or torn down.
pub data Created : Type 0 where
  created : ℕ → ℤ → Created
  failed : ℤ → Created

-- The body of `while (connection_attempt <= MAX_TRY_CONNECT)`. Its last statement is `break`,
-- so the loop ends after its first round, also where the attempt was counted up.
unfoldable pub connect_round : ℕ → ℕ → ℤ → Created
connect_round newcon attempt success =
    if eq_ℤ success (pos 0)
    then created newcon success
    else if eq_ℤ success enomem
    then failed success
    else if attempt == max_try_connect
    then failed err_failed_connection
    else created newcon success

unfoldable pub connection_create : Attempt → Created
connection_create a = elim a.newcon [
  | none ↦ failed enomem
  | some newcon ↦ if not a.socket then failed enomem else connect_round newcon 1 (a.connect 1)
]

-- The tail of connection_pool_get, on what connection_create did: the pool, the result and `*c`.
unfoldable pub after_create : ConnectionPool → Created → ConnectionPool × ℤ × Option ℕ
after_create pool (failed success) = (pool, success, none)
after_create pool (created newcon success) =
    if eq_ℤ success (pos 0)
    then (record pool { count = (pool.count + 1) % uint }, success, some newcon)
    else (pool, success, some newcon)

-- kfifo_out of one pointer, or a new connection.
unfoldable pub connection_pool_get : Attempt → ConnectionPool → ConnectionPool × ℤ × Option ℕ
connection_pool_get a pool = elim pool.connection_queue [
  | c ∷ rest ↦ (record pool { connection_queue = rest }, pos 0, some c)
  | [] ↦
      if leb max_connections pool.count
      then (pool, enomem, none)
      else after_create pool (connection_create a)
]

-- kfifo_in of one pointer copies nothing into a full queue.
unfoldable pub connection_pool_put : ConnectionPool → ℕ → PutConnectionReason → ConnectionPool
connection_pool_put pool c connection_failed = record pool {
  count = (pool.count + uint - 1) % uint;
}
connection_pool_put pool c connection_ok =
    if ltb (length pool.connection_queue) max_connections
    then record pool { connection_queue = pool.connection_queue ++ c ∷ [] }
    else pool

-- The loop of connection_pool_teardown: the connections torn down, oldest first, and the pool.
unfoldable pub teardown_loop : List ℕ → List ℕ × List ℕ
teardown_loop [] = ([], [])
teardown_loop (c ∷ rest) = let (closed, left) = teardown_loop rest in (c ∷ closed, left)

unfoldable pub connection_pool_teardown : ConnectionPool → List ℕ × ConnectionPool
connection_pool_teardown pool =
    let (closed, left) = teardown_loop pool.connection_queue in
    (closed, record pool { connection_queue = left })
