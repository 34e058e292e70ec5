-- ===== src/Pool/Failures.antt =====
-- What a failed connect does to the pool of module/az.c.
use dysk.Base.{[], arith, eq_ℤ, false, none, pos, some, true, ℕ, ◌-◌, ◌<◌, ◌≡◌, ◌≢◌}
use dysk.Pool.{
  ConnectionPool, connection_failed, Attempt, connect_round, connection_create, after_create,
  connection_pool_get, connection_pool_put, max_connections, err_failed_connection, enomem, uint,
}

-- A try that reaches the server's address and is refused there, for lack of something else than
-- memory.
pub record IsRefused (a : Attempt) : Type 0 where
  pub newcon : ℕ
  pub allocated : a.newcon ≡ some newcon
  pub socket : a.socket ≡ true
  pub not_connected : eq_ℤ (a.connect 1) (pos 0) ≡ false
  pub not_memory : eq_ℤ (a.connect 1) enomem ≡ false

-- If the first connect is refused, connection_pool_get of an empty pool with room returns that
-- error, and yet hands out the connection, which `count` does not count. It makes no further
-- attempt, and does not return ERR_FAILED_CONNECTION unless connect itself did.
get_refused :
    (a : Attempt) (pool : ConnectionPool) (r : IsRefused a)
    → pool.connection_queue ≡ []
    → pool.count < max_connections
    → connection_pool_get a pool ≡ (pool, a.connect 1, some r.newcon)
unfolding connection_pool_get connection_create connect_round after_create
get_refused a pool r e h = ground (arith, r.allocated, r.socket, r.not_connected, r.not_memory)

-- No answer of kmalloc, sock_create and connect makes connection_pool_get return
-- ERR_FAILED_CONNECTION, if connect does not.
get-ne-failed_connection :
    (a : Attempt) (pool : ConnectionPool)
    → a.connect 1 ≢ err_failed_connection
    → (connection_pool_get a pool).1 ≢ err_failed_connection
unfolding connection_pool_get connection_create connect_round after_create
get-ne-failed_connection a pool ne = λ e. ground arith

-- The wrap-around: an empty pool that counts no connection hands out a connection by a refused
-- first connect; when that connection is put back as failed, `count` becomes 2 ^ 32 - 1, and from
-- then on every connection_pool_get is refused with -ENOMEM and changes nothing, whatever the
-- network does.
pub put_refused_exhausts :
    (a later : Attempt) (pool : ConnectionPool) (r : IsRefused a)
    → pool.connection_queue ≡ []
    → pool.count ≡ 0
    → let broken = connection_pool_put (connection_pool_get a pool).0 r.newcon connection_failed in
      (broken.count ≡ uint - 1) × (connection_pool_get later broken ≡ (broken, enomem, none))
put_refused_exhausts a later pool r e h =
    rw (get_refused a pool r e (omega arith)) (exhausted pool e h)
  where
    exhausted :
        (pool : ConnectionPool)
        → pool.connection_queue ≡ []
        → pool.count ≡ 0
        → let broken = connection_pool_put pool r.newcon connection_failed in
          (broken.count ≡ uint - 1) × (connection_pool_get later broken ≡ (broken, enomem, none))
    exhausted pool e h =
        unfold connection_pool_put connection_pool_get in (omega arith, ground arith)
