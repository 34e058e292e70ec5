-- ===== src/Tests/PoolCases.antt =====
-- The connection pool of module/az.c with concrete answers of the network.
use dysk.Base.{[], arith, inl, neg, none, pos, refl, some, true, ◌-◌, ◌∷◌, ◌≡◌}
use dysk.Pool.{
  ConnectionPool, connection_failed, Attempt, connection_pool_get, connection_pool_put,
  connection_create, connect_round, after_create, enomem, uint,
}
use dysk.Pool.Failures.{IsRefused, put_refused_exhausts}
use dysk.Pool.Leases.{Leased, Inv, Reach, here, next, get, Reach-Inv}

abbrev new_pool : ConnectionPool
new_pool = record { connection_queue = []; count = 0 }

-- -111 is -ECONNREFUSED.
abbrev refused : Attempt
refused = record { newcon = some 5; socket = true; connect = λ n. neg 111 }

abbrev answered : Attempt
answered = record { newcon = some 5; socket = true; connect = λ n. pos 0 }

abbrev refused-IsRefused : IsRefused refused
refused-IsRefused = record {
  newcon = 5;
  allocated = refl;
  socket = refl;
  not_connected = refl;
  not_memory = refl;
}

put_refused_exhausts_example :
    let broken = connection_pool_put (connection_pool_get refused new_pool).0 5 connection_failed in
    (broken.count ≡ uint - 1) × (connection_pool_get answered broken ≡ (broken, enomem, none))
put_refused_exhausts_example =
    put_refused_exhausts refused answered new_pool refused-IsRefused refl refl

abbrev start : Leased
start = record { pool = new_pool; held = [] }

abbrev one_held : Leased
one_held = record { pool = record { connection_queue = []; count = 1 }; held = 5 ∷ [] }

one_get : Reach start one_held
unfolding connection_pool_get after_create connection_create connect_round
one_get = next here (get answered one_held (inl refl) refl)

start-Inv : Inv start
start-Inv = omega arith

Reach-Inv_example : Inv one_held
Reach-Inv_example = Reach-Inv one_get start-Inv
