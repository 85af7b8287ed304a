-- ===== src/Pool/Examples.antt =====
-- A pool whose first item is closed, and the theorems on the pool applied to it.
use robot_server.Common.{ℕ, ◌+◌, ◌≡◌, ◌⊎◌, refl, false, Option, none, some, List, [], ◌∷◌}
use robot_server.Common.Outcome.{ok}
use robot_server.Pool.{
  connect_close, connect_off, connect_on, MySqlConnectionItem, MySqlConnectionPool, Attempt,
  no_connection, connected, connect_item, get_connection_from_pool, return_connection_to_pool,
  returned_ok,
}
use robot_server.Pool.Take.{NoneOff, refresh, IsFirst, get_connection_from_pool_lem}
use robot_server.Pool.Return.{given_back, return-get, IsReturned, return_connection_to_pool_lem}

abbrev pool_of : Option ℕ → MySqlConnectionPool
pool_of c = record {
  conn_queue =
      record { conn = c; status = connect_close }
      ∷ record { conn = some 1; status = connect_off }
      ∷ record { conn = some 2; status = connect_on }
      ∷ [];
  pool_lock = false;
}

abbrev pool : MySqlConnectionPool
pool = pool_of none

abbrev attempt : ℕ → Attempt
attempt i = connected (10 + i)

abbrev refused : ℕ → Attempt
refused i = no_connection

get_connection_from_pool_lem_example :
    (NoneOff pool.conn_queue
      × (get_connection_from_pool attempt pool
          ≡ some (none, record pool { conn_queue = refresh attempt 0 pool.conn_queue })))
    ⊎ ((conn : Option ℕ) × (items : List MySqlConnectionItem) × (get_connection_from_pool attempt
            pool
          ≡ some (conn, record pool { conn_queue = items }))
        × IsFirst attempt 0 pool.conn_queue items conn)
get_connection_from_pool_lem_example = get_connection_from_pool_lem attempt pool refl

abbrev items_behind : (ℕ → Attempt) → List MySqlConnectionItem
items_behind a =
    connect_item (a 0) (record { conn = none; status = connect_close })
    ∷ record { conn = some 1; status = connect_on }
    ∷ record { conn = some 2; status = connect_on }
    ∷ []

abbrev first : (a : ℕ → Attempt) → IsFirst a 0 pool.conn_queue (items_behind a) (some 1)
first a = record {
  before = record { conn = none; status = connect_close } ∷ [];
  item = record { conn = some 1; status = connect_off };
  after = record { conn = some 2; status = connect_on } ∷ [];
  split = refl;
  passed = (refl, tt);
  status = refl;
  conn_lem = refl;
  items_lem = refl;
}

abbrev back : List MySqlConnectionItem
back = given_back attempt pool refl (items_behind attempt) 1 (first attempt)

return-get_example :
    (return_connection_to_pool 1 (record pool { conn_queue = items_behind attempt })
      ≡ ok (returned_ok (record pool { conn_queue = back })))
    × ((conn : Option ℕ) × (items : List MySqlConnectionItem) × (get_connection_from_pool attempt
            (record pool { conn_queue = back })
          ≡ some (conn, record pool { conn_queue = items }))
        × IsFirst attempt 0 back items conn)
unfolding connect_item
return-get_example =
    return-get attempt pool refl (items_behind attempt) 1 (first attempt) attempt
      ((10, refl, refl), tt)

-- Without a connection for the first item.
return_connection_to_pool_lem_example :
    IsReturned 1
      (record pool { conn_queue = items_behind refused })
      attempt
      2
      (return_connection_to_pool 1 (record pool { conn_queue = items_behind refused }))
return_connection_to_pool_lem_example =
    return_connection_to_pool_lem 1 2 (record pool { conn_queue = items_behind refused }) attempt
      refl
