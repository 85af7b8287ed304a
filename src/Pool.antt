-- ===== src/Pool.antt =====
-- ApolloSqlOperator.c with `CONNECTIONPOOL_SELECT == TYPE_APOLLO_MYSQL_CONNECTIONPOOL`: the pool of
-- connections that the program has of its own. A connection is its `thread_id`.
pub mod Take
pub mod Return
pub mod Call
pub mod Query
pub mod Supply
pub mod Statements
pub mod Leak
pub mod Lists
mod Examples
mod Runs
use robot_server.Common.{
  ℕ, zero, suc, Bool, true, false, Option, none, some, List, [], ◌∷◌, ◌==◌, if◌then◌else◌,
  replicate,
}
use robot_server.Common.Outcome.{Outcome, ok, fault, ◌>>=◌}

abbrev pub connection_pool_size : ℕ
connection_pool_size = 50

-- `ConnectionType`
pub data ConnectionType : Type 0 where
  connect_close : ConnectionType
  connect_on : ConnectionType
  connect_off : ConnectionType

-- `MySqlConnectionItem`; `conn` is none for the null pointer.
pub record MySqlConnectionItem : Type 0 where
  pub conn : Option ℕ
  pub status : ConnectionType

-- `MySqlConnectionPool`, and whether its mutex is held.
pub record MySqlConnectionPool : Type 0 where
  pub conn_queue : List MySqlConnectionItem
  pub pool_lock : Bool

-- What `mysql_init` and `mysql_real_connect` give: no handle, no connection, or a connection.
pub data Attempt : Type 0 where
  no_handle : Attempt
  no_connection : Attempt
  connected : ℕ → Attempt

-- An item whose connection is made.
unfoldable pub connect_item : Attempt → MySqlConnectionItem → MySqlConnectionItem
connect_item no_handle item = record item { conn = none }
connect_item no_connection item = record { conn = none; status = connect_close }
connect_item (connected id) item = record { conn = some id; status = connect_off }

-- The loop of `init_mysql_pool` over the zeroed items from `i` on.
unfoldable pub init_items : (ℕ → Attempt) → ℕ → ℕ → List MySqlConnectionItem
init_items attempt zero i = []
init_items attempt (suc n) i =
    connect_item (attempt i) (record { conn = none; status = connect_close })
    ∷ init_items attempt n (suc i)

unfoldable pub init_mysql_pool : (ℕ → Attempt) → MySqlConnectionPool
init_mysql_pool attempt = record {
  conn_queue = init_items attempt connection_pool_size 0;
  pool_lock = false;
}

-- The loop of `get_connection_from_pool` from the item `i` on: the connection, or none, and the items.
unfoldable pub take_item :
    (ℕ → Attempt) → ℕ → List MySqlConnectionItem → Option (Option ℕ) × List MySqlConnectionItem
take_item attempt i [] = (none, [])
take_item attempt i (item ∷ items) = elim item.status [
  | connect_off ↦ (some item.conn, record item { status = connect_on } ∷ items)
  | connect_close ↦
      let (found, rest) = take_item attempt (suc i) items in
      (found, connect_item (attempt i) item ∷ rest)
  | connect_on ↦ let (found, rest) = take_item attempt (suc i) items in (found, item ∷ rest)
]

-- The null pointer where there is none; none where the mutex is held by another call for ever.
unfoldable pub get_connection_from_pool :
    (ℕ → Attempt) → MySqlConnectionPool → Option (Option ℕ × MySqlConnectionPool)
get_connection_from_pool attempt p =
    let (found, items) = take_item attempt 0 p.conn_queue in
    if p.pool_lock
    then none
    else some (elim found [ some conn ↦ conn | none ↦ none ], record p { conn_queue = items })

abbrev cons_some :
    MySqlConnectionItem → Option (List MySqlConnectionItem) → Option (List MySqlConnectionItem)
cons_some item none = none
cons_some item (some items) = some (item ∷ items)

-- The loop of `return_connection_to_pool`: none where the connection is not in the pool. A null
-- connection is read through.
unfoldable pub return_item :
    ℕ → List MySqlConnectionItem → Outcome (Option (List MySqlConnectionItem))
return_item id [] = ok none
return_item id (item ∷ items) = elim item.conn [
  | none ↦ fault
  | some c ↦ elim (id == c) [
    | true ↦ ok (some (record item { status = connect_off } ∷ items))
    | false ↦ (do rest ← return_item id items; ok (cons_some item rest))
  ]
]

-- What `return_connection_to_pool` comes to: it waits for ever, or `OK` or `NOEXIST` with the pool.
pub data Returned : Type 0 where
  waits : Returned
  returned_ok : MySqlConnectionPool → Returned
  noexist : MySqlConnectionPool → Returned

-- `NOEXIST` is returned with the mutex held.
unfoldable pub put_back : MySqlConnectionPool → Option (List MySqlConnectionItem) → Returned
put_back p none = noexist (record p { pool_lock = true })
put_back p (some items) = returned_ok (record p { conn_queue = items })

unfoldable pub return_connection_to_pool : ℕ → MySqlConnectionPool → Outcome Returned
return_connection_to_pool id p =
    if p.pool_lock then ok waits else do found ← return_item id p.conn_queue; ok (put_back p found)
