-- ===== src/Pool/Query.antt =====
-- The statements of ApolloSqlOperator.c with `CONNECTIONPOOL_SELECT == TYPE_APOLLO_MYSQL_CONNECTIONPOOL`:
-- each takes a connection from the pool and sends its text to MySQL, which is a parameter.
use robot_server.Common.{
  ℕ, ◌^◌, ◌-◌, ◌%◌, Bool, true, false, ◌&&◌, Option, none, some, List, [], ◌∷◌, ◌++◌, ◌==◌,
  if◌then◌else◌,
}
use robot_server.Common.Int.{ℤ, pos, negsuc}
use robot_server.Common.Outcome.{Outcome, ok, fault}
use robot_server.Util.Paths.{codes, store_text}
use robot_server.Decimal.{atoi}
use robot_server.Host.{Host}
use robot_server.Sql.{
  sql_insert_device_gps, sql_insert_user, sql_select_userid, sql_select_update_password,
  sql_select_location_newinfo, ConnectionpoolResult, result_ok, noexist, noinsert, noupdate,
  set_location,
}
use robot_server.Sql.Load.{
  sql_select_userinfo_list, sql_select_relationship_list, two_columns, set_prefixed,
}
use robot_server.Pool.{
  MySqlConnectionPool, Attempt, get_connection_from_pool, Returned, waits, returned_ok,
  return_connection_to_pool,
}
use robot_server.Pool.Call.{Call, done, blocked, ◌>>=◌, lift}

-- The MySQL client. A row is the texts of its columns, none for a null.
pub record MysqlServer : Type 1 where
  pub State : Type 0
  -- Whether `mysql_query` returns 0 for the text, and the database behind it.
  pub mysql_query : List ℕ → State → Bool × State
  -- The rows of the result of the last query, or none for the null pointer.
  pub mysql_store_result : List ℕ → State → Option (List (List (Option (List ℕ))))

abbrev pub sql_language_length : ℕ
sql_language_length = 512

-- `sprintf` with a format in which every `%s` has its text.
unfoldable pub format : List ℕ → List (List ℕ) → List ℕ
format [] args = []
format (c ∷ []) args = c ∷ []
format (c ∷ d ∷ s) args = elim (c == b'%' && d == b's') [
  | true ↦ elim args [ [] ↦ format s [] | a ∷ rest ↦ a ++ format s rest ]
  | false ↦ c ∷ format (d ∷ s) args
]

-- The answers to the attempts to connect in each round of the loop that waits for a connection.
abbrev pub Rounds : Type 0
Rounds = List (ℕ → Attempt)

-- The loop around `get_connection_from_pool`: the connection and the pool, or none where it still
-- waits behind these rounds.
unfoldable pub wait_connection : Rounds → MySqlConnectionPool → Option (ℕ × MySqlConnectionPool)
wait_connection [] p = none
wait_connection (attempt ∷ rounds) p = elim (get_connection_from_pool attempt p) [
  | none ↦ none
  | some (conn, p') ↦ elim conn [ some id ↦ some (id, p') | none ↦ wait_connection rounds p' ]
]

-- The `unsigned int` that an `int` is stored in.
abbrev unsigned : ℤ → ℕ
unsigned (pos n) = n % 2 ^ 32
unsigned (negsuc n) = 2 ^ 32 - 1 - n % 2 ^ 32

-- The loop of `selectUserId` over the rows: the last one is stored, as `*userId`. A null column is a
-- fault.
unfoldable pub fetch_user_id : List (List (Option (List ℕ))) → ℕ → Outcome ℕ
fetch_user_id [] user_id = ok user_id
fetch_user_id ([] ∷ rs) user_id = fault
fetch_user_id ((none ∷ row) ∷ rs) user_id = fault
fetch_user_id ((some id ∷ row) ∷ rs) user_id = elim (atoi id) [
  | ok n ↦ fetch_user_id rs (unsigned n)
  | fault ↦ fault
]

module _ (m : MysqlServer) (h : Host) where
  pub record Session : Type 0 where
    pub pool : MySqlConnectionPool
    pub db : m.State
    pub redis_state : h.redis.State

  -- How each function starts: the text is printed into its array, and a connection is taken.
  unfoldable pub take_connection :
      Rounds → List ℕ → List (List ℕ) → Session → Call (List ℕ × ℕ × Session)
  take_connection rounds sql args w = do
    text ← lift (store_text sql_language_length (format sql args))
    elim (wait_connection rounds w.pool) [
      | none ↦ blocked
      | some (id, p) ↦ done (text, id, record w { pool = p })
    ]

  unfoldable pub insert_device_gps :
      Rounds
      → (longitude latitude high device_id : List ℕ) → Session
      → Call (ConnectionpoolResult × Session)
  insert_device_gps rounds longitude latitude high device_id w = do
    (sql, conn, w') ←
        take_connection rounds sql_insert_device_gps (longitude ∷ latitude ∷ high ∷ device_id ∷ [])
          w
    let (succeeds, db') = m.mysql_query sql w'.db
    done (if succeeds then result_ok else noinsert, record w' { db = db' })

  unfoldable pub insert_user :
      Rounds → (user_name password : List ℕ) → Session → Call (ConnectionpoolResult × Session)
  insert_user rounds user_name password w = do
    (sql, conn, w') ← take_connection rounds sql_insert_user (user_name ∷ password ∷ []) w
    let (succeeds, db') = m.mysql_query sql w'.db
    done (if succeeds then result_ok else noinsert, record w' { db = db' })

  -- The result, `*userId` and the session.
  unfoldable pub select_user_id :
      Rounds
      → (user_name password : List ℕ) → ℕ
      → Session
      → Call (ConnectionpoolResult × ℕ × Session)
  select_user_id rounds user_name password user_id w = do
    (sql, conn, w') ← take_connection rounds sql_select_userid (user_name ∷ password ∷ []) w
    let (succeeds, db') = m.mysql_query sql w'.db
    let w'' = record w' { db = db' }
    elim succeeds [
      | false ↦ done (result_ok, user_id, w'')
      | true ↦ elim (m.mysql_store_result sql db') [
        | none ↦ done (noexist, user_id, w'')
        | some rows ↦ (do n ← lift (fetch_user_id rows user_id); done (result_ok, n, w''))
      ]
    ]

  -- `if (!res)` takes success for an error.
  unfoldable pub update_password :
      Rounds → (user_name password : List ℕ) → Session → Call (ConnectionpoolResult × Session)
  update_password rounds user_name password w = do
    (sql, conn, w') ←
        take_connection rounds sql_select_update_password (password ∷ user_name ∷ []) w
    let (succeeds, db') = m.mysql_query sql w'.db
    done (if succeeds then noupdate else result_ok, record w' { db = db' })

  -- -2, which is returned where Redis does not take the key, is NOINSERT.
  unfoldable pub location_row :
      ℤ → List (List (Option (List ℕ))) → Session → Call (ConnectionpoolResult × Session)
  location_row user_id [] w = done (noexist, w)
  location_row user_id (row ∷ rs) w = do
    (stored, s) ← lift (set_location h user_id row w.redis_state)
    done (if stored then result_ok else noinsert, record w { redis_state = s })

  unfoldable pub select_location_new_item :
      Rounds → List ℕ → ℤ → Session → Call (ConnectionpoolResult × Session)
  select_location_new_item rounds u8_device_id user_id w = do
    (sql, conn, w') ← take_connection rounds sql_select_location_newinfo (u8_device_id ∷ []) w
    let (succeeds, db') = m.mysql_query sql w'.db
    let w'' = record w' { db = db' }
    elim succeeds [
      | false ↦ done (result_ok, w'')
      | true ↦ elim (m.mysql_store_result sql db') [
        | none ↦ done (noexist, w'')
        | some rows ↦ location_row user_id rows w''
      ]
    ]

  -- The loop of `initUserInfoList`: whether it came to the end of the rows.
  unfoldable pub fetch_users :
      List (List (Option (List ℕ))) → h.redis.State → Call (Bool × h.redis.State)
  fetch_users [] s = done (true, s)
  fetch_users (row ∷ rs) s = do
    (id, name) ← lift (two_columns row)
    (stored, s₁) ← lift (set_prefixed h (codes "U_") name id s)
    elim stored [ true ↦ fetch_users rs s₁ | false ↦ done (false, s₁) ]

  -- The loop of `initUserAndDeviceRelationshipList`.
  unfoldable pub fetch_relationships :
      List (List (Option (List ℕ))) → h.redis.State → Call (Bool × h.redis.State)
  fetch_relationships [] s = done (true, s)
  fetch_relationships (row ∷ rs) s = do
    (user_id, device_id) ← lift (two_columns row)
    (stored, s₁) ← lift (set_prefixed h (codes "RP_") user_id device_id s)
    elim stored [
      | true ↦ (do
        (stored', s₂) ← lift (set_prefixed h (codes "R_") device_id user_id s₁)
        elim stored' [ true ↦ fetch_relationships rs s₂ | false ↦ done (false, s₂) ])
      | false ↦ done (false, s₁)
    ]

  -- The call of `return_connection_to_pool`, the result of which is ignored.
  unfoldable pub give_back : ℕ → Session → Call Session
  give_back conn w = do
    r ← lift (return_connection_to_pool conn w.pool)
    elim r [
      | waits ↦ blocked
      | returned_ok p ↦ done (record w { pool = p })
      | Returned.noexist p ↦ done (record w { pool = p })
    ]

  -- What both lists share: only behind the last row, or a query that fails, the connection is given
  -- back.
  unfoldable pub load_list :
      Rounds
      → List ℕ
      → (List (List (Option (List ℕ))) → h.redis.State → Call (Bool × h.redis.State))
      → Session
      → Call Session
  load_list rounds sql loop w = elim (wait_connection rounds w.pool) [
    | none ↦ blocked
    | some (conn, p) ↦
        let (succeeds, db') = m.mysql_query sql w.db in
        let w' = record w { pool = p; db = db' } in
        elim succeeds [
          | false ↦ give_back conn w'
          | true ↦ elim (m.mysql_store_result sql db') [
            | none ↦ done w'
            | some rows ↦ (do
              (all_stored, s) ← loop rows w'.redis_state
              let w'' = record w' { redis_state = s }
              elim all_stored [ true ↦ give_back conn w'' | false ↦ done w'' ])
          ]
        ]
  ]

  unfoldable pub init_user_info_list : Rounds → Session → Call Session
  init_user_info_list rounds = load_list rounds sql_select_userinfo_list fetch_users

  unfoldable pub init_user_and_device_relationship_list : Rounds → Session → Call Session
  init_user_and_device_relationship_list rounds =
      load_list rounds sql_select_relationship_list fetch_relationships
