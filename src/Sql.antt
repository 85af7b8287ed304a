-- ===== src/Sql.antt =====
-- ApolloSqlOperator.c as it is built, with `CONNECTIONPOOL_SELECT == TYPE_ZDB_MYSQL_CONNECTIONPOOL`.
-- The connection is taken and closed within each function.
pub mod Load
pub mod Bindings
pub mod Start
mod Examples
use robot_server.Common.{ℕ, Bool, Option, none, some, List, [], ◌∷◌, ◌++◌, ◌==◌, if◌then◌else◌}
use robot_server.Common.Int.{ℤ}
use robot_server.Common.Outcome.{Outcome, ok, fault, ◌>>=◌}
use robot_server.Decimal.{print_int}
use robot_server.Util.Paths.{codes, store_text}
use robot_server.Redis.{set_key_toredis}
use robot_server.Host.{raised, null_result, rows, Host, World}

abbrev pub sql_insert_device_gps : List ℕ
sql_insert_device_gps = codes "INSERT TBL_DEVICE_LOCATION VALUE('%s', '%s', '%s', '%s', NOW())"

abbrev pub sql_insert_user : List ℕ
sql_insert_user = codes "INSERT TBL_USER(U_NAME, U_PWD) VALUES('%s', '%s')"

abbrev pub sql_select_userid : List ℕ
sql_select_userid = codes "SELECT U_ID FROM TBL_USER WHERE U_NAME='%s' AND U_PWD = '%s'"

abbrev pub sql_select_update_password : List ℕ
sql_select_update_password = codes "UPDATE TBL_USER SET U_PWD = '%s' WHERE U_NAME='%s'"

abbrev pub sql_select_location_newinfo : List ℕ
sql_select_location_newinfo =
    codes "SELECT  * FROM TBL_DEVICE_LOCATION WHERE L_DEVICE_ID = '%s' ORDER BY L_TIME DESC"

-- `CONNECTIONPOOL_RESULT`
pub data ConnectionpoolResult : Type 0 where
  result_ok : ConnectionpoolResult
  noexist : ConnectionpoolResult
  noinsert : ConnectionpoolResult
  noupdate : ConnectionpoolResult

-- `strcpy` from a column into an array of `cap` bytes.
unfoldable pub copy_column : ℕ → Option (List ℕ) → Outcome (List ℕ)
copy_column cap none = fault
copy_column cap (some s) = store_text cap s

-- The first three columns of a row.
unfoldable pub three_columns : List (Option (List ℕ)) → Outcome (List ℕ × List ℕ × List ℕ)
three_columns (lng ∷ lat ∷ high ∷ row) = do
  u8_longitude ← copy_column 12 lng
  u8_latitude ← copy_column 12 lat
  u8_high ← copy_column 12 high
  ok (u8_longitude, u8_latitude, u8_high)
three_columns row = fault

-- `u8High[0] == 0x30 ? "1" : "0"`, the flag of the stored text.
abbrev pub high_flag : List ℕ → List ℕ
high_flag [] = codes "0"
high_flag (c ∷ s) = if c == 0x30 then codes "1" else codes "0"

module _ (h : Host) where
  -- `Connection_execute`
  unfoldable pub connection_execute : List ℕ → List (List ℕ) → World h → Outcome (World h)
  connection_execute sql args w = elim (h.database.execute sql args w.db) [
    | none ↦ fault
    | some db ↦ ok (record w { db = db })
  ]

  unfoldable pub insert_device_gps :
      (longitude latitude high device_id : List ℕ)
      → World h
      → Outcome (ConnectionpoolResult × World h)
  insert_device_gps longitude latitude high device_id w = do
    w' ← connection_execute sql_insert_device_gps (longitude ∷ latitude ∷ high ∷ device_id ∷ []) w
    ok (result_ok, w')

  unfoldable pub insert_user :
      (user_name password : List ℕ) → World h → Outcome (ConnectionpoolResult × World h)
  insert_user user_name password w = do
    w' ← connection_execute sql_insert_user (user_name ∷ password ∷ []) w
    ok (result_ok, w')

  -- `user_id` is what `*userId` holds before, and the second component what it holds behind the call,
  -- which does not write it.
  unfoldable pub select_user_id :
      (user_name password : List ℕ) → ℕ → World h → Outcome (ConnectionpoolResult × ℕ)
  select_user_id user_name password user_id w =
      elim (h.database.execute_query sql_select_userid (user_name ∷ password ∷ []) w.db) [
        | raised ↦ fault
        | null_result ↦ ok (noexist, user_id)
        | rows rs ↦ ok (result_ok, user_id)
      ]

  unfoldable pub update_password :
      (user_name password : List ℕ) → World h → Outcome (ConnectionpoolResult × World h)
  update_password user_name password w = do
    w' ← connection_execute sql_select_update_password (password ∷ user_name ∷ []) w
    ok (result_ok, w')

  -- The columns of a row, stored for the user as a position.
  unfoldable pub set_location :
      ℤ → List (Option (List ℕ)) → h.redis.State → Outcome (Bool × h.redis.State)
  set_location user_id row s = do
    (u8_longitude, u8_latitude, u8_high) ← three_columns row
    info ← store_text 256 (
        codes "G_"
        ++ (u8_longitude
            ++ (codes "_"
                ++ (u8_latitude
                    ++ (codes "_"
                        ++ (u8_high ++ (codes "_" ++ (high_flag u8_high ++ codes "_12345"))))))))
    u8_user_id ← store_text 8 (print_int user_id)
    set_key_toredis h.redis u8_user_id info s

  -- The first row is stored; the callers ignore the result.
  unfoldable pub store_location : ℤ → List (List (Option (List ℕ))) → World h → Outcome (World h)
  store_location user_id [] w = ok w
  store_location user_id (row ∷ rs) w = do
    (stored, s) ← set_location user_id row w.redis_state
    ok (record w { redis_state = s })

  unfoldable pub select_location_new_item : List ℕ → ℤ → World h → Outcome (World h)
  select_location_new_item u8_device_id user_id w =
      elim (h.database.execute_query sql_select_location_newinfo (u8_device_id ∷ []) w.db) [
        | raised ↦ fault
        | null_result ↦ fault
        | rows rs ↦ store_location user_id rs w
      ]
