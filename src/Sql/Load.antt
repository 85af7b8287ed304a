-- ===== src/Sql/Load.antt =====
-- ApolloSqlOperator.c: the lists that the server copies from the database to Redis when it starts.
use robot_server.Common.{ℕ, Bool, true, false, Option, some, List, [], ◌∷◌, ◌++◌}
use robot_server.Common.Outcome.{Outcome, ok, fault, ◌>>=◌}
use robot_server.Util.Paths.{codes, store_text}
use robot_server.Redis.{set_key_toredis}
use robot_server.Host.{raised, null_result, rows, Host, World}

abbrev pub sql_select_userinfo_list : List ℕ
sql_select_userinfo_list = codes "SELECT * FROM TBL_USER"

abbrev pub sql_select_relationship_list : List ℕ
sql_select_relationship_list = codes "SELECT * FROM TBL_USER_RELATIONSHIP"

-- The first two columns of a row; a null one is printed with `%s`.
unfoldable pub two_columns : List (Option (List ℕ)) → Outcome (List ℕ × List ℕ)
two_columns (some a ∷ some b ∷ row) = ok (a, b)
two_columns row = fault

module _ (h : Host) where
  open h.redis use {State}

  -- The key is printed into an array of 20 bytes.
  unfoldable pub set_prefixed : (prefix key value : List ℕ) → State → Outcome (Bool × State)
  set_prefixed prefix key value s = do
    text ← store_text 20 (prefix ++ key)
    set_key_toredis h.redis text value s

  -- The loop of `initUserInfoList`; it ends at the first key that Redis does not take.
  unfoldable pub load_users : List (List (Option (List ℕ))) → State → Outcome State
  load_users [] s = ok s
  load_users (row ∷ rs) s = do
    (id, name) ← two_columns row
    (stored, s₁) ← set_prefixed (codes "U_") name id s
    elim stored [ true ↦ load_users rs s₁ | false ↦ ok s₁ ]

  -- The loop of `initUserAndDeviceRelationshipList`.
  unfoldable pub load_relationships : List (List (Option (List ℕ))) → State → Outcome State
  load_relationships [] s = ok s
  load_relationships (row ∷ rs) s = do
    (user_id, device_id) ← two_columns row
    (stored, s₁) ← set_prefixed (codes "RP_") user_id device_id s
    elim stored [
      | true ↦ (do
        (stored', s₂) ← set_prefixed (codes "R_") device_id user_id s₁
        elim stored' [ true ↦ load_relationships rs s₂ | false ↦ ok s₂ ])
      | false ↦ ok s₁
    ]

  -- `Connection_executeQuery`, then the loop over the rows.
  unfoldable pub load_list :
      List ℕ → (List (List (Option (List ℕ))) → State → Outcome State) → World h → Outcome (World h)
  load_list sql loop w = elim (h.database.execute_query sql [] w.db) [
    | raised ↦ fault
    | null_result ↦ fault
    | rows rs ↦ (do s ← loop rs w.redis_state; ok (record w { redis_state = s }))
  ]

  unfoldable pub init_user_info_list : World h → Outcome (World h)
  init_user_info_list = load_list sql_select_userinfo_list load_users

  unfoldable pub init_user_and_device_relationship_list : World h → Outcome (World h)
  init_user_and_device_relationship_list = load_list sql_select_relationship_list load_relationships

  -- The lists, in the order in which `main` loads them.
  unfoldable pub main_lists : World h → Outcome (World h)
  main_lists w = do w' ← init_user_info_list w; init_user_and_device_relationship_list w'
