-- ===== src/Pool/Statements.antt =====
-- A statement on the program's own pool of connections: with a free connection, and without one.
use robot_server.Common.{
  ℕ, suc, ◌<◌, ◌≡◌, refl, Bool-cases, Option, some, List, [], ◌∷◌, arith, length, le→leb, inl, inr,
  Option-cases,
}
use robot_server.Common.Int.{ℤ}
use robot_server.Common.Outcome.{ok}
use robot_server.Host.{Host}
use robot_server.Sql.{
  ConnectionpoolResult, sql_insert_device_gps, sql_insert_user, sql_select_userid,
  sql_select_update_password, sql_select_location_newinfo,
}
use robot_server.Pool.{Attempt}
use robot_server.Pool.Call.{Call, done, blocked, ◌>>=◌}
use robot_server.Pool.Query.{
  MysqlServer, sql_language_length, format, Rounds, fetch_user_id, Session, take_connection,
  insert_device_gps, insert_user, select_user_id, update_password, location_row,
  select_location_new_item,
}
use robot_server.Pool.Supply.{Supply, pool_of, count_free, IsTaken, wait_none, wait_free}

-- A call of one of the statements, with its arguments.
pub data Statement : Type 0 where
  device_gps : (longitude latitude high device_id : List ℕ) → Statement
  user : (user_name password : List ℕ) → Statement
  user_id : (user_name password : List ℕ) → ℕ → Statement
  password_of : (user_name password : List ℕ) → Statement
  location : List ℕ → ℤ → Statement

abbrev pub text_of : Statement → List ℕ
text_of (device_gps longitude latitude high device_id) =
    format sql_insert_device_gps (longitude ∷ latitude ∷ high ∷ device_id ∷ [])
text_of (user user_name password) = format sql_insert_user (user_name ∷ password ∷ [])
text_of (user_id user_name password u) = format sql_select_userid (user_name ∷ password ∷ [])
text_of (password_of user_name password) =
    format sql_select_update_password (password ∷ user_name ∷ [])
text_of (location device_id u) = format sql_select_location_newinfo (device_id ∷ [])

-- A statement, the attempts of the first round of its wait, and the further rounds.
pub record Request : Type 0 where
  pub statement : Statement
  pub attempt : ℕ → Attempt
  pub rounds : Rounds

module _ (m : MysqlServer) (h : Host) where
  abbrev session : Call (ConnectionpoolResult × Session m h) → Call (Session m h)
  session r = r >>= λ x. done x.1

  abbrev pub perform : Rounds → Statement → Session m h → Call (Session m h)
  perform rounds (device_gps longitude latitude high device_id) w =
      session (insert_device_gps m h rounds longitude latitude high device_id w)
  perform rounds (user user_name password) w = session (insert_user m h rounds user_name password w)
  perform rounds (user_id user_name password u) w =
      select_user_id m h rounds user_name password u w >>= λ x. done x.2
  perform rounds (password_of user_name password) w =
      session (update_password m h rounds user_name password w)
  perform rounds (location device_id u) w =
      session (select_location_new_item m h rounds device_id u w)

  abbrev pub perform_all : List Request → Session m h → Call (Session m h)
  perform_all [] w = done w
  perform_all (r ∷ rs) w = do w' ← perform (r.attempt ∷ r.rounds) r.statement w; perform_all rs w'

  -- The rows that MySQL gives can be stored: an id is a number, and a position fits its arrays and
  -- Redis answers.
  abbrev pub Answers : Statement → Type 0
  Answers (user_id user_name password u) =
      (db : m.State) (rows : List (List (Option (List ℕ))))
      → m.mysql_store_result (text_of (user_id user_name password u)) db ≡ some rows
      → (n : ℕ) × (fetch_user_id rows u ≡ ok n)
  Answers (location device_id u) =
      (w : Session m h) (rows : List (List (Option (List ℕ))))
      → m.mysql_store_result (text_of (location device_id u)) w.db ≡ some rows
      → (r : ConnectionpoolResult) × (s : h.redis.State) × (location_row m h u rows w
          ≡ done (r, record w { redis_state = s }))
  Answers (device_gps longitude latitude high device_id) = Unit
  Answers (user user_name password) = Unit
  Answers (password_of user_name password) = Unit

  abbrev pub IsSound : Statement → Type 0
  IsSound st = (length (text_of st) < sql_language_length) × Answers st

  abbrev pub at : Supply → m.State → h.redis.State → Session m h
  at l db s = record { pool = pool_of l; db = db; redis_state = s }

  take_connection_free :
      (attempt : ℕ → Attempt) (rounds : Rounds) (l l' : Supply) (id : ℕ) (db : m.State)
      (s : h.redis.State) (sql : List ℕ) (args : List (List ℕ))
      → IsTaken l l' id
      → length (format sql args) < sql_language_length
      → take_connection m h (attempt ∷ rounds) sql args (at l db s)
        ≡ done (format sql args, id, at l' db s)
  unfolding take_connection
  take_connection_free attempt rounds l l' id db s sql args t small =
      rw
        (
          le→leb (suc (length (format sql args))) sql_language_length (omega arith),
          wait_free attempt rounds l l' id t,
        )
        refl

  take_connection_none :
      (rounds : Rounds) (l : Supply) (db : m.State) (s : h.redis.State) (sql : List ℕ)
      (args : List (List ℕ))
      → count_free l ≡ 0
      → length (format sql args) < sql_language_length
      → take_connection m h rounds sql args (at l db s) ≡ blocked
  unfolding take_connection
  take_connection_none rounds l db s sql args e small =
      rw
        (
          le→leb (suc (length (format sql args))) sql_language_length (omega arith),
          wait_none rounds l e,
        )
        refl

  -- A statement takes a connection, which stays taken.
  pub record IsKept (r : Request) (l l' : Supply) (db : m.State) (s : h.redis.State) : Type 0 where
    pub db' : m.State
    pub redis_state' : h.redis.State
    pub perform_lem :
        perform (r.attempt ∷ r.rounds) r.statement (at l db s) ≡ done (at l' db' redis_state')

  pub perform_free :
      (st : Statement) (attempt : ℕ → Attempt) (rounds : Rounds) (l l' : Supply) (id : ℕ)
      (db : m.State) (s : h.redis.State)
      → IsSound st
      → IsTaken l l' id
      → IsKept (record { statement = st; attempt = attempt; rounds = rounds }) l l' db s
  unfolding insert_device_gps insert_user update_password select_user_id select_location_new_item
  perform_free (device_gps longitude latitude high device_id) attempt rounds l l' id db s sound t =
      record {
        db' = (m.mysql_query (text_of (device_gps longitude latitude high device_id)) db).1;
        redis_state' = s;
        perform_lem = rw (take_connection_free attempt rounds l l' id db s _ _ t sound.0) refl;
      }
  perform_free (user user_name password) attempt rounds l l' id db s sound t = record {
    db' = (m.mysql_query (text_of (user user_name password)) db).1;
    redis_state' = s;
    perform_lem = rw (take_connection_free attempt rounds l l' id db s _ _ t sound.0) refl;
  }
  perform_free (password_of user_name password) attempt rounds l l' id db s sound t = record {
    db' = (m.mysql_query (text_of (password_of user_name password)) db).1;
    redis_state' = s;
    perform_lem = rw (take_connection_free attempt rounds l l' id db s _ _ t sound.0) refl;
  }
  perform_free (user_id user_name password u) attempt rounds l l' id db s sound t =
      let sql = text_of (user_id user_name password u) in
      let db' = (m.mysql_query sql db).1 in
      let taken =
        take_connection_free attempt rounds l l' id db s sql_select_userid
          (user_name ∷ password ∷ []) t sound.0 in
      record {
        db' = db';
        redis_state' = s;
        perform_lem = elim (Bool-cases (m.mysql_query sql db).0) [
          | inr e ↦ rw (select_user_id, taken, e) refl
          | inl e ↦ elim (Option-cases (m.mysql_store_result sql db')) [
            | inl e' ↦ rw (select_user_id, taken, e, e') refl
            | inr (rows, e') ↦ rw (select_user_id, taken, e, e', (sound.1 db' rows e').1) refl
          ]
        ];
      }
  perform_free (location device_id u) attempt rounds l l' id db s sound t =
      let sql = text_of (location device_id u) in
      let db' = (m.mysql_query sql db).1 in
      let taken =
        take_connection_free attempt rounds l l' id db s sql_select_location_newinfo
          (device_id ∷ []) t sound.0 in
      elim (Bool-cases (m.mysql_query sql db).0) [
        | inr e ↦ record {
          db' = db';
          redis_state' = s;
          perform_lem = rw (select_location_new_item, taken, e) refl;
        }
        | inl e ↦ elim (Option-cases (m.mysql_store_result sql db')) [
          | inl e' ↦ record {
            db' = db';
            redis_state' = s;
            perform_lem = rw (select_location_new_item, taken, e, e') refl;
          }
          | inr (rows, e') ↦
              let (r, s', stored) = sound.1 (at l' db' s) rows e' in
              record {
                db' = db';
                redis_state' = s';
                perform_lem = rw (select_location_new_item, taken, e, e', stored) refl;
              }
        ]
      ]

  pub perform_none :
      (st : Statement) (rounds : Rounds) (l : Supply) (db : m.State) (s : h.redis.State)
      → IsSound st
      → count_free l ≡ 0
      → perform rounds st (at l db s) ≡ blocked
  unfolding insert_device_gps insert_user update_password select_user_id select_location_new_item
  perform_none (device_gps longitude latitude high device_id) rounds l db s sound e =
      rw (take_connection_none rounds l db s _ _ e sound.0) refl
  perform_none (user user_name password) rounds l db s sound e =
      rw (take_connection_none rounds l db s _ _ e sound.0) refl
  perform_none (password_of user_name password) rounds l db s sound e =
      rw (take_connection_none rounds l db s _ _ e sound.0) refl
  perform_none (user_id user_name password u) rounds l db s sound e =
      rw (take_connection_none rounds l db s _ _ e sound.0) refl
  perform_none (location device_id u) rounds l db s sound e =
      rw (take_connection_none rounds l db s _ _ e sound.0) refl
