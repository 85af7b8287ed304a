-- ===== src/Pool/Lists.antt =====
-- The lists that ApolloSqlOperator.c copies to Redis, with the program's own pool and with libzdb.
use robot_server.Common.{
  ℕ, suc, ◌≡◌, refl, sym, ap, ◌∙◌, Bool, true, false, Option, some, List, [], ◌∷◌, arith,
}
use robot_server.Common.Outcome
use robot_server.Common.Outcome.{Outcome, ok, fault}
use robot_server.Host.{Host, rows, World}
use robot_server.Util.Paths.{codes}
use robot_server.Sql.Load
use robot_server.Sql.Load.{
  sql_select_relationship_list, sql_select_userinfo_list, two_columns, set_prefixed, load_users,
  load_relationships,
}
use robot_server.Pool.{Attempt, MySqlConnectionPool, return_connection_to_pool, put_back}
use robot_server.Pool.Call.{Call, done, blocked, crash, ◌>>=◌, lift}
use robot_server.Pool.Query.{
  MysqlServer, Rounds, Session, fetch_users, fetch_relationships, give_back, load_list,
  init_user_and_device_relationship_list,
}
use robot_server.Pool.Supply.{Supply, pool_of, count_free, Distinct, IsTaken, take_free, wait_free}

-- What a loop leaves in Redis; a fault where it faults.
abbrev settle : {S : Type 0} → Call (Bool × S) → Outcome S
settle (done (b, s)) = ok s
settle blocked = fault
settle crash = fault

settle_inv :
    {S : Type 0} (x : Call (Bool × S)) (s : S) → settle x ≡ ok s → (b : Bool) × (x ≡ done (b, s))
settle_inv (done (b, s')) s e = (b, ground arith)
settle_inv blocked s e = cc
settle_inv crash s e = cc

settle-lift :
    {A S : Type 0} (o : Outcome A) (f : A → Call (Bool × S)) (g : A → Outcome S)
    → ((a : A) → settle (f a) ≡ g a)
    → settle (lift o >>= f) ≡ Outcome.◌>>=◌ o g
settle-lift (ok a) f g e = e a
settle-lift fault f g e = refl

settle-elim :
    {S : Type 0} (stored : Bool) (s : S) (x : Call (Bool × S)) (y : Outcome S)
    → settle x ≡ y
    → settle (elim stored [ true ↦ x | false ↦ done (false, s) ])
      ≡ (elim stored [ true ↦ y | false ↦ ok s ])
settle-elim true s x y e = e
settle-elim false s x y e = refl

module _ (m : MysqlServer) (h : Host) where
  settle_users :
      (rs : List (List (Option (List ℕ)))) (s : h.redis.State)
      → settle (fetch_users m h rs s) ≡ load_users h rs s
  unfolding fetch_users load_users
  settle_users [] s = refl
  settle_users (row ∷ rs) s = settle-lift (two_columns row) _ _ (λ (id, name).
      settle-lift (set_prefixed h (codes "U_") name id s) _ _
        (λ (stored, s₁). settle-elim stored s₁ _ _ (settle_users rs s₁)))

  settle_relationships :
      (rs : List (List (Option (List ℕ)))) (s : h.redis.State)
      → settle (fetch_relationships m h rs s) ≡ load_relationships h rs s
  unfolding fetch_relationships load_relationships
  settle_relationships [] s = refl
  settle_relationships (row ∷ rs) s = settle-lift (two_columns row) _ _ (λ (user_id, device_id).
      settle-lift (set_prefixed h (codes "RP_") user_id device_id s) _ _ (λ (stored, s₁).
        settle-elim stored s₁ _ _ (
          settle-lift (set_prefixed h (codes "R_") device_id user_id s₁) _ _
            (λ (stored', s₂). settle-elim stored' s₂ _ _ (settle_relationships rs s₂)))))

  abbrev at : Supply → m.State → h.redis.State → Session m h
  at l db s = record { pool = pool_of l; db = db; redis_state = s }

  give_back_lem :
      (l l' : Supply) (id : ℕ) (db : m.State) (s : h.redis.State)
      → Distinct l
      → IsTaken l l' id
      → give_back m h id (at l' db s) ≡ done (at l db s)
  unfolding give_back return_connection_to_pool put_back
  give_back_lem l l' id db s distinct t = rw (t.return_lem distinct) refl

  -- The pool behind a list: as it was where all rows are stored, and a connection less where not.
  abbrev pub IsKeptIf : Bool → Supply → MySqlConnectionPool → Type 0
  IsKeptIf true l p = p ≡ pool_of l
  IsKeptIf false l p = (l' : Supply) × (p ≡ pool_of l') × (suc (count_free l') ≡ count_free l)

  module _ (l : Supply) (n : ℕ) (distinct : Distinct l) (some_free : count_free l ≡ suc n)
      (attempt : ℕ → Attempt) (rounds : Rounds) (db : m.State) (s : h.redis.State) (sql : List ℕ)
      (rs : List (List (Option (List ℕ)))) (succeeds : (m.mysql_query sql db).0 ≡ true)
      (result : m.mysql_store_result sql (m.mysql_query sql db).1 ≡ some rs)
      (loop : List (List (Option (List ℕ))) → h.redis.State → Call (Bool × h.redis.State)) where
    load_list_lem :
        (b : Bool) (s' : h.redis.State)
        → loop rs s ≡ done (b, s')
        → (w' : Session m h) × (load_list m h (attempt ∷ rounds) sql loop (at l db s) ≡ done w')
          × (w'.redis_state ≡ s')
          × IsKeptIf b l w'.pool
    unfolding load_list
    load_list_lem true s' e =
        let (id, l', t) = take_free l n some_free in
        (
          at l (m.mysql_query sql db).1 s',
          rw (load_list, wait_free attempt rounds l l' id t, succeeds, result, e)
              (give_back_lem l l' id _ s' distinct t),
          refl,
          refl,
        )
    load_list_lem false s' e =
        let (id, l', t) = take_free l n some_free in
        (
          at l' (m.mysql_query sql db).1 s',
          rw (load_list, wait_free attempt rounds l l' id t, succeeds, result, e) refl,
          refl,
          (l', refl, sym t.count_lem),
        )

  -- What the list leaves in Redis, as built for libzdb.
  ends :
      (rs : List (List (Option (List ℕ)))) (w w₁ : World h) (x : Outcome h.redis.State)
      → Outcome.◌>>=◌ x (λ s. ok (record w { redis_state = s })) ≡ ok w₁
      → x ≡ ok w₁.redis_state
  ends rs w w₁ (ok s) e =
      let outcome = λ (o : Outcome (World h)). elim o as (λ o. h.redis.State) [
        | ok v ↦ v.redis_state
        | fault ↦ s
      ] in
      ap (λ o. ok (outcome o)) e
  ends rs w w₁ fault e = cc

  -- The two builds of initUserAndDeviceRelationshipList agree: where the one for libzdb returns, so does
  -- the one with the program's own pool, on the same rows, with the same in Redis. Where Redis took
  -- every key, the pool is as it was; where not, the connection is lost. A connection is free, the
  -- connections differ, and MySQL gives the rows.
  pub init_user_and_device_relationship_list_lem :
      (l : Supply) (n : ℕ) (attempt : ℕ → Attempt) (rounds : Rounds) (db : m.State) (w w₁ : World h)
      (rs : List (List (Option (List ℕ))))
      → Distinct l
      → count_free l ≡ suc n
      → (m.mysql_query sql_select_relationship_list db).0 ≡ true
      → m.mysql_store_result sql_select_relationship_list
          (m.mysql_query sql_select_relationship_list db).1
        ≡ some rs
      → h.database.execute_query sql_select_relationship_list [] w.db ≡ rows rs
      → Load.init_user_and_device_relationship_list h w ≡ ok w₁
      → (b : Bool) × (w' : Session m h) × (fetch_relationships m h rs w.redis_state
          ≡ done (b, w₁.redis_state))
        × (init_user_and_device_relationship_list m h
              (attempt ∷ rounds)
              (record { pool = pool_of l; db = db; redis_state = w.redis_state })
            ≡ done w')
        × (w'.redis_state ≡ w₁.redis_state)
        × IsKeptIf b l w'.pool
  unfolding init_user_and_device_relationship_list Load.init_user_and_device_relationship_list
      Load.load_list
  init_user_and_device_relationship_list_lem l n attempt rounds db w w₁ rs distinct some_free
        succeeds result same_rows returns =
      let loaded : load_relationships h rs w.redis_state ≡ ok w₁.redis_state =
        ends rs w w₁ _ (rw (Load.load_list, same_rows) at returns) in
      let (b, fetched) =
        settle_inv (fetch_relationships m h rs w.redis_state) w₁.redis_state
          (settle_relationships rs w.redis_state ∙ loaded) in
      let (w', runs, redis, kept) =
        load_list_lem l n distinct some_free attempt rounds db w.redis_state
          sql_select_relationship_list rs succeeds result (fetch_relationships m h) b w₁.redis_state
          fetched in
      (b, w', fetched, runs, redis, kept)
