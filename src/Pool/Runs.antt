-- ===== src/Pool/Runs.antt =====
-- The theorems on the statements of the program's own pool, applied.
use robot_server.Common.{
  ℕ, suc, ◌≡◌, refl, sym, ap, ◌∙◌, Bool, true, false, Option, none, some, List, [], ◌∷◌, arith, All,
}
use robot_server.Common.Outcome.{Outcome, ok, fault}
use robot_server.Decimal.{atoi, atoi_signed, atoi_digits, skip_spaces}
use robot_server.Util.Scan.{isspace}
use robot_server.Util.Paths.{codes}
use robot_server.Redis.{set_key_toredis, set_reply, strcasecmp_eq}
use robot_server.Redis.Examples.{Table, run}
use robot_server.Host.{Host, rows, World}
use robot_server.Protocol.Examples.{host, bindings, world}
use robot_server.Sql.Load
use robot_server.Sql.Load.{two_columns, set_prefixed, load_relationships}
use robot_server.Pool.{connection_pool_size, Attempt, connected, no_connection, init_mysql_pool}
use robot_server.Pool.Call.{done}
use robot_server.Pool.Query.{
  MysqlServer, format, fetch_user_id, Session, fetch_relationships,
  init_user_and_device_relationship_list,
}
use robot_server.Pool.Supply.{Supply, pool_of}
use robot_server.Pool.Statements.{
  user, user_id, password_of, device_gps, Request, IsSound, perform_all,
}
use robot_server.Pool.Leak.{IsExhausted, perform_all-init_mysql_pool}
use robot_server.Pool.Lists.{IsKeptIf, init_user_and_device_relationship_list_lem}

-- One user, who has one device; the state counts the queries.
abbrev relationships : List (List (Option (List ℕ)))
relationships = (some (codes "7") ∷ some (codes "2016010500000007") ∷ []) ∷ []

abbrev mysql : MysqlServer
mysql = record {
  State = ℕ;
  mysql_query = λ sql n. (true, suc n);
  mysql_store_result = λ sql n. some relationships;
}

abbrev attempt : ℕ → Attempt
attempt i = no_connection

abbrev requests : List Request
requests =
    record { statement = user (codes "king") (codes "pass"); attempt = attempt; rounds = [] }
    ∷ record {
      statement = user_id (codes "king") (codes "pass") 0;
      attempt = attempt;
      rounds = attempt ∷ [];
    }
    ∷ record {
      statement = password_of (codes "king") (codes "word");
      attempt = attempt;
      rounds = [];
    }
    ∷ record {
      statement = device_gps (codes "113.1") (codes "22.5") (codes "0") (codes "2016010500000007");
      attempt = attempt;
      rounds = [];
    }
    ∷ []

fetched : fetch_user_id relationships 0 ≡ ok 7
unfolding fetch_user_id atoi atoi_signed atoi_digits skip_spaces isspace
fetched = refl

requests-IsSound : All (λ r. IsSound mysql host r.statement) requests
unfolding format
requests-IsSound = (
  (omega arith, tt),
  (
    (
      omega arith,
      λ db rs e. (
        7,
        ap (λ o. elim o as (λ o. Outcome ℕ) [ none ↦ fault | some r ↦ fetch_user_id r 0 ]) (sym e)
            ∙ fetched,
      ),
    ),
    ((omega arith, tt), ((omega arith, tt), tt)),
  ),
)

perform_all-init_mysql_pool_example : IsExhausted mysql host requests connection_pool_size (
    perform_all mysql host requests
      (record { pool = init_mysql_pool (λ i. connected i); db = 0; redis_state = bindings }))
perform_all-init_mysql_pool_example =
    perform_all-init_mysql_pool mysql host requests (λ i. i) 0 bindings requests-IsSound

abbrev rows_host : Host
rows_host = record host {
  database = record {
    State = Unit;
    execute = λ sql args s. some s;
    execute_query = λ sql args s. rows relationships;
  };
}

abbrev world_at : Table → World rows_host
world_at t = record {
  redis_state = t;
  db = tt;
  disk = world.disk;
  started = [];
  client = world.client;
}

abbrev behind : Table
behind =
    (run (codes "set R_2016010500000007 7")
      (run (codes "set RP_7 2016010500000007") (λ k. none)).1).1

libzdb_lem :
    Load.init_user_and_device_relationship_list rows_host (world_at (λ k. none))
    ≡ ok (world_at behind)
unfolding Load.init_user_and_device_relationship_list Load.load_list load_relationships two_columns
    set_prefixed set_key_toredis set_reply strcasecmp_eq
libzdb_lem = refl

-- One of two connections is free.
abbrev two : Supply
two = (3, false) ∷ (4, true) ∷ []

init_user_and_device_relationship_list_lem_example :
    (b : Bool) × (w' : Session mysql rows_host) × (fetch_relationships mysql rows_host relationships
        (λ k. none)
      ≡ done (b, behind))
    × (init_user_and_device_relationship_list mysql rows_host
          (attempt ∷ [])
          (record { pool = pool_of two; db = 0; redis_state = λ k. none })
        ≡ done w')
    × (w'.redis_state ≡ behind)
    × IsKeptIf mysql rows_host b two w'.pool
init_user_and_device_relationship_list_lem_example =
    init_user_and_device_relationship_list_lem mysql rows_host two 0 attempt [] 0
      (world_at (λ k. none)) (world_at behind) relationships ((refl, tt), (tt, tt)) refl refl refl
      refl libzdb_lem
