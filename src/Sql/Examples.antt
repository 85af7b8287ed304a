-- ===== src/Sql/Examples.antt =====
-- A database with two users and their devices, and the theorems on the lists applied to it.
use robot_server.Common.{ℕ, ◌≡◌, refl, none, some, List, [], ◌∷◌, arith, if◌then◌else◌}
use robot_server.Common.Int.{pos}
use robot_server.Common.Bytes.{load, load-IsByte}
use robot_server.Common.Outcome.{ok}
use robot_server.Decimal.{print_nat, print_fuel}
use robot_server.Util.Hex.{hextostring, high_digit, low_digit, high_hextostring, low_hextostring}
use robot_server.Util.Paths.{codes}
use robot_server.Block.{eq_text}
use robot_server.Redis.Examples.{Table, table_server-IsStore}
use robot_server.Host.{Host, World, rows}
use robot_server.Protocol.Examples.{host, world, heartbeat, alarm, user_of, alarm-is_single}
use robot_server.Protocol.Phone.{phone_command_packet}
use robot_server.Protocol.Device.{device_heart_packet}
use robot_server.Sql.Load.{sql_select_userinfo_list, load_relationships, main_lists}
use robot_server.Sql.Bindings.{AreRows, columns, bindings_of, load_relationships_lem}
use robot_server.Sql.Start.{IsTables, main_lists-command_delivered}

abbrev users : List (List ℕ × List ℕ)
users = (codes "7", codes "wang") ∷ []

abbrev relations : List (List ℕ × List ℕ)
relations = (codes "6", codes "2016010500000001") ∷ (codes "7", codes "2016010500000007") ∷ []

abbrev database_host : Host
database_host = record host {
  database = record {
    State = Unit;
    execute = λ sql args s. some s;
    execute_query = λ sql args s.
        if eq_text sql sql_select_userinfo_list
        then rows (columns users)
        else rows (columns relations);
  };
}

abbrev empty_world : World database_host
empty_world = record {
  redis_state = λ k. none;
  db = tt;
  disk = world.disk;
  started = [];
  client = world.client;
}

relations-AreRows : AreRows relations
relations-AreRows = (
  record {
    first = (omega arith, (refl, tt));
    second = (
      omega arith,
      (
        refl,
        (
          refl,
          (
            refl,
            (
              refl,
              (
                refl,
                (
                  refl,
                  (
                    refl,
                    (refl, (refl, (refl, (refl, (refl, (refl, (refl, (refl, (refl, tt))))))))),
                  ),
                ),
              ),
            ),
          ),
        ),
      ),
    );
    first_short = omega arith;
    second_short = omega arith;
  },
  (
    record {
      first = (omega arith, (refl, tt));
      second = (
        omega arith,
        (
          refl,
          (
            refl,
            (
              refl,
              (
                refl,
                (
                  refl,
                  (
                    refl,
                    (
                      refl,
                      (refl, (refl, (refl, (refl, (refl, (refl, (refl, (refl, (refl, tt))))))))),
                    ),
                  ),
                ),
              ),
            ),
          ),
        ),
      );
      first_short = omega arith;
      second_short = omega arith;
    },
    tt,
  ),
)

users-AreRows : AreRows users
users-AreRows = (
  record {
    first = (omega arith, (refl, tt));
    second = (omega arith, (refl, (refl, (refl, (refl, tt)))));
    first_short = omega arith;
    second_short = omega arith;
  },
  tt,
)

load_relationships_lem_example :
    (s' : Table) × (load_relationships database_host (columns relations) (λ k. none) ≡ ok s')
    × ((j : List ℕ) → s' j ≡ bindings_of relations (λ k. none) j)
load_relationships_lem_example =
    load_relationships_lem database_host table_server-IsStore relations (λ k. none)
      relations-AreRows

empty_world-IsTables : IsTables database_host empty_world users relations
empty_world-IsTables = record {
  users_query = refl;
  relations_query = refl;
  users_fit = users-AreRows;
  relations_fit = relations-AreRows;
}

-- The alarm of user 7.
main_lists-command_delivered_example :
    (w₀ : World database_host) × (w₁ : World database_host) × (w₂ : World database_host)
    × (w₃ : World database_host) × (main_lists database_host empty_world ≡ ok w₀)
    × (phone_command_packet database_host (load alarm) 16 w₀ ≡ ok (pos 0, w₁))
    × (device_heart_packet database_host (load heartbeat) 32 (λ a. 0) w₁ ≡ ok (pos 8, (λ a. 0), w₂))
    × (device_heart_packet database_host (load heartbeat) 32 (λ a. 0) w₂ ≡ ok (pos 0, (λ a. 0), w₃))
unfolding print_nat print_fuel hextostring high_digit low_digit high_hextostring low_hextostring
main_lists-command_delivered_example =
    main_lists-command_delivered database_host table_server-IsStore empty_world users
      ((codes "6", codes "2016010500000001") ∷ []) [] (load alarm) (load heartbeat) (λ a. 0) 7
      empty_world-IsTables tt (user_of (load alarm) refl refl refl refl) (omega arith)
      (load-IsByte heartbeat (omega arith)) alarm-is_single (omega arith)
