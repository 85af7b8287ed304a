-- ===== src/Sync/Examples.antt =====
-- A relationship that the worker copies, and the theorems on the worker applied to it.
use robot_server.Common.{ℕ, ◌≡◌, ◌⊎◌, refl, none, some, List, [], ◌∷◌, ◌++◌, arith, if◌then◌else◌}
use robot_server.Common.Outcome.{ok, fault}
use robot_server.Util.Paths.{codes}
use robot_server.Block.{eq_text}
use robot_server.Protocol.Examples.{host}
use robot_server.Sql.Load.{load_relationships}
use robot_server.Sql.Bindings.{columns}
use robot_server.Sync.{
  Json, until_quote, strip_quotes, copy_workload, parser_json_tokener, eagle_user_id,
  sync_user_and_device_relation_ship,
}
use robot_server.Sync.Quotes.{NoQuote, strip_quotes_lem}
use robot_server.Sync.Rows.{state, sync_user_and_device_relation_ship-load_relationships}

-- A library that reads the relationship of user 7 from any text.
abbrev json : Json
json = record {
  Object = Unit;
  json_tokener_parse = λ text. some tt;
  member_text =
      λ object key. if eq_text key eagle_user_id then codes "7" else codes "\"2016010500000007\"";
}

sync_user_and_device_relation_ship-load_relationships_example :
    state (sync_user_and_device_relation_ship json host.redis (codes "{}") (λ k. none))
    ≡ load_relationships host (columns ((codes "7", codes "2016010500000007") ∷ [])) (λ k. none)
unfolding copy_workload parser_json_tokener strip_quotes until_quote
sync_user_and_device_relation_ship-load_relationships_example =
    sync_user_and_device_relation_ship-load_relationships json host (codes "{}") (codes "7")
      (codes "2016010500000007") (λ k. none) (codes "{}") refl refl

strip_quotes_lem_example :
    ((name : List ℕ) × (t : List ℕ) × (codes "ull" ≡ name ++ (b'"' ∷ t))
      × NoQuote name
      × (strip_quotes (codes "null") ≡ ok name))
    ⊎ (NoQuote (codes "ull") × (strip_quotes (codes "null") ≡ fault))
strip_quotes_lem_example = strip_quotes_lem b'n' (codes "ull") (omega arith)
