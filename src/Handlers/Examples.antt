-- ===== src/Handlers/Examples.antt =====
-- The chain that `main` builds, and a request that its second handler deals with.
use robot_server.Common.{◌≡◌, none, some, arith}
use robot_server.Common.Int.{pos}
use robot_server.Common.Outcome.{ok}
use robot_server.Handlers.{Store, concrete_handle_b, deal, handle_request, main_chain}
use robot_server.Handlers.Chain.{main_chain-handle_request}

abbrev empty : Store
empty a = none

main_chain-handle_request_example :
    (s : Store) × (main_chain 1 2 3 empty ≡ ok s)
    × (handle_request 3 s 1 (pos 600) ≡ ok (some (deal concrete_handle_b)))
main_chain-handle_request_example =
    main_chain-handle_request 0 1 2 3 empty (pos 600) (omega arith) (omega arith) (omega arith)
