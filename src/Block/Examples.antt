-- ===== src/Block/Examples.antt =====
-- The packets of a small file, and the theorems on packets applied.
use robot_server.Common.{◌≡◌, refl, true, some, [], ◌∷◌, flatten}
use robot_server.Common.Outcome.{ok}
use robot_server.Block.{take_data_packet}
use robot_server.Block.Frames.{frames_of, take_data_packet-frames}

take_data_packet-frames_example :
    take_data_packet (record { file = λ p. some (1 ∷ 2 ∷ []); opens = λ p. true }) [] (λ a. a)
    ≡ ok (flatten (frames_of (λ a. a) (1 ∷ 2 ∷ [])))
take_data_packet-frames_example =
    take_data_packet-frames (record { file = λ p. some (1 ∷ 2 ∷ []); opens = λ p. true }) []
      (λ a. a) (1 ∷ 2 ∷ []) refl
