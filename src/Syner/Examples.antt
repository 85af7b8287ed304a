-- ===== src/Syner/Examples.antt =====
-- The multicast of a file, and its theorems, on concrete files.
use robot_server.Common.{ℕ, ◌≡◌, refl, true, none, some, List, [], ◌∷◌, arith, replicate}
use robot_server.Common.Outcome.{ok, fault}
use robot_server.Wire.{multicast_type_agps}
use robot_server.Util.Hex.{hextostring}
use robot_server.Util.Paths.{gen_agps_file_path_name}
use robot_server.Block.{Disk, put_file}
use robot_server.Syner.{Syner, apollo_syner_action, receive_all}
use robot_server.Syner.Multicast.{receive_all-apollo_syner_action, apollo_syner_action-fault}

abbrev device : List ℕ
device = 0x86 ∷ 0x18 ∷ 0x64 ∷ 0x33 ∷ 0x87 ∷ 0x42 ∷ 0x90 ∷ 0x15 ∷ []

-- Every path holds the bytes.
abbrev holds : List ℕ → Disk
holds bytes = record { file = λ p. some bytes; opens = λ p. true }

abbrev receiver : Syner
receiver = record {
  u8_dev_id = λ a. 0;
  u8_syner_block_data = λ a. 0;
  disk = record { file = λ p. none; opens = λ p. true };
}

-- A file of one full block and eight bytes more.
receive_all-apollo_syner_action_example :
    (packets : List (List ℕ)) × (s' : Syner) × (apollo_syner_action
        (holds (replicate 1000 7))
        true
        true
        (record { u8_device_id = hextostring device; u8flag = multicast_type_agps })
      ≡ ok packets)
    × (receive_all receiver packets ≡ ok s')
    × (s'.disk
        ≡ put_file receiver.disk (gen_agps_file_path_name (hextostring device)) (replicate 1000 7))
receive_all-apollo_syner_action_example =
    receive_all-apollo_syner_action (holds (replicate 1000 7)) receiver device (replicate 1000 7)
      refl (omega arith) (omega arith) refl (omega arith) (omega arith) refl

apollo_syner_action-fault_example :
    apollo_syner_action
      (holds (replicate 32000 7))
      true
      true
      (record { u8_device_id = hextostring device; u8flag = multicast_type_agps })
    ≡ fault
apollo_syner_action-fault_example =
    apollo_syner_action-fault (holds (replicate 32000 7)) device (replicate 32000 7) refl
      (omega arith) (omega arith) refl (omega arith)
