-- ===== src/SynerAction/Examples.antt =====
-- The program and the thread on one disk.
use robot_server.Common.{◌≡◌, refl, true, some, replicate}
use robot_server.Block.{Disk}
use robot_server.Syner.{apollo_syner_action}
use robot_server.SynerAction.{file_name, send_file, send_file-apollo_syner_action}

abbrev disk : Disk
disk = record { file = λ p. some (replicate 1500 7); opens = λ p. true }

send_file-apollo_syner_action_example :
    send_file disk true true
    ≡ apollo_syner_action disk true true (record { u8_device_id = file_name; u8flag = 0x32 })
send_file-apollo_syner_action_example = send_file-apollo_syner_action disk disk true true refl
