-- ===== src/Ublox/Examples.antt =====
-- A download for the device of user 7.
use robot_server.Common.{
  ℕ, ◌+◌, ◌≡◌, refl, true, none, some, List, [], ◌∷◌, ◌++◌, ◌==◌, if◌then◌else◌, arith, replicate,
  length, flatten,
}
use robot_server.Common.Int.{pos}
use robot_server.Common.Bytes.{Mem, load}
use robot_server.Common.Outcome.{ok}
use robot_server.Wire.{multicast_type_agps}
use robot_server.Redis.Examples.{table_server-IsStore}
use robot_server.Host.{World, syner_action, write_time_header}
use robot_server.Protocol.Device.{device_heart_packet}
use robot_server.Protocol.Mailbox.{device_text}
use robot_server.Protocol.Examples.{host, world, heartbeat, bound}
use robot_server.Ublox.{Service, agps_file_name, open_file, overwrite, ublox_download_apgs}
use robot_server.Block.Frames.{frames_of}
use robot_server.Syner.{Syner, apollo_syner_action, receive_all}
use robot_server.Protocol.Blocks.{device_block_data_send_packet}
use robot_server.Ublox.Spread.{ublox_download_apgs-device_block_data_send_packet}
use robot_server.Ublox.Fetch.{ublox_download_apgs-device_heart_packet}

abbrev service : Service
service = record {
  get_assist_now_online_data = λ lat lng. some (1 ∷ 2 ∷ []);
  eighth = 0;
  localtime = host.localtime [];
}

ublox_download_apgs-device_heart_packet_example :
    (w₁ : World host) × (w₂ : World host) × (ublox_download_apgs host service
        (record {
          u8_device_id = device_text host table_server-IsStore (load heartbeat);
          u8_longitude = [];
          u8_latitude = [];
        })
        world
      ≡ ok w₁)
    × (w₁.disk.file (agps_file_name (device_text host table_server-IsStore (load heartbeat)))
        ≡ some (
            overwrite (write_time_header service.localtime ++ (0 ∷ 1 ∷ 2 ∷ [])) (replicate 1000 7)))
    × (w₁.started
        ≡ syner_action (record {
          u8_device_id = device_text host table_server-IsStore (load heartbeat);
          u8flag = multicast_type_agps;
        })
          ∷ [])
    × (device_heart_packet host (load heartbeat) 32 (λ a. 0) w₁ ≡ ok (pos 0x2B, (λ a. 0), w₂))
unfolding open_file
ublox_download_apgs-device_heart_packet_example =
    ublox_download_apgs-device_heart_packet host table_server-IsStore service world (load heartbeat)
      _ bound [] [] (1 ∷ 2 ∷ []) (replicate 1000 7) refl (omega arith) refl (λ a. 0)

-- The device asks another server, which has no files.
abbrev replica : Syner
replica = record {
  u8_dev_id = λ a. 0;
  u8_syner_block_data = λ a. 0;
  disk = record { file = λ p. none; opens = λ p. true };
}

abbrev request : Mem
request a = if a == 13 then 0x61 else load heartbeat a

ublox_download_apgs-device_block_data_send_packet_example :
    (w₁ : World host) × (packets : List (List ℕ)) × (s' : Syner) × (w₂ : World host)
    × (ublox_download_apgs host service
          (record {
            u8_device_id = device_text host table_server-IsStore (load heartbeat);
            u8_longitude = [];
            u8_latitude = [];
          })
          world
        ≡ ok w₁)
    × (w₁.started
        ≡ syner_action (record {
          u8_device_id = device_text host table_server-IsStore (load heartbeat);
          u8flag = multicast_type_agps;
        })
          ∷ [])
    × (apollo_syner_action w₁.disk true true (record {
      u8_device_id = device_text host table_server-IsStore (load heartbeat);
      u8flag = multicast_type_agps;
    })
        ≡ ok packets)
    × (receive_all replica packets ≡ ok s')
    × (device_block_data_send_packet host request 16 (record world { disk = s'.disk })
        ≡ ok (
          pos (
              length (
                flatten (
                  frames_of
                    (λ i. request (i + 1))
                    (overwrite
                      (write_time_header service.localtime ++ (0 ∷ 1 ∷ 2 ∷ []))
                      (replicate 1000 7))))),
          w₂,
        ))
    × (w₂.client.sent
        ≡ frames_of
            (λ i. request (i + 1))
            (overwrite
              (write_time_header service.localtime ++ (0 ∷ 1 ∷ 2 ∷ []))
              (replicate 1000 7)))
unfolding open_file
ublox_download_apgs-device_block_data_send_packet_example =
    ublox_download_apgs-device_block_data_send_packet host table_server-IsStore service world
      (load heartbeat) _ bound [] [] (1 ∷ 2 ∷ []) (replicate 1000 7) refl (omega arith) refl replica
      host world request (omega arith) (omega arith) refl (λ sent out. refl) refl
      (record { device = refl; kind = refl })
