-- ===== src/Ublox/Fetch.antt =====
-- From the satellite data to the device that is told to download them.
use robot_server.Common.{
  ℕ, suc, ◌+◌, ◌≤◌, ◌≡◌, refl, some, List, [], ◌∷◌, ◌++◌, arith, length, length-append, le→leb,
}
use robot_server.Common.Int.{pos}
use robot_server.Common.Bytes.{Mem}
use robot_server.Common.Outcome.{ok}
use robot_server.Wire.{multicast_type_agps}
use robot_server.Decimal.{print_nat}
use robot_server.Decimal.Laws.{length-print_nat}
use robot_server.Util.Paths.{codes}
use robot_server.Block.{put_file}
use robot_server.Redis.Service.{IsStore}
use robot_server.Redis.Keys.{after_set, set_key_toredis_lem}
use robot_server.Redis.Words.{eq_text_refl, IsWord-print_nat}
use robot_server.Host.{Host, World, LocationInfo, syner_action, write_time_header}
use robot_server.Protocol.Device.{device_heart_packet, report_fall}
use robot_server.Protocol.Mailbox.{
  IsBound, device_text, device_word, length-device_text, IsBound-after_set, value_of-after_set,
  heart_short, taken,
}
use robot_server.Ublox.{
  Service, agps_file_name, open_file, overwrite, fetch, start_multicast, with_file, save_data,
  ublox_download_apgs,
}

module _ (h : Host) (st : IsStore h.redis) (a : Service) (w : World h) (d : Mem) (user : List ℕ)
    (b : IsBound h st w.redis_state d user) (longitude latitude bytes old : List ℕ)
    (answer : a.get_assist_now_online_data latitude longitude ≡ some bytes)
    (fits : length bytes ≤ 8184)
    (opens : open_file w.disk (agps_file_name (device_text h st d)) ≡ some old) where
  abbrev pub location : LocationInfo
  location = record {
    u8_device_id = device_text h st d;
    u8_longitude = longitude;
    u8_latitude = latitude;
  }

  abbrev pub contents : List ℕ
  contents = overwrite (write_time_header a.localtime ++ (a.eighth ∷ bytes)) old

  abbrev pub told : h.redis.State
  told = after_set h.redis st (device_text h st d) (print_nat 0x2B) w.redis_state

  -- The world behind the download.
  abbrev pub fetched : World h
  fetched = record w {
    disk = put_file w.disk (agps_file_name (device_text h st d)) contents;
    redis_state = told;
    started =
        w.started
        ++ (syner_action
              (record { u8_device_id = device_text h st d; u8flag = multicast_type_agps })
            ∷ []);
  }

  fetch_lem : fetch a location old ≡ ok contents
  unfolding fetch
  fetch_lem = rw (answer, fetch, le→leb (8 + length bytes) 8192 (omega arith)) refl

  length-agps_file_name : length (agps_file_name (device_text h st d)) ≡ 48
  unfolding agps_file_name
  length-agps_file_name =
      omega
        (arith, length-append (device_text h st d) (codes "_agps.dat"), length-device_text h st b)

  pub ublox_lem : ublox_download_apgs h a location w ≡ ok fetched
  unfolding ublox_download_apgs with_file save_data start_multicast
  ublox_lem =
      let path = agps_file_name (device_text h st d) in
      let stored =
        set_key_toredis_lem h.redis st (device_text h st d) (print_nat 0x2B) w.redis_state
          (device_word h st b) (IsWord-print_nat 0x2B (omega arith))
          (omega (arith, length-device_text h st b, length-print_nat 0x2B (omega arith))) in
      rw
        (
          le→leb (suc (length path)) 128 (omega (arith, length-agps_file_name)),
          opens,
          fetch_lem,
          le→leb (suc (length (codes "chmod 777 " ++ path))) 128
              (omega (arith, length-agps_file_name)),
          le→leb (suc (length (print_nat 0x2B))) 12
              (omega (arith, length-print_nat 0x2B (omega arith))),
          stored,
          le→leb (suc (length (device_text h st d))) 18 (omega (arith, length-device_text h st b)),
        )
        refl

  -- The satellite data come to the device: where the u-blox server answers with at most 8184 bytes for
  -- the position of a device that is bound to a user, and the file of the device can be opened, the
  -- thread writes eight bytes and the data at the start of this file, starts its multicast, and the
  -- next heartbeat of the device returns the command to download it, 0x2B. The Redis server stores
  -- strings, and the key of the device's user is one word of at most 200 characters, other than the
  -- two keys of the device.
  pub ublox_download_apgs-device_heart_packet :
      (info : Mem)
      → (w₁ : World h) × (w₂ : World h) × (ublox_download_apgs h a
            (record {
              u8_device_id = device_text h st d;
              u8_longitude = longitude;
              u8_latitude = latitude;
            })
            w
          ≡ ok w₁)
        × (w₁.disk.file (agps_file_name (device_text h st d))
            ≡ some (overwrite (write_time_header a.localtime ++ (a.eighth ∷ bytes)) old))
        × (w₁.started
            ≡ w.started
              ++ (syner_action
                    (record { u8_device_id = device_text h st d; u8flag = multicast_type_agps })
                  ∷ []))
        × (device_heart_packet h d 32 info w₁ ≡ ok (pos 0x2B, info, w₂))
  unfolding put_file
  ublox_download_apgs-device_heart_packet info =
      let word = IsWord-print_nat 0x2B (omega arith) in
      let b₁ = IsBound-after_set h st b (print_nat 0x2B) word in
      (
        fetched,
        record (report_fall h d fetched) { redis_state = taken h st b₁ },
        ublox_lem,
        rw (eq_text_refl (agps_file_name (device_text h st d))) refl,
        refl,
        heart_short h st b₁ info fetched 0x2B refl (value_of-after_set h st b (print_nat 0x2B) word)
            (omega arith),
      )
