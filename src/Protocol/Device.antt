-- ===== src/Protocol/Device.antt =====
-- `deviceHeartPacket` and `deviceLocationPacket` of ApolloProtocol.c. The packet is the memory from
-- `data` on, and `info` is the memory of `setValueBuf`.
use robot_server.Common.{
  ℕ, Bool, true, false, not, ◌&&◌, Option, none, some, List, [], ◌∷◌, ◌++◌, bit_and, ltb, ◌==◌,
  length, set, if◌then◌else◌,
}
use robot_server.Common.Int.{ℤ, pos, negsuc}
use robot_server.Common.Bytes.{Mem, slice, fill}
use robot_server.Common.Outcome.{Outcome, ok, fault, ◌>>=◌}
use robot_server.Wire.{
  idx_device_id, idx_device_power, idx_device_heartpacket_timestamp, idx_device_locationtype,
  idx_device_gps_longitude, idx_device_gps_latitude, idx_device_gps_timestamp, idx_device_gps_high,
  idx_device_return_command, idx_device_return_index, idx_device_return_phnum, len_device_id,
  len_device_info, len_phone_number, len_heart_packet_device, len_gps_location_data,
  len_lab_location_data, len_longitude_data, len_latitude_data,
}
use robot_server.Decimal.{print_int, atoi, to_char, int_at, long_at}
use robot_server.Util.Hex.{hextostring, pack_digits}
use robot_server.Util.Fields.{separation}
use robot_server.Util.Paths.{codes, store_text}
use robot_server.Redis.{set_key_toredis, get_value_fromredis, del_redis_key}
use robot_server.Host.{
  Host, World, http_device_falldown, http_post, ublox_download_apgs, start_thread,
}
use robot_server.Sql.{insert_device_gps}

-- `cmd < 0 || cmd > 254 ? -4 : cmd`
abbrev pub command_or_error : ℤ → ℤ
command_or_error (negsuc n) = negsuc 3
command_or_error (pos n) = if ltb 254 n then negsuc 3 else pos n

-- The part of `info` that depends on the fields behind the command: the index and the phone number.
unfoldable pub put_number : List (List ℕ) → Mem → Outcome Mem
put_number [] info = fault
put_number (param0 ∷ []) info = fault
put_number (param0 ∷ param1 ∷ params) info = do
  index ← atoi param1
  let info' = fill info idx_device_return_index (to_char index ∷ [])
  elim params [
    | param2 ∷ [] ↦ (do
      u8_phone_number ← pack_digits len_phone_number (param2 ++ (0 ∷ []))
      ok (fill info' idx_device_return_phnum u8_phone_number))
    | _ ↦ ok info'
  ]

-- The stored command, cut into its fields: what is returned, and `info`.
unfoldable pub put_command : List (List ℕ) → Mem → Outcome (ℤ × Mem)
put_command [] info = fault
put_command (param0 ∷ params) info = do
  cmd ← atoi param0
  let info' = fill info idx_device_return_command (to_char cmd ∷ [])
  info'' ←
      if bit_and (to_char cmd) 0xF0 == 0x40 then put_number (param0 ∷ params) info' else ok info'
  ok (pos (bit_and (to_char cmd) 0xF0), info'')

module _ (h : Host) where
  -- Behind the lookup of the command: no command, a short one, or one with an index.
  unfoldable pub pop_command :
      List ℕ → Mem → World h → Option (List ℕ) × h.redis.State → Outcome (ℤ × Mem × World h)
  pop_command u8_device_id info w (none, s) = ok (pos 0, info, record w { redis_state = s })
  pop_command u8_device_id info w (some value, s) =
      if ltb (length value) 4
      then (do
        cmd ← atoi value
        s' ← del_redis_key h.redis u8_device_id s
        ok (command_or_error cmd, info, record w { redis_state = s' }))
      else (do
        params ← separation b'_' value
        (result, info') ← put_command params info
        s' ← del_redis_key h.redis u8_device_id s
        ok (result, info', record w { redis_state = s' }))

  -- Behind the SET of the device's state for its user.
  unfoldable pub after_report :
      List ℕ → Mem → World h → Bool × h.redis.State → Outcome (ℤ × Mem × World h)
  after_report u8_device_id info w (false, s) = ok (negsuc 1, info, record w { redis_state = s })
  after_report u8_device_id info w (true, s) = do
    found ← get_value_fromredis h.redis 256 u8_device_id s
    pop_command u8_device_id info w found

  -- `ENABLE_FALLDOWN_HTTPPOST`: a nonzero low half of byte 10 reports a fall.
  unfoldable pub report_fall : Mem → World h → World h
  report_fall packet w =
      if not (bit_and (packet 10) 0x0F == 0)
      then start_thread h (http_device_falldown packet) w
      else w

  -- Behind the lookup of the device's user.
  unfoldable pub heart_for :
      Mem → List ℕ → Mem → World h → Option (List ℕ) × h.redis.State → Outcome (ℤ × Mem × World h)
  heart_for packet u8_device_id info w (none, s) = ok (negsuc 0, info, record w { redis_state = s })
  heart_for packet u8_device_id info w (some user, s) = do
    let u8_device_info = hextostring (slice packet idx_device_power len_device_info)
    u8_redis_device_info ← store_text 256 (
        codes "I_"
        ++ (u8_device_info
            ++ (codes "_" ++ print_int (int_at packet idx_device_heartpacket_timestamp))))
    stored ← set_key_toredis h.redis user u8_redis_device_info s
    after_report u8_device_id info (report_fall packet (record w { redis_state = s })) stored

  unfoldable pub device_heart_packet : Mem → ℕ → Mem → World h → Outcome (ℤ × Mem × World h)
  device_heart_packet packet len info w =
      if not (len == len_heart_packet_device) then ok (negsuc 2, info, w) else do
        let u8_device_id = hextostring (slice packet idx_device_id len_device_id)
        u8_relation_ship_device ← store_text 22 (codes "R_" ++ u8_device_id)
        found ← get_value_fromredis h.redis 256 u8_relation_ship_device w.redis_state
        heart_for packet u8_device_id info w found

  -- `hextostring(u8 + 1, ...); u8[0] = c; u8[4] = '.'`
  abbrev pub coordinate : ℕ → List ℕ → List ℕ
  coordinate c bytes = set (c ∷ hextostring bytes) 4 b'.'

  -- A position: a thread that fetches A-GPS data where the high half of the type is set, a row, and a
  -- text for the user.
  unfoldable pub gps_for : Mem → List ℕ → List ℕ → World h → Outcome (ℤ × World h)
  gps_for packet u8_device_id user w = do
    let u8_longitude = coordinate b'E' (slice packet idx_device_gps_longitude len_longitude_data)
    let u8_latitude = coordinate b'N' (slice packet idx_device_gps_latitude len_latitude_data)
    u8_high ← store_text 12 (print_int (int_at packet idx_device_gps_high))
    let w' =
        if not (bit_and (packet idx_device_locationtype) 0xF0 == 0)
        then start_thread h
            (ublox_download_apgs (record {
              u8_device_id = u8_device_id;
              u8_longitude = u8_longitude;
              u8_latitude = u8_latitude;
            }))
            w
        else w
    (inserted, w'') ← insert_device_gps h u8_longitude u8_latitude u8_high u8_device_id w'
    info ← store_text 256 (
        codes "G_"
        ++ (u8_longitude
            ++ (codes "_"
                ++ (u8_latitude
                    ++ (codes "_"
                        ++ (print_int (int_at packet idx_device_gps_high)
                            ++ (codes "_0_"
                                ++ print_int (long_at packet idx_device_gps_timestamp))))))))
    (stored, s) ← set_key_toredis h.redis user info w''.redis_state
    ok (if stored then pos 0 else negsuc 1, record w'' { redis_state = s })

  unfoldable pub location_for :
      Mem → ℕ → List ℕ → World h → Option (List ℕ) × h.redis.State → Outcome (ℤ × World h)
  location_for packet len u8_device_id w (none, s) = ok (negsuc 0, record w { redis_state = s })
  location_for packet len u8_device_id w (some user, s) =
      if len == len_gps_location_data
      then gps_for packet u8_device_id user (record w { redis_state = s })
      else ok (pos 0, start_thread h (http_post packet) (record w { redis_state = s }))

  unfoldable pub device_location_packet : Mem → ℕ → World h → Outcome (ℤ × World h)
  device_location_packet packet len w =
      if not (len == len_gps_location_data) && not (len == len_lab_location_data)
      then ok (negsuc 2, w)
      else do
        let u8_device_id = hextostring (slice packet idx_device_id len_device_id)
        u8_relation_ship_device ← store_text 22 (codes "R_" ++ u8_device_id)
        found ← get_value_fromredis h.redis 256 u8_relation_ship_device w.redis_state
        location_for packet len u8_device_id w found
