-- ===== src/Protocol/Phone.antt =====
-- `checkPhoneCommand`, `phoneHeaderPacket` and `phoneCommandPacket` of ApolloProtocol.c. The packet is
-- the memory from `data` on.
use robot_server.Common.{
  ℕ, Bool, true, false, not, ◌||◌, Option, none, some, List, [], ◌∷◌, ◌++◌, ◌==◌, if◌then◌else◌,
}
use robot_server.Common.Int.{ℤ, pos, negsuc, eq_ℤ, signed_char}
use robot_server.Common.Bytes.{Mem, slice}
use robot_server.Common.Outcome.{Outcome, ok, ◌>>=◌}
use robot_server.Wire.{
  idx_phone_id, idx_phone_command, idx_phone_cmd_index, idx_phone_cmd_number, len_phone_id,
  len_phone_number, len_heart_packet_phone, len_command_packet, cmd_phone_buzzer_device_open,
  cmd_phone_buzzer_device_close, cmd_phone_light1_device_open, cmd_phone_light1_device_close,
  cmd_phone_light2_device_open, cmd_phone_light2_device_close, cmd_phone_register_user,
  cmd_phone_signin_user, cmd_phone_update_pwd, cmd_phone_device_alarmmusic_open,
  cmd_phone_device_alarmmusic_close, cmd_phone_device_safezonemusic_open,
  cmd_phone_device_safezonemusic_close, cmd_phone_device_sos_msgremainer_open,
  cmd_phone_device_sos_msgremainer_close, cmd_phone_device_power_msgremainder_open,
  cmd_phone_device_power_msgremainder_close, cmd_phone_device_familynumber_set,
  cmd_phone_device_contract_set, cmd_phone_device_phonebook_set, cmd_phone_device_freq_set,
  cmd_phone_bind_device, cmd_phone_unbind_device, cmd_phone_device_sos_clear,
  cmd_phone_device_reset, cmd_phone_device_download, cmd_phone_device_realtime_location,
  cmd_phone_device_countstep_open, cmd_phone_device_countstep_close,
  cmd_phone_device_sleepquilty_open, cmd_phone_device_sleepquilty_close, cmd_phone_device_alarm,
  cmd_phone_device_safezone_alarm, cmd_phone_device_longsat_alarm, cmd_phone_device_lowpower_alarm,
}
use robot_server.Decimal.{print_nat, print_int, atoi}
use robot_server.Util.Hex.{hextostring}
use robot_server.Util.Paths.{codes, store_text}
use robot_server.Redis.{set_key_toredis, get_value_fromredis}
use robot_server.Host.{Host, World}
use robot_server.Sql.{select_location_new_item}

-- One of the commands.
abbrev pub elem : ℕ → List ℕ → Bool
elem c [] = false
elem c (x ∷ xs) = c == x || elem c xs

-- The class of a command: the number that `checkPhoneCommand` returns.
unfoldable pub check_phone_command : ℕ → ℤ
check_phone_command cmd =
    if elem cmd (
      cmd_phone_buzzer_device_open ∷ cmd_phone_buzzer_device_close ∷ cmd_phone_light1_device_open
      ∷ cmd_phone_light1_device_close ∷ cmd_phone_light2_device_open ∷ cmd_phone_light2_device_close
      ∷ [])
    then pos 8
    else if elem cmd (cmd_phone_register_user ∷ cmd_phone_signin_user ∷ cmd_phone_update_pwd ∷ [])
    then pos 7
    else if elem cmd (
        cmd_phone_device_alarmmusic_open ∷ cmd_phone_device_alarmmusic_close
        ∷ cmd_phone_device_safezonemusic_open ∷ cmd_phone_device_safezonemusic_close ∷ [])
    then pos 6
    else if elem cmd (
        cmd_phone_device_sos_msgremainer_open ∷ cmd_phone_device_sos_msgremainer_close
        ∷ cmd_phone_device_power_msgremainder_open ∷ cmd_phone_device_power_msgremainder_close ∷ [])
    then pos 5
    else if elem cmd (
        cmd_phone_device_familynumber_set ∷ cmd_phone_device_contract_set
        ∷ cmd_phone_device_phonebook_set ∷ cmd_phone_device_freq_set ∷ [])
    then pos 4
    else if elem cmd (cmd_phone_bind_device ∷ cmd_phone_unbind_device ∷ [])
    then pos 3
    else if cmd == cmd_phone_device_sos_clear
    then pos 2
    else if cmd == cmd_phone_device_reset
    then pos 1
    else if elem cmd (
        cmd_phone_device_download ∷ cmd_phone_device_realtime_location
        ∷ cmd_phone_device_countstep_open ∷ cmd_phone_device_countstep_close
        ∷ cmd_phone_device_sleepquilty_open ∷ cmd_phone_device_sleepquilty_close
        ∷ cmd_phone_device_alarm ∷ cmd_phone_device_safezone_alarm ∷ cmd_phone_device_longsat_alarm
        ∷ cmd_phone_device_lowpower_alarm ∷ [])
    then pos 0
    else negsuc 0

-- 0 or more.
abbrev pub at_least_0 : ℤ → Bool
at_least_0 (pos n) = true
at_least_0 (negsuc n) = false

-- What a command with an index is stored as.
unfoldable pub indexed_value : Mem → List ℕ
indexed_value packet =
    let front =
      print_int (signed_char (packet idx_phone_command))
      ++ (codes "_" ++ print_int (signed_char (packet idx_phone_cmd_index))) in
    if not (packet idx_phone_command == cmd_phone_device_freq_set)
    then front ++ (codes "_" ++ hextostring (slice packet idx_phone_cmd_number len_phone_number))
    else front

module _ (h : Host) where
  -- 0, or -2 where the value could not be stored.
  unfoldable pub set_value : List ℕ → List ℕ → World h → Outcome (ℤ × World h)
  set_value key value w = do
    (stored, s) ← set_key_toredis h.redis key value w.redis_state
    ok (if stored then pos 0 else negsuc 1, record w { redis_state = s })

  -- The branches for the phone `user_id` and the device bound to it.
  unfoldable pub store_command : Mem → ℤ → List ℕ → World h → Outcome (ℤ × World h)
  store_command packet user_id u8_device_id w =
      let cmd = packet idx_phone_command in
      let class = check_phone_command cmd in
      if eq_ℤ class (pos 4)
      then (do u8_value ← store_text 48 (indexed_value packet); set_value u8_device_id u8_value w)
      else if eq_ℤ class (pos 7)
      then ok (pos 0, w)
      else if eq_ℤ class (pos 3)
      then ok (pos 0, w)
      else if at_least_0 class
      then (do
        w' ←
            if cmd == cmd_phone_device_realtime_location
            then select_location_new_item h u8_device_id user_id w
            else ok w
        set_value u8_device_id (print_nat cmd) w')
      else ok (pos 0, w)

  -- The part behind the lookup of the bound device.
  unfoldable pub command_for :
      Mem → ℤ → World h → Option (List ℕ) × h.redis.State → Outcome (ℤ × World h)
  command_for packet user_id w (none, s) = ok (negsuc 0, record w { redis_state = s })
  command_for packet user_id w (some u8_device_id, s) =
      store_command packet user_id u8_device_id (record w { redis_state = s })

  unfoldable pub phone_command_packet : Mem → ℕ → World h → Outcome (ℤ × World h)
  phone_command_packet packet len w =
      if not (len == len_command_packet) then ok (negsuc 2, w) else do
        user_id ← atoi (hextostring (slice packet idx_phone_id len_phone_id))
        u8_relation_ship_phone ← store_text 14 (codes "RP_" ++ print_int user_id)
        found ← get_value_fromredis h.redis 17 u8_relation_ship_phone w.redis_state
        command_for packet user_id w found

  -- The text for the phone, and its length.
  abbrev pub text_or_empty : Option (List ℕ) → List ℕ
  text_or_empty none = []
  text_or_empty (some s) = s

  -- The result is none for -3, and otherwise the text in `info`, whose length is returned.
  unfoldable pub phone_header_packet : Mem → ℕ → World h → Outcome (Option (List ℕ) × World h)
  phone_header_packet packet len w =
      if not (len == len_heart_packet_phone) then ok (none, w) else do
        user_id ← atoi (hextostring (slice packet idx_phone_id len_phone_id))
        phone_id ← store_text 9 (print_int user_id)
        (info, s) ← get_value_fromredis h.redis 256 phone_id w.redis_state
        ok (some (text_or_empty info), record w { redis_state = s })
