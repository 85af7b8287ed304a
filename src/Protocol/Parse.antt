-- ===== src/Protocol/Parse.antt =====
-- `apolloParsePacket` of ApolloProtocol.c: the received bytes go into the client's frame, and the
-- first byte of the frame selects the handler.
use robot_server.Common.{
  ℕ, zero, suc, ◌-◌, ◌||◌, Option, none, some, List, [], ◌∷◌, ◌++◌, bit_and, ltb, ◌==◌, length,
  take, drop, if◌then◌else◌,
}
use robot_server.Common.Int.{ℤ, pos, negsuc}
use robot_server.Common.Bytes.{Mem, slice, fill}
use robot_server.Common.Outcome.{Outcome, ok, ◌>>=◌}
use robot_server.Wire.{
  hdr_heart_packet_device, hdr_heart_packet_phone, hdr_command_packet, hdr_location_data,
  hdr_add_device, hdr_operator_user_info, hdr_base_station_device, hdr_block_data_recv,
  hdr_block_data_send, hdr_info_return, cmd_phone_device_familynumber_set,
  len_device_heartpacket_return_buffer, len_block_packet,
}
use robot_server.Decimal.{to_char}
use robot_server.Util.Paths.{codes}
use robot_server.Host.{Host, World, write_time_header, apollo_return_packet}
use robot_server.Protocol.Phone.{phone_header_packet, phone_command_packet}
use robot_server.Protocol.Device.{device_heart_packet, device_location_packet}
use robot_server.Protocol.User.{phone_operator_user_info, phone_add_device, device_base_station}
use robot_server.Protocol.Blocks.{device_block_data_send_packet, block_data_recv}

module _ (h : Host) where
  -- The answer to a heartbeat, from the handler's result and `setValueBuf`.
  unfoldable pub heart_answer : ℤ → Mem → World h → World h
  heart_answer (pos zero) info w =
      apollo_return_packet h
        (codes "RETOK" ++ (0 ∷ (write_time_header (h.localtime w.client.sent) ++ (0 ∷ [])))) w
  heart_answer (pos (suc n)) info w =
      if bit_and (suc n) 0xF0 == bit_and cmd_phone_device_familynumber_set 0xF0
      then apollo_return_packet h
          (slice (fill info 0 (b'C' ∷ [])) 0 len_device_heartpacket_return_buffer) w
      else apollo_return_packet h (b'C' ∷ b'E' ∷ b'T' ∷ to_char (pos (suc n)) ∷ b'K' ∷ b'%' ∷ []) w
  heart_answer (negsuc n) info w =
      if n == 0 || n == 1
      then apollo_return_packet h
          (codes "RETOK" ++ (0 ∷ (write_time_header (h.localtime w.client.sent) ++ (0 ∷ [])))) w
      else w

  -- The answer to a phone's heartbeat; none where its length was wrong.
  unfoldable pub phone_answer : Option (List ℕ) → World h → World h
  phone_answer none w = w
  phone_answer (some info) w = apollo_return_packet h (codes "RET:" ++ info) w

  -- The switch on `data[0]`; the result is `blockIndex`.
  unfoldable pub dispatch : ℕ → ℕ → World h → Outcome (ℕ × World h)
  dispatch nbytes block_index w =
      let packet = w.client.packet in
      let header = packet 0 in
      if header == hdr_heart_packet_device
      then (do
        (result, info, w') ← device_heart_packet h packet nbytes (λ a. 0) w
        ok (block_index, heart_answer result info w'))
      else if header == hdr_heart_packet_phone
      then (do
        (info, w') ← phone_header_packet h packet nbytes w
        ok (block_index, phone_answer info w'))
      else if header == hdr_command_packet
      then (do (result, w') ← phone_command_packet h packet nbytes w; ok (block_index, w'))
      else if header == hdr_location_data
      then (do
        (result, w') ← device_location_packet h packet nbytes w
        ok (block_index, apollo_return_packet h (codes "RETOK%") w'))
      else if header == hdr_info_return
      then ok (block_index, w)
      else if header == hdr_add_device
      then ok (block_index, phone_add_device h packet nbytes w)
      else if header == hdr_operator_user_info
      then (do w' ← phone_operator_user_info h packet nbytes w; ok (block_index, w'))
      else if header == hdr_base_station_device
      then ok (block_index, device_base_station h packet nbytes w)
      else if header == hdr_block_data_recv
      then block_data_recv h nbytes block_index w
      else if header == hdr_block_data_send
      then (do (total, w') ← device_block_data_send_packet h packet nbytes w; ok (block_index, w'))
      else ok (block_index, w)

  -- The loop over the input buffer. Each round takes one byte of it at least, so as many rounds as it
  -- has bytes are enough.
  unfoldable pub parse_loop : ℕ → List ℕ → ℕ → World h → Outcome (List ℕ × World h)
  parse_loop zero input block_index w = ok (input, w)
  parse_loop (suc fuel) input block_index w =
      let room = len_block_packet - block_index in
      elim (take room input) [
        | [] ↦ ok (input, w)
        | c ∷ cs ↦ (do
          let got = c ∷ cs
          let framed = record w {
            client = record w.client { packet = fill w.client.packet block_index got };
          }
          (block_index', w') ← dispatch (length got) block_index framed
          parse_loop fuel (drop room input) block_index' w')
      ]

  -- What is left of the input buffer, and the world behind it.
  unfoldable pub apollo_parse_packet : List ℕ → World h → Outcome (List ℕ × World h)
  apollo_parse_packet input w =
      let index = w.client.index in
      parse_loop (length input) input (if ltb len_block_packet index then 0 else index) w
