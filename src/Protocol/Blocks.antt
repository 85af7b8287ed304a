-- ===== src/Protocol/Blocks.antt =====
-- `deviceBlockDataRecvPacket` and `deviceBlockDataSendPacket` of ApolloProtocol.c, and the case
-- `HDR_BLOCK_DATA_RECV` of `apolloParsePacket`: a device uploads a file in blocks, and downloads it.
use robot_server.Common.{
  ℕ, ◌+◌, ◌-◌, ◌*◌, ◌/◌, ◌^◌, ltb, Bool, false, not, ◌&&◌, List, [], ◌∷◌, leb, ◌==◌, length,
  if◌then◌else◌,
}
use robot_server.Common.Int.{ℤ, pos, negsuc, ◌+ℤ◌, ◌*ℤ◌, eq_ℤ, leb_ℤ, signed_char}
use robot_server.Common.Bytes.{Mem, slice, fill}
use robot_server.Common.Outcome.{Outcome, ok, fault, ◌>>=◌, ◌>>◌, check}
use robot_server.Wire.{
  idx_device_id, len_device_id, len_device_download, len_block_packet, len_block_buffer,
  len_block_data, len_header_length, multicast_type_agps,
}
use robot_server.Util.Hex.{hextostring}
use robot_server.Util.Paths.{codes, store_text, gen_block_file_path_name, gen_agps_file_path_name}
use robot_server.Block.{take_data_packet, send_packets}
use robot_server.Syner.{data_length, store_block, save_block}
use robot_server.Host.{Host, World, syner_action, start_thread, apollo_return_packet}

-- `(unsigned)i >= (unsigned)n`: a negative `n` is a huge number.
abbrev pub reached : ℕ → ℤ → Bool
reached i (pos n) = leb n i
reached i (negsuc n) = false

-- The file that a download asks for.
unfoldable pub download_name : Mem → List ℕ
download_name packet =
    let u8_device_id = hextostring (slice packet idx_device_id len_device_id) in
    if packet 13 == 0x60
    then gen_block_file_path_name u8_device_id
    else if packet 13 == 0x61
    then gen_agps_file_path_name u8_device_id
    else gen_block_file_path_name u8_device_id

module _ (h : Host) where
  -- The block of a packet goes into the client's buffer.
  unfoldable pub keep_block : World h → Outcome (World h)
  keep_block w = do
    let m = w.client.packet
    buffer ← store_block len_block_packet (signed_char (m 13)) (data_length m) m w.client.buffer
    ok (record w { client = record w.client { buffer = buffer } })

  -- `memset(client->pBlock->packet, 0, n)`, for 1024 bytes at least: behind the 1024 of `packet` a
  -- `BlockBuffer` has the four bytes of `index`, the low one first, and ends behind them.
  unfoldable pub clear_packet : ℕ → World h → Outcome (World h)
  clear_packet n w = do
    check (leb n (len_block_packet + 4))
    let behind = 256 ^ (n - len_block_packet)
    ok (record w {
      client = record w.client {
        packet = λ a. if ltb a n then 0 else w.client.packet a;
        index = w.client.index / behind * behind;
      };
    })

  abbrev pub set_index : ℕ → World h → World h
  set_index index w = record w { client = record w.client { index = index } }

  -- `deviceBlockDataRecvPacket`, up to the last packet. Nothing calls it.
  unfoldable pub recv_block : ℕ → World h → Outcome (World h)
  recv_block len w =
      let m = w.client.packet in
      if w.client.index + len == len_block_packet
        && not (eq_ℤ (signed_char (m 13) +ℤ pos 1) (signed_char (m 29)))
      then (do w' ← keep_block (set_index 0 w); clear_packet len_block_packet w')
      else ok (set_index (w.client.index + len) w)

  -- The last packet: the file's name is made from `u8DeviceId`, which has no terminator.
  unfoldable pub device_block_data_recv_packet : ℕ → World h → Outcome (World h)
  device_block_data_recv_packet len w = do
    let m = w.client.packet
    w' ← recv_block len w
    if eq_ℤ (signed_char (m 13) +ℤ pos 1) (signed_char (m 29))
          && leb_ℤ (data_length m +ℤ pos len_header_length) (pos len)
        then (do w'' ← keep_block w'; fault)
        else ok w'

  unfoldable pub send_all : List (List ℕ) → World h → World h
  send_all [] w = w
  send_all (p ∷ ps) w = send_all ps (apollo_return_packet h p w)

  unfoldable pub device_block_data_send_packet : Mem → ℕ → World h → Outcome (ℤ × World h)
  device_block_data_send_packet packet len w =
      if not (len == len_device_download) then ok (negsuc 2, w) else do
        u8_file_name ← store_text 64 (download_name packet)
        bytes ← take_data_packet w.disk u8_file_name (λ i. packet (i + 1))
        check (leb (length bytes) len_block_buffer)
        let w' = record w { client = record w.client { buffer = fill w.client.buffer 0 bytes } }
        ok (pos (length bytes), send_all (send_packets bytes) w')

  -- A packet that fills the frame and is not the last is copied, and the frame is cleared, with the four
  -- bytes behind it; otherwise the frame goes on. The result is `blockIndex`.
  unfoldable pub upload_block : ℕ → ℕ → World h → Outcome (ℕ × World h)
  upload_block nbytes block_index w =
      let m = w.client.packet in
      if block_index + nbytes == len_block_packet
        && not (eq_ℤ (signed_char (m 13) +ℤ pos 1) (signed_char (m 29)))
      then (do
        w' ← keep_block w
        w'' ← clear_packet (len_block_packet + 4) w'
        ok (0, set_index 0 w''))
      else ok (block_index + nbytes, set_index (block_index + nbytes) w)

  -- The last packet `m` is complete: the file is saved, the device is answered, and the file is
  -- multicast. `u8FileName` has 32 bytes.
  unfoldable pub finish_upload : Mem → World h → Outcome (World h)
  finish_upload m w = do
    let index = signed_char (m 13)
    let u8_device_id = hextostring (slice m idx_device_id len_device_id)
    buffer ← store_block len_block_packet index (data_length m) m w.client.buffer
    u8_file_name ← store_text 32 (gen_block_file_path_name u8_device_id)
    disk ← save_block w.disk u8_file_name buffer (index *ℤ len_block_data +ℤ data_length m)
    let w' = record w { disk = disk; client = record w.client { buffer = buffer } }
    let w'' = apollo_return_packet h (codes "SETOK%") w'
    ok (
        start_thread h
          (syner_action (record { u8_device_id = u8_device_id; u8flag = multicast_type_agps })) w'')

  unfoldable pub block_data_recv : ℕ → ℕ → World h → Outcome (ℕ × World h)
  block_data_recv nbytes block_index w = do
    let m = w.client.packet
    (block_index', w') ← upload_block nbytes block_index w
    if eq_ℤ (signed_char (m 13) +ℤ pos 1) (signed_char (m 29))
          && reached block_index' (data_length m +ℤ pos len_header_length)
        then (do w'' ← finish_upload m w'; ok (block_index', w''))
        else ok (block_index', w')
