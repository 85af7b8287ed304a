-- ===== src/Syner.antt =====
-- ApolloSyner.c: the thread that multicasts a file in block packets (`ApolloSynerAction`), and one
-- round of the thread that puts the packets together again (`ApolloSyner`). The sockets are the
-- environment: whether `socket` and `bind` succeed, and the datagrams that arrive, are arguments.
pub mod Receive
pub mod Transfer
pub mod Multicast
mod Examples
use robot_server.Common.{
  ℕ, suc, ◌+◌, ◌-◌, ◌*◌, Bool, true, false, not, ◌&&◌, ◌||◌, List, [], ◌∷◌, ◌++◌, ltb, leb, ◌==◌,
  if◌then◌else◌, length, take, replicate,
}
use robot_server.Common.Int.{ℤ, pos, negsuc, ◌+ℤ◌, ◌*ℤ◌, eq_ℤ, signed_char}
use robot_server.Common.Bytes.{Mem, slice, fill, load}
use robot_server.Common.Outcome.{Outcome, ok, fault, ◌>>=◌, ◌>>◌, check}
use robot_server.Wire.{
  len_device_id, len_block_buffer, len_block_packet, len_header_length, len_block_data,
  idx_device_id, multicast_type_block, multicast_type_agps,
}
use robot_server.Util.Hex.{hextostring, pack_digits}
use robot_server.Util.Scan.{apollo_strcmp}
use robot_server.Util.Paths.{gen_agps_file_path_name, gen_block_file_path_name, store_text}
use robot_server.Block.{Disk, write_dat, take_data_packet, take_data_packet_flag, send_packets}

-- `MulticastSynerPacket`: the text in `u8DeviceId[18]`, which is zero behind it, and `u8flag`.
pub record MulticastSynerPacket : Type 0 where
  pub u8_device_id : List ℕ
  pub u8flag : ℕ

-- The datagrams that `ApolloSynerAction` sends, in order.
unfoldable pub apollo_syner_action :
    Disk → (socket_ok bind_ok : Bool) → MulticastSynerPacket → Outcome (List (List ℕ))
apollo_syner_action disk socket_ok bind_ok p = if not (socket_ok && bind_ok) then ok [] else do
  file_name ← store_text 128 p.u8_device_id
  path_name ← store_text 128 (gen_agps_file_path_name file_name)
  dev_id ← pack_digits len_device_id (p.u8_device_id ++ replicate (18 - length p.u8_device_id) 0)
  send_buf ← take_data_packet disk path_name (load dev_id)
  check (leb (length send_buf) len_block_buffer)
  ok (send_packets (take_data_packet_flag send_buf p.u8flag))

-- The variables of `ApolloSyner` that live across its rounds, and the files.
pub record Syner : Type 0 where
  pub u8_dev_id : Mem
  pub u8_syner_block_data : Mem
  pub disk : Disk

-- `data[30] * 256 + (unsigned char)data[31]`
abbrev pub data_length : Mem → ℤ
data_length m = signed_char (m 30) *ℤ 256 +ℤ pos (m 31)

-- `for (i = 0; i < dataLength; i++) block[pktIndex*992+i] = data[32+i]`, where `data` has `cap` bytes
-- and `block` has 32 * 1024.
abbrev pub store_block : ℕ → ℤ → ℤ → Mem → Mem → Outcome Mem
store_block cap i (negsuc n) packet block = ok block
store_block cap (pos i) (pos n) packet block = do
  check
      (n == 0 || (leb (len_header_length + n) cap && leb (i * len_block_data + n) len_block_buffer))
  ok (fill block (i * len_block_data) (slice packet len_header_length n))
store_block cap (negsuc i) (pos n) packet block = do check (n == 0); ok block

-- `write_dat(u8FileName, block, n)`; a negative `n` is a huge `size_t`.
abbrev pub save_block : Disk → List ℕ → Mem → ℤ → Outcome Disk
save_block disk name block (negsuc n) = fault
save_block disk name block (pos n) = do
  check (leb n len_block_buffer)
  write_dat disk name (slice block 0 n)

-- Where the last packet of a file is saved, by its flag.
unfoldable pub file_name : Mem → List ℕ → List ℕ
file_name m u8_device_id =
    if m 20 == multicast_type_block
    then gen_block_file_path_name u8_device_id
    else if m 20 == multicast_type_agps
    then gen_agps_file_path_name u8_device_id
    else gen_block_file_path_name u8_device_id

-- `recvmsg[1048]` with the datagram, of which at most 1024 bytes are read, and zeroes behind it.
abbrev pub recv_buffer : List ℕ → Mem
recv_buffer msg = load (take len_block_packet msg)

-- The block of a packet that passed the checks.
unfoldable pub accept : Syner → ℕ → Mem → Outcome Syner
accept s n m =
    let pkt_index = signed_char (m 13) in
    let last = eq_ℤ (pkt_index +ℤ pos 1) (signed_char (m 29)) in
    do
      block ←
          if n == len_block_packet && not last
          then store_block 1048 pkt_index (data_length m) m s.u8_syner_block_data
          else ok s.u8_syner_block_data
      if last
          then (do
            block' ← store_block 1048 pkt_index (data_length m) m block
            name ← store_text 64 (file_name m (hextostring (slice m idx_device_id len_device_id)))
            disk ← save_block s.disk name block' (pkt_index *ℤ len_block_data +ℤ data_length m)
            ok (record s { u8_syner_block_data = λ a. 0; disk = disk }))
          else ok (record s { u8_syner_block_data = block })

-- `if (pktIndex == 0) memcpy(u8DevId, data+1, LEN_DEVICE_ID);`
unfoldable pub learn_device : Syner → Mem → Syner
learn_device s m =
    if eq_ℤ (signed_char (m 13)) (pos 0)
    then record s { u8_dev_id = load (slice m 1 len_device_id) }
    else s

-- The checks on `n` received bytes.
unfoldable pub receive_packet : Syner → ℕ → Mem → Outcome Syner
receive_packet s n m =
    if not (m 0 == b'V')
    then ok s
    else let s' = learn_device s m in
      if not (apollo_strcmp s'.u8_dev_id 0 m 1 len_device_id) then ok s' else accept s' n m

-- One round of the loop, from `recvfrom` on.
unfoldable pub receive : Syner → List ℕ → Outcome Syner
receive s msg = receive_packet s (length (take len_block_packet msg)) (recv_buffer msg)

-- The rounds for a sequence of datagrams.
unfoldable pub receive_all : Syner → List (List ℕ) → Outcome Syner
receive_all s [] = ok s
receive_all s (msg ∷ msgs) = receive s msg >>= λ s'. receive_all s' msgs
