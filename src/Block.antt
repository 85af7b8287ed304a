-- ===== src/Block.antt =====
-- The block packets of ApolloUtil.c: `read_dat`, `write_dat`, `takeDataPacket` and
-- `takeDataPacketFlag`, and the loop that sends a buffer in packets of 1024 bytes.
pub mod Frames
pub mod Cut
mod Examples
use robot_server.Common.{
  ℕ, zero, suc, ◌+◌, ◌-◌, ◌*◌, ◌/◌, ◌%◌, Bool, Option, none, some, List, [], ◌∷◌, ◌++◌, ltb, leb,
  ◌==◌, not, if◌then◌else◌, length, set, take, drop,
}
use robot_server.Common.Bytes.{Mem}
use robot_server.Common.Outcome.{Outcome, ok, fault, ◌>>=◌, ◌>>◌, check}
use robot_server.Wire.{len_device_id, len_block_buffer, len_block_packet, len_block_data}

-- The files of the machine, and the paths at which `fopen` can create one.
pub record Disk : Type 0 where
  pub file : List ℕ → Option (List ℕ)
  pub opens : List ℕ → Bool

-- Two texts are one.
abbrev pub eq_text : List ℕ → List ℕ → Bool
eq_text [] [] = Bool.true
eq_text [] (y ∷ ys) = Bool.false
eq_text (x ∷ xs) [] = Bool.false
eq_text (x ∷ xs) (y ∷ ys) = if x == y then eq_text xs ys else Bool.false

-- The contents of a file, at most `len` bytes; `fread` from a null stream is a fault.
unfoldable pub read_dat : Disk → List ℕ → ℕ → Outcome (List ℕ)
read_dat disk filename len = elim (disk.file filename) [ none ↦ fault | some d ↦ ok (take len d) ]

-- The disk on which the file holds the bytes.
unfoldable pub put_file : Disk → List ℕ → List ℕ → Disk
put_file disk filename bytes = record disk {
  file = λ p. if eq_text filename p then some bytes else disk.file p;
}

-- `fwrite` to a null stream is a fault.
unfoldable pub write_dat : Disk → List ℕ → List ℕ → Outcome Disk
write_dat disk filename bytes = do check (disk.opens filename); ok (put_file disk filename bytes)

-- `unsigned char header[LEN_HEADER_LENGTH]`
pub header_template : List ℕ
header_template =
    b'V' ∷ 0x0 ∷ 0x86 ∷ 0x18 ∷ 0x64 ∷ 0x33 ∷ 0x87 ∷ 0x42 ∷ 0x90 ∷ 0x15 ∷ 0x09 ∷ 0x00 ∷ 0x02 ∷ 0x0
    ∷ 0x0 ∷ 0x0 ∷ 0x0 ∷ 0x0 ∷ 0x0 ∷ 0x0 ∷ 0x0 ∷ 0x0 ∷ 0x0 ∷ 0x0 ∷ 0x0 ∷ 0x0 ∷ 0x0 ∷ 0x0 ∷ 0x0 ∷ 0x0
    ∷ 0x0 ∷ 0x0 ∷ []

-- `for (i = 0; i < LEN_DEVICE_ID; i++) header[i+1] = packet[i]`, with the rounds that are left.
pub copy_device_id : ℕ → ℕ → Mem → List ℕ → List ℕ
copy_device_id zero i packet header = header
copy_device_id (suc n) i packet header =
    copy_device_id n (i + 1) packet (set header (i + 1) (packet i))

-- `header[13] = i; header[30] = len / 256; header[31] = len % 256`, as unsigned characters.
pub number_block : List ℕ → ℕ → ℕ → List ℕ
number_block header i len =
    set (set (set header 13 (i % 256)) 30 (len / 256 % 256)) 31 (len % 256 % 256)

-- The loop over the full blocks, with the rounds that are left; it returns the header and the bytes
-- stored in `data`.
pub full_blocks : ℕ → ℕ → List ℕ → List ℕ → List ℕ → List ℕ × List ℕ
unfolding number_block
full_blocks zero i buffer header bytes = (header, bytes)
full_blocks (suc n) i buffer header bytes =
    let numbered = number_block header i len_block_data in
    full_blocks n (i + 1) buffer numbered
      ((bytes ++ numbered) ++ take len_block_data (drop (i * len_block_data) buffer))

-- The blocks of a file's contents.
unfoldable pub block_data : List ℕ → Mem → List ℕ
unfolding full_blocks header_template copy_device_id
block_data buffer packet =
    let size = length buffer in
    let total =
      if not (size % len_block_data == 0)
      then size / len_block_data + 1
      else size / len_block_data in
    let header = set (copy_device_id len_device_id 0 packet header_template) 29 (total % 256) in
    let (header', bytes) = full_blocks (size / len_block_data) 0 buffer header [] in
    if not (size % len_block_data == 0)
    then (bytes ++ number_block header' (size / len_block_data) (size % len_block_data))
      ++ take (size % len_block_data) (drop (size / len_block_data * len_block_data) buffer)
    else bytes

unfoldable pub take_data_packet : Disk → List ℕ → Mem → Outcome (List ℕ)
unfolding read_dat
take_data_packet disk filename packet = do
  buffer ← read_dat disk filename len_block_buffer
  ok (block_data buffer packet)

-- `while (i*LEN_BLOCK_PACKET < length) { data[i*LEN_BLOCK_PACKET + 20] = flag; i++; }`
pub flag_loop : ℕ → ℕ → List ℕ → ℕ → List ℕ
flag_loop zero i bytes flag = bytes
flag_loop (suc fuel) i bytes flag =
    let rest = flag_loop fuel (i + 1) (set bytes (i * len_block_packet + 20) flag) flag in
    if ltb (i * len_block_packet) (length bytes) then rest else bytes

-- Each round but the last moves on by 1024 bytes, so a round for each byte is enough.
unfoldable pub take_data_packet_flag : List ℕ → ℕ → List ℕ
unfolding flag_loop
take_data_packet_flag bytes flag = flag_loop (length bytes) 0 bytes flag

-- `while (sendLength < totalLength)`: the packets in the order in which they are sent.
pub send_loop : ℕ → ℕ → List ℕ → List (List ℕ)
send_loop zero send_length bytes = []
send_loop (suc fuel) send_length bytes =
    let full =
      take len_block_packet (drop send_length bytes)
      ∷ send_loop fuel (send_length + len_block_packet) bytes in
    let rest = drop send_length bytes ∷ [] in
    if ltb send_length (length bytes)
    then (if leb len_block_packet (length bytes - send_length) then full else rest)
    else []

unfoldable pub send_packets : List ℕ → List (List ℕ)
unfolding send_loop
send_packets bytes = send_loop (length bytes) 0 bytes
