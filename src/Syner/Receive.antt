-- ===== src/Syner/Receive.antt =====
-- One round of `ApolloSyner` on a well-formed packet.
use robot_server.Common.{
  ℕ, suc, ◌+◌, ◌*◌, ◌/◌, ◌%◌, ◌≤◌, ◌<◌, ◌≡◌, sym, ◌∙◌, ◌≢◌, ◌⊎◌, inl, inr, true, false, List, arith,
  length, ◌==◌, le→leb, ne→==, eq→==, or_true, and_false, Bool-cases,
}
use robot_server.Common.Int.{pos, ◌+ℤ◌, ◌*ℤ◌, eq_ℤ, signed_char}
use robot_server.Common.Bytes.{Mem, slice, fill, load, slice-load_self}
use robot_server.Common.Outcome.{ok}
use robot_server.Util.Hex.{hextostring}
use robot_server.Util.Scan.Laws.{apollo_strcmp_iff}
use robot_server.Block.{put_file, write_dat}
use robot_server.Syner.{
  Syner, data_length, store_block, file_name, accept, learn_device, receive_packet,
}

-- The fields of a packet in the receive buffer `m`: block `i` of `total`, with the bytes `block`.
pub record IsPacket (m dev : Mem) (i total flag : ℕ) (block : List ℕ) : Type 0 where
  pub magic : m 0 ≡ b'V'
  pub device : slice m 1 8 ≡ slice dev 0 8
  pub index : m 13 ≡ i
  pub kind : m 20 ≡ flag
  pub count : m 29 ≡ total
  pub high : m 30 ≡ length block / 256
  pub low : m 31 ≡ length block % 256
  pub body : slice m 32 (length block) ≡ block
  pub small : length block ≤ 992
  pub index_small : i < 128
  pub count_small : total < 128

module _ {m dev : Mem} {i total flag : ℕ} {block : List ℕ}
    (p : IsPacket m dev i total flag block) where
  pub data_length_lem : data_length m ≡ pos (length block)
  data_length_lem = rw (p.high, p.low) (length_lem (length block) p.small)
    where
      length_lem : (n : ℕ) → n ≤ 992 → signed_char (n / 256) *ℤ 256 +ℤ pos (n % 256) ≡ pos n
      length_lem n h = ground arith

  pub index_lem : signed_char (m 13) ≡ pos i
  index_lem = ground (arith, p.index, p.index_small)

  count_lem : signed_char (m 29) ≡ pos total
  count_lem = ground (arith, p.count, p.count_small)

  learn_first :
      (s : Syner) → (i == 0) ≡ true → learn_device s m ≡ record s { u8_dev_id = load (slice m 1 8) }
  unfolding learn_device
  learn_first s e = rw (index_lem, e)

  learn_later : (s : Syner) → (i == 0) ≡ false → learn_device s m ≡ s
  unfolding learn_device
  learn_later s e = rw (index_lem, e)

  -- The packet passes the checks with the device id `d`.
  receive_known :
      (s : Syner) (n : ℕ) (d : Mem)
      → learn_device s m ≡ record s { u8_dev_id = d }
      → slice d 0 8 ≡ slice dev 0 8
      → receive_packet s n m ≡ accept (record s { u8_dev_id = d }) n m
  unfolding receive_packet
  receive_known s n d e same =
      rw (p.magic, e, (apollo_strcmp_iff d 0 m 1 8).1 (same ∙ sym p.device))

  -- The packet passes the checks if it is the first or the device id is known.
  pub receive_accept :
      (s : Syner) (n : ℕ)
      → (i ≡ 0) ⊎ (slice s.u8_dev_id 0 8 ≡ slice dev 0 8)
      → (d : Mem) × (slice d 0 8 ≡ slice dev 0 8)
        × (receive_packet s n m ≡ accept (record s { u8_dev_id = d }) n m)
  receive_accept s n h = elim (Bool-cases (i == 0)) [
    | inl first ↦
        let d = load (slice m 1 8) in
        let same : slice d 0 8 ≡ slice dev 0 8 = slice-load_self (slice m 1 8) ∙ p.device in
        (d, same, receive_known s n d (learn_first s first) same)
    | inr later ↦
        let same : slice s.u8_dev_id 0 8 ≡ slice dev 0 8 = ground arith in
        (s.u8_dev_id, same, receive_known s n s.u8_dev_id (learn_later s later) same)
  ]

  store_block_lem :
      (b : Mem)
      → i * 992 + length block ≤ 32768
      → store_block 1048 (signed_char (m 13)) (data_length m) m b ≡ ok (fill b (i * 992) block)
  store_block_lem b h = rw (
    index_lem,
    data_length_lem,
    le→leb (32 + length block) 1048 (small_lem (length block) p.small),
    le→leb (i * 992 + length block) 32768 h,
    p.body,
    or_true (length block == 0),
  )
    where
      small_lem : (n : ℕ) → n ≤ 992 → 32 + n ≤ 1048
      small_lem n h = omega arith

  pub last_lem : eq_ℤ (signed_char (m 13) +ℤ pos 1) (signed_char (m 29)) ≡ (i + 1 == total)
  last_lem = rw (index_lem, count_lem)

  -- A full block that is not the last is stored.
  pub accept_middle :
      (s : Syner) (n : ℕ)
      → n ≡ 1024
      → i + 1 ≢ total
      → i * 992 + length block ≤ 32768
      → accept s n m
        ≡ ok (record s { u8_syner_block_data = fill s.u8_syner_block_data (i * 992) block })
  unfolding accept
  accept_middle s n e ne h =
      rw (e, last_lem, ne→== (i + 1) total ne, store_block_lem s.u8_syner_block_data h)

  -- The last block is stored, and the blocks so far are saved as a file.
  pub accept_last :
      (s : Syner) (n : ℕ) (bytes : List ℕ)
      → i + 1 ≡ total
      → i * 992 + length block ≡ length bytes
      → length bytes ≤ 32768
      → slice (fill s.u8_syner_block_data (i * 992) block) 0 (length bytes) ≡ bytes
      → length (file_name m (hextostring (slice dev 0 8))) < 64
      → s.disk.opens (file_name m (hextostring (slice dev 0 8))) ≡ true
      → accept s n m
        ≡ ok (record s {
          u8_syner_block_data = λ a. 0;
          disk = put_file s.disk (file_name m (hextostring (slice dev 0 8))) bytes;
        })
  unfolding accept write_dat
  accept_last s n bytes e size small saved short opens = rw (
    last_lem,
    eq→== (i + 1) total e,
    and_false (n == 1024),
    store_block_lem s.u8_syner_block_data (omega arith),
    p.device,
    le→leb (suc (length (file_name m (hextostring (slice dev 0 8))))) 64 short,
    index_lem,
    data_length_lem,
    size,
    le→leb (length bytes) 32768 small,
    opens,
    saved,
  )
