-- ===== src/Syner/Transfer.antt =====
-- The packets of a file, received one after the other by `ApolloSyner`.
use robot_server.Common.{
  ℕ, zero, suc, ◌+◌, ◌-◌, ◌*◌, ◌≤◌, ◌<◌, ◌≡◌, refl, sym, ap, ◌∙◌, ◌⊎◌, inr, true, List, [], ◌∷◌,
  map, arith, length, length-take, length-drop, take, drop, drop-drop, set, take_all,
  take-append-drop, take-add,
}
use native.Mathlib.Decide.{dec_lt}
use robot_server.Common.Bytes.{Mem, slice, fill, load, slice-load, slice-fill_behind}
use robot_server.Common.Outcome.{ok}
use robot_server.Util.Hex.{hextostring}
use robot_server.Util.Paths.{gen_agps_file_path_name}
use robot_server.Block.{put_file}
use robot_server.Block.Frames.{header, frame, frames, block_count}
use robot_server.Syner.{Syner, file_name, receive_packet, receive, receive_all}
use robot_server.Syner.Receive.{IsPacket, receive_accept, accept_middle, accept_last}

abbrev stamped : Mem → ℕ → ℕ → List ℕ → List ℕ
stamped dev total i block = set (frame dev total i (length block) block) 20 0x32

length-stamped :
    (dev : Mem) (total i : ℕ) (block : List ℕ)
    → length (stamped dev total i block) ≡ 32 + length block
unfolding header
length-stamped dev total i block = omega arith

stamped-IsPacket :
    (dev : Mem) (total i : ℕ) (block : List ℕ)
    → length block ≤ 992
    → i < 128
    → total < 128
    → IsPacket (load (stamped dev total i block)) dev i total 0x32 block
unfolding header
stamped-IsPacket dev total i block small hi ht = record {
  magic = refl;
  device = refl;
  index = omega arith;
  kind = refl;
  count = omega arith;
  high = omega arith;
  low = omega arith;
  body =
      slice-load (stamped dev total i block) 32 (length block) (omega arith)
      ∙ take_all (length block) block (omega arith);
  small = small;
  index_small = hi;
  count_small = ht;
}

-- What a datagram leaves in the receive buffer.
receive-stamped :
    (s : Syner) (dev : Mem) (total i : ℕ) (block : List ℕ)
    → length block ≤ 992
    → receive s (stamped dev total i block)
      ≡ receive_packet s (32 + length block) (load (stamped dev total i block))
unfolding receive
receive-stamped s dev total i block small =
    let len = length-stamped dev total i block in
    rw (take_all 1024 (stamped dev total i block) (omega (arith, len)), len)

-- The file in which the packets of device `dev` are saved.
abbrev pub agps_path : Mem → List ℕ
agps_path dev = gen_agps_file_path_name (hextostring (slice dev 0 8))

agps_path_short : (dev : Mem) → suc (length (agps_path dev)) ≡ 49
unfolding hextostring gen_agps_file_path_name
agps_path_short dev = refl

file_name-agps : (m : Mem) (id : List ℕ) → m 20 ≡ 0x32 → file_name m id ≡ gen_agps_file_path_name id
unfolding file_name
file_name-agps m id e = rw e

unfoldable pub stamp : List ℕ → List ℕ
stamp f = set f 20 0x32

stamp-full :
    (dev : Mem) (total i : ℕ) (block : List ℕ)
    → length block ≡ 992
    → stamp (frame dev total i 992 block) ≡ stamped dev total i block
unfolding stamp
stamp-full dev total i block e = ap (λ n. set (frame dev total i n block) 20 0x32) (sym e)

frames_none :
    (dev : Mem) (total k i : ℕ) (rest : List ℕ)
    → length rest ≡ 0
    → k * 992 ≤ length rest
    → frames dev total k i rest ≡ []
unfolding frames
frames_none dev total zero i [] e h = refl
frames_none dev total zero i (x ∷ rest) e h = absurd (omega arith)
frames_none dev total (suc k) i rest e h = absurd (omega arith)

module _ (dev : Mem) (bytes : List ℕ) (fits : length bytes ≤ 31744) where
  -- The state after the last packet.
  unfoldable pub done : Syner → Mem → Syner
  done s d = record {
    u8_dev_id = d;
    u8_syner_block_data = λ a. 0;
    disk = put_file s.disk (agps_path dev) bytes;
  }

  step_last :
      (s : Syner) (i : ℕ) (block : List ℕ)
      → drop (i * 992) bytes ≡ block
      → 0 < length block
      → length block ≤ 992
      → slice s.u8_syner_block_data 0 (i * 992) ≡ take (i * 992) bytes
      → (i ≡ 0) ⊎ (slice s.u8_dev_id 0 8 ≡ slice dev 0 8)
      → s.disk.opens (agps_path dev) ≡ true
      → (d : Mem) × (receive s (stamped dev (block_count (length bytes)) i block) ≡ ok (done s d))
  unfolding done
  step_last s i block at some_left small sofar known opens =
      let total = block_count (length bytes) in
      let m = load (stamped dev total i block) in
      let id = hextostring (slice dev 0 8) in
      let len : length bytes - i * 992 ≡ length block =
        sym (length-drop (i * 992) bytes) ∙ ap length at in
      let p = stamped-IsPacket dev total i block small (omega arith) (omega arith) in
      let (d, same, e) = receive_accept p s (32 + length block) known in
      let fn : file_name m id ≡ agps_path dev = file_name-agps m id p.kind in
      let size : i * 992 + length block ≡ length bytes = omega arith in
      let saved : slice (fill s.u8_syner_block_data (i * 992) block) 0 (length bytes) ≡ bytes =
        rw (← size, slice-fill_behind s.u8_syner_block_data (i * 992) block, sofar, ← at)
          (take-append-drop (i * 992) bytes) in
      let last =
        accept_last p (record s { u8_dev_id = d }) (32 + length block) bytes (omega arith) size
          (omega arith) saved (rw fn (omega (arith, agps_path_short dev))) (rw fn opens) in
      (d, receive-stamped s dev total i block small ∙ e ∙ (rw fn at last))

  step_middle :
      (s : Syner) (i : ℕ) (rest : List ℕ)
      → drop (i * 992) bytes ≡ rest
      → 992 < length rest
      → (i ≡ 0) ⊎ (slice s.u8_dev_id 0 8 ≡ slice dev 0 8)
      → (d : Mem) × (slice d 0 8 ≡ slice dev 0 8)
        × (receive s (stamped dev (block_count (length bytes)) i (take 992 rest))
            ≡ ok (record s {
              u8_dev_id = d;
              u8_syner_block_data = fill s.u8_syner_block_data (i * 992) (take 992 rest);
            }))
  step_middle s i rest at long known =
      let total = block_count (length bytes) in
      let block = take 992 rest in
      let full : length block ≡ 992 = omega (arith, length-take 992 rest) in
      let len : length bytes - i * 992 ≡ length rest =
        sym (length-drop (i * 992) bytes) ∙ ap length at in
      let p = stamped-IsPacket dev total i block (omega arith) (omega arith) (omega arith) in
      let (d, same, e) = receive_accept p s (32 + length block) known in
      let size : 32 + length block ≡ 1024 = omega arith in
      let middle =
        accept_middle p (record s { u8_dev_id = d }) (32 + length block) size (omega arith)
          (omega arith) in
      (d, same, receive-stamped s dev total i block (omega arith) ∙ e ∙ middle)

  sofar_next :
      (s : Syner) (i : ℕ) (rest : List ℕ)
      → drop (i * 992) bytes ≡ rest
      → length (take 992 rest) ≡ 992
      → slice s.u8_syner_block_data 0 (i * 992) ≡ take (i * 992) bytes
      → slice (fill s.u8_syner_block_data (i * 992) (take 992 rest)) 0 ((i + 1) * 992)
        ≡ take ((i + 1) * 992) bytes
  sofar_next s i rest at full sofar =
      let next : (i + 1) * 992 ≡ i * 992 + 992 = omega arith in
      let behind = slice-fill_behind s.u8_syner_block_data (i * 992) (take 992 rest) in
      rw (next, take-add (i * 992) 992 bytes, at, ← sofar) (rw full at behind)

  pub transfer :
      (k i : ℕ) (rest : List ℕ) (s : Syner)
      → drop (i * 992) bytes ≡ rest
      → 0 < length rest
      → k * 992 ≤ length rest
      → length rest < (k + 1) * 992
      → slice s.u8_syner_block_data 0 (i * 992) ≡ take (i * 992) bytes
      → (i ≡ 0) ⊎ (slice s.u8_dev_id 0 8 ≡ slice dev 0 8)
      → s.disk.opens (agps_path dev) ≡ true
      → (d : Mem) × (receive_all s (map stamp (frames dev (block_count (length bytes)) k i rest))
          ≡ ok (done s d))
  unfolding receive_all frames stamp done
  transfer zero i [] s at some_left lo hi sofar known opens = absurd (omega arith)
  transfer zero i (x ∷ rest) s at some_left lo hi sofar known opens =
      let (d, e) = step_last s i (x ∷ rest) at some_left (omega arith) sofar known opens in
      (d, rw e)
  transfer (suc k) i rest s at some_left lo hi sofar known opens = elim (dec_lt 992 (length rest)) [
    | yes long ↦
        let (d, same, e) = step_middle s i rest at long known in
        let block = take 992 rest in
        let s' = record s {
          u8_dev_id = d;
          u8_syner_block_data = fill s.u8_syner_block_data (i * 992) block;
        } in
        let full : length block ≡ 992 = omega (arith, length-take 992 rest) in
        let len : length (drop 992 rest) ≡ length rest - 992 = length-drop 992 rest in
        let next : i * 992 + 992 ≡ (i + 1) * 992 = omega arith in
        let (d', e') =
          transfer k (i + 1) (drop 992 rest) s'
            (ap (λ n. drop n bytes) (sym next)
              ∙ sym (drop-drop 992 (i * 992) bytes)
              ∙ ap (drop 992) at)
            (omega arith) (omega arith) (omega arith) (sofar_next s i rest at full sofar) (inr same)
            opens in
        (d', rw (stamp-full dev (block_count (length bytes)) i block full, e) e')
    | no exact ↦
        let full : length rest ≡ 992 = omega arith in
        let block = take 992 rest in
        let all : block ≡ rest = take_all 992 rest (omega arith) in
        let len : length block ≡ 992 = omega (arith, length-take 992 rest) in
        let (d, e) =
          step_last s i block (at ∙ sym all) (omega arith) (omega arith) sofar known opens in
        let tail =
          frames_none dev (block_count (length bytes)) k (i + 1) (drop 992 rest)
            (omega (arith, length-drop 992 rest)) (omega (arith, length-drop 992 rest)) in
        (d, rw (stamp-full dev (block_count (length bytes)) i block len, e, tail))
  ]
