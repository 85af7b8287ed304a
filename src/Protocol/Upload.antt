-- ===== src/Protocol/Upload.antt =====
-- The upload of a file in blocks: what a middle packet does, and where the last one ends.
use robot_server.Common.{
  ℕ, ltb, if◌then◌else◌, ◌+◌, ◌*◌, ◌≤◌, ◌≡◌, ◌≢◌, refl, List, arith, length, ◌==◌, ==_refl, le→leb,
  ne→==, or_true, and_false,
}
use robot_server.Common.Int.{signed_char}
use robot_server.Common.Bytes.{Mem, fill}
use robot_server.Common.Outcome.{ok, fault, bind-fault}
use robot_server.Util.Hex.{hextostring}
use robot_server.Util.Paths.{gen_block_file_path_name}
use robot_server.Host.{Host, World}
use robot_server.Syner.{data_length, store_block}
use robot_server.Syner.Receive.{IsPacket, data_length_lem, index_lem, last_lem}
use robot_server.Protocol.Blocks.{
  keep_block, clear_packet, upload_block, finish_upload, block_data_recv,
}

module _ (h : Host) where
  -- The name of the file, of 40 characters, does not fit its 32 bytes.
  finish_upload-fault : (m : Mem) (w : World h) → finish_upload h m w ≡ fault
  unfolding finish_upload hextostring gen_block_file_path_name
  finish_upload-fault m w =
      bind-fault (store_block 1024 (signed_char (m 13)) (data_length m) m w.client.buffer)

  module _ {dev : Mem} {i total flag : ℕ} {block : List ℕ} (w : World h)
      (p : IsPacket w.client.packet dev i total flag block) where
    store_lem :
        i * 992 + length block ≤ 32768
        → keep_block h w
          ≡ ok (record w {
            client = record w.client { buffer = fill w.client.buffer (i * 992) block };
          })
    unfolding keep_block
    store_lem fits =
        rw
          (
            index_lem p,
            data_length_lem p,
            le→leb (32 + length block) 1024 (omega (arith, p.small)),
            le→leb (i * 992 + length block) 32768 fits,
            p.body,
            or_true (length block == 0),
          )
          refl

  -- A block packet that completes a frame of 1024 bytes and is not the last is copied to its place in
  -- the client's buffer, and 1028 bytes are cleared: the frame and, behind it, the index, so that the
  -- frame starts again, empty. A last packet that is complete overflows the name of its file, so that no
  -- upload ends well.
  pub block_data_recv_lem :
      (w : World h) (dev : Mem) (i total flag : ℕ) (block : List ℕ) (nbytes block_index : ℕ)
      → IsPacket w.client.packet dev i total flag block
      → i * 992 + length block ≤ 32768
      → (i + 1 ≢ total
          → block_index + nbytes ≡ 1024
          → block_data_recv h nbytes block_index w
            ≡ ok (
              0,
              record w {
                client = record w.client {
                  buffer = fill w.client.buffer (i * 992) block;
                  packet = λ a. if ltb a 1028 then 0 else w.client.packet a;
                  index = 0;
                };
              },
            ))
        × (i + 1 ≡ total
            → 32 + length block ≤ block_index + nbytes
            → block_data_recv h nbytes block_index w ≡ fault)
  unfolding block_data_recv upload_block clear_packet
  block_data_recv_lem w dev i total flag block nbytes block_index p fits = (
    λ ne full. rw (last_lem p, ne→== (i + 1) total ne, full, store_lem w p fits) refl,
    λ e enough.
        rw
          (
            last_lem p,
            e,
            ==_refl total,
            and_false (block_index + nbytes == 1024),
            data_length_lem p,
            le→leb (length block + 32) (block_index + nbytes) (omega arith),
            finish_upload-fault w.client.packet
                (record w { client = record w.client { index = block_index + nbytes } }),
          )
          refl,
  )
