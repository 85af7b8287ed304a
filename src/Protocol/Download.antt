-- ===== src/Protocol/Download.antt =====
-- A device downloads a file: what reaches its connection.
use robot_server.Common.{
  ℕ, suc, ◌+◌, ◌≤◌, ◌≡◌, refl, ap, ◌∙◌, false, some, List, [], ◌∷◌, ◌++◌, arith, length, flatten,
  le→leb, take_all, ◌==◌, inl, inr, Bool-cases,
}
use mathlib.Core.List.{append-nil, append_assoc}
use robot_server.Common.Int.{pos}
use robot_server.Common.Bytes.{Mem, fill}
use robot_server.Common.Outcome.{ok}
use robot_server.Util.Hex.{hextostring}
use robot_server.Util.Paths.{gen_block_file_path_name, gen_agps_file_path_name}
use robot_server.Block.Frames.{
  frames_of, frames_of-IsFrames, length-frames_of, take_data_packet-frames,
}
use robot_server.Block.Cut.{send_packets-flatten}
use robot_server.Host.{Host, World, apollo_return_packet}
use robot_server.Protocol.Blocks.{send_all, download_name, device_block_data_send_packet}

download_name_short : (packet : Mem) → suc (length (download_name packet)) ≤ 64
unfolding download_name hextostring gen_block_file_path_name gen_agps_file_path_name
download_name_short packet = elim (Bool-cases (packet 13 == 0x60)) [
  | inl e ↦ rw e (omega arith)
  | inr e ↦ elim (Bool-cases (packet 13 == 0x61)) [
    | inl e' ↦ rw (e, e') (omega arith)
    | inr e' ↦ rw (e, e') (omega arith)
  ]
]

module _ (h : Host)
    (no_fail : (sent : List (List ℕ)) (out : List ℕ) → h.write_fails sent out ≡ false) where
  -- Packets that are all written are sent in order.
  send_all_lem :
      (ps : List (List ℕ)) (w : World h)
      → w.client.output_buffer ≡ []
      → send_all h ps w
        ≡ record w { client = record w.client { output_buffer = []; sent = w.client.sent ++ ps } }
  unfolding send_all apollo_return_packet
  send_all_lem [] w e =
      rw (append-nil w.client.sent)
        (ap (λ o. record w { client = record w.client { output_buffer = o } }) e)
  send_all_lem (p ∷ ps) w e =
      let w' = record w {
        client = record w.client { output_buffer = []; sent = w.client.sent ++ (p ∷ []) };
      } in
      rw (no_fail w.client.sent (w.client.output_buffer ++ p), e)
        (send_all_lem ps w' refl ∙ rw (append_assoc w.client.sent (p ∷ []) ps) refl)

  -- A download of a file of at most 31744 bytes, on a connection that takes every write and has
  -- nothing pending: the frames of the file are sent in order, behind what was sent before, and their
  -- total length is returned.
  pub device_block_data_send_packet-frames :
      (packet : Mem) (w : World h) (bytes : List ℕ)
      → w.client.output_buffer ≡ []
      → w.disk.file (download_name packet) ≡ some bytes
      → length bytes ≤ 31744
      → (w' : World h) × (device_block_data_send_packet h packet 16 w
          ≡ ok (pos (length (flatten (frames_of (λ i. packet (i + 1)) bytes))), w'))
        × (w'.client.sent ≡ w.client.sent ++ frames_of (λ i. packet (i + 1)) bytes)
  unfolding device_block_data_send_packet
  device_block_data_send_packet-frames packet w bytes e held small =
      let dev : Mem = λ i. packet (i + 1) in
      let fs = frames_of dev bytes in
      let w' = record w {
        client = record w.client { buffer = fill w.client.buffer 0 (flatten fs) };
      } in
      (
        record w' { client = record w'.client { output_buffer = []; sent = w.client.sent ++ fs } },
        rw
            (
              le→leb (suc (length (download_name packet))) 64 (download_name_short packet),
              take_data_packet-frames w.disk (download_name packet) dev bytes held,
              take_all 32768 bytes (omega arith),
              le→leb (length (flatten fs)) 32768 (omega (arith, length-frames_of dev bytes)),
              send_packets-flatten fs (frames_of-IsFrames dev bytes),
              send_all_lem fs w' e,
            )
            refl,
        refl,
      )
