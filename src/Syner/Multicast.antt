-- ===== src/Syner/Multicast.antt =====
-- A file that `ApolloSynerAction` multicasts and `ApolloSyner` receives.
use robot_server.Common.{
  ℕ, suc, ◌/◌, ◌≤◌, ◌<◌, ◌≡◌, refl, ◌∙◌, inl, true, some, List, ◌++◌, map, arith, length,
  length-append, All, flatten, le→leb, lt→leb, leb, take, take_all, length-take, replicate, ◌-◌,
}
use robot_server.Common.Bytes.{IsByte, slice, load, slice-load_self}
use robot_server.Common.Outcome.{ok, fault, ◌>>◌, check}
use robot_server.Wire.{multicast_type_agps}
use robot_server.Util.Hex.{hextostring, pack_digits, IsBcd}
use robot_server.Util.Hex.RoundTrip.{hextostring_lem, pack_digits-hextostring_iff}
use robot_server.Util.Paths.{codes, gen_agps_file_path_name}
use robot_server.Block.{Disk, put_file, take_data_packet_flag, send_packets}
use robot_server.Block.Frames.{
  frames_of, frames_of-IsFrames, length-frames_of, take_data_packet-frames,
}
use robot_server.Block.Cut.{send_packets-flatten, take_data_packet_flag-flatten, IsFrames-map-set}
use robot_server.Syner.{Syner, apollo_syner_action, receive_all}
use robot_server.Syner.Transfer.{stamp, done, transfer}

length-agps_path : (id : List ℕ) → length id ≡ 16 → suc (length (gen_agps_file_path_name id)) ≤ 128
unfolding gen_agps_file_path_name
length-agps_path id h = omega (arith, length-append id (codes "_agps.dat"))

dev_lem : (dev : List ℕ) → length dev ≡ 8 → slice (load dev) 0 8 ≡ dev
dev_lem dev len = rw len at (slice-load_self dev)

pack_lem :
    (dev rest : List ℕ)
    → length dev ≡ 8
    → All IsByte dev
    → All IsBcd dev
    → pack_digits 8 (hextostring dev ++ rest) ≡ ok dev
pack_lem dev rest len byte bcd = rw len at ((pack_digits-hextostring_iff dev rest byte).1 bcd)

-- Up to the check of the send buffer.
send_buffer_lem :
    (disk : Disk) (dev bytes : List ℕ)
    → length dev ≡ 8
    → All IsByte dev
    → All IsBcd dev
    → disk.file (gen_agps_file_path_name (hextostring dev)) ≡ some bytes
    → apollo_syner_action disk true true
        (record { u8_device_id = hextostring dev; u8flag = multicast_type_agps })
      ≡ (check (leb (length (flatten (frames_of (load dev) (take 32768 bytes)))) 32768)
          >> ok (
              send_packets
                (take_data_packet_flag (flatten (frames_of (load dev) (take 32768 bytes))) 0x32)))
unfolding apollo_syner_action
send_buffer_lem disk dev bytes len byte bcd held =
    let id = hextostring dev in
    let id_len : length id ≡ 16 = omega (arith, (hextostring_lem dev byte).1) in
    rw (
      le→leb (suc (length id)) 128 (omega arith),
      le→leb (suc (length (gen_agps_file_path_name id))) 128 (length-agps_path id id_len),
      pack_lem dev (replicate (18 - length id) 0) len byte bcd,
      take_data_packet-frames disk (gen_agps_file_path_name id) (load dev) bytes held,
    )

-- What is sent: the frames of the file, each with the flag.
apollo_syner_action_lem :
    (disk : Disk) (dev bytes : List ℕ)
    → length dev ≡ 8
    → All IsByte dev
    → All IsBcd dev
    → disk.file (gen_agps_file_path_name (hextostring dev)) ≡ some bytes
    → length bytes ≤ 31744
    → apollo_syner_action disk true true
        (record { u8_device_id = hextostring dev; u8flag = multicast_type_agps })
      ≡ ok (map stamp (frames_of (load dev) bytes))
unfolding stamp
apollo_syner_action_lem disk dev bytes len byte bcd held fits =
    let fs = frames_of (load dev) bytes in
    let framed = frames_of-IsFrames (load dev) bytes in
    send_buffer_lem disk dev bytes len byte bcd held
    ∙ rw (
      take_all 32768 bytes (omega arith),
      le→leb (length (flatten fs)) 32768 (omega (arith, length-frames_of (load dev) bytes)),
      take_data_packet_flag-flatten fs 0x32 framed,
      send_packets-flatten (map stamp fs) (IsFrames-map-set fs 0x32 framed),
    )

-- A file of more than 31744 bytes overflows the 32768 bytes of `sendBuf`, as each block has a header;
-- the device id has decimal digits only and the sockets work.
pub apollo_syner_action-fault :
    (disk : Disk) (dev bytes : List ℕ)
    → length dev ≡ 8
    → All IsByte dev
    → All IsBcd dev
    → disk.file (gen_agps_file_path_name (hextostring dev)) ≡ some bytes
    → 31744 < length bytes
    → apollo_syner_action disk true true
        (record { u8_device_id = hextostring dev; u8flag = multicast_type_agps })
      ≡ fault
apollo_syner_action-fault disk dev bytes len byte bcd held long =
    let fs = frames_of (load dev) (take 32768 bytes) in
    send_buffer_lem disk dev bytes len byte bcd held
    ∙ rw (
        lt→leb (length (flatten fs)) 32768
          (omega (arith, length-frames_of (load dev) (take 32768 bytes), length-take 32768 bytes)))

-- A device whose id has decimal digits only multicasts a file of 1 to 31744 bytes, and the sockets
-- work and the receiver can open the file's path: the packets that
-- `ApolloSynerAction` sends, received in order by `ApolloSyner` in any state, leave exactly this
-- file at the receiver, under the same name, and no other file changes.
pub receive_all-apollo_syner_action :
    (disk : Disk) (s : Syner) (dev bytes : List ℕ)
    → length dev ≡ 8
    → All IsByte dev
    → All IsBcd dev
    → disk.file (gen_agps_file_path_name (hextostring dev)) ≡ some bytes
    → 0 < length bytes
    → length bytes ≤ 31744
    → s.disk.opens (gen_agps_file_path_name (hextostring dev)) ≡ true
    → (packets : List (List ℕ)) × (s' : Syner) × (apollo_syner_action disk true true
          (record { u8_device_id = hextostring dev; u8flag = multicast_type_agps })
        ≡ ok packets)
      × (receive_all s packets ≡ ok s')
      × (s'.disk ≡ put_file s.disk (gen_agps_file_path_name (hextostring dev)) bytes)
unfolding frames_of done
receive_all-apollo_syner_action disk s dev bytes len byte bcd held some_left fits opens =
    let (d, e) =
      transfer (load dev) bytes fits (length bytes / 992) 0 bytes s refl some_left (omega arith)
        (omega arith) refl (inl refl) (rw (dev_lem dev len) opens) in
    (
      map stamp (frames_of (load dev) bytes),
      done (load dev) bytes fits s d,
      apollo_syner_action_lem disk dev bytes len byte bcd held fits,
      e,
      rw (dev_lem dev len),
    )
