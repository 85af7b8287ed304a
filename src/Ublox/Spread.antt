-- ===== src/Ublox/Spread.antt =====
-- From the satellite data that one server fetches to the device that downloads them from another.
use robot_server.Common.{
  ℕ, ◌+◌, ◌≤◌, ◌≡◌, refl, true, false, some, List, [], ◌∷◌, ◌++◌, All, arith, length, length-append,
  length-drop, drop, flatten,
}
use robot_server.Common.Int.{pos}
use robot_server.Common.Bytes.{Mem, slice}
use robot_server.Common.Outcome.{ok}
use robot_server.Wire.{multicast_type_agps}
use robot_server.Util.Hex.{hextostring, IsBcd}
use robot_server.Util.Paths.{gen_agps_file_path_name}
use robot_server.Block.{put_file}
use robot_server.Block.Frames.{frames_of}
use robot_server.Redis.Service.{IsStore}
use robot_server.Redis.Words.{eq_text_refl}
use robot_server.Syner.{Syner, apollo_syner_action, receive_all}
use robot_server.Syner.Multicast.{receive_all-apollo_syner_action}
use robot_server.Host.{Host, World, syner_action, write_time_header}
use robot_server.Protocol.Mailbox.{IsBound, device_text, All-IsByte}
use robot_server.Protocol.Blocks.{download_name, device_block_data_send_packet}
use robot_server.Protocol.Download.{device_block_data_send_packet-frames}
use robot_server.Ublox.{Service, agps_file_name, open_file, overwrite, ublox_download_apgs}
use robot_server.Ublox.Fetch.{fetched, ublox_lem}

length-overwrite :
    (bytes old : List ℕ) (n : ℕ)
    → length bytes ≤ n
    → length old ≤ n
    → (length bytes ≤ length (overwrite bytes old)) × (length (overwrite bytes old) ≤ n)
length-overwrite bytes old n h k = (
  omega (arith, length-append bytes (drop (length bytes) old)),
  omega (arith, length-append bytes (drop (length bytes) old), length-drop (length bytes) old),
)

-- A request for the satellite data of a device.
pub record IsRequest (d request : Mem) : Type 0 where
  pub device : slice request 1 8 ≡ slice d 1 8
  pub kind : request 13 ≡ 0x61

download_name_lem :
    (d request : Mem)
    → IsRequest d request
    → download_name request ≡ gen_agps_file_path_name (hextostring (slice d 1 8))
unfolding download_name
download_name_lem d request i = rw (download_name, i.kind, i.device) refl

module _ (h : Host) (st : IsStore h.redis) (a : Service) (w : World h) (d : Mem) (user : List ℕ)
    (b : IsBound h st w.redis_state d user) (longitude latitude bytes old : List ℕ)
    (answer : a.get_assist_now_online_data latitude longitude ≡ some bytes)
    (fits : length bytes ≤ 8184)
    (opens : open_file w.disk (agps_file_name (device_text h st d)) ≡ some old) where
  abbrev pub data_of : List ℕ
  data_of = overwrite (write_time_header a.localtime ++ (a.eighth ∷ bytes)) old

  -- The satellite data of a device reach it from any replica: a server fetches them for the position of
  -- the device and starts their multicast; the packets that are sent, received in order by another
  -- server, put the file there; and a download by the device, from that server, sends exactly the
  -- frames of this file, behind what was sent before. The device is bound to a user, and its id has
  -- decimal digits only; the u-blox server answers with at most 8184 bytes, the file that was there has
  -- at most 31744, the sockets work, the paths can be opened, Redis stores strings, and the connection
  -- of the download takes every write and has nothing pending.
  pub ublox_download_apgs-device_block_data_send_packet :
      (s : Syner) (h' : Host) (w' : World h') (request : Mem)
      → All IsBcd (slice d 1 8)
      → length old ≤ 31744
      → s.disk.opens (gen_agps_file_path_name (hextostring (slice d 1 8))) ≡ true
      → ((sent : List (List ℕ)) (out : List ℕ) → h'.write_fails sent out ≡ false)
      → w'.client.output_buffer ≡ []
      → IsRequest d request
      → (w₁ : World h) × (packets : List (List ℕ)) × (s' : Syner) × (w₂ : World h')
        × (ublox_download_apgs h a
              (record {
                u8_device_id = device_text h st d;
                u8_longitude = longitude;
                u8_latitude = latitude;
              })
              w
            ≡ ok w₁)
        × (w₁.started
            ≡ w.started
              ++ (syner_action
                    (record { u8_device_id = device_text h st d; u8flag = multicast_type_agps })
                  ∷ []))
        × (apollo_syner_action w₁.disk true true
              (record { u8_device_id = device_text h st d; u8flag = multicast_type_agps })
            ≡ ok packets)
        × (receive_all s packets ≡ ok s')
        × (device_block_data_send_packet h' request 16 (record w' { disk = s'.disk })
            ≡ ok (pos (length (flatten (frames_of (λ i. request (i + 1)) data_of))), w₂))
        × (w₂.client.sent ≡ w'.client.sent ++ frames_of (λ i. request (i + 1)) data_of)
  unfolding put_file agps_file_name gen_agps_file_path_name
  ublox_download_apgs-device_block_data_send_packet s h' w' request bcd small_old path_opens no_fail
        empty asks =
      let id = hextostring (slice d 1 8) in
      let path = gen_agps_file_path_name id in
      let w₁ = fetched h st a w d user b longitude latitude bytes old answer fits opens in
      let head = write_time_header a.localtime ++ (a.eighth ∷ bytes) in
      let (some_bytes, small) = length-overwrite head old 31744 (omega arith) small_old in
      let (packets, s', sends, receives, disk) =
        receive_all-apollo_syner_action w₁.disk s (slice d 1 8) data_of refl (All-IsByte h st b 1 8)
          bcd (rw (eq_text_refl path) refl) (omega arith) small path_opens in
      let held : s'.disk.file (download_name request) ≡ some data_of =
        rw (disk, download_name_lem d request asks, eq_text_refl path) refl in
      let (w₂, downloads, sent) =
        device_block_data_send_packet-frames h' no_fail request (record w' { disk = s'.disk })
          data_of empty held small in
      (
        w₁,
        packets,
        s',
        w₂,
        ublox_lem h st a w d user b longitude latitude bytes old answer fits opens,
        refl,
        sends,
        receives,
        downloads,
        sent,
      )
