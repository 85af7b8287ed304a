-- ===== src/Ublox.antt =====
-- ubloxDownloadApgs of anolclient_china.c: the thread that fetches the satellite data for a position,
-- puts it into the device's file, tells the device to download it, and starts the multicast. The u-blox
-- client, which the rest of that file is, is a parameter.
pub mod Fetch
pub mod Spread
mod Examples
use robot_server.Common.{
  ℕ, suc, ◌+◌, Bool, true, false, Option, none, some, List, [], ◌∷◌, ◌++◌, leb, length, drop,
  if◌then◌else◌,
}
use robot_server.Common.Outcome.{Outcome, ok, fault, ◌>>=◌, ◌>>◌, check}
use robot_server.Wire.{multicast_type_agps}
use robot_server.Decimal.{print_nat}
use robot_server.Util.Paths.{codes, store_text}
use robot_server.Block.{Disk, put_file}
use robot_server.Redis.{set_key_toredis}
use robot_server.Syner.{MulticastSynerPacket}
use robot_server.Host.{Tm, write_time_header, Host, World, LocationInfo, syner_action, start_thread}

abbrev pub buffer_size : ℕ
buffer_size = 8192

abbrev pub maxfieldlen : ℕ
maxfieldlen = 128

abbrev pub cmd_phone_device_agps_download : ℕ
cmd_phone_device_agps_download = 0x2B

-- `getAssistNowOnlineData` for a latitude and a longitude, as texts: the bytes that it stores, none
-- where its result is not above 0. The eighth byte of the buffer, which is never written, and the time.
pub record Service : Type 0 where
  pub get_assist_now_online_data : (u8_latitude u8_longitude : List ℕ) → Option (List ℕ)
  pub eighth : ℕ
  pub localtime : Tm

unfoldable pub agps_file_name : List ℕ → List ℕ
agps_file_name device_id = codes "/usr/RServer/agps_data/" ++ (device_id ++ codes "_agps.dat")

-- What `open(fileName, O_RDWR | O_CREAT)` finds or creates; none where it fails.
unfoldable pub open_file : Disk → List ℕ → Option (List ℕ)
open_file disk path = elim (disk.file path) [
  | some old ↦ some old
  | none ↦ if disk.opens path then some [] else none
]

-- `write` at the start of the file, which is not cut off behind it; it writes all bytes.
abbrev pub overwrite : List ℕ → List ℕ → List ℕ
overwrite bytes old = bytes ++ drop (length bytes) old

-- The contents of the file behind the request: eight bytes and the data, in one buffer.
unfoldable pub fetch : Service → LocationInfo → List ℕ → Outcome (List ℕ)
fetch a location old =
    elim (a.get_assist_now_online_data location.u8_latitude location.u8_longitude) [
      | none ↦ ok old
      | some bytes ↦ (do
        check (leb (8 + length bytes) buffer_size)
        ok (overwrite (write_time_header a.localtime ++ (a.eighth ∷ bytes)) old))
    ]

module _ (h : Host) where
  -- `StartApolloSynerAction`, with the packet that the device's id is copied into.
  unfoldable pub start_multicast : List ℕ → Bool → World h → Outcome (World h)
  start_multicast device_id false w = ok w
  start_multicast device_id true w = do
    u8_device_id ← store_text 18 device_id
    ok (
        start_thread h
          (syner_action (record { u8_device_id = u8_device_id; u8flag = multicast_type_agps })) w)

  -- The steps behind `open`.
  unfoldable pub save_data : Service → LocationInfo → List ℕ → List ℕ → World h → Outcome (World h)
  save_data a location file_name old w = do
    content ← fetch a location old
    let w' = record w { disk = put_file w.disk file_name content }
    cmd_shell ← store_text maxfieldlen (codes "chmod 777 " ++ file_name)
    u8_cmd ← store_text 12 (print_nat cmd_phone_device_agps_download)
    (stored, s) ← set_key_toredis h.redis location.u8_device_id u8_cmd w'.redis_state
    start_multicast location.u8_device_id stored (record w' { redis_state = s })

  -- `if (gpsDes < 0) return NULL`
  unfoldable pub with_file :
      Service → LocationInfo → List ℕ → Option (List ℕ) → World h → Outcome (World h)
  with_file a location file_name none w = ok w
  with_file a location file_name (some old) w = save_data a location file_name old w

  unfoldable pub ublox_download_apgs : Service → LocationInfo → World h → Outcome (World h)
  ublox_download_apgs a location w = do
    file_name ← store_text maxfieldlen (agps_file_name location.u8_device_id)
    with_file a location file_name (open_file w.disk file_name) w
