-- ===== src/SynerAction.antt =====
-- ApolloSynerAction.c: a program of its own, which multicasts the file of one device. Its copies of
-- `read_dat`, `takeDataPacket` and `takeDataPacketFlag` have the text of those in ApolloUtil.c.
mod Examples
use robot_server.Common.{
  ℕ, ◌≡◌, refl, ap, Bool, not, ◌&&◌, List, [], ◌∷◌, ◌++◌, leb, length, if◌then◌else◌, replicate,
  ◌-◌, Option, none, some,
}
use robot_server.Common.Bytes.{Mem, load}
use robot_server.Common.Outcome.{Outcome, ok, ◌>>=◌, ◌>>◌, check}
use robot_server.Wire.{len_block_buffer}
use robot_server.Util.Hex.{pack_digits, stringtohex}
use robot_server.Util.Paths.{codes, store_text, gen_agps_file_path_name}
use robot_server.Block.{Disk, read_dat, take_data_packet, take_data_packet_flag, send_packets}
use robot_server.Syner.{MulticastSynerPacket, apollo_syner_action}

unfoldable pub local_read_dat : Disk → List ℕ → ℕ → Outcome (List ℕ)
local_read_dat = read_dat

unfoldable pub local_agps_file_path_name : List ℕ → List ℕ
local_agps_file_path_name filename = codes "./agps_data/" ++ (filename ++ codes "_agps.dat")

unfoldable pub local_take_data_packet : Disk → List ℕ → Mem → Outcome (List ℕ)
local_take_data_packet = take_data_packet

unfoldable pub local_take_data_packet_flag : List ℕ → ℕ → List ℕ
local_take_data_packet_flag = take_data_packet_flag

-- The device, as its bytes and as its text.
abbrev pub dev_id : List ℕ
dev_id = 0x20 ∷ 0x16 ∷ 0x01 ∷ 0x05 ∷ 0x00 ∷ 0x00 ∷ 0x00 ∷ 0x14 ∷ []

abbrev pub file_name : List ℕ
file_name = codes "2016010500000014"

-- `main`: the datagrams that are sent, in order; none where a socket call fails.
unfoldable pub send_file : Disk → (socket_ok bind_ok : Bool) → Outcome (List (List ℕ))
send_file disk socket_ok bind_ok = if not (socket_ok && bind_ok) then ok [] else do
  name ← store_text 128 file_name
  path_name ← store_text 128 (local_agps_file_path_name name)
  send_buf ← local_take_data_packet disk path_name (load dev_id)
  check (leb (length send_buf) len_block_buffer)
  ok (send_packets (local_take_data_packet_flag send_buf 0x32))

take_same :
    (disk disk' : Disk) (p q : List ℕ) (m : Mem)
    → disk.file p ≡ disk'.file q
    → take_data_packet disk p m ≡ take_data_packet disk' q m
unfolding take_data_packet read_dat
take_same disk disk' p q m e = rw (take_data_packet, read_dat, e) refl

dev_id_lem : pack_digits 8 (file_name ++ replicate 2 0) ≡ ok dev_id
unfolding pack_digits stringtohex
dev_id_lem = refl

-- The program and the server's thread send the same datagrams: for a device 2016010500000014 whose file
-- is the same on the two machines, one in `./agps_data` and the other in `/usr/RServer/agps_data`, a
-- missing file and one that is too large included, and whether the socket calls succeed or not.
pub send_file-apollo_syner_action :
    (disk disk' : Disk) (socket_ok bind_ok : Bool)
    → disk.file (codes "./agps_data/2016010500000014_agps.dat")
      ≡ disk'.file (codes "/usr/RServer/agps_data/2016010500000014_agps.dat")
    → send_file disk socket_ok bind_ok
      ≡ apollo_syner_action disk' socket_ok bind_ok
          (record { u8_device_id = file_name; u8flag = 0x32 })
unfolding send_file apollo_syner_action local_take_data_packet local_take_data_packet_flag
    local_agps_file_path_name gen_agps_file_path_name
send_file-apollo_syner_action disk disk' socket_ok bind_ok e =
    rw
      (
        dev_id_lem,
        take_same disk disk' (codes "./agps_data/2016010500000014_agps.dat")
            (codes "/usr/RServer/agps_data/2016010500000014_agps.dat") (load dev_id) e,
      )
      refl
