-- ===== src/Protocol/Examples.antt =====
-- The handlers on concrete packets, and their theorems applied.
use robot_server.Common.{
  ℕ, ◌+◌, ◌≤◌, ◌≡◌, ◌≢◌, refl, ap, true, false, none, some, List, [], ◌∷◌, ◌++◌, arith, length,
  flatten, replicate, ltb, if◌then◌else◌,
}
use robot_server.Common.Int.{pos}
use robot_server.Common.Bytes.{Mem, slice, fill, load, load-IsByte}
use robot_server.Common.Outcome.{ok, fault, OnOk}
use robot_server.Decimal.{print_nat, print_fuel, atoi, atoi_signed, atoi_digits, skip_spaces}
use robot_server.Util.Hex.{hextostring, high_digit, low_digit, high_hextostring, low_hextostring}
use robot_server.Util.Scan.{isspace}
use robot_server.Util.Paths.{codes}
use robot_server.Block.{eq_text}
use robot_server.Block.Frames.{frames_of}
use robot_server.Redis.Examples.{Table, table_server, table_server-IsStore}
use robot_server.Host.{Host, rows, World, apollo_return_packet}
use robot_server.Syner.Receive.{IsPacket}
use robot_server.Protocol.Phone.{check_phone_command, phone_command_packet}
use robot_server.Protocol.Device.{device_heart_packet}
use robot_server.Protocol.User.{answer_user_id, phone_operator_user_info}
use robot_server.Protocol.Blocks.{device_block_data_send_packet, block_data_recv}
use robot_server.Protocol.Parse.{parse_loop, apollo_parse_packet}
use robot_server.Protocol.Mailbox.{IsBound}
use robot_server.Protocol.Numbers.{IsNumbered}
use robot_server.Protocol.Delivery.{IsOwner, is_single, number_delivered}
use robot_server.Sql.{select_user_id}
use robot_server.Protocol.Account.{IsAnswered, phone_operator_user_info-IsAnswered}
use robot_server.Protocol.Upload.{block_data_recv_lem}
use robot_server.Protocol.Download.{device_block_data_send_packet-frames}
use robot_server.Protocol.Frame.{guarded_loop, apollo_parse_packet-guarded_loop}
use robot_server.Protocol.Loop.{parse_loop_enough}

abbrev pub host : Host
host = record {
  redis = table_server;
  database = record {
    State = Unit;
    execute = λ sql args s. some s;
    execute_query = λ sql args s. rows [];
  };
  write_fails = λ sent out. false;
  localtime = λ sent. record {
    tm_year = 116;
    tm_mon = 5;
    tm_wday = 1;
    tm_mday = 6;
    tm_hour = 12;
    tm_min = 30;
    tm_sec = 0;
  };
}

-- Device 2016010500000007 is bound to user 7, and the phone of user 7 to the device.
abbrev pub bindings : Table
bindings k =
    if eq_text k (codes "RP_7")
    then some (codes "2016010500000007")
    else if eq_text k (codes "R_2016010500000007")
    then some (codes "7")
    else none

abbrev pub world_with : Mem → World host
world_with packet = record {
  redis_state = bindings;
  db = tt;
  disk = record { file = λ p. some (replicate 1000 7); opens = λ p. true };
  started = [];
  client = record {
    fd_open = true;
    output_buffer = [];
    sent = [];
    buffer = λ a. 0;
    packet = packet;
    index = 0;
  };
}

abbrev pub world : World host
world = world_with (λ a. 0)

-- A heartbeat of the device.
abbrev pub heartbeat : List ℕ
heartbeat =
    0x48 ∷ 0x20 ∷ 0x16 ∷ 0x01 ∷ 0x05 ∷ 0x00 ∷ 0x00 ∷ 0x00 ∷ 0x07 ∷ 0x08 ∷ 0x30 ∷ replicate 21 0x12

-- The alarm command of the phone.
abbrev pub alarm : List ℕ
alarm = 0x43 ∷ 0x00 ∷ 0x00 ∷ 0x00 ∷ 0x07 ∷ 0x08 ∷ replicate 10 0

-- The first family number, as the phone sets it.
abbrev family : List ℕ
family =
    0x43 ∷ 0x00 ∷ 0x00 ∷ 0x00 ∷ 0x07 ∷ 0x41 ∷ 0x01 ∷ 0x00 ∷ 0x86 ∷ 0x18 ∷ 0x87 ∷ 0x41 ∷ 0x87 ∷ 0x42
    ∷ 0x90 ∷ 0x43 ∷ []

pub user_of :
    (p : Mem)
    → p 1 ≡ 0
    → p 2 ≡ 0
    → p 3 ≡ 0
    → p 4 ≡ 7
    → atoi (hextostring (slice p 1 4)) ≡ ok (pos 7)
unfolding atoi atoi_signed atoi_digits skip_spaces isspace hextostring high_digit low_digit
    high_hextostring low_hextostring
user_of p a b c d = rw (a, b, c, d) refl

owner :
    (p : Mem)
    → atoi (hextostring (slice p 1 4)) ≡ ok (pos 7)
    → IsOwner host table_server-IsStore bindings p (load heartbeat) 7
unfolding print_nat print_fuel hextostring high_digit low_digit high_hextostring low_hextostring
owner p e = record { user_id = e; small = omega arith; owns = refl }

pub bound : IsBound host table_server-IsStore bindings (load heartbeat) (codes "7")
unfolding hextostring high_digit low_digit high_hextostring low_hextostring
bound = record {
  byte = load-IsByte heartbeat (omega arith);
  bound = refl;
  word = (omega arith, (refl, tt));
  short = omega arith;
  other = λ e. (let l : 1 ≡ 16 = ap length e in omega arith);
  other_key = λ e. (let l : 1 ≡ 18 = ap length e in omega arith);
}

pub alarm-is_single : is_single 0x08 ≡ true
unfolding check_phone_command
alarm-is_single = refl

family-IsNumbered : IsNumbered (load family)
family-IsNumbered = record {
  command = refl;
  index = omega arith;
  byte = omega arith;
  digits = omega arith;
}

number_delivered_example :
    (w₁ : World host) × (w₂ : World host) × (w₃ : World host) × (info : Mem) × (phone_command_packet
        host
        (load family)
        16
        world
      ≡ ok (pos 0, w₁))
    × (device_heart_packet host (load heartbeat) 32 (λ a. 0) w₁ ≡ ok (pos 0x40, info, w₂))
    × (info 3 ≡ 0x41)
    × (info 4 ≡ 1)
    × (slice info 5 8 ≡ slice (load family) 7 8)
    × (device_heart_packet host (load heartbeat) 32 (λ a. 0) w₂ ≡ ok (pos 0, (λ a. 0), w₃))
number_delivered_example =
    number_delivered host table_server-IsStore world (load family) (load heartbeat) (λ a. 0) 7
      (codes "7") (owner (load family) (user_of (load family) refl refl refl refl)) bound
      family-IsNumbered

-- A sign-in packet that names no one.
abbrev sign_in : List ℕ
sign_in = 0x55 ∷ 0 ∷ 0 ∷ 0 ∷ 0 ∷ 0x72 ∷ []

phone_operator_user_info-IsAnswered_example :
    OnOk (IsAnswered host world) (phone_operator_user_info host (load sign_in) 31 world)
phone_operator_user_info-IsAnswered_example =
    phone_operator_user_info-IsAnswered host (load sign_in) 31 world

-- It is accepted.
sign_in-accepted :
    phone_operator_user_info host (load sign_in) 31 world
    ≡ ok (apollo_return_packet host (codes "RETOK:" ++ replicate 6 0) world)
unfolding phone_operator_user_info answer_user_id select_user_id
sign_in-accepted = refl

-- Block 0 of 2, full, and block 1 of 2, of 4 bytes.
abbrev block_header : ℕ → ℕ → ℕ → List ℕ
block_header i hi lo =
    0x56
    ∷ 0x20
    ∷ 0x16
    ∷ 0x01
    ∷ 0x05
    ∷ 0x00
    ∷ 0x00
    ∷ 0x00
    ∷ 0x07
    ∷ 0
    ∷ 0
    ∷ 0
    ∷ 0
    ∷ i
    ∷ (replicate 15 0 ++ (2 ∷ hi ∷ lo ∷ []))

abbrev first_block : Mem
first_block = load (block_header 0 3 224 ++ replicate 992 5)

first_block-IsPacket : IsPacket first_block (λ a. first_block (a + 1)) 0 2 0 (replicate 992 5)
first_block-IsPacket = record {
  magic = refl;
  device = refl;
  index = refl;
  kind = refl;
  count = refl;
  high = refl;
  low = refl;
  body = refl;
  small = omega arith;
  index_small = omega arith;
  count_small = omega arith;
}

block_data_recv_lem_example :
    (◌≢◌ {A = ℕ} 1 2
      → ◌≡◌ {A = ℕ} (0 + 1024) 1024
      → block_data_recv host 1024 0 (world_with first_block)
        ≡ ok (
          0,
          record (world_with first_block) {
            client = record (world_with first_block).client {
              buffer = fill (λ a. 0) 0 (replicate 992 5);
              packet = λ a. if ltb a 1028 then 0 else first_block a;
              index = 0;
            };
          },
        ))
    × (◌≡◌ {A = ℕ} 1 2
        → 32 + 992 ≤ 0 + 1024
        → block_data_recv host 1024 0 (world_with first_block) ≡ fault)
block_data_recv_lem_example =
    block_data_recv_lem host (world_with first_block) (λ a. first_block (a + 1)) 0 2 0
      (replicate 992 5) 1024 0 first_block-IsPacket (omega arith)

device_block_data_send_packet-frames_example :
    (w' : World host) × (device_block_data_send_packet host (load heartbeat) 16 world
      ≡ ok
          (pos (length (flatten (frames_of (λ i. load heartbeat (i + 1)) (replicate 1000 7)))), w'))
    × (w'.client.sent ≡ [] ++ frames_of (λ i. load heartbeat (i + 1)) (replicate 1000 7))
device_block_data_send_packet-frames_example =
    device_block_data_send_packet-frames host (λ sent out. refl) (load heartbeat) world
      (replicate 1000 7) refl refl (omega arith)

parse_loop_enough_example :
    parse_loop host 100 heartbeat 0 world ≡ parse_loop host 32 heartbeat 0 world
parse_loop_enough_example = parse_loop_enough host 100 heartbeat 0 world (omega arith)

apollo_parse_packet-guarded_loop_example :
    apollo_parse_packet host heartbeat world
    ≡ guarded_loop host
        (length heartbeat)
        heartbeat
        (if ltb 1024 world.client.index then 0 else world.client.index)
        world
apollo_parse_packet-guarded_loop_example = apollo_parse_packet-guarded_loop host heartbeat world
