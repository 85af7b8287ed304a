-- ===== src/Lbs/Examples.antt =====
-- Stations, a packet and an answer, with the theorems on them applied.
use robot_server.Common.{
  ℕ, ◌<◌, ◌≡◌, refl, some, List, [], ◌∷◌, ◌++◌, arith, length, if◌then◌else◌, replicate, true,
}
use robot_server.Common.Int.{pos}
use robot_server.Common.Bytes.{load, load-IsByte, IsByte}
use robot_server.Common.Outcome.{ok}
use robot_server.Util.Paths.{codes}
use robot_server.Lbs.{
  Station, no_station, parse_station, is_lbs, lbs_item, encode_lbs, starts_with, key_index_loop,
  get_key_index, encode_post_data, parser_lbs,
}
use robot_server.Lbs.Request.{IsStation, behind_commas, encode_lbs_lem}
use robot_server.Lbs.Bounds.{list_text, encode_post_data_lem}
use robot_server.Util.Hex.{hextostring, high_digit, low_digit, high_hextostring, low_hextostring}
use robot_server.Redis.Examples.{table_server-IsStore}
use robot_server.Host.{World}
use robot_server.Protocol.Examples.{host, bindings, world}
use robot_server.Lbs.{get_key}
use robot_server.Lbs.Answer.{Curl, value_of_key}
use robot_server.Lbs.Location.{IsPosition, id_of}
use robot_server.Lbs.Position.{position_stored}

abbrev tower : Station
tower = record { mcc = 460; mnc = 0; lac = 22831; cid = 14454; signal = pos 71 }

-- The first entry of a packet, as `parser_Lbs` reads it.
parse_station-tower :
    parse_station
      (load
        (0x47 ∷ 0 ∷ 0 ∷ 0 ∷ 0 ∷ 0 ∷ 0 ∷ 0 ∷ 0 ∷ 0 ∷ 1 ∷ 204 ∷ 0 ∷ 0 ∷ 89 ∷ 47 ∷ 56 ∷ 118 ∷ 71 ∷ []))
      0
      no_station
    ≡ tower
unfolding parse_station
parse_station-tower = refl

none-IsStation : IsStation no_station
none-IsStation = record {
  mcc_small = omega arith;
  mnc_small = omega arith;
  lac_small = omega arith;
  cid_small = omega arith;
  signal_small = omega arith;
}

tower-IsStation : IsStation tower
tower-IsStation = record {
  mcc_small = omega arith;
  mnc_small = omega arith;
  lac_small = omega arith;
  cid_small = omega arith;
  signal_small = omega arith;
}

encode_lbs_lem_example :
    encode_lbs (no_station ∷ tower ∷ [])
    ≡ ok (
        if is_lbs no_station
        then lbs_item no_station ++ behind_commas (tower ∷ [])
        else behind_commas (tower ∷ []))
encode_lbs_lem_example =
    encode_lbs_lem no_station (tower ∷ []) (none-IsStation, (tower-IsStation, tt)) (omega arith)

-- A packet of bytes 7, and an array that was empty.
encode_post_data_lem_example :
    (text : List ℕ) × (encode_post_data (no_station ∷ no_station ∷ []) (load (replicate 60 7))
      ≡ ok text)
    × (text
        ≡ codes "requestdata={\"celltowers\":["
          ++ (list_text (parser_lbs (load (replicate 60 7)) 0 (no_station ∷ no_station ∷ []))
              ++ codes "],\"mnctype\":\"gsm\"}&type=0&key=ade0044a7a6b49adbbf1e490bf8f0e9c"))
    × (length text < 1024)
encode_post_data_lem_example =
    encode_post_data_lem (load (replicate 60 7)) no_station (no_station ∷ [])
      (load-IsByte (replicate 60 7) (omega arith)) (none-IsStation, (none-IsStation, tt))
      (omega arith)

-- A position packet of device 2016010500000007, which asks for satellite data, and an answer.
abbrev position_packet : List ℕ
position_packet =
    0x47 ∷ 0x20 ∷ 0x16 ∷ 0x01 ∷ 0x05 ∷ 0x00 ∷ 0x00 ∷ 0x00 ∷ 0x07 ∷ 0x10 ∷ replicate 50 7

abbrev position_answer : List ℕ
position_answer = codes "{\"longitude\":114.057868,\"latitude\":22.5431000,"

answer-IsPosition : IsPosition position_answer (codes "114.057868") (codes "22.5431000")
unfolding value_of_key get_key get_key_index key_index_loop starts_with
answer-IsPosition = record {
  longitude = refl;
  latitude = refl;
  log_known = refl;
  lat_known = refl;
  log_long = omega arith;
  lat_long = omega arith;
  log_plain = (refl, (refl, (refl, (refl, (refl, (refl, (refl, (refl, (refl, (refl, tt))))))))));
  lat_plain = (refl, (refl, (refl, (refl, (refl, (refl, (refl, (refl, (refl, (refl, tt))))))))));
}

-- A service that gives the answer.
abbrev service : Curl
service = record {
  global_init_ok = true;
  easy_init_ok = true;
  perform = λ url fields. some position_answer;
}

packet-IsByte : (a : ℕ) → IsByte (load position_packet a)
packet-IsByte = load-IsByte position_packet (omega arith)

packet-bound :
    table_server-IsStore.value_of bindings (codes "R_" ++ id_of (load position_packet))
    ≡ some (codes "7")
unfolding hextostring high_digit low_digit high_hextostring low_hextostring
packet-bound = refl

abbrev stored_world : World host
stored_world =
    position_stored answer-IsPosition (load position_packet) 0 packet-IsByte (omega arith) host
      table_server-IsStore world (codes "7") tt packet-bound (omega arith, (refl, tt)) (omega arith)
      refl

abbrev reply : List ℕ
reply = codes "{\"longitude\":114.05,\"latitude\":22.5,"

get_key_index-reply : get_key_index reply (codes "longitude") ≡ some 11
unfolding get_key_index key_index_loop starts_with
get_key_index-reply = refl
