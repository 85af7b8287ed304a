-- ===== src/Lbs/Answer.antt =====
-- curljson.c: the answer of the position service, the texts of the wireless networks, and the two
-- threads that send requests. libcurl is a parameter: whether its set-up succeeds, and what it comes to.
use robot_server.Common.{
  ℕ, zero, suc, ◌-◌, ◌+◌, ◌*◌, ◌/◌, ◌%◌, Bool, true, false, not, ◌||◌, Option, none, some, List, [],
  ◌∷◌, ◌++◌, length, ltb, ◌==◌, if◌then◌else◌, get_or, drop, replicate, bit_and,
}
use robot_server.Common.Bytes.{Mem, slice, fill}
use robot_server.Common.Outcome.{Outcome, ok, ◌>>=◌}
use robot_server.Wire.{idx_device_id, len_device_id, idx_device_locationtype}
use robot_server.Decimal.{print_nat, print_int, long_at}
use robot_server.Util.Hex.{hextostring}
use robot_server.Util.Paths.{codes, store_text, until_zero}
use robot_server.Common.Int.{ℤ, pos, negsuc}
use robot_server.Redis.{set_key_toredis, get_value_fromredis}
use robot_server.Host.{Host, World, ublox_download_apgs, start_thread}
use robot_server.Sql.{insert_device_gps}
use robot_server.Block.{eq_text}
use robot_server.Lbs.{
  Station, ls_wifi, encode_post_data, encode_post_falldown_data, get_key_index, get_key,
}

-- The text of a value behind its key, in a zeroed array of 16 bytes; without the key, the search goes
-- on behind the first character.
unfoldable pub value_of_key : List ℕ → List ℕ → Outcome (List ℕ)
value_of_key buffer key = do
  value ← get_key (elim (get_key_index buffer key) [
    | some index ↦ drop (index + 2) buffer
    | none ↦ drop 1 buffer
  ])
  store_text 16 value

abbrev pub null_texts : List (List ℕ)
null_texts = codes "null" ∷ codes "location" ∷ codes "\"location\":null" ∷ []

abbrev pub one_of : List (List ℕ) → List ℕ → Bool
one_of [] s = false
one_of (t ∷ ts) s = eq_text s t || one_of ts s

-- `LocationInfo` is the memory of its 49 bytes: `u8DeviceId` at 0, `u8Longitude` at 18, `u8Latitude` at 30,
-- each of these two of 12 bytes, `u8TimeStamp`, of 6, at 42, and `u8UbloxFlag` at 48.
abbrev pub at_longitude : ℕ
at_longitude = 18

abbrev pub at_latitude : ℕ
at_latitude = 30

abbrev pub at_time_stamp : ℕ
at_time_stamp = 42

abbrev pub at_ublox_flag : ℕ
at_ublox_flag = 48

-- The C string at an offset, within the object.
unfoldable pub text_at : Mem → ℕ → List ℕ
text_at m off = until_zero (slice m off (49 - off))

-- The loop over ten characters, with the rounds that are left.
unfoldable pub copy_position : ℕ → ℕ → (log lat : List ℕ) → Mem → Mem
copy_position zero i log lat m = m
copy_position (suc n) i log lat m = copy_position n (i + 1) log lat (
    fill (fill m (at_longitude + (i + 1)) (get_or log i 0 ∷ [])) (at_latitude + (i + 2))
      (get_or lat i 0 ∷ []))

-- The position in the object. `u8Latitude[12] = 0` is behind that array, and lands in the first byte of
-- `u8TimeStamp`.
unfoldable pub store_position : (log lat : List ℕ) → Mem → Mem
store_position log lat m =
    let zeroed = fill m at_longitude (b'E' ∷ replicate 11 0) in
    let first = fill zeroed at_latitude (b'N' ∷ b'0' ∷ replicate 10 0) in
    let copied = copy_position 10 0 log lat first in
    fill (fill copied (at_longitude + 11) (0 ∷ [])) (at_latitude + 12) (0 ∷ [])

module _ (h : Host) where
  -- The text for the user: -2 where it is not stored, `size * nmemb` otherwise.
  unfoldable pub set_position :
      ℕ → (longitude latitude high : List ℕ) → ℤ → List ℕ → World h → Outcome (ℤ × World h)
  set_position size longitude latitude high time_stamp user w = do
    info ← store_text 256 (
        codes "G_"
        ++ (longitude
            ++ (codes "_"
                ++ (latitude ++ (codes "_" ++ (high ++ (codes "_1_" ++ print_int time_stamp)))))))
    (stored, s) ← set_key_toredis h.redis user info w.redis_state
    ok (if stored then pos size else negsuc 1, record w { redis_state = s })

  -- The thread, the row, and the text.
  unfoldable pub keep_position :
      ℕ → (device_id longitude latitude : List ℕ) → ℕ → ℤ → List ℕ → World h → Outcome (ℤ × World h)
  keep_position size device_id longitude latitude ublox_flag time_stamp user w = do
    let u8_high = print_int (pos 0)
    let w₁ =
        if not (ublox_flag == 0)
        then start_thread h
            (ublox_download_apgs (record {
              u8_device_id = device_id;
              u8_longitude = longitude;
              u8_latitude = latitude;
            }))
            w
        else w
    (inserted, w₂) ← insert_device_gps h longitude latitude u8_high device_id w₁
    set_position size longitude latitude u8_high time_stamp user w₂

  -- Behind the lookup of the device's user: -1 where there is none. `long` has eight bytes, so that the
  -- time is read one byte past the object.
  unfoldable pub position_for :
      ℕ → Mem → World h → Option (List ℕ) × h.redis.State → Outcome (ℤ × World h)
  position_for size m w (none, s) = ok (negsuc 0, record w { redis_state = s })
  position_for size m w (some user, s) =
      keep_position size (text_at m 0) (text_at m at_longitude) (text_at m at_latitude)
        (m at_ublox_flag) (long_at m at_time_stamp) user (record w { redis_state = s })

  -- Behind the two values of the answer.
  unfoldable pub handle_values : ℕ → (log lat : List ℕ) → Mem → World h → Outcome (ℤ × World h)
  handle_values size log lat location w =
      if one_of null_texts log || one_of null_texts lat then ok (pos size, w) else do
        let m = store_position log lat location
        u8_relation_ship_device ← store_text 22 (codes "R_" ++ text_at m 0)
        found ← get_value_fromredis h.redis 256 u8_relation_ship_device w.redis_state
        position_for size m w found

  -- `handle_data`, with the answer and the object.
  unfoldable pub handle_data : List ℕ → Mem → World h → Outcome (ℤ × World h)
  handle_data buffer location w = do
    log ← value_of_key buffer (codes "longitude")
    lat ← value_of_key buffer (codes "latitude")
    handle_values (length buffer) log lat location w

-- Lower-case hexadecimal digits, two characters at least, of a byte: `%2x`.
abbrev pub hex_digit : ℕ → ℕ
hex_digit n = if ltb n 10 then b'0' + n else 87 + n

unfoldable pub print_hex : ℕ → List ℕ
print_hex b = (if ltb b 16 then b' ' else hex_digit (b / 16)) ∷ hex_digit (b % 16) ∷ []

-- The text of the network whose seven bytes begin at `i`.
unfoldable pub wifi_item : Mem → ℕ → List ℕ
wifi_item wifi i =
    codes "{\"macaddress\":\""
    ++ (print_hex (wifi i)
        ++ (codes ":"
            ++ (print_hex (wifi (i + 1))
                ++ (codes ":"
                    ++ (print_hex (wifi (i + 2))
                        ++ (codes ":"
                            ++ (print_hex (wifi (i + 3))
                                ++ (codes ":"
                                    ++ (print_hex (wifi (i + 4))
                                        ++ (codes ":"
                                            ++ (print_hex (wifi (i + 5))
                                                ++ (codes "\",\"time\":\"0\",\"singalstrength\":\""
                                                    ++ (print_nat (wifi (i + 6))
                                                        ++ codes "\"}")))))))))))))

-- The loop of `encode_wifi`, with the rounds that are left, into a buffer of `cap` bytes.
unfoldable pub wifi_loop : ℕ → ℕ → ℕ → Mem → List ℕ → Outcome (List ℕ)
wifi_loop cap zero i wifi buffer = ok buffer
wifi_loop cap (suc n) i wifi buffer = elim (ls_wifi 7 wifi (7 * i)) [
  | false ↦ wifi_loop cap n (i + 1) wifi buffer
  | true ↦ (do
    item ← store_text 128 (if i == 0 then wifi_item wifi 0 else codes "," ++ wifi_item wifi (7 * i))
    buffer' ← store_text cap (buffer ++ item)
    wifi_loop cap n (i + 1) wifi buffer')
]

unfoldable pub encode_wifi : ℕ → Mem → Outcome (List ℕ)
encode_wifi cap wifi = wifi_loop cap 4 0 wifi []

-- libcurl: `curl_global_init` and `curl_easy_init`, and `curl_easy_perform` for an address and the
-- fields of a POST: the body of the answer, or none.
pub record Curl : Type 0 where
  pub global_init_ok : Bool
  pub easy_init_ok : Bool
  pub perform : List ℕ → Option (List ℕ) → Option (List ℕ)

abbrev pub posturl : List ℕ
posturl = codes "http://api.haoservice.com/api/viplbs"

-- `http_device_falldown`: the answer, which is only printed.
unfoldable pub http_device_falldown : Curl → Mem → Outcome (Option (List ℕ))
http_device_falldown curl packet =
    if not curl.global_init_ok || not curl.easy_init_ok then ok none else do
      buffer ← store_text 1024 (encode_post_falldown_data packet)
      ok (curl.perform buffer none)

-- What `http_post` hands to the handler of the answer: the object, and behind it the byte `behind`, which
-- the memory that `malloc` gives holds there.
unfoldable pub location_of : Mem → ℕ → Mem
location_of packet behind =
    let flagged =
      fill (λ a. 0) at_ublox_flag (bit_and (packet idx_device_locationtype) 0xF0 ∷ []) in
    let named = fill flagged 0 (hextostring (slice packet idx_device_id len_device_id)) in
    fill (fill named at_time_stamp (slice packet 44 4)) 49 (behind ∷ [])

module _ (h : Host) where
  -- `http_post`, with what its array of stations holds at first. The result of the handler only tells
  -- libcurl whether to go on.
  unfoldable pub http_post : Curl → List Station → Mem → ℕ → World h → Outcome (World h)
  http_post curl lbs packet behind w = if not curl.easy_init_ok then ok w else do
    buffer ← encode_post_data lbs packet
    elim (curl.perform posturl (some buffer)) [
      | none ↦ ok w
      | some answer ↦ (do (result, w') ← handle_data h answer (location_of packet behind) w; ok w')
    ]
