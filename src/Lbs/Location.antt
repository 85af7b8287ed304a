-- ===== src/Lbs/Location.antt =====
-- The object of a position answer as bytes, and the texts that are read from it.
use robot_server.Common.{
  ℕ, ltb, length-take, All-append, zero, suc, ◌≤◌, ◌≡◌, refl, ap, ◌∙◌, true, false, List, [], ◌∷◌,
  ◌++◌, All, arith, length, length-append, take, bit_and, ◌==◌,
}
use robot_server.Common.Int.{ℤ}
use robot_server.Common.Bytes.{Mem, IsByte, slice, slice-load, load, load-IsByte}
use robot_server.Common.Outcome.{ok}
use robot_server.Decimal.{print_int, long_at}
use robot_server.Util.Hex.{hextostring}
use robot_server.Util.Paths.{codes, until_zero}
use robot_server.Redis.Service.{IsWord, is_plain}
use robot_server.Util.Hex.RoundTrip.{hextostring_lem}
use robot_server.Redis.Words.{IsWord-hextostring, IsShortWord, IsWord-long_at}
use robot_server.Util.Hex.Tables.{all_below, all_below_lem}
use robot_server.Lbs.Answer.{
  text_at, value_of_key, null_texts, one_of, copy_position, store_position, location_of,
}

until_zero_lem :
    (xs ys : List ℕ) → All (λ c. is_plain c ≡ true) xs → until_zero (xs ++ (0 ∷ ys)) ≡ xs
until_zero_lem [] ys h = refl
until_zero_lem (x ∷ xs) ys (hx, hs) =
    let nonzero : (x == 0) ≡ false = ground arith in rw (nonzero, until_zero_lem xs ys hs) refl

high_table : all_below 256 (λ x. ltb (bit_and x 0xF0) 256) ≡ true
unfolding all_below
high_table = refl

high_half : (x : ℕ) → IsByte x → IsByte (bit_and x 0xF0)
high_half x h =
    let small = all_below_lem 256 (λ x. ltb (bit_and x 0xF0) 256) x high_table h in ground arith

module _ (log lat : List ℕ) (packet : Mem) (behind : ℕ) where
  abbrev located : Mem
  located = store_position log lat (location_of packet behind)

  longitude_bytes :
      slice located 18 31 ≡ b'E' ∷ (slice (load log) 0 10 ++ (0 ∷ slice located 30 19))
  unfolding store_position copy_position
  longitude_bytes = refl

  latitude_bytes :
      slice located 30 19 ≡ b'N' ∷ b'0' ∷ (slice (load lat) 0 10 ++ (0 ∷ slice located 43 6))
  unfolding store_position copy_position
  latitude_bytes = refl

  name_bytes : slice located 0 49 ≡ hextostring (slice packet 1 8) ++ (0 ∷ slice located 17 32)
  unfolding store_position copy_position location_of hextostring
  name_bytes = refl

  pub flag_byte : located 48 ≡ bit_and (packet 9) 0xF0
  unfolding store_position copy_position location_of hextostring
  flag_byte = refl

  pub time_bytes :
      long_at located 42
      ≡ long_at
          (load
            (0 ∷ packet 45 ∷ packet 46 ∷ packet 47 ∷ 0 ∷ 0 ∷ bit_and (packet 9) 0xF0 ∷ behind ∷ []))
          0
  unfolding store_position copy_position location_of hextostring
  time_bytes = refl

-- The position in the answer: both texts have ten characters at least, without a blank among the first
-- ten.
pub record IsPosition (answer log lat : List ℕ) : Type 0 where
  pub longitude : value_of_key answer (codes "longitude") ≡ ok log
  pub latitude : value_of_key answer (codes "latitude") ≡ ok lat
  pub log_known : one_of null_texts log ≡ false
  pub lat_known : one_of null_texts lat ≡ false
  pub log_long : 10 ≤ length log
  pub lat_long : 10 ≤ length lat
  pub log_plain : All (λ c. is_plain c ≡ true) (take 10 log)
  pub lat_plain : All (λ c. is_plain c ≡ true) (take 10 lat)

-- The two texts that are kept.
abbrev pub longitude_of : List ℕ → List ℕ
longitude_of log = b'E' ∷ take 10 log

abbrev pub latitude_of : List ℕ → List ℕ
latitude_of lat = b'N' ∷ b'0' ∷ take 10 lat

-- What stands for the time: the bytes 45 to 47 of the packet with a zero in front of them, and, as a
-- `long` is longer than the array, the flag and the byte behind the object.
abbrev pub stamp_of : Mem → ℕ → ℤ
stamp_of packet behind =
    long_at
      (load (0 ∷ packet 45 ∷ packet 46 ∷ packet 47 ∷ 0 ∷ 0 ∷ bit_and (packet 9) 0xF0 ∷ behind ∷ []))
      0

abbrev pub position_text : (log lat : List ℕ) → Mem → ℕ → List ℕ
position_text log lat packet behind =
    codes "G_"
    ++ (longitude_of log
        ++ (codes "_"
            ++ (latitude_of lat
                ++ (codes "_"
                    ++ (codes "0" ++ (codes "_1_" ++ print_int (stamp_of packet behind)))))))

abbrev pub id_of : Mem → List ℕ
id_of packet = hextostring (slice packet 1 8)

module _ {answer log lat : List ℕ} (p : IsPosition answer log lat) (packet : Mem) (behind : ℕ)
    (byte : (a : ℕ) → IsByte (packet a)) (small : IsByte behind) where
  abbrev pub object : Mem
  object = located log lat packet behind

  pub longitude_text : text_at object 18 ≡ longitude_of log
  unfolding text_at
  longitude_text =
      let digits : slice (load log) 0 10 ≡ take 10 log = slice-load log 0 10 p.log_long in
      ap until_zero (
        longitude_bytes log lat packet behind
        ∙ ap (λ x. b'E' ∷ (x ++ (0 ∷ slice object 30 19))) digits)
      ∙ until_zero_lem (longitude_of log) (slice object 30 19) (refl, p.log_plain)

  pub latitude_text : text_at object 30 ≡ latitude_of lat
  unfolding text_at
  latitude_text =
      let digits : slice (load lat) 0 10 ≡ take 10 lat = slice-load lat 0 10 p.lat_long in
      ap until_zero (
        latitude_bytes log lat packet behind
        ∙ ap (λ x. b'N' ∷ b'0' ∷ (x ++ (0 ∷ slice object 43 6))) digits)
      ∙ until_zero_lem (latitude_of lat) (slice object 43 6) (refl, (refl, p.lat_plain))

  All-IsByte : (off n : ℕ) → All IsByte (slice packet off n)
  All-IsByte off zero = tt
  All-IsByte off (suc n) = (byte off, All-IsByte (suc off) n)

  pub id_word : IsWord (id_of packet)
  id_word = IsWord-hextostring (slice packet 1 8) (All-IsByte 1 8) (omega arith)

  pub length-id : length (id_of packet) ≡ 16
  length-id = (hextostring_lem (slice packet 1 8) (All-IsByte 1 8)).1

  pub id_text : text_at object 0 ≡ id_of packet
  unfolding text_at
  id_text =
      ap until_zero (name_bytes log lat packet behind)
      ∙ until_zero_lem (id_of packet) (slice object 17 32) id_word.1

  stamp_word : IsShortWord 21 (print_int (stamp_of packet behind))
  stamp_word = IsWord-long_at _ 0 (
      load-IsByte
        (0 ∷ packet 45 ∷ packet 46 ∷ packet 47 ∷ 0 ∷ 0 ∷ bit_and (packet 9) 0xF0 ∷ behind ∷ [])
        (
          omega arith,
          (
            byte 45,
            (
              byte 46,
              (byte 47, (omega arith, (omega arith, (high_half (packet 9) (byte 9), (small, tt))))),
            ),
          ),
        ))

  pub length-position_text : length (position_text log lat packet behind) ≤ 52
  length-position_text =
      let time = print_int (stamp_of packet behind) in
      omega (
        arith,
        length-append (take 10 log) (codes "_N0" ++ (take 10 lat ++ (codes "_0_1_" ++ time))),
        length-append (take 10 lat) (codes "_0_1_" ++ time),
        length-take 10 log,
        length-take 10 lat,
        stamp_word.1,
      )

  pub position_word : IsWord (position_text log lat packet behind)
  position_word =
      let time = print_int (stamp_of packet behind) in
      let plain : ℕ → Type 0 = λ c. is_plain c ≡ true in
      let end : All plain (codes "_0_1_" ++ time) =
        (refl, (refl, (refl, (refl, (refl, stamp_word.0.1))))) in
      let back : All plain (codes "_N0" ++ (take 10 lat ++ (codes "_0_1_" ++ time))) =
        (refl, (refl, (refl, All-append plain (take 10 lat) _ p.lat_plain end))) in
      (omega arith, (refl, (refl, (refl, All-append plain (take 10 log) _ p.log_plain back))))
