-- ===== src/Lbs.antt =====
-- curljson.c: the base stations in a position packet, the text of the request to the position service,
-- and the search for a value in its answer. libcurl, which sends the request, is not modelled.
pub mod Request
pub mod Bounds
pub mod Search
pub mod Answer
pub mod Location
pub mod Position
pub mod Matcher
mod Examples
use robot_server.Common.{
  ℕ, zero, suc, ◌+◌, ◌-◌, ◌*◌, Bool, true, false, not, ◌&&◌, ◌||◌, Option, none, some, List, [],
  ◌∷◌, ◌++◌, length, leb, ◌==◌, if◌then◌else◌,
}
use robot_server.Common.Int.{ℤ, pos, negsuc, eq_ℤ, signed_char}
use robot_server.Common.Bytes.{Mem, slice}
use robot_server.Common.Outcome.{Outcome, ok, fault, ◌>>=◌, ◌>>◌, check}
use robot_server.Wire.{idx_device_id, len_device_id}
use robot_server.Decimal.{print_nat, print_int}
use robot_server.Util.Hex.{hextostring}
use robot_server.Util.Paths.{codes, store_text}

-- `Lbs`
pub record Station : Type 0 where
  pub mcc : ℕ
  pub mnc : ℕ
  pub lac : ℕ
  pub cid : ℕ
  pub signal : ℤ

abbrev pub no_station : Station
no_station = record { mcc = 0; mnc = 0; lac = 0; cid = 0; signal = pos 0 }

abbrev pub post_data_length : ℕ
post_data_length = 1024

abbrev pub lbs_mcc_mnc_index : ℕ
lbs_mcc_mnc_index = 10

abbrev pub lbs_station_info : ℕ
lbs_station_info = 14

-- Two bytes, high first.
abbrev pub word_at : Mem → ℕ → ℕ
word_at m off = m off * 256 + m (off + 1)

-- One round of `parser_Lbs`, with what the element of the array held before.
unfoldable pub parse_station : Mem → ℕ → Station → Station
parse_station buffer i old =
    let mcc = word_at buffer lbs_mcc_mnc_index in
    let mnc = word_at buffer (lbs_mcc_mnc_index + 2) in
    let lac = word_at buffer (lbs_station_info + 5 * i) in
    let cid = word_at buffer (lbs_station_info + 5 * i + 2) in
    let signal = signed_char (buffer (lbs_station_info + 5 * i + 4)) in
    if cid == 0xFFFF || lac == 0xFFFF
    then record { mcc = mcc; mnc = mnc; lac = lac; cid = cid; signal = old.signal }
    else if lac == 0x0
        || (lac == 0xFF
            || (cid == 0x0 || (cid == 0xFF || (eq_ℤ signal (pos 0x0) || eq_ℤ signal (pos 0xFF)))))
    then no_station
    else record { mcc = mcc; mnc = mnc; lac = lac; cid = cid; signal = signal }

-- `parser_Lbs` over the array, from element `i` on.
unfoldable pub parser_lbs : Mem → ℕ → List Station → List Station
parser_lbs buffer i [] = []
parser_lbs buffer i (old ∷ lbs) = parse_station buffer i old ∷ parser_lbs buffer (i + 1) lbs

unfoldable pub is_lbs : Station → Bool
is_lbs l =
    not (
      l.mcc == 0x0 && (l.mnc == 0x0 && (l.cid == 0x0 && (l.lac == 0x0 && eq_ℤ l.signal (pos 0x0)))))

-- `for (i = 0; i < 7; i++) if (wifi[i] != 0x0) return 1; return 0;`
unfoldable pub ls_wifi : ℕ → Mem → ℕ → Bool
ls_wifi zero wifi i = false
ls_wifi (suc n) wifi i = if not (wifi i == 0x0) then true else ls_wifi n wifi (i + 1)

-- The text of one station.
unfoldable pub lbs_item : Station → List ℕ
lbs_item l =
    codes "{\"cell_id\":\""
    ++ (print_nat l.cid
        ++ (codes "\",\"lac\":\""
            ++ (print_nat l.lac
                ++ (codes "\",\"mcc\":\""
                    ++ (print_nat l.mcc
                        ++ (codes "\",\"mnc\":\""
                            ++ (print_nat l.mnc
                                ++ (codes "\",\"signalstrength\":\"-"
                                    ++ (print_int l.signal ++ codes "\"}")))))))))

-- The loop of `encode_lbs` from element `i` on, with the text so far; the buffer has 1024 bytes.
unfoldable pub encode_loop : ℕ → List Station → List ℕ → Outcome (List ℕ)
encode_loop i [] buffer = ok buffer
encode_loop i (l ∷ lbs) buffer = elim (is_lbs l) [
  | false ↦ encode_loop (i + 1) lbs buffer
  | true ↦ (do
    item ← store_text 128 (if i == 0 then lbs_item l else codes "," ++ lbs_item l)
    buffer' ← store_text post_data_length (buffer ++ item)
    encode_loop (i + 1) lbs buffer')
]

unfoldable pub encode_lbs : List Station → Outcome (List ℕ)
encode_lbs lbs = encode_loop 0 lbs []

-- `encode_post_data`, from an array of six stations with any contents.
unfoldable pub encode_post_data : List Station → Mem → Outcome (List ℕ)
encode_post_data lbs data_bytes = do
  lbs_buffer ← encode_lbs (parser_lbs data_bytes 0 lbs)
  store_text post_data_length (
      codes "requestdata={\"celltowers\":["
      ++ (lbs_buffer ++ codes "],\"mnctype\":\"gsm\"}&type=0&key=ade0044a7a6b49adbbf1e490bf8f0e9c"))

unfoldable pub encode_post_falldown_data : Mem → List ℕ
encode_post_falldown_data data_bytes =
    codes "http://familycareapi.aliapp.com/api"
    ++ (codes "?m=health&a=falldown&deviceid="
        ++ hextostring (slice data_bytes idx_device_id len_device_id))

-- The first characters of a text are `key`.
unfoldable pub starts_with : List ℕ → List ℕ → Bool
starts_with [] s = true
starts_with (k ∷ key) [] = false
starts_with (k ∷ key) (c ∷ s) = c == k && starts_with key s

-- The rounds of `get_key_index` that are left, at offset `i`.
unfoldable pub key_index_loop : ℕ → ℕ → List ℕ → List ℕ → Option ℕ
key_index_loop zero i buffer key = none
key_index_loop (suc n) i [] key = none
key_index_loop (suc n) i (c ∷ buffer) key =
    if starts_with key (c ∷ buffer)
    then some (i + length key)
    else key_index_loop n (i + 1) buffer key

-- The offset behind the first `key`; none for -1.
unfoldable pub get_key_index : List ℕ → List ℕ → Option ℕ
get_key_index buffer key = key_index_loop (length buffer - length key) 0 buffer key

-- The characters before the first comma; without one the text is read past its end.
unfoldable pub get_key : List ℕ → Outcome (List ℕ)
get_key [] = fault
get_key (c ∷ buffer) = elim (c == b',') [
  | true ↦ ok []
  | false ↦ (do value ← get_key buffer; ok (c ∷ value))
]
