-- ===== src/Lbs/Bounds.antt =====
-- The request for the stations of any packet fits its buffer.
use robot_server.Common.{
  ℕ, suc, ◌+◌, ◌*◌, ◌≤◌, ◌<◌, ◌≡◌, refl, Bool, true, false, List, [], ◌∷◌, ◌++◌, arith, length,
  length-append, All, le→leb, ltb, ltb→lt, if◌then◌else◌, Bool-cases, inl, inr,
}
use robot_server.Common.Int.{ℤ, signed_char}
use robot_server.Common.Bytes.{Mem, IsByte}
use robot_server.Common.Outcome.{ok}
use robot_server.Util.Paths.{codes}
use robot_server.Lbs.{
  Station, no_station, is_lbs, lbs_item, word_at, parse_station, parser_lbs, encode_post_data,
}
use robot_server.Lbs.Request.{IsSmall, IsStation, behind_commas, length-lbs_item, encode_lbs_lem}

signed_char-IsSmall : (b : ℕ) → b < 256 → IsSmall (signed_char b)
signed_char-IsSmall b h = elim (Bool-cases (ltb b 128)) [
  | inl e ↦ rw e (ltb→lt b 128 e)
  | inr e ↦ let large : 128 ≤ b = ground arith in rw e (omega arith)
]

if-IsStation :
    (b : Bool) (k l : Station) → IsStation k → IsStation l → IsStation (if b then k else l)
if-IsStation true k l hk hl = hk
if-IsStation false k l hk hl = hl

no_station-IsStation : IsStation no_station
no_station-IsStation = record {
  mcc_small = omega arith;
  mnc_small = omega arith;
  lac_small = omega arith;
  cid_small = omega arith;
  signal_small = omega arith;
}

module _ (m : Mem) (byte : (a : ℕ) → IsByte (m a)) where
  word_at_small : (off : ℕ) → word_at m off < 65536
  word_at_small off = omega (arith, byte off, byte (off + 1))

  parse_station-IsStation :
      (i : ℕ) (old : Station) → IsStation old → IsStation (parse_station m i old)
  unfolding parse_station
  parse_station-IsStation i old h =
      let words : (z : ℤ)
          → IsSmall z
          → IsStation (record {
            mcc = word_at m 10;
            mnc = word_at m 12;
            lac = word_at m (14 + 5 * i);
            cid = word_at m (14 + 5 * i + 2);
            signal = z;
          }) =
        λ z small. record {
          mcc_small = word_at_small 10;
          mnc_small = word_at_small 12;
          lac_small = word_at_small (14 + 5 * i);
          cid_small = word_at_small (14 + 5 * i + 2);
          signal_small = small;
        } in
      if-IsStation _ _ _ (words old.signal h.signal_small) (
        if-IsStation _ _ _ no_station-IsStation
          (words _ (signed_char-IsSmall (m (14 + 5 * i + 4)) (byte (14 + 5 * i + 4)))))

  parser_lbs-IsStation :
      (i : ℕ) (lbs : List Station) → All IsStation lbs → All IsStation (parser_lbs m i lbs)
  unfolding parser_lbs
  parser_lbs-IsStation i [] h = tt
  parser_lbs-IsStation i (l ∷ lbs) (h, hs) =
      (parse_station-IsStation i l h, parser_lbs-IsStation (i + 1) lbs hs)

length-parser_lbs :
    (m : Mem) (i : ℕ) (lbs : List Station) → length (parser_lbs m i lbs) ≡ length lbs
unfolding parser_lbs
length-parser_lbs m i [] = refl
length-parser_lbs m i (l ∷ lbs) = omega (arith, length-parser_lbs m (i + 1) lbs)

length-behind_commas :
    (lbs : List Station) → All IsStation lbs → length (behind_commas lbs) ≤ 127 * length lbs
length-behind_commas [] h = omega arith
length-behind_commas (l ∷ lbs) (h, hs) = elim (Bool-cases (is_lbs l)) [
  | inl e ↦ rw e (
      omega (
        arith,
        length-append (codes "," ++ lbs_item l) (behind_commas lbs),
        length-lbs_item l h,
        length-behind_commas lbs hs,
      ))
  | inr e ↦ rw e (omega (arith, length-behind_commas lbs hs))
]

-- The list of the stations of an array, as the request holds it.
abbrev pub list_text : List Station → List ℕ
list_text [] = []
list_text (l ∷ lbs) = if is_lbs l then lbs_item l ++ behind_commas lbs else behind_commas lbs

length-list_text :
    (lbs : List Station) → All IsStation lbs → length (list_text lbs) ≤ 127 * length lbs
length-list_text [] h = omega arith
length-list_text (l ∷ lbs) (h, hs) = elim (Bool-cases (is_lbs l)) [
  | inl e ↦ rw e (
      omega (
        arith,
        length-append (lbs_item l) (behind_commas lbs),
        length-lbs_item l h,
        length-behind_commas lbs hs,
      ))
  | inr e ↦ rw e (omega (arith, length-behind_commas lbs hs))
]

-- The request for any position packet is built without a fault and fits its buffer, and holds the
-- stations that parser_Lbs reads, in order. The array has one to six elements of any contents.
pub encode_post_data_lem :
    (m : Mem) (old : Station) (rest : List Station)
    → ((a : ℕ) → IsByte (m a))
    → All IsStation (old ∷ rest)
    → length rest ≤ 5
    → (text : List ℕ) × (encode_post_data (old ∷ rest) m ≡ ok text)
      × (text
          ≡ codes "requestdata={\"celltowers\":["
            ++ (list_text (parser_lbs m 0 (old ∷ rest))
                ++ codes "],\"mnctype\":\"gsm\"}&type=0&key=ade0044a7a6b49adbbf1e490bf8f0e9c"))
      × (length text < 1024)
unfolding encode_post_data parser_lbs
encode_post_data_lem m old rest byte h few =
    let lbs = parser_lbs m 0 (old ∷ rest) in
    let stations = parser_lbs-IsStation m byte 0 (old ∷ rest) h in
    let inner = list_text lbs in
    let front = codes "requestdata={\"celltowers\":[" in
    let back = codes "],\"mnctype\":\"gsm\"}&type=0&key=ade0044a7a6b49adbbf1e490bf8f0e9c" in
    let text = front ++ (inner ++ back) in
    let small : suc (length text) ≤ 1024 = omega (
      arith,
      length-append inner back,
      length-list_text lbs stations,
      length-parser_lbs m 0 (old ∷ rest),
    ) in
    (
      text,
      rw
          (
            encode_lbs_lem (parse_station m 0 old) (parser_lbs m 1 rest) stations
                (omega (arith, length-parser_lbs m 1 rest)),
            le→leb (suc (length text)) 1024 small,
          )
          refl,
      refl,
      omega arith,
    )
