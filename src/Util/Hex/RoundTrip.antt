-- ===== src/Util/Hex/RoundTrip.antt =====
-- Hexadecimal text and back.
use robot_server.Common.{
  ℕ, ◌*◌, ◌/◌, ◌%◌, ◌≡◌, ◌↔◌, refl, ap, true, List, [], ◌∷◌, ◌++◌, map, arith, length, All,
}
use mathlib.Core.List.{head-eq_of_cons-eq, tail-eq_of_cons-eq}
use robot_server.Common.Bytes.{IsByte}
use robot_server.Common.Outcome.{ok}
use robot_server.Util.Hex.{hextostring, pack_digits, from_hex, is_hex_digit, IsBcd}
use robot_server.Util.Hex.Tables.{
  high_digit_lem, low_digit_lem, digit_value-nibble_digit, is_hex_digit-nibble_digit, bcd_part,
  bcd_part_iff, stringtohex-digits,
}

-- `hextostring` writes two upper-case hexadecimal digits for each byte, high nibble first: reading
-- the digits back gives the bytes.
pub hextostring_lem :
    (bs : List ℕ)
    → All IsByte bs
    → (from_hex (hextostring bs) ≡ bs)
      × (length (hextostring bs) ≡ 2 * length bs)
      × All (λ c. is_hex_digit c ≡ true) (hextostring bs)
unfolding hextostring from_hex
hextostring_lem [] h = (refl, refl, tt)
hextostring_lem (b ∷ bs) (hb, hs) =
    let (back, len, digits) = hextostring_lem bs hs in
    rw (high_digit_lem b hb, low_digit_lem b hb)
      (rw
        (
          digit_value-nibble_digit (b / 16) (omega arith),
          digit_value-nibble_digit (b % 16) (omega arith),
          is_hex_digit-nibble_digit (b / 16) (omega arith),
          is_hex_digit-nibble_digit (b % 16) (omega arith),
          back,
        )
        (ground arith, omega arith, (refl, (refl, digits))))

-- `STRINGTOHEX` over the text of `hextostring`, whatever stands behind it, yields each byte with the nibbles above 9 cleared.
pub pack_digits-hextostring :
    (bs rest : List ℕ)
    → All IsByte bs
    → pack_digits (length bs) (hextostring bs ++ rest) ≡ ok (map bcd_part bs)
unfolding hextostring pack_digits
pack_digits-hextostring [] rest h = refl
pack_digits-hextostring (b ∷ bs) rest (hb, hs) =
    rw (pack_digits-hextostring bs rest hs, stringtohex-digits b hb)

map-bcd_part : (bs : List ℕ) → (map bcd_part bs ≡ bs) ↔ All IsBcd bs
map-bcd_part [] = (λ _. tt, λ _. refl)
map-bcd_part (b ∷ bs) = (
  λ e. ((bcd_part_iff b).0 (head-eq_of_cons-eq e), (map-bcd_part bs).0 (tail-eq_of_cons-eq e)),
  λ (hb, hs). rw ((bcd_part_iff b).1 hb, (map-bcd_part bs).1 hs) refl,
)

-- `STRINGTOHEX` recovers the bytes that `hextostring` printed, whatever stands behind them, exactly when every nibble of them is a
-- decimal digit.
pub pack_digits-hextostring_iff :
    (bs rest : List ℕ)
    → All IsByte bs
    → (pack_digits (length bs) (hextostring bs ++ rest) ≡ ok bs) ↔ All IsBcd bs
pack_digits-hextostring_iff bs rest h =
    rw (pack_digits-hextostring bs rest h)
      (λ e. (map-bcd_part bs).0 (cc), λ d. ap ok ((map-bcd_part bs).1 d))
