-- ===== src/Util/Hex.antt =====
-- `hextostring`, `HIGH_HEXTOSTRING`, `LOW_HEXTOSTRING` and `STRINGTOHEX` of ApolloUtil.c and
-- ApolloUtil.h. A `char *` with a length is the list of its bytes.
pub mod Tables
pub mod RoundTrip
use Prim.Native.Nat.{bit_or}
use robot_server.Common.{
  ℕ, zero, suc, ◌+◌, ◌-◌, ◌*◌, ◌/◌, ◌%◌, ◌≤◌, ◌<◌, ◌≡◌, ◌↔◌, refl, ap, Bool, true, false, ◌&&◌,
  ◌||◌, List, [], ◌∷◌, ◌++◌, arith, bit_and, ltb, leb, ◌==◌, ==_iff, if◌then◌else◌, length, All,
}
use robot_server.Common.Bytes.{IsByte}
use robot_server.Common.Outcome.{Outcome, ok, fault, ◌>>=◌}

-- `((x & 0xF0) >> 4) + 0x30`
unfoldable pub high_hextostring : ℕ → ℕ
high_hextostring x = bit_and x 0xF0 / 16 + 0x30

-- `(x & 0xF) + 0x30`
unfoldable pub low_hextostring : ℕ → ℕ
low_hextostring x = bit_and x 0xF + 0x30

-- The two characters that one round of the loop stores.
unfoldable pub high_digit : ℕ → ℕ
unfolding high_hextostring
high_digit x =
    if ltb 0x39 (high_hextostring x) then bit_and x 0xF0 / 16 - 0x0A + 0x41 else high_hextostring x

unfoldable pub low_digit : ℕ → ℕ
unfolding low_hextostring
low_digit x =
    if ltb 0x39 (low_hextostring x) then bit_and x 0x0F - 0x0A + 0x41 else low_hextostring x

unfoldable pub hextostring : List ℕ → List ℕ
unfolding high_digit low_digit
hextostring [] = []
hextostring (x ∷ hex) = high_digit x ∷ low_digit x ∷ hextostring hex

-- `x >= 0x30 && x <= 0x39 ? x : 0x30`, less 0x30
unfoldable pub digit_or_zero : ℕ → ℕ
digit_or_zero x = (if leb 0x30 x && leb x 0x39 then x else 0x30) - 0x30

unfoldable pub stringtohex : ℕ → ℕ → ℕ
unfolding digit_or_zero
stringtohex x y = bit_or (bit_and (digit_or_zero x) 0xFF * 16) (bit_and (digit_or_zero y) 0xFF)

-- `for (i = 0; i < n; i++) out[i] = STRINGTOHEX(s[2*i], s[2*i+1])` over the bytes that `s` has, its
-- terminator included; a read behind them is a fault.
unfoldable pub pack_digits : ℕ → List ℕ → Outcome (List ℕ)
unfolding stringtohex
pack_digits zero s = ok []
pack_digits (suc n) [] = fault
pack_digits (suc n) (x ∷ []) = fault
pack_digits (suc n) (x ∷ y ∷ s) = do rest ← pack_digits n s; ok (stringtohex x y ∷ rest)

-- Specification: the upper-case digit of a nibble, and the value of a digit.
pub nibble_digit : ℕ → ℕ
nibble_digit n = if ltb n 10 then b'0' + n else b'A' + (n - 10)

pub digit_value : ℕ → ℕ
digit_value c = if leb c b'9' then c - b'0' else c - b'A' + 10

-- The reader that inverts `hextostring`.
pub from_hex : List ℕ → List ℕ
unfolding digit_value
from_hex [] = []
from_hex (x ∷ []) = []
from_hex (x ∷ y ∷ s) = (digit_value x * 16 + digit_value y) ∷ from_hex s

abbrev pub is_hex_digit : ℕ → Bool
is_hex_digit c = (leb b'0' c && leb c b'9') || (leb b'A' c && leb c b'F')

-- Both nibbles are decimal digits.
abbrev pub IsBcd : ℕ → Type 0
IsBcd b = (b / 16 < 10) × (b % 16 < 10)
