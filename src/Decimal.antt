-- ===== src/Decimal.antt =====
-- The parts of the C library that turn numbers into text and back: `%d` of `sprintf`, and `atoi`.
pub mod Laws
use robot_server.Common.{
  ℕ, zero, suc, ◌+◌, ◌-◌, ◌*◌, ◌/◌, ◌%◌, ◌^◌, Bool, true, false, ◌&&◌, List, [], ◌∷◌, ◌++◌, ltb,
  leb, ◌==◌, if◌then◌else◌,
}
use robot_server.Common.Int.{ℤ, pos, negsuc}
use robot_server.Common.Bytes.{Mem}
use robot_server.Common.Outcome.{Outcome, ok, fault, ◌>>=◌, ◌>>◌, check}
use robot_server.Util.Scan.{isspace}

-- The decimal digits of a number of at most `fuel` digits.
unfoldable pub print_fuel : ℕ → ℕ → List ℕ
print_fuel zero n = []
print_fuel (suc fuel) n =
    let front = print_fuel fuel (n / 10) in
    if ltb n 10 then (b'0' + n) ∷ [] else front ++ ((b'0' + n % 10) ∷ [])

-- No integer type of the program has more than 20 digits.
unfoldable pub print_nat : ℕ → List ℕ
print_nat n = print_fuel 20 n

-- `%d`
unfoldable pub print_int : ℤ → List ℕ
print_int (pos n) = print_nat n
print_int (negsuc n) = b'-' ∷ print_nat (n + 1)

abbrev pub is_digit : ℕ → Bool
is_digit c = leb b'0' c && leb c b'9'

unfoldable pub atoi_digits : ℕ → List ℕ → ℕ
atoi_digits acc [] = acc
atoi_digits acc (c ∷ s) = elim (is_digit c) [
  | true ↦ atoi_digits (acc * 10 + (c - b'0')) s
  | false ↦ acc
]

unfoldable pub skip_spaces : List ℕ → List ℕ
unfolding isspace
skip_spaces [] = []
skip_spaces (c ∷ s) = elim (isspace c) [ true ↦ skip_spaces s | false ↦ c ∷ s ]

-- An `int`; a value out of its range is a fault.
abbrev pub to_int : Bool → ℕ → Outcome ℤ
to_int true n = do check (leb n (2 ^ 31)); ok (if n == 0 then pos 0 else negsuc (n - 1))
to_int false n = do check (ltb n (2 ^ 31)); ok (pos n)

unfoldable pub atoi_signed : List ℕ → Outcome ℤ
atoi_signed [] = ok (pos 0)
atoi_signed (c ∷ s) =
    if c == b'-'
    then to_int true (atoi_digits 0 s)
    else if c == b'+'
    then to_int false (atoi_digits 0 s)
    else to_int false (atoi_digits 0 (c ∷ s))

unfoldable pub atoi : List ℕ → Outcome ℤ
atoi s = atoi_signed (skip_spaces s)

-- The low byte of an integer, as in `(char)cmd`.
abbrev pub to_char : ℤ → ℕ
to_char (pos n) = n % 256
to_char (negsuc n) = 255 - n % 256

-- `*(int *)(packet + off)` and `*(long *)(packet + off)` on a little-endian machine.
abbrev pub int_at : Mem → ℕ → ℤ
int_at m off =
    let w = m off + 256 * m (off + 1) + 65536 * m (off + 2) + 16777216 * m (off + 3) in
    if ltb w (2 ^ 31) then pos w else negsuc (2 ^ 32 - 1 - w)

abbrev pub long_at : Mem → ℕ → ℤ
long_at m off =
    let lo = m off + 256 * m (off + 1) + 65536 * m (off + 2) + 16777216 * m (off + 3) in
    let hi = m (off + 4) + 256 * m (off + 5) + 65536 * m (off + 6) + 16777216 * m (off + 7) in
    let w = lo + 2 ^ 32 * hi in if ltb w (2 ^ 63) then pos w else negsuc (2 ^ 64 - 1 - w)
