-- ===== src/Util/Hex/Tables.antt =====
-- Facts about one byte, each a table of 256 entries that is checked by evaluation.
use robot_server.Common.{
  ℕ, zero, suc, ◌+◌, ◌*◌, ◌/◌, ◌%◌, ◌<◌, ◌≡◌, ◌↔◌, refl, Bool, true, ◌&&◌, arith, ltb, ◌==◌, ==_iff,
  if◌then◌else◌,
}
use robot_server.Util.Hex.{
  high_digit, low_digit, nibble_digit, digit_value, stringtohex, is_hex_digit, IsBcd,
}

unfoldable pub all_below : ℕ → (ℕ → Bool) → Bool
all_below zero p = true
all_below (suc n) p = p n && all_below n p

pub all_below_lem : (n : ℕ) (p : ℕ → Bool) (x : ℕ) → all_below n p ≡ true → x < n → p x ≡ true
unfolding all_below
all_below_lem zero p x h lt = absurd (omega arith)
all_below_lem (suc n) p x h lt = ground (arith, all_below_lem n p x)

high_table : all_below 256 (λ x. high_digit x == nibble_digit (x / 16)) ≡ true
unfolding all_below high_digit nibble_digit
high_table = refl

low_table : all_below 256 (λ x. low_digit x == nibble_digit (x % 16)) ≡ true
unfolding all_below low_digit nibble_digit
low_table = refl

pub high_digit_lem : (x : ℕ) → x < 256 → high_digit x ≡ nibble_digit (x / 16)
high_digit_lem x h = (==_iff _ _).0 (all_below_lem 256 _ x high_table h)

pub low_digit_lem : (x : ℕ) → x < 256 → low_digit x ≡ nibble_digit (x % 16)
low_digit_lem x h = (==_iff _ _).0 (all_below_lem 256 _ x low_table h)

pub digit_value-nibble_digit : (n : ℕ) → n < 16 → digit_value (nibble_digit n) ≡ n
unfolding digit_value nibble_digit
digit_value-nibble_digit n h = ground arith

pub is_hex_digit-nibble_digit : (n : ℕ) → n < 16 → is_hex_digit (nibble_digit n) ≡ true
unfolding nibble_digit
is_hex_digit-nibble_digit n h = ground arith

-- A nibble that is no decimal digit is read back as 0.
pub bcd_part : ℕ → ℕ
bcd_part b = (if ltb (b / 16) 10 then b / 16 else 0) * 16 + (if ltb (b % 16) 10 then b % 16 else 0)

pack_table : all_below 256 (λ x. stringtohex (high_digit x) (low_digit x) == bcd_part x) ≡ true
unfolding all_below high_digit low_digit stringtohex bcd_part
pack_table = refl

pub stringtohex-digits : (x : ℕ) → x < 256 → stringtohex (high_digit x) (low_digit x) ≡ bcd_part x
stringtohex-digits x h = (==_iff _ _).0 (all_below_lem 256 _ x pack_table h)

pub bcd_part_iff : (b : ℕ) → (bcd_part b ≡ b) ↔ IsBcd b
unfolding bcd_part
bcd_part_iff b = ground arith
