-- ===== src/Decimal/Laws.antt =====
-- `atoi` reads what `%d` prints.
use robot_server.Common.{
  ℕ, zero, suc, ◌+◌, ◌*◌, ◌/◌, ◌%◌, ◌^◌, ◌≤◌, ◌<◌, ◌≡◌, refl, sym, ap, All, All-append, ◌∙◌, true,
  false, List, [], ◌∷◌, ◌++◌, arith, lt→ltb, ge→ltb, length, length-append,
}
use mathlib.Core.List.{append-nil, append_assoc}
use native.Mathlib.Decide.{dec_lt}
use robot_server.Common.Int.{pos}
use robot_server.Common.Outcome.{ok}
use robot_server.Util.Scan.{isspace}
use robot_server.Decimal.{
  print_fuel, print_nat, is_digit, atoi_digits, skip_spaces, atoi_signed, atoi, to_int,
}

abbrev pub pow10 : ℕ → ℕ
pow10 zero = 1
pow10 (suc k) = 10 * pow10 k

digit_step :
    (acc d : ℕ) (s : List ℕ)
    → d < 10
    → atoi_digits acc ((b'0' + d) ∷ s) ≡ atoi_digits (acc * 10 + d) s
unfolding atoi_digits
digit_step acc d s h = ground arith

module _ (fuel n : ℕ) where
  print_short : n < 10 → print_fuel (suc fuel) n ≡ (b'0' + n) ∷ []
  unfolding print_fuel
  print_short h = rw (lt→ltb n 10 h)

  print_long : 10 ≤ n → print_fuel (suc fuel) n ≡ print_fuel fuel (n / 10) ++ ((b'0' + n % 10) ∷ [])
  unfolding print_fuel
  print_long h = rw (ge→ltb n 10 h)

digits-print :
    (fuel n : ℕ) (rest : List ℕ)
    → n < pow10 fuel
    → atoi_digits 0 (print_fuel fuel n ++ rest) ≡ atoi_digits n rest
digits-print zero n rest h = let e : n ≡ 0 = omega arith in rw e (unfold print_fuel in refl)
digits-print (suc fuel) n rest h = elim (dec_lt n 10) [
  | yes short ↦
      rw (print_short fuel n short)
        (digit_step 0 n rest short ∙ ap (λ x. atoi_digits x rest) (omega arith))
  | no long ↦
      rw (print_long fuel n (omega arith), append_assoc)
        (digits-print fuel (n / 10) ((b'0' + n % 10) ∷ rest) (omega arith)
          ∙ digit_step (n / 10) (n % 10) rest (omega arith)
          ∙ ap (λ x. atoi_digits x rest) (omega arith))
]

digit_char : (d : ℕ) → d < 10 → is_digit (b'0' + d) ≡ true
digit_char d h = ground arith

-- A printed number begins with a digit.
print_head :
    (fuel n : ℕ)
    → n < pow10 (suc fuel)
    → (c : ℕ) × (s : List ℕ) × (print_fuel (suc fuel) n ≡ c ∷ s) × (is_digit c ≡ true)
print_head zero n h = ((b'0' + n), [], print_short zero n (omega arith), digit_char n (omega arith))
print_head (suc fuel) n h = elim (dec_lt n 10) [
  | yes short ↦ ((b'0' + n), [], print_short (suc fuel) n short, digit_char n short)
  | no long ↦
      let (c, s, e, d) = print_head fuel (n / 10) (omega arith) in
      (c, s ++ ((b'0' + n % 10) ∷ []), print_long (suc fuel) n (omega arith) ∙ rw e, d)
]

signed-digit :
    (c : ℕ) (s : List ℕ) → is_digit c ≡ true → atoi (c ∷ s) ≡ to_int false (atoi_digits 0 (c ∷ s))
unfolding atoi skip_spaces atoi_signed isspace
signed-digit c s h = ground arith

-- `atoi` reads back a natural number that `%d` printed.
pub atoi-print_nat : (n : ℕ) → n < 2 ^ 31 → atoi (print_nat n) ≡ ok (pos n)
unfolding print_nat
atoi-print_nat n h =
    let (c, s, e, d) = print_head 19 n (omega arith) in
    let read : atoi_digits 0 (print_fuel 20 n) ≡ n =
      ap (λ x. atoi_digits 0 x) (sym (append-nil (print_fuel 20 n)))
      ∙ digits-print 20 n [] (omega arith)
      ∙ (unfold atoi_digits in refl) in
    rw e (signed-digit c s d ∙ rw (← e) (rw (read, lt→ltb n (2 ^ 31) h)))

length-print : (fuel n k : ℕ) → n < 10 * pow10 k → length (print_fuel fuel n) ≤ k + 1
length-print zero n k h = unfold print_fuel in omega arith
length-print (suc fuel) n zero h = rw (print_short fuel n (omega arith)) (omega arith)
length-print (suc fuel) n (suc k) h = elim (dec_lt n 10) [
  | yes short ↦ rw (print_short fuel n short) (omega arith)
  | no long ↦ rw (print_long fuel n (omega arith)) (
      omega (
        arith,
        length-append (print_fuel fuel (n / 10)) ((b'0' + n % 10) ∷ []),
        length-print fuel (n / 10) k (omega arith),
      ))
]

print_digits : (fuel n : ℕ) → All (λ c. is_digit c ≡ true) (print_fuel fuel n)
print_digits zero n = unfold print_fuel in tt
print_digits (suc fuel) n = elim (dec_lt n 10) [
  | yes short ↦ rw (print_short fuel n short) (digit_char n short, tt)
  | no long ↦ rw (print_long fuel n (omega arith)) (
      All-append (λ c. is_digit c ≡ true) (print_fuel fuel (n / 10)) _ (print_digits fuel (n / 10))
        (digit_char (n % 10) (omega arith), tt))
]

-- A byte is printed in at most three digits.
pub length-print_nat : (n : ℕ) → n < 256 → length (print_nat n) ≤ 3
unfolding print_nat
length-print_nat n h = length-print 20 n 2 (omega arith)

pub length-print_int : (n : ℕ) → n < 2 ^ 32 → length (print_nat n) ≤ 10
unfolding print_nat
length-print_int n h = length-print 20 n 9 (omega arith)

-- The number that is read from four bytes, in eight digits.
pub length-print_id : (n : ℕ) → n < 100000000 → length (print_nat n) ≤ 8
unfolding print_nat
length-print_id n h = length-print 20 n 7 (omega arith)

-- A printed number has digits only, one at least.
pub print_long_shape :
    (n : ℕ) → n < 2 ^ 64 → All (λ c. is_digit c ≡ true) (print_nat n) × (1 ≤ length (print_nat n))
unfolding print_nat
print_long_shape n h =
    let (c, s, e, d) = print_head 19 n (omega arith) in (print_digits 20 n, rw e (omega arith))

pub print_nat_shape :
    (n : ℕ) → n < 2 ^ 63 → All (λ c. is_digit c ≡ true) (print_nat n) × (1 ≤ length (print_nat n))
print_nat_shape n h = print_long_shape n (omega arith)

pub length-print_long : (n : ℕ) → n < 2 ^ 64 → length (print_nat n) ≤ 20
unfolding print_nat
length-print_long n h = length-print 20 n 19 (omega arith)
