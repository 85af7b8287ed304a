-- ===== src/Redis/Words.antt =====
-- The keys and values of the program are single words of a command, and what it is for two texts to
-- be one.
use robot_server.Common.{
  ℕ, ◌+◌, ◌*◌, ◌^◌, ◌-◌, ltb, inl, inr, Bool-cases, ◌≤◌, ◌<◌, ◌≡◌, refl, ap, ◌≢◌, true, false, List,
  [], ◌∷◌, ◌++◌, arith, length, length-append, All, All-append, ==_refl, if◌then◌else◌,
}
use robot_server.Common.Bytes.{IsByte}
use robot_server.Util.Hex.{hextostring, is_hex_digit}
use robot_server.Util.Hex.RoundTrip.{hextostring_lem}
use robot_server.Common.Bytes.{Mem}
use robot_server.Common.Int.{pos, negsuc}
use robot_server.Decimal.{print_nat, print_int, is_digit, int_at, long_at}
use robot_server.Decimal.Laws.{
  print_nat_shape, print_long_shape, length-print_int, length-print_long,
}
use robot_server.Block.{eq_text}
use robot_server.Redis.Service.{is_plain, IsWord}

pub eq_text_refl : (s : List ℕ) → eq_text s s ≡ true
eq_text_refl [] = refl
eq_text_refl (x ∷ s) = rw (==_refl x) (eq_text_refl s)

pub eq_text-eq : (s t : List ℕ) → eq_text s t ≡ true → s ≡ t
eq_text-eq [] [] h = refl
eq_text-eq [] (y ∷ t) h = cc
eq_text-eq (x ∷ s) [] h = cc
eq_text-eq (x ∷ s) (y ∷ t) h = ground (arith, eq_text-eq s t)

pub eq_text-ne : (s t : List ℕ) → s ≢ t → eq_text s t ≡ false
eq_text-ne s t h =
    elim (eq_text s t) as (λ b. eq_text s t ≡ b → eq_text s t ≡ false) [
      | true ↦ λ e. absurd (h (eq_text-eq s t e))
      | false ↦ λ e. e
    ]
      refl

pub eq_text-length : (s t : List ℕ) → length s ≢ length t → eq_text s t ≡ false
eq_text-length s t h = eq_text-ne s t (λ e. h (ap length e))

hex_digit-is_plain : (c : ℕ) → is_hex_digit c ≡ true → is_plain c ≡ true
hex_digit-is_plain c h = ground arith

digit-is_plain : (c : ℕ) → is_digit c ≡ true → is_plain c ≡ true
digit-is_plain c h = ground arith

pub All-map : {A B : ℕ → Type 0} (s : List ℕ) → ((c : ℕ) → A c → B c) → All A s → All B s
All-map [] f h = tt
All-map (c ∷ s) f (a, h) = (f c a, All-map s f h)

pub IsWord-append : (s t : List ℕ) → IsWord s → IsWord t → IsWord (s ++ t)
IsWord-append s t (ls, hs) (lt, ht) =
    (omega (arith, length-append s t), All-append (λ c. is_plain c ≡ true) s t hs ht)

pub IsWord-print_nat : (n : ℕ) → n < 2 ^ 63 → IsWord (print_nat n)
IsWord-print_nat n h =
    let (digits, some_digit) = print_nat_shape n h in
    (some_digit, All-map (print_nat n) digit-is_plain digits)

long_word : (n : ℕ) → n < 2 ^ 64 → IsWord (print_nat n)
long_word n h =
    let (digits, some_digit) = print_long_shape n h in
    (some_digit, All-map (print_nat n) digit-is_plain digits)

pub IsWord-hextostring : (bs : List ℕ) → All IsByte bs → 0 < length bs → IsWord (hextostring bs)
IsWord-hextostring bs h some_byte =
    let (back, len, digits) = hextostring_lem bs h in
    (omega (arith, len), All-map (hextostring bs) hex_digit-is_plain digits)

IsWord-cons : (c : ℕ) (s : List ℕ) → is_plain c ≡ true → IsWord s → IsWord (c ∷ s)
IsWord-cons c s h (l, hs) = (omega arith, (h, hs))

-- What `%d` prints is a word.
abbrev pub IsShortWord : ℕ → List ℕ → Type 0
IsShortWord n s = IsWord s × (length s ≤ n)

IsWord-print_int :
    (w : ℕ)
    → w < 2 ^ 32
    → IsShortWord 11 (print_int (if ltb w (2 ^ 31) then pos w else negsuc (2 ^ 32 - 1 - w)))
unfolding print_int
IsWord-print_int w h = elim (Bool-cases (ltb w (2 ^ 31))) [
  | inl e ↦ rw e (IsWord-print_nat w (omega arith), omega (arith, length-print_int w (omega arith)))
  | inr e ↦
      let n = 2 ^ 32 - 1 - w + 1 in
      let large : 2 ^ 31 ≤ w = ground arith in
      rw e (
        IsWord-cons b'-' (print_nat n) refl (IsWord-print_nat n (omega arith)),
        omega (arith, length-print_int n (omega arith)),
      )
]

-- So is the text of an `int` in memory, which has 11 characters at most.
pub IsWord-int_at :
    (m : Mem) (off : ℕ) → ((a : ℕ) → IsByte (m a)) → IsShortWord 11 (print_int (int_at m off))
IsWord-int_at m off h =
    IsWord-print_int (m off + 256 * m (off + 1) + 65536 * m (off + 2) + 16777216 * m (off + 3))
      (omega (arith, h off, h (off + 1), h (off + 2), h (off + 3)))

-- And that of a `long`, which has 21.
pub IsWord-print_long :
    (w : ℕ)
    → w < 2 ^ 64
    → IsShortWord 21 (print_int (if ltb w (2 ^ 63) then pos w else negsuc (2 ^ 64 - 1 - w)))
unfolding print_int
IsWord-print_long w h = elim (Bool-cases (ltb w (2 ^ 63))) [
  | inl e ↦ rw e (long_word w (omega arith), omega (arith, length-print_long w (omega arith)))
  | inr e ↦
      let n = 2 ^ 64 - 1 - w + 1 in
      let large : 2 ^ 63 ≤ w = ground arith in
      rw e (
        IsWord-cons b'-' (print_nat n) refl (long_word n (omega arith)),
        omega (arith, length-print_long n (omega arith)),
      )
]

pub IsWord-long_at :
    (m : Mem) (off : ℕ) → ((a : ℕ) → IsByte (m a)) → IsShortWord 21 (print_int (long_at m off))
IsWord-long_at m off h =
    IsWord-print_long
      (m off
        + 256 * m (off + 1)
        + 65536 * m (off + 2)
        + 16777216 * m (off + 3)
        + 2 ^ 32 * (m (off + 4) + 256 * m (off + 5) + 65536 * m (off + 6) + 16777216 * m (off + 7)))
      (omega (
        arith,
        h off,
        h (off + 1),
        h (off + 2),
        h (off + 3),
        h (off + 4),
        h (off + 5),
        h (off + 6),
        h (off + 7),
      ))
