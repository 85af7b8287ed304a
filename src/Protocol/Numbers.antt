-- ===== src/Protocol/Numbers.antt =====
-- The commands that carry an index and a phone number, from the phone to the device.
use robot_server.Common.{
  ℕ, suc, ◌%◌, ◌≤◌, ◌<◌, ◌≡◌, ◌⊎◌, inl, inr, refl, ap, ◌∙◌, true, false, ◌||◌, some, List, [], ◌∷◌,
  ◌++◌, arith, bit_and, length, length-append, All, le→leb, ge→ltb, ◌==◌,
}
use mathlib.Core.List.{append_assoc}
use robot_server.Common.Int.{ℤ, pos, signed_char}
use robot_server.Common.Bytes.{Mem, IsByte, slice, fill}
use robot_server.Common.Outcome.{ok}
use robot_server.Decimal.{print_nat, print_int, is_digit}
use robot_server.Decimal.Laws.{atoi-print_nat, length-print_nat, print_nat_shape}
use robot_server.Util.Hex.{hextostring, is_hex_digit, IsBcd}
use robot_server.Util.Hex.RoundTrip.{hextostring_lem, pack_digits-hextostring_iff}
use robot_server.Util.Fields.{separation}
use robot_server.Util.Fields.Split.{join, IsField, separation-join}
use robot_server.Util.Paths.{codes}
use robot_server.Redis.{del_redis_key}
use robot_server.Redis.Service.{IsWord}
use robot_server.Redis.Words.{All-map, IsWord-append, IsWord-print_nat, IsWord-hextostring}
use robot_server.Host.{Host, World}
use robot_server.Protocol.Device.{pop_command, put_command, put_number}
use robot_server.Protocol.Phone.{check_phone_command, store_command, set_value, indexed_value}

-- A command with a phone number, as a phone sends it: the index is not negative, and the number has
-- decimal digits only.
pub record IsNumbered (p : Mem) : Type 0 where
  pub command : (p 5 == 0x41 || (p 5 == 0x42 || p 5 == 0x43)) ≡ true
  pub index : p 6 < 128
  pub byte : All IsByte (slice p 7 8)
  pub digits : All IsBcd (slice p 7 8)

-- Its three fields.
abbrev pub fields : Mem → List (List ℕ)
fields p = print_nat (p 5) ∷ print_nat (p 6) ∷ hextostring (slice p 7 8) ∷ []

digit-avoids : (c : ℕ) → is_digit c ≡ true → (c == 95) ≡ false
digit-avoids c h = ground arith

hex_digit-avoids : (c : ℕ) → is_hex_digit c ≡ true → (c == 95) ≡ false
hex_digit-avoids c h = ground arith

print_nat-IsField : (n : ℕ) → n < 256 → IsField 95 (print_nat n)
print_nat-IsField n h = (
  All-map (print_nat n) digit-avoids (print_nat_shape n (omega arith)).0,
  omega (arith, length-print_nat n h),
)

or_cases : (a b c x : ℕ) → (x == a || (x == b || x == c)) ≡ true → (x ≡ a) ⊎ ((x ≡ b) ⊎ (x ≡ c))
or_cases a b c x h = ground arith

module _ {p : Mem} (n : IsNumbered p) where
  small : p 5 < 128
  small = ground (arith, n.command)

  -- The text that is stored.
  indexed_value_lem : indexed_value p ≡ join 95 (fields p)
  unfolding indexed_value print_int
  indexed_value_lem =
      let command : signed_char (p 5) ≡ pos (p 5) = ground (arith, small) in
      let index : signed_char (p 6) ≡ pos (p 6) = ground (arith, n.index) in
      let number : (p 5 == 0x44) ≡ false = ground (arith, n.command) in
      rw (command, index, number) (append_assoc (print_nat (p 5)) (codes "_" ++ print_nat (p 6)) _)

  number_len : length (hextostring (slice p 7 8)) ≡ 16
  number_len = (hextostring_lem (slice p 7 8) n.byte).1

  -- It is cut into the fields again.
  separation_lem : separation 95 (indexed_value p) ≡ ok (fields p)
  separation_lem =
      ap (separation 95) indexed_value_lem
      ∙ separation-join 95 (print_nat (p 5)) (print_nat (p 6) ∷ hextostring (slice p 7 8) ∷ []) (
        print_nat-IsField (p 5) (omega (arith, small)),
        (
          print_nat-IsField (p 6) (omega (arith, n.index)),
          (
            (
              All-map (hextostring (slice p 7 8)) hex_digit-avoids
                  (hextostring_lem (slice p 7 8) n.byte).2,
              omega (arith, number_len),
            ),
            tt,
          ),
        ),
      )

  -- `info` with the command, the index and the number.
  abbrev pub with_number : Mem → Mem
  with_number info = fill (fill (fill info 3 (p 5 ∷ [])) 4 (p 6 ∷ [])) 5 (slice p 7 8)

  put_command_lem : (info : Mem) → put_command (fields p) info ≡ ok (pos 0x40, with_number info)
  unfolding put_command put_number
  put_command_lem info =
      let mod5 : p 5 % 256 ≡ p 5 = omega (arith, small) in
      let mod6 : p 6 % 256 ≡ p 6 = omega (arith, n.index) in
      let high : bit_and (p 5) 0xF0 ≡ 0x40 = ground (arith, n.command) in
      let number = (pack_digits-hextostring_iff (slice p 7 8) (0 ∷ []) n.byte).1 n.digits in
      rw
        (
          atoi-print_nat (p 5) (omega (arith, small)),
          atoi-print_nat (p 6) (omega (arith, n.index)),
          mod5,
          mod6,
          high,
          number,
        )
        refl

  pub length-indexed_value : length (indexed_value p) ≤ 24
  length-indexed_value = rw indexed_value_lem (
      omega (
        arith,
        length-append (print_nat (p 5))
            (95 ∷ (print_nat (p 6) ++ (95 ∷ hextostring (slice p 7 8)))),
        length-append (print_nat (p 6)) (95 ∷ hextostring (slice p 7 8)),
        length-print_nat (p 5) (omega (arith, small)),
        length-print_nat (p 6) (omega (arith, n.index)),
        number_len,
      ))

  long_value : 4 ≤ length (indexed_value p)
  long_value = rw indexed_value_lem (
      omega (
        arith,
        length-append (print_nat (p 5))
            (95 ∷ (print_nat (p 6) ++ (95 ∷ hextostring (slice p 7 8)))),
        length-append (print_nat (p 6)) (95 ∷ hextostring (slice p 7 8)),
        number_len,
      ))

  pub indexed_value-IsWord : IsWord (indexed_value p)
  indexed_value-IsWord = rw indexed_value_lem (
      IsWord-append (print_nat (p 5)) (95 ∷ (print_nat (p 6) ++ (95 ∷ hextostring (slice p 7 8))))
        (IsWord-print_nat (p 5) (omega (arith, small)))
        (IsWord-append (95 ∷ print_nat (p 6)) (95 ∷ hextostring (slice p 7 8))
          (IsWord-append (95 ∷ []) (print_nat (p 6)) (omega arith, (refl, tt))
            (IsWord-print_nat (p 6) (omega (arith, n.index))))
          (IsWord-append (95 ∷ []) (hextostring (slice p 7 8)) (omega arith, (refl, tt))
            (IsWord-hextostring (slice p 7 8) n.byte (omega arith)))))

  module _ (h : Host) where
    -- The phone's packet stores the text.
    pub store_numbered :
        (uid : ℤ) (key : List ℕ) (w : World h)
        → store_command h p uid key w ≡ set_value h key (indexed_value p) w
    unfolding store_command check_phone_command
    store_numbered uid key w =
        let fits =
          le→leb (suc (length (indexed_value p))) 48 (omega (arith, length-indexed_value)) in
        elim (or_cases 0x41 0x42 0x43 (p 5) n.command) [
          | inl e ↦ rw (e, fits) refl
          | inr (inl e) ↦ rw (e, fits) refl
          | inr (inr e) ↦ rw (e, fits) refl
        ]

    -- The heartbeat takes it out.
    pub pop_numbered :
        (key : List ℕ) (info : Mem) (w : World h) (s s' : h.redis.State)
        → del_redis_key h.redis key s ≡ ok s'
        → pop_command h key info w (some (indexed_value p), s)
          ≡ ok (pos 0x40, with_number info, record w { redis_state = s' })
    unfolding pop_command
    pop_numbered key info w s s' gone =
        rw
          (
            ge→ltb (length (indexed_value p)) 4 long_value,
            separation_lem,
            put_command_lem info,
            gone,
          )
          refl
