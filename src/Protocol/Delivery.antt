-- ===== src/Protocol/Delivery.antt =====
-- From the command packet of a phone to the heartbeat of the device that is bound to it.
use robot_server.Common.{
  ℕ, suc, ◌^◌, ◌≤◌, ◌<◌, ◌≡◌, refl, ◌∙◌, Bool, true, false, ◌&&◌, some, List, ◌++◌, arith, length,
  le→leb, ◌==◌, not,
}
use robot_server.Common.Int.{pos, eq_ℤ}
use robot_server.Common.Bytes.{Mem, slice}
use robot_server.Common.Outcome.{ok}
use robot_server.Decimal.{print_nat, print_int, atoi}
use robot_server.Decimal.Laws.{length-print_nat, length-print_int}
use robot_server.Util.Hex.{hextostring}
use robot_server.Util.Paths.{codes}
use robot_server.Redis.Service.{IsStore, IsWord}
use robot_server.Redis.Keys.{after_set, set_key_toredis_lem, get_value_some}
use robot_server.Redis.Words.{IsWord-append, IsWord-print_nat}
use robot_server.Host.{Host, World}
use robot_server.Protocol.Device.{device_heart_packet, report_fall}
use robot_server.Protocol.Phone.{
  check_phone_command, at_least_0, phone_command_packet, command_for, store_command, set_value,
}
use robot_server.Protocol.Phone.{indexed_value}
use robot_server.Protocol.Numbers.{
  IsNumbered, with_number, length-indexed_value, indexed_value-IsWord, store_numbered, pop_numbered,
}
use robot_server.Protocol.Mailbox.{
  device_text, IsBound, length-device_text, device_word, IsBound-taken, IsBound-after_set,
  value_of-after_set, heart_short, heart_found, del_command, heart_empty, value_of-taken, taken,
  reported,
}

-- A command that is stored as its number alone, and reads no position from the database.
abbrev pub is_single : ℕ → Bool
is_single cmd =
    let class = check_phone_command cmd in
    at_least_0 class
    && not (eq_ℤ class (pos 4))
    && not (eq_ℤ class (pos 7))
    && not (eq_ℤ class (pos 3))
    && not (cmd == 1)

single_parts :
    {a b c d e : Bool}
    → (a && not b && not c && not d && not e) ≡ true
    → (a ≡ true) × (b ≡ false) × (c ≡ false) × (d ≡ false) × (e ≡ false)
single_parts {a} {b} {c} {d} {e} h = ground arith

module _ (h : Host) (st : IsStore h.redis) where
  -- Packet `p` comes from the phone of user `uid`, to which device `d` is bound.
  pub record IsOwner (s : h.redis.State) (p d : Mem) (uid : ℕ) : Type 0 where
    pub user_id : atoi (hextostring (slice p 1 4)) ≡ ok (pos uid)
    pub small : uid < 2 ^ 31
    pub owns : st.value_of s (codes "RP_" ++ print_nat uid) ≡ some (device_text h st d)

  module _ {s : h.redis.State} {p d : Mem} {uid : ℕ} {user : List ℕ} (o : IsOwner s p d uid)
      (b : IsBound h st s d user) where
    -- A command packet up to the branches.
    phone_command_lem :
        (w : World h)
        → w.redis_state ≡ s
        → phone_command_packet h p 16 w ≡ store_command h p (pos uid) (device_text h st d) w
    unfolding phone_command_packet command_for print_int
    phone_command_lem w e =
        let key = codes "RP_" ++ print_nat uid in
        let digits = length-print_int uid (omega (arith, o.small)) in
        let key_word =
          IsWord-append (codes "RP_") (print_nat uid) (omega arith, (refl, (refl, (refl, tt))))
            (IsWord-print_nat uid (omega (arith, o.small))) in
        let found =
          get_value_some h.redis st 17 key (device_text h st d) s key_word (omega arith) o.owns
            (omega (arith, length-device_text h st b)) (omega (arith, length-device_text h st b)) in
        rw (o.user_id, le→leb (suc (length key)) 14 (omega arith), e, found) refl

    -- A single command is stored as its number.
    store_single :
        (w : World h)
        → is_single (p 5) ≡ true
        → store_command h p (pos uid) (device_text h st d) w
          ≡ set_value h (device_text h st d) (print_nat (p 5)) w
    unfolding store_command
    store_single w single =
        let (at_least, no_index, no_account, no_binding, no_position) = single_parts single in
        rw (no_index, no_account, no_binding, at_least, no_position) refl

    -- The state in which the command `v` waits for the device.
    abbrev pub waiting : List ℕ → h.redis.State
    waiting v = after_set h.redis st (device_text h st d) v s

    set_value_lem :
        (v : List ℕ) (w : World h)
        → w.redis_state ≡ s
        → IsWord v
        → length v ≤ 40
        → set_value h (device_text h st d) v w ≡ ok (pos 0, record w { redis_state = waiting v })
    unfolding set_value
    set_value_lem v w e hv short =
        rw
          (
            e,
            set_key_toredis_lem h.redis st (device_text h st d) v s (device_word h st b) hv
                (omega (arith, length-device_text h st b)),
          )
          refl

    pub phone_single :
        (w : World h)
        → w.redis_state ≡ s
        → is_single (p 5) ≡ true
        → p 5 < 256
        → phone_command_packet h p 16 w
          ≡ ok (pos 0, record w { redis_state = waiting (print_nat (p 5)) })
    phone_single w e single small =
        phone_command_lem w e
        ∙ store_single w single
        ∙ set_value_lem (print_nat (p 5)) w e (IsWord-print_nat (p 5) (omega arith))
            (omega (arith, length-print_nat (p 5) small))

    phone_numbered :
        (w : World h)
        → w.redis_state ≡ s
        → IsNumbered p
        → phone_command_packet h p 16 w
          ≡ ok (pos 0, record w { redis_state = waiting (indexed_value p) })
    phone_numbered w e n =
        phone_command_lem w e
        ∙ store_numbered n h (pos uid) (device_text h st d) w
        ∙ set_value_lem (indexed_value p) w e (indexed_value-IsWord n)
            (omega (arith, length-indexed_value n))

  -- A phone's single command, below 255, one that is stored as its number and reads no position,
  -- reaches its device, and only once: the command packet is accepted; the next heartbeat of the
  -- device that is bound to the phone returns the number of the command; the same heartbeat behind
  -- it finds no command. The Redis server stores strings, and the key of the device's user is one
  -- word of at most 200 characters, other than the two keys of the device.
  pub command_delivered :
      (w : World h) (p d info : Mem) (uid : ℕ) (user : List ℕ)
      → IsOwner w.redis_state p d uid
      → IsBound h st w.redis_state d user
      → is_single (p 5) ≡ true
      → p 5 < 255
      → (w₁ : World h) × (w₂ : World h) × (w₃ : World h) × (phone_command_packet h p 16 w
          ≡ ok (pos 0, w₁))
        × (device_heart_packet h d 32 info w₁ ≡ ok (pos (p 5), info, w₂))
        × (device_heart_packet h d 32 info w₂ ≡ ok (pos 0, info, w₃))
  command_delivered w p d info uid user o b single small =
      let id = device_text h st d in
      let cmd_word = IsWord-print_nat (p 5) (omega arith) in
      let s₁ = waiting o b (print_nat (p 5)) in
      let w₁ = record w { redis_state = s₁ } in
      let b₁ = IsBound-after_set h st b (print_nat (p 5)) cmd_word in
      let w₂ = record (report_fall h d w₁) { redis_state = taken h st b₁ } in
      let b₂ = IsBound-taken h st b₁ in
      (
        w₁,
        w₂,
        record (report_fall h d w₂) { redis_state = reported h st b₂ },
        phone_single o b w refl single (omega arith),
        heart_short h st b₁ info w₁ (p 5) refl
            (value_of-after_set h st b (print_nat (p 5)) cmd_word) small,
        heart_empty h st b₂ info w₂ refl (value_of-taken h st b₁),
      )

  -- A command with an index and a phone number reaches the device, and only once: the command
  -- packet is accepted; the next heartbeat of the device that is bound to the phone returns the
  -- class 0x40, with the command, the index and the eight bytes of the number in info; the same
  -- heartbeat behind it finds no command. The index is not negative, and the number has decimal
  -- digits only; the Redis server stores strings, and the key of the device's user is one word of
  -- at most 200 characters, other than the two keys of the device.
  pub number_delivered :
      (w : World h) (p d info : Mem) (uid : ℕ) (user : List ℕ)
      → IsOwner w.redis_state p d uid
      → IsBound h st w.redis_state d user
      → IsNumbered p
      → (w₁ : World h) × (w₂ : World h) × (w₃ : World h) × (info' : Mem) × (phone_command_packet h p
            16 w
          ≡ ok (pos 0, w₁))
        × (device_heart_packet h d 32 info w₁ ≡ ok (pos 0x40, info', w₂))
        × (info' 3 ≡ p 5)
        × (info' 4 ≡ p 6)
        × (slice info' 5 8 ≡ slice p 7 8)
        × (device_heart_packet h d 32 info w₂ ≡ ok (pos 0, info, w₃))
  number_delivered w p d info uid user o b n =
      let value = indexed_value p in
      let word = indexed_value-IsWord n in
      let w₁ = record w { redis_state = waiting o b value } in
      let b₁ = IsBound-after_set h st b value word in
      let w₂ = record (report_fall h d w₁) { redis_state = taken h st b₁ } in
      let b₂ = IsBound-taken h st b₁ in
      (
        w₁,
        w₂,
        record (report_fall h d w₂) { redis_state = reported h st b₂ },
        with_number n info,
        phone_numbered o b w refl n,
        heart_found h st b₁ info w₁ value refl (value_of-after_set h st b value word)
              (omega (arith, length-indexed_value n))
            ∙ pop_numbered n h (device_text h st d) info (report_fall h d w₁) (reported h st b₁)
                (taken h st b₁) (del_command h st b₁),
        refl,
        refl,
        refl,
        heart_empty h st b₂ info w₂ refl (value_of-taken h st b₁),
      )
