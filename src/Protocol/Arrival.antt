-- ===== src/Protocol/Arrival.antt =====
-- Packets as they arrive on a connection: one call of apolloParsePacket with one piece of input.
use std.Path.{fun_ext}
use robot_server.Common.{
  ℕ, zero, suc, ◌%◌, ◌≤◌, ◌<◌, ◌≡◌, refl, sym, ap, ◌∙◌, ◌⊎◌, inl, inr, Bool, true, false, not, ◌&&◌,
  ◌||◌, List, [], ◌∷◌, arith, length, drop, take_all, bit_and, ◌==◌, Bool-cases, ltb, if◌then◌else◌,
}
use robot_server.Common.Int.{pos}
use robot_server.Common.Bytes.{Mem, fill}
use robot_server.Common.Outcome.{ok, ◌>>=◌}
use robot_server.Util.Hex.Tables.{all_below, all_below_lem}
use robot_server.Host.{Host, World, apollo_return_packet}
use robot_server.Protocol.Phone.{check_phone_command, phone_header_packet, phone_command_packet}
use robot_server.Protocol.Device.{device_heart_packet, report_fall}
use robot_server.Protocol.Parse.{
  heart_answer, phone_answer, dispatch, parse_loop, apollo_parse_packet,
}
use robot_server.Protocol.Loop.{loop_step, loop_nil, bind_cong}
use robot_server.Protocol.Delivery.{is_single}

drop_all : (n : ℕ) (xs : List ℕ) → length xs ≤ n → drop n xs ≡ []
drop_all zero [] h = refl
drop_all zero (x ∷ xs) h = absurd (omega arith)
drop_all (suc n) [] h = refl
drop_all (suc n) (x ∷ xs) h = drop_all n xs (omega arith)

-- An address either keeps its byte in a copy, or gets one that does not depend on the memory.
fill_hit :
    (m : Mem) (off : ℕ) (xs : List ℕ) (a : ℕ)
    → (fill m off xs a ≡ m a) ⊎ ((k : Mem) → fill k off xs a ≡ fill m off xs a)
fill_hit m off [] a = inl refl
fill_hit m off (x ∷ xs) a = elim (Bool-cases (a == off)) [
  | inl e ↦ inr (λ k. rw e refl)
  | inr e ↦ rw e (fill_hit m (suc off) xs a)
]

-- The same packet on top of itself.
pub fill_twice : (m : Mem) (off : ℕ) (xs : List ℕ) → fill (fill m off xs) off xs ≡ fill m off xs
fill_twice m off xs =
    fun_ext (λ a. elim (fill_hit (fill m off xs) off xs a) [ inl e ↦ e | inr same ↦ sym (same m) ])

plain_parts :
    {a b c : Bool} → a ≡ true → (not a || not b && not c) ≡ true → (b ≡ false) × (c ≡ false)
plain_parts {a} {b} {c} h e = ground arith

-- A single command is neither 0 nor in the class 0x40.
is_plain : ℕ → Bool
is_plain cmd = not (is_single cmd) || not (cmd == 0) && not (bit_and cmd 0xF0 == 0x40)

all_plain : all_below 255 is_plain ≡ true
unfolding all_below is_plain check_phone_command
all_plain = refl

single_number :
    (cmd : ℕ) → is_single cmd ≡ true → cmd < 255 → (1 ≤ cmd) × ((bit_and cmd 0xF0 == 0x40) ≡ false)
unfolding is_plain
single_number cmd single small =
    let plain = all_below_lem 255 is_plain cmd all_plain small in
    let (positive, class) = plain_parts single plain in ground arith

module _ (h : Host) where
  -- The client's frame with the piece `input`.
  abbrev pub framed : List ℕ → World h → World h
  framed input w = record w { client = record w.client { packet = fill w.client.packet 0 input } }

  -- A piece that fits into the frame is parsed in one round, whatever it holds.
  pub one_round :
      (c : ℕ) (cs : List ℕ) (w : World h)
      → w.client.index ≡ 0
      → length cs < 1024
      → apollo_parse_packet h (c ∷ cs) w
        ≡ (dispatch h (suc (length cs)) 0 (framed (c ∷ cs) w) >>= λ r. ok ([], r.1))
  unfolding apollo_parse_packet
  one_round c cs w e small =
      ap (λ i. parse_loop h (suc (length cs)) (c ∷ cs) (if ltb 1024 i then 0 else i) w) e
      ∙ loop_step h (length cs) (c ∷ cs) 0 w c cs (take_all 1024 (c ∷ cs) (omega arith))
      ∙ bind_cong (dispatch h (suc (length cs)) 0 (framed (c ∷ cs) w))
          (λ r. rw (drop_all 1024 (c ∷ cs) (omega arith)) (loop_nil h (length cs) r.0 r.1))

  pub dispatch_command :
      (nbytes block_index : ℕ) (w : World h)
      → w.client.packet 0 ≡ 0x43
      → dispatch h nbytes block_index w
        ≡ (phone_command_packet h w.client.packet nbytes w >>= λ r. ok (block_index, r.1))
  unfolding dispatch
  dispatch_command nbytes block_index w e = simp e refl

  pub dispatch_heart :
      (nbytes block_index : ℕ) (w : World h)
      → w.client.packet 0 ≡ 0x48
      → dispatch h nbytes block_index w ≡ (
          device_heart_packet h w.client.packet nbytes (λ a. 0) w >>= λ r.
          ok (block_index, heart_answer h r.0 r.1 r.2))
  unfolding dispatch
  dispatch_heart nbytes block_index w e = simp e refl

  pub dispatch_phone :
      (nbytes block_index : ℕ) (w : World h)
      → w.client.packet 0 ≡ 0x50
      → dispatch h nbytes block_index w ≡ (
          phone_header_packet h w.client.packet nbytes w >>= λ r.
          ok (block_index, phone_answer h r.0 r.1))
  unfolding dispatch
  dispatch_phone nbytes block_index w e = simp e refl

  pub report_fall-client : (p : Mem) (w : World h) → (report_fall h p w).client ≡ w.client
  unfolding report_fall
  report_fall-client p w = elim (Bool-cases (bit_and (p 10) 0x0F == 0)) [
    | inl e ↦ rw e refl
    | inr e ↦ rw e refl
  ]

  -- The answer with a single command.
  pub heart_answer-single :
      (cmd : ℕ) (info : Mem) (w : World h)
      → is_single cmd ≡ true
      → cmd < 255
      → heart_answer h (pos cmd) info w
        ≡ apollo_return_packet h (b'C' ∷ b'E' ∷ b'T' ∷ cmd ∷ b'K' ∷ b'%' ∷ []) w
  unfolding heart_answer
  heart_answer-single zero info w single small =
      absurd (omega (arith, (single_number zero single small).0))
  heart_answer-single (suc n) info w single small =
      let (some_command, plain) = single_number (suc n) single small in
      let byte : suc n % 256 ≡ suc n = omega arith in rw (plain, byte) refl
