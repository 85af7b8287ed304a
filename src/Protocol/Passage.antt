-- ===== src/Protocol/Passage.antt =====
-- A command from the connection of a phone to the connection of a device, and pieces of packets.
use robot_server.Common.{
  ℕ, suc, ◌<◌, ◌≤◌, ◌≡◌, ◌≢◌, refl, ap, ◌∙◌, ◌⊎◌, inl, inr, true, List, [], ◌∷◌, ◌++◌, arith,
  length, length-append, ne→==,
}
use robot_server.Common.Bytes.{Mem, fill}
use robot_server.Common.Outcome.{ok, ◌>>=◌}
use robot_server.Decimal.{print_nat}
use robot_server.Redis.Service.{IsStore}
use robot_server.Redis.Words.{IsWord-print_nat}
use robot_server.Host.{Host, World, Client}
use robot_server.Protocol.Phone.{phone_command_packet, phone_header_packet}
use robot_server.Protocol.Device.{device_heart_packet}
use robot_server.Protocol.Parse.{heart_answer, phone_answer, dispatch, apollo_parse_packet}
use robot_server.Protocol.Mailbox.{
  IsBound, IsBound-taken, IsBound-after_set, value_of-after_set, value_of-taken, taken, reported,
}
use robot_server.Protocol.Delivery.{is_single, IsOwner, phone_single, waiting}
use robot_server.Protocol.Arrival.{
  fill_twice, framed, one_round, dispatch_command, dispatch_heart, dispatch_phone,
}
use robot_server.Protocol.Answers.{
  sent_to, IsFresh, IsWritten, command_answer, time_answer, after_heart, after_heart-client,
  beat_single, beat_empty,
}

-- The frame of a client behind a piece of input.
abbrev pub in_frame : Client → List ℕ → Mem
in_frame c input = fill c.packet 0 input

module _ (h : Host) where
  command_arrives :
      (p : List ℕ) (w : World h) (st : IsStore h.redis) (d : Mem) (uid : ℕ) (user : List ℕ)
      (o : IsOwner h st w.redis_state (in_frame w.client (0x43 ∷ p)) d uid)
      (b : IsBound h st w.redis_state d user)
      → IsFresh w.client
      → length p ≡ 15
      → is_single (in_frame w.client (0x43 ∷ p) 5) ≡ true
      → in_frame w.client (0x43 ∷ p) 5 < 255
      → apollo_parse_packet h (0x43 ∷ p) w
        ≡ ok (
          [],
          record (framed h (0x43 ∷ p) w) {
            redis_state = waiting h st o b (print_nat (in_frame w.client (0x43 ∷ p) 5));
          },
        )
  command_arrives p w st d uid user o b fresh len single small =
      one_round h 0x43 p w fresh.index (omega arith)
      ∙ rw
          (
            dispatch_command h (suc (length p)) 0 (framed h (0x43 ∷ p) w) refl,
            len,
            phone_single h st o b (framed h (0x43 ∷ p) w) refl single (omega arith),
          )
          refl

  -- A phone's single command, below 255, goes from its connection to that of its device, and only
  -- once: the 16 bytes of the command packet, as they arrive, are taken, with no answer to the
  -- phone; the 32 bytes of the next heartbeat, on the connection of the device that is bound to
  -- the phone, are answered with exactly the text that holds the command, and the same heartbeat
  -- behind it with exactly the text that holds the time. The command is one that is stored as its
  -- number and reads no position. Both connections are at the start of their frame with nothing
  -- left to send, no write fails, what the device's frame holds are bytes, the Redis server
  -- stores strings, and the key of the device's user is one word of at most 200 characters, other
  -- than the two keys of the device.
  pub command_answered :
      (st : IsStore h.redis) (w : World h) (phone device : Client) (p d : List ℕ) (uid : ℕ)
      (user : List ℕ)
      → IsWritten h
      → IsFresh phone
      → IsFresh device
      → length p ≡ 15
      → length d ≡ 31
      → IsOwner h st w.redis_state (in_frame phone (0x43 ∷ p)) (in_frame device (0x48 ∷ d)) uid
      → IsBound h st w.redis_state (in_frame device (0x48 ∷ d)) user
      → is_single (in_frame phone (0x43 ∷ p) 5) ≡ true
      → in_frame phone (0x43 ∷ p) 5 < 255
      → (w₁ : World h) × (w₂ : World h) × (w₃ : World h) × (apollo_parse_packet h
            (0x43 ∷ p)
            (record w { client = phone })
          ≡ ok ([], w₁))
        × (w₁.client.sent ≡ phone.sent)
        × (apollo_parse_packet h (0x48 ∷ d) (record w₁ { client = device }) ≡ ok ([], w₂))
        × (w₂.client.sent ≡ device.sent ++ (command_answer (in_frame phone (0x43 ∷ p) 5) ∷ []))
        × (apollo_parse_packet h (0x48 ∷ d) w₂ ≡ ok ([], w₃))
        × (w₃.client.sent ≡ w₂.client.sent ++ (time_answer h w₂.client.sent ∷ []))
  command_answered st w phone device p d uid user written fp fd lp ld o b single small =
      let cmd = in_frame phone (0x43 ∷ p) 5 in
      let D = in_frame device (0x48 ∷ d) in
      let word = IsWord-print_nat cmd (omega arith) in
      let s₁ = waiting h st o b (print_nat cmd) in
      let b₁ = IsBound-after_set h st b (print_nat cmd) word in
      let b₂ = IsBound-taken h st b₁ in
      let w₁ = record (framed h (0x43 ∷ p) (record w { client = phone })) { redis_state = s₁ } in
      let x = record w₁ { client = device } in
      let v₂ = after_heart h D d (taken h st b₁) x in
      let w₂ = sent_to h (command_answer cmd) v₂ in
      let v₃ = after_heart h D d (reported h st b₂) w₂ in
      let same₂ = after_heart-client h written st b₁ d ld x fd refl refl (taken h st b₁) in
      let frame =
        ap (λ c. fill (Client.packet c) 0 (0x48 ∷ d)) same₂
        ∙ fill_twice device.packet 0 (0x48 ∷ d) in
      let fresh₂ : IsFresh w₂.client = record {
        index = ap Client.index same₂ ∙ fd.index;
        output = refl;
      } in
      let same₃ = after_heart-client h written st b₂ d ld w₂ fresh₂ refl frame (reported h st b₂) in
      (
        w₁,
        w₂,
        sent_to h (time_answer h w₂.client.sent) v₃,
        command_arrives p (record w { client = phone }) st D uid user o b fp lp single small,
        refl,
        beat_single h written st b₁ d ld x fd refl refl cmd
            (value_of-after_set h st b (print_nat cmd) word) single small,
        ap (λ c. Client.sent c ++ (command_answer cmd ∷ [])) same₂,
        beat_empty h written st b₂ d ld w₂ fresh₂ refl frame (value_of-taken h st b₁),
        ap (λ c. Client.sent c ++ (time_answer h w₂.client.sent ∷ [])) same₃,
      )

  -- A piece whose first byte is that of a heartbeat or of a command, and whose length is not.
  abbrev pub IsMisfit : ℕ → ℕ → Type 0
  IsMisfit c n = ((c ≡ 0x48) × (n ≢ 32)) ⊎ (((c ≡ 0x50) × (n ≢ 8)) ⊎ ((c ≡ 0x43) × (n ≢ 16)))

  dispatch_lost :
      (n : ℕ) (w : World h) → IsMisfit (w.client.packet 0) n → dispatch h n 0 w ≡ ok (0, w)
  unfolding device_heart_packet phone_header_packet phone_command_packet heart_answer phone_answer
  dispatch_lost n w (inl (e, wrong)) = dispatch_heart h n 0 w e ∙ simp (ne→== n 32 wrong) refl
  dispatch_lost n w (inr (inl (e, wrong))) = dispatch_phone h n 0 w e ∙ simp (ne→== n 8 wrong) refl
  dispatch_lost n w (inr (inr (e, wrong))) =
      dispatch_command h n 0 w e ∙ simp (ne→== n 16 wrong) refl

  -- A piece whose first byte is no header.
  dispatch_unknown : (n : ℕ) (w : World h) → w.client.packet 0 < 0x41 → dispatch h n 0 w ≡ ok (0, w)
  unfolding dispatch
  dispatch_unknown n w small = ground arith

  -- A piece of a heartbeat or of a command packet.
  pub piece_lost :
      (c : ℕ) (cs : List ℕ) (w : World h)
      → w.client.index ≡ 0
      → length cs < 1024
      → IsMisfit c (suc (length cs)) ⊎ (c < 0x41)
      → apollo_parse_packet h (c ∷ cs) w ≡ ok ([], framed h (c ∷ cs) w)
  piece_lost c cs w e small (inl misfit) =
      one_round h c cs w e small
      ∙ rw (dispatch_lost (suc (length cs)) (framed h (c ∷ cs) w) misfit) refl
  piece_lost c cs w e small (inr unknown) =
      one_round h c cs w e small
      ∙ rw (dispatch_unknown (suc (length cs)) (framed h (c ∷ cs) w) unknown) refl

  -- The header and the length of a heartbeat of a device, of one of a phone, and of a command.
  abbrev pub HasLength : ℕ → ℕ → Type 0
  HasLength c n = ((c ≡ 0x48) × (n ≡ 32)) ⊎ (((c ≡ 0x50) × (n ≡ 8)) ⊎ ((c ≡ 0x43) × (n ≡ 16)))

  HasLength-small : (c n : ℕ) → HasLength c n → n ≤ 32
  HasLength-small c n whole = ground arith

  IsMisfit-piece : (c n k : ℕ) → HasLength c n → k < n → IsMisfit c k
  IsMisfit-piece c n k (inl (e, l)) less = inl (e, λ q. omega arith)
  IsMisfit-piece c n k (inr (inl (e, l))) less = inr (inl (e, λ q. omega arith))
  IsMisfit-piece c n k (inr (inr (e, l))) less = inr (inr (e, λ q. omega arith))

  -- A packet that arrives in two pieces is lost: where a heartbeat of a device, a heartbeat of a
  -- phone or a command packet comes in two pieces, of which the second begins with a byte below
  -- 0x41, each of them is only copied to the start of the frame, and nothing is answered, stored,
  -- started or changed otherwise. The frame was at its start.
  pub packet_cut :
      (c n y : ℕ) (xs ys : List ℕ) (w : World h)
      → w.client.index ≡ 0
      → HasLength c n
      → length ((c ∷ xs) ++ (y ∷ ys)) ≡ n
      → y < 0x41
      → (apollo_parse_packet h (c ∷ xs) w >>= λ r. apollo_parse_packet h (y ∷ ys) r.1)
        ≡ ok ([], framed h (y ∷ ys) (framed h (c ∷ xs) w))
  packet_cut c n y xs ys w e whole len unknown =
      let sum = length-append xs (y ∷ ys) in
      let short : n ≤ 32 = HasLength-small c n whole in
      rw
        (piece_lost c xs w e (omega arith)
          (inl (IsMisfit-piece c n (suc (length xs)) whole (omega arith))))
        (piece_lost y ys (framed h (c ∷ xs) w) e (omega arith) (inr unknown))
