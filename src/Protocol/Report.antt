-- ===== src/Protocol/Report.antt =====
-- The state that a device reports in its heartbeat, from its connection to that of the phone.
use robot_server.Common.{
  ℕ, suc, ◌<◌, ◌≡◌, refl, ap, ◌∙◌, none, some, List, [], ◌∷◌, ◌++◌, arith, length, le→leb,
}
use robot_server.Common.Int.{pos}
use robot_server.Common.Bytes.{Mem, slice}
use robot_server.Common.Outcome.{ok}
use robot_server.Decimal.{print_nat, print_int, atoi}
use robot_server.Decimal.Laws.{length-print_id}
use robot_server.Util.Hex.{hextostring}
use robot_server.Util.Paths.{codes}
use robot_server.Redis.Service.{IsStore}
use robot_server.Redis.Keys.{after_set, get_value_some}
use robot_server.Redis.Words.{eq_text_refl}
use robot_server.Host.{Host, World, Client}
use robot_server.Protocol.Phone.{phone_header_packet}
use robot_server.Protocol.Parse.{phone_answer, apollo_parse_packet}
use robot_server.Protocol.Mailbox.{
  device_text, report_text, IsBound, report_word, report_short, reported,
}
use robot_server.Protocol.Arrival.{framed, one_round, dispatch_phone}
use robot_server.Protocol.Answers.{
  sent_to, apollo_return_packet-sent, IsFresh, IsWritten, time_answer, after_heart,
  after_heart-client, beat_empty,
}
use robot_server.Protocol.Passage.{in_frame}

module _ (h : Host) (st : IsStore h.redis) where
  -- Packet `p` comes from the phone of user `uid`.
  pub record IsUser (p : Mem) (uid : ℕ) : Type 0 where
    pub user_id : atoi (hextostring (slice p 1 4)) ≡ ok (pos uid)
    pub small : uid < 100000000

  module _ {s : h.redis.State} {D : Mem} (uid : ℕ) (b : IsBound h st s D (print_nat uid)) where
    value_of-user : st.value_of (reported h st b) (print_nat uid) ≡ some (report_text h st D)
    unfolding after_set
    value_of-user =
        st.set_value (print_nat uid) (report_text h st D) s (print_nat uid) b.word
          (report_word h st b)
        ∙ rw (eq_text_refl (print_nat uid))

    phone_header_reported :
        (p : Mem) (w : World h)
        → IsUser p uid
        → w.redis_state ≡ reported h st b
        → phone_header_packet h p 8 w ≡ ok (some (report_text h st D), w)
    unfolding phone_header_packet print_int
    phone_header_reported p w u state =
        let key = print_nat uid in
        let short = length-print_id uid u.small in
        let held : st.value_of w.redis_state key ≡ some (report_text h st D) =
          ap (λ s. st.value_of s key) state ∙ value_of-user in
        let found =
          get_value_some h.redis st 256 key (report_text h st D) w.redis_state b.word (omega arith)
            held (omega (arith, report_short h st b)) (omega (arith, report_short h st b)) in
        rw (u.user_id, le→leb (suc (length key)) 9 (omega arith), found) refl

    phone_reads :
        (q : List ℕ) (w : World h)
        → IsWritten h
        → IsFresh w.client
        → length q ≡ 7
        → IsUser (in_frame w.client (0x50 ∷ q)) uid
        → w.redis_state ≡ reported h st b
        → apollo_parse_packet h (0x50 ∷ q) w
          ≡ ok ([], sent_to h (codes "RET:" ++ report_text h st D) (framed h (0x50 ∷ q) w))
    unfolding phone_answer
    phone_reads q w written fresh len u state =
        let x = framed h (0x50 ∷ q) w in
        let text = codes "RET:" ++ report_text h st D in
        one_round h 0x50 q w fresh.index (omega arith)
        ∙ rw
            (
              dispatch_phone h (suc (length q)) 0 x refl,
              len,
              phone_header_reported (in_frame w.client (0x50 ∷ q)) x u state,
            )
            (ap (λ r. ok ([], r))
              (apollo_return_packet-sent h text x fresh.output (written x.client.sent text)))

  -- What a device reports is what its user's phone reads: the 32 bytes of a heartbeat, as they
  -- arrive on the connection of the device, are answered with the time, and the 8 bytes of the
  -- phone's next heartbeat, on its own connection, are answered with RET: and exactly the text of
  -- the report, its bytes 9 to 20 in hexadecimal and the time in it, which stays in Redis. No
  -- command waits for the device, which is bound to the user under the number of the phone, below
  -- 100000000; both connections are at the start of their frame with nothing left to send, no
  -- write fails, what the device's frame holds are bytes, and the Redis server stores strings.
  pub report_answered :
      (w : World h) (phone device : Client) (q d : List ℕ) (uid : ℕ)
      → IsWritten h
      → IsFresh phone
      → IsFresh device
      → length q ≡ 7
      → length d ≡ 31
      → IsUser (in_frame phone (0x50 ∷ q)) uid
      → IsBound h st w.redis_state (in_frame device (0x48 ∷ d)) (print_nat uid)
      → st.value_of w.redis_state (device_text h st (in_frame device (0x48 ∷ d))) ≡ none
      → (w₁ : World h) × (w₂ : World h) × (apollo_parse_packet h
            (0x48 ∷ d)
            (record w { client = device })
          ≡ ok ([], w₁))
        × (w₁.client.sent ≡ device.sent ++ (time_answer h device.sent ∷ []))
        × (apollo_parse_packet h (0x50 ∷ q) (record w₁ { client = phone }) ≡ ok ([], w₂))
        × (w₂.client.sent
            ≡ phone.sent ++ ((codes "RET:" ++ report_text h st (in_frame device (0x48 ∷ d))) ∷ []))
        × (w₂.redis_state ≡ w₁.redis_state)
  report_answered w phone device q d uid written fp fd lq ld u b free =
      let D = in_frame device (0x48 ∷ d) in
      let x = record w { client = device } in
      let v = after_heart h D d (reported h st b) x in
      let w₁ = sent_to h (time_answer h device.sent) v in
      let y = record w₁ { client = phone } in
      (
        w₁,
        sent_to h (codes "RET:" ++ report_text h st D) (framed h (0x50 ∷ q) y),
        beat_empty h written st b d ld x fd refl refl free,
        ap (λ c. Client.sent c ++ (time_answer h device.sent ∷ []))
            (after_heart-client h written st b d ld x fd refl refl (reported h st b)),
        phone_reads uid b q y written fp lq u refl,
        refl,
        refl,
      )
