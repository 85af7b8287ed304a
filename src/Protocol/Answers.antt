-- ===== src/Protocol/Answers.antt =====
-- The command packet of a phone and the heartbeats of its device as they arrive on their connections,
-- and what goes back to the device.
use robot_server.Common.{
  ℕ, suc, ◌<◌, ◌≡◌, refl, ap, ◌∙◌, true, false, some, none, List, [], ◌∷◌, ◌++◌, arith, length,
}
use robot_server.Common.Int.{ℤ, pos}
use robot_server.Common.Bytes.{Mem, fill}
use robot_server.Common.Outcome.{ok}
use robot_server.Decimal.{print_nat}
use robot_server.Util.Paths.{codes}
use robot_server.Redis.Service.{IsStore}
use robot_server.Host.{Host, World, Client, write_time_header, apollo_return_packet}
use robot_server.Protocol.Device.{device_heart_packet, report_fall}
use robot_server.Protocol.Parse.{heart_answer, apollo_parse_packet}
use robot_server.Protocol.Mailbox.{device_text, IsBound, heart_short, heart_empty, taken, reported}
use robot_server.Protocol.Delivery.{is_single}
use robot_server.Protocol.Arrival.{
  framed, one_round, dispatch_heart, report_fall-client, heart_answer-single,
}

-- A connection with no part of a packet in its frame and nothing left to send.
pub record IsFresh (c : Client) : Type 0 where
  pub index : c.index ≡ 0
  pub output : c.output_buffer ≡ []

-- The answer with a command.
abbrev pub command_answer : ℕ → List ℕ
command_answer cmd = b'C' ∷ b'E' ∷ b'T' ∷ cmd ∷ b'K' ∷ b'%' ∷ []

module _ (h : Host) where
  -- A world in which the client was sent one text more.
  abbrev pub sent_to : List ℕ → World h → World h
  sent_to buffer w = record w {
    client = record w.client { output_buffer = []; sent = w.client.sent ++ (buffer ∷ []) };
  }

  pub apollo_return_packet-sent :
      (buffer : List ℕ) (w : World h)
      → w.client.output_buffer ≡ []
      → h.write_fails w.client.sent buffer ≡ false
      → apollo_return_packet h buffer w ≡ sent_to buffer w
  unfolding apollo_return_packet
  apollo_return_packet-sent buffer w e written = simp (e, written) refl

  heart_arrives :
      (d : List ℕ) (w w' : World h) (result : ℤ) (info : Mem)
      → w.client.index ≡ 0
      → length d ≡ 31
      → device_heart_packet h
          (fill w.client.packet 0 (0x48 ∷ d))
          32
          (λ a. 0)
          (framed h (0x48 ∷ d) w)
        ≡ ok (result, info, w')
      → apollo_parse_packet h (0x48 ∷ d) w ≡ ok ([], heart_answer h result info w')
  heart_arrives d w w' result info e len answer =
      one_round h 0x48 d w e (omega arith)
      ∙ rw (dispatch_heart h (suc (length d)) 0 (framed h (0x48 ∷ d) w) refl, len, answer) refl

  heart_answer-none :
      (info : Mem) (w : World h)
      → heart_answer h (pos 0) info w
        ≡ apollo_return_packet h
            (codes "RETOK" ++ (0 ∷ (write_time_header (h.localtime w.client.sent) ++ (0 ∷ []))))
            w
  unfolding heart_answer
  heart_answer-none info w = refl

  -- The answer without one.
  abbrev pub time_answer : List (List ℕ) → List ℕ
  time_answer sent = codes "RETOK" ++ (0 ∷ (write_time_header (h.localtime sent) ++ (0 ∷ [])))

  -- No write fails.
  abbrev pub IsWritten : Type 0
  IsWritten = (sent : List (List ℕ)) (out : List ℕ) → h.write_fails sent out ≡ false

  -- The world behind the handler of a heartbeat that came in `w` from a device with packet `p`.
  abbrev pub after_heart : Mem → List ℕ → h.redis.State → World h → World h
  after_heart p d s w = record (report_fall h p (framed h (0x48 ∷ d) w)) { redis_state = s }

  module _ (written : IsWritten) (st : IsStore h.redis) {s : h.redis.State} {p : Mem}
      {user : List ℕ} (b : IsBound h st s p user) (d : List ℕ) (len : length d ≡ 31) (w : World h)
      (fresh : IsFresh w.client) (state : w.redis_state ≡ s)
      (frame : fill w.client.packet 0 (0x48 ∷ d) ≡ p) where
    pub after_heart-client :
        (s' : h.redis.State) → (after_heart p d s' w).client ≡ (framed h (0x48 ∷ d) w).client
    unfolding report_fall
    after_heart-client s' = report_fall-client h p (framed h (0x48 ∷ d) w)

    after_heart-sent :
        (buffer : List ℕ) (s' : h.redis.State)
        → apollo_return_packet h buffer (after_heart p d s' w)
          ≡ sent_to buffer (after_heart p d s' w)
    after_heart-sent buffer s' =
        let v = after_heart p d s' w in
        apollo_return_packet-sent buffer v
          (ap Client.output_buffer (after_heart-client s') ∙ fresh.output)
          (written v.client.sent buffer)

    pub beat_single :
        (cmd : ℕ)
        → st.value_of s (device_text h st p) ≡ some (print_nat cmd)
        → is_single cmd ≡ true
        → cmd < 255
        → apollo_parse_packet h (0x48 ∷ d) w
          ≡ ok ([], sent_to (command_answer cmd) (after_heart p d (taken h st b) w))
    beat_single cmd held single small =
        let v = after_heart p d (taken h st b) w in
        heart_arrives d w v (pos cmd) (λ a. 0) fresh.index len
          (ap (λ m. device_heart_packet h m 32 (λ a. 0) (framed h (0x48 ∷ d) w)) frame
            ∙ heart_short h st b (λ a. 0) (framed h (0x48 ∷ d) w) cmd state held small)
        ∙ ap (λ r. ok ([], r))
            (heart_answer-single h cmd (λ a. 0) v single small
              ∙ after_heart-sent (command_answer cmd) (taken h st b))

    pub beat_empty :
        st.value_of s (device_text h st p) ≡ none
        → apollo_parse_packet h (0x48 ∷ d) w
          ≡ ok ([], sent_to (time_answer w.client.sent) (after_heart p d (reported h st b) w))
    beat_empty free =
        let v = after_heart p d (reported h st b) w in
        heart_arrives d w v (pos 0) (λ a. 0) fresh.index len
          (ap (λ m. device_heart_packet h m 32 (λ a. 0) (framed h (0x48 ∷ d) w)) frame
            ∙ heart_empty h st b (λ a. 0) (framed h (0x48 ∷ d) w) state free)
        ∙ ap (λ r. ok ([], r))
            (heart_answer-none (λ a. 0) v
              ∙ after_heart-sent (time_answer v.client.sent) (reported h st b)
              ∙ ap (λ c. sent_to (time_answer c.sent) v) (after_heart-client (reported h st b)))
