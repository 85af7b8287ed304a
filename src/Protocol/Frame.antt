-- ===== src/Protocol/Frame.antt =====
-- The frame of a client has 1024 bytes, and what apolloParsePacket reads from the connection stays within
-- it.
use robot_server.Common.{
  ℕ, zero, suc, ◌+◌, ◌-◌, ◌≤◌, ◌≡◌, refl, ◌∙◌, sym, Bool, ◌&&◌, not, List, [], ◌∷◌, arith, length,
  take, drop, length-take, leb, ltb, le→leb, ◌==◌, if◌then◌else◌, Bool-cases, inl, inr,
}
use robot_server.Common.Bytes.{fill}
use robot_server.Common.Outcome.{
  Outcome, ok, ◌>>=◌, ◌>>◌, check, OnOk, on_ok, on_fault, OnOk-bind, OnOk-all, OnOk-if,
}
use robot_server.Common.Int.{pos, eq_ℤ, ◌+ℤ◌, signed_char}
use robot_server.Wire.{
  hdr_heart_packet_device, hdr_heart_packet_phone, hdr_command_packet, hdr_location_data,
  hdr_add_device, hdr_operator_user_info, hdr_base_station_device, hdr_block_data_recv,
  hdr_block_data_send, hdr_info_return, len_block_packet, len_header_length,
}
use robot_server.Syner.{data_length}
use robot_server.Host.{Host, World}
use robot_server.Protocol.Blocks.{reached, clear_packet, set_index, upload_block, block_data_recv}
use robot_server.Protocol.Parse.{dispatch, parse_loop, apollo_parse_packet}
use robot_server.Protocol.Loop.{loop_step, loop_stop}

bind_cong_on :
    {A B : Type 0} {P : A → Type 0} (x : Outcome A) {f g : A → Outcome B}
    → OnOk P x
    → ((a : A) → P a → f a ≡ g a)
    → (x >>= f) ≡ (x >>= g)
bind_cong_on _ (on_ok a p) h = h a p
bind_cong_on _ on_fault h = refl

module _ (h : Host) where
  -- The result of a handler is an index in the frame.
  abbrev InFrame : ℕ × World h → Type 0
  InFrame r = r.0 ≤ 1024

  module _ (nbytes block_index : ℕ) (w : World h) (fits : block_index + nbytes ≤ 1024) where
    abbrev is_last : Bool
    is_last = eq_ℤ (signed_char (w.client.packet 13) +ℤ pos 1) (signed_char (w.client.packet 29))

    upload_block-InFrame : OnOk InFrame (upload_block h nbytes block_index w)
    unfolding upload_block
    upload_block-InFrame =
        OnOk-if (block_index + nbytes == len_block_packet && not is_last) _ _
          (OnOk-all _ _ (λ w'.
            OnOk-all (clear_packet h 1028 w') _
              (λ w''. on_ok (0, set_index h 0 w'') (omega arith))))
          (on_ok _ fits)

    block_data_recv-InFrame : OnOk InFrame (block_data_recv h nbytes block_index w)
    unfolding block_data_recv
    block_data_recv-InFrame =
        OnOk-bind (upload_block h nbytes block_index w) _ upload_block-InFrame (λ r small.
          OnOk-if (is_last && reached r.0 (data_length w.client.packet +ℤ pos len_header_length)) _
            _ (OnOk-all _ _ (λ w'. on_ok _ small)) (on_ok _ small))

    dispatch-InFrame : OnOk InFrame (dispatch h nbytes block_index w)
    unfolding dispatch
    dispatch-InFrame =
        let small : block_index ≤ 1024 = omega arith in
        let header = w.client.packet 0 in
        OnOk-if (header == hdr_heart_packet_device) _ _ (OnOk-all _ _ (λ r. on_ok _ small)) (
          OnOk-if (header == hdr_heart_packet_phone) _ _ (OnOk-all _ _ (λ r. on_ok _ small)) (
            OnOk-if (header == hdr_command_packet) _ _ (OnOk-all _ _ (λ r. on_ok _ small)) (
              OnOk-if (header == hdr_location_data) _ _ (OnOk-all _ _ (λ r. on_ok _ small)) (
                OnOk-if (header == hdr_info_return) _ _ (on_ok _ small) (
                  OnOk-if (header == hdr_add_device) _ _ (on_ok _ small) (
                    OnOk-if (header == hdr_operator_user_info) _ _
                      (OnOk-all _ _ (λ r. on_ok _ small))
                      (OnOk-if (header == hdr_base_station_device) _ _ (on_ok _ small) (
                        OnOk-if (header == hdr_block_data_recv) _ _ block_data_recv-InFrame (
                          OnOk-if (header == hdr_block_data_send) _ _
                            (OnOk-all _ _ (λ r. on_ok _ small)) (on_ok _ small))))))))))

  -- Specification: the loop of apolloParsePacket with the calls of evbuffer_remove checked. `room` is the
  -- size that evbuffer_remove is told, an unsigned difference, and what it stores lies in the frame.
  abbrev pub guarded_loop : ℕ → List ℕ → ℕ → World h → Outcome (List ℕ × World h)
  guarded_loop zero input block_index w = ok (input, w)
  guarded_loop (suc fuel) input block_index w =
      check (leb block_index 1024) >> elim (take (1024 - block_index) input) [
        | [] ↦ ok (input, w)
        | c ∷ cs ↦
            check (leb (block_index + length (c ∷ cs)) 1024)
            >> (dispatch h (suc (length cs)) block_index (record w {
              client = record w.client { packet = fill w.client.packet block_index (c ∷ cs) };
            })
                >>= λ r. guarded_loop fuel (drop (1024 - block_index) input) r.0 r.1)
      ]

  guarded_same :
      (fuel : ℕ) (input : List ℕ) (block_index : ℕ) (w : World h)
      → block_index ≤ 1024
      → guarded_loop fuel input block_index w ≡ parse_loop h fuel input block_index w
  unfolding parse_loop
  guarded_same zero input block_index w small = refl
  guarded_same (suc fuel) input block_index w small =
      elim (take (1024 - block_index) input)
          as (λ got.
            take (1024 - block_index) input ≡ got
            → guarded_loop (suc fuel) input block_index w
              ≡ parse_loop h (suc fuel) input block_index w) [
                | [] ↦ λ e.
                    rw (le→leb block_index 1024 small, e) refl
                    ∙ sym (loop_stop h (suc fuel) input block_index w e)
                | c ∷ cs ↦ λ e.
                    let count : suc (length cs) ≡ length (take (1024 - block_index) input) =
                      rw e refl in
                    let fits : block_index + suc (length cs) ≤ 1024 =
                      omega (arith, count, length-take (1024 - block_index) input) in
                    rw
                      (
                        le→leb block_index 1024 small,
                        e,
                        le→leb (block_index + suc (length cs)) 1024 fits,
                      )
                      (bind_cong_on _ (dispatch-InFrame (suc (length cs)) block_index _ fits)
                        (λ r inside.
                          guarded_same fuel (drop (1024 - block_index) input) r.0 r.1 inside))
                    ∙ sym (loop_step h fuel input block_index w c cs e)
              ]
        refl

  -- What is read from the connection never overflows the frame: apolloParsePacket, whatever the
  -- index of the frame and the bytes that arrive, comes to the same with a check before each call
  -- of evbuffer_remove, that the index is in the frame and that the bytes which are stored from
  -- there on are. The handlers' own accesses are not among those that are checked: a full block
  -- clears 1028 bytes from the start of the frame, of which the last four are the index behind
  -- it.
  pub apollo_parse_packet-guarded_loop :
      (input : List ℕ) (w : World h)
      → apollo_parse_packet h input w
        ≡ guarded_loop
            (length input)
            input
            (if ltb 1024 w.client.index then 0 else w.client.index)
            w
  unfolding apollo_parse_packet
  apollo_parse_packet-guarded_loop input w = elim (Bool-cases (ltb 1024 w.client.index)) [
    | inl e ↦ rw e (sym (guarded_same (length input) input 0 w (omega arith)))
    | inr e ↦
        let small : w.client.index ≤ 1024 = ground arith in
        rw e (sym (guarded_same (length input) input w.client.index w small))
  ]
