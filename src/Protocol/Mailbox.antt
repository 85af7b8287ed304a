-- ===== src/Protocol/Mailbox.antt =====
-- A command that a phone sends is kept in Redis under the id of the device bound to the phone, and
-- the device's next heartbeat takes it out.
use robot_server.Common.{
  ℕ, zero, suc, ◌≤◌, ◌<◌, ◌≡◌, ◌≢◌, refl, ◌∙◌, true, false, none, some, List, ◌++◌, arith, length,
  length-append, All, le→leb, lt→ltb, ge→ltb,
}
use robot_server.Common.Int.{pos}
use robot_server.Common.Bytes.{Mem, IsByte, slice}
use robot_server.Common.Outcome.{ok}
use robot_server.Decimal.{print_nat, print_int, int_at}
use robot_server.Decimal.Laws.{atoi-print_nat, length-print_nat}
use robot_server.Util.Hex.{hextostring}
use robot_server.Util.Hex.RoundTrip.{hextostring_lem}
use robot_server.Util.Paths.{codes}
use robot_server.Block.{eq_text}
use robot_server.Redis.{del_redis_key}
use robot_server.Redis.Service.{IsStore, IsWord}
use robot_server.Redis.Keys.{
  after_set, after_del, set_key_toredis_lem, get_value_some, get_value_none, del_redis_key_lem,
}
use robot_server.Redis.Words.{
  eq_text_refl, eq_text-ne, eq_text-length, IsWord-append, IsWord-hextostring, IsWord-int_at,
}
use robot_server.Host.{Host, World}
use robot_server.Protocol.Device.{
  device_heart_packet, heart_for, after_report, pop_command, report_fall,
}

module _ (h : Host) (st : IsStore h.redis) where
  -- The texts in the packets of a device.
  abbrev pub device_text : Mem → List ℕ
  device_text d = hextostring (slice d 1 8)

  abbrev pub report_text : Mem → List ℕ
  report_text d =
      codes "I_" ++ (hextostring (slice d 9 12) ++ (codes "_" ++ print_int (int_at d 24)))

  -- Device `d` is bound to the user whose reports stand under `user`.
  pub record IsBound (s : h.redis.State) (d : Mem) (user : List ℕ) : Type 0 where
    pub byte : (a : ℕ) → IsByte (d a)
    pub bound : st.value_of s (codes "R_" ++ device_text d) ≡ some user
    pub word : IsWord user
    pub short : length user ≤ 200
    pub other : user ≢ device_text d
    pub other_key : user ≢ codes "R_" ++ device_text d

  module _ {s : h.redis.State} {d : Mem} {user : List ℕ} (b : IsBound s d user) where
    pub All-IsByte : (off n : ℕ) → All IsByte (slice d off n)
    All-IsByte off zero = tt
    All-IsByte off (suc n) = (b.byte off, All-IsByte (suc off) n)

    pub length-device_text : length (device_text d) ≡ 16
    length-device_text = (hextostring_lem (slice d 1 8) (All-IsByte 1 8)).1

    pub device_word : IsWord (device_text d)
    device_word = IsWord-hextostring (slice d 1 8) (All-IsByte 1 8) (omega arith)

    key_word : IsWord (codes "R_" ++ device_text d)
    key_word =
        IsWord-append (codes "R_") (device_text d) (omega arith, (refl, (refl, tt))) device_word

    pub report_word : IsWord (report_text d)
    report_word =
        let info = hextostring (slice d 9 12) in
        let time = print_int (int_at d 24) in
        let info_word = IsWord-hextostring (slice d 9 12) (All-IsByte 9 12) (omega arith) in
        let time_word = (IsWord-int_at d 24 b.byte).0 in
        IsWord-append (codes "I_") (info ++ (codes "_" ++ time)) (omega arith, (refl, (refl, tt)))
          (IsWord-append info (codes "_" ++ time) info_word
            (IsWord-append (codes "_") time (omega arith, (refl, tt)) time_word))

    pub report_short : length (report_text d) ≤ 38
    report_short =
        let info = hextostring (slice d 9 12) in
        let time = print_int (int_at d 24) in
        omega (
          arith,
          length-append info (codes "_" ++ time),
          (hextostring_lem (slice d 9 12) (All-IsByte 9 12)).1,
          (IsWord-int_at d 24 b.byte).1,
        )

    -- The state after the report of a heartbeat.
    abbrev pub reported : h.redis.State
    reported = after_set h.redis st user (report_text d) s

    -- A report leaves the command of the device as it was.
    pub value_of-reported : st.value_of reported (device_text d) ≡ st.value_of s (device_text d)
    unfolding after_set
    value_of-reported =
        st.set_value user (report_text d) s (device_text d) b.word report_word
        ∙ rw (eq_text-ne user (device_text d) b.other)

    -- A heartbeat up to the lookup of the command.
    pub heart_reported :
        (info : Mem) (w : World h)
        → w.redis_state ≡ s
        → device_heart_packet h d 32 info w
          ≡ after_report h (device_text d) info (report_fall h d w) (true, reported)
    unfolding device_heart_packet heart_for
    heart_reported info w e =
        let found =
          get_value_some h.redis st 256 (codes "R_" ++ device_text d) user s key_word
            (omega (arith, length-device_text)) b.bound (omega (arith, b.short))
            (omega (arith, b.short)) in
        rw
          (
            e,
            le→leb (suc (length (codes "R_" ++ device_text d))) 22
                (omega (arith, length-device_text)),
            found,
            le→leb (suc (length (report_text d))) 256 (omega (arith, report_short)),
            set_key_toredis_lem h.redis st user (report_text d) s b.word report_word
                (omega (arith, report_short, b.short)),
          )
          refl

    -- No command.
    pub heart_empty :
        (info : Mem) (w : World h)
        → w.redis_state ≡ s
        → st.value_of s (device_text d) ≡ none
        → device_heart_packet h d 32 info w
          ≡ ok (pos 0, info, record (report_fall h d w) { redis_state = reported })
    unfolding after_report pop_command
    heart_empty info w e free =
        heart_reported info w e
        ∙ rw (
            get_value_none h.redis st 256 (device_text d) reported device_word
              (omega (arith, length-device_text)) (value_of-reported ∙ free))

    -- The command `v`, which the device takes.
    pub heart_found :
        (info : Mem) (w : World h) (v : List ℕ)
        → w.redis_state ≡ s
        → st.value_of s (device_text d) ≡ some v
        → length v ≤ 254
        → device_heart_packet h d 32 info w
          ≡ pop_command h (device_text d) info (report_fall h d w) (some v, reported)
    unfolding after_report
    heart_found info w v e held small =
        heart_reported info w e
        ∙ rw (
            get_value_some h.redis st 256 (device_text d) v reported device_word
              (omega (arith, length-device_text)) (value_of-reported ∙ held) (omega arith) small)

    abbrev pub taken : h.redis.State
    taken = after_del h.redis st (device_text d) reported

    pub del_command : del_redis_key h.redis (device_text d) reported ≡ ok taken
    del_command =
        del_redis_key_lem h.redis st (device_text d) reported (omega (arith, length-device_text))

    -- Nothing is left behind.
    pub value_of-taken : st.value_of taken (device_text d) ≡ none
    unfolding after_del
    value_of-taken =
        st.del_value (device_text d) reported (device_text d) device_word
        ∙ rw (eq_text_refl (device_text d))

    -- A short command is returned as a number.
    pub heart_short :
        (info : Mem) (w : World h) (cmd : ℕ)
        → w.redis_state ≡ s
        → st.value_of s (device_text d) ≡ some (print_nat cmd)
        → cmd < 255
        → device_heart_packet h d 32 info w
          ≡ ok (pos cmd, info, record (report_fall h d w) { redis_state = taken })
    unfolding pop_command
    heart_short info w cmd e held small =
        let short = length-print_nat cmd (omega arith) in
        heart_found info w (print_nat cmd) e held (omega arith)
        ∙ rw (
          lt→ltb (length (print_nat cmd)) 4 (omega arith),
          atoi-print_nat cmd (omega arith),
          del_command,
          ge→ltb 254 cmd (omega arith),
        )

    -- The device stays bound to its user.
    pub IsBound-taken : IsBound taken d user
    unfolding after_set after_del
    IsBound-taken =
        let id = device_text d in
        let apart : eq_text id (codes "R_" ++ id) ≡ false =
          eq_text-length id (codes "R_" ++ id) (omega (arith, length-device_text)) in
        record {
          byte = b.byte;
          bound =
              st.del_value id reported (codes "R_" ++ id) device_word
              ∙ rw apart (
                  st.set_value user (report_text d) s (codes "R_" ++ id) b.word report_word
                  ∙ rw (eq_text-ne user (codes "R_" ++ id) b.other_key) b.bound);
          word = b.word;
          short = b.short;
          other = b.other;
          other_key = b.other_key;
        }

    -- The device is bound to the same user behind the command.
    pub IsBound-after_set :
        (v : List ℕ) → IsWord v → IsBound (after_set h.redis st (device_text d) v s) d user
    unfolding after_set
    IsBound-after_set v hv =
        let id = device_text d in
        let len = length-device_text in
        let apart : eq_text id (codes "R_" ++ id) ≡ false =
          eq_text-length id (codes "R_" ++ id) (omega arith) in
        record {
          byte = b.byte;
          bound = st.set_value id v s (codes "R_" ++ id) (device_word) hv ∙ rw apart b.bound;
          word = b.word;
          short = b.short;
          other = b.other;
          other_key = b.other_key;
        }

    pub value_of-after_set :
        (v : List ℕ)
        → IsWord v
        → st.value_of (after_set h.redis st (device_text d) v s) (device_text d) ≡ some v
    unfolding after_set
    value_of-after_set v hv =
        let id = device_text d in st.set_value id v s id (device_word) hv ∙ rw (eq_text_refl id)
