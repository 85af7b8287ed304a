-- ===== src/Protocol/Runs.antt =====
-- Packets on the connections of a phone and a device, and the theorems on their arrival applied.
use robot_server.Common.{
  ℕ, suc, ◌≡◌, refl, ap, sym, none, Bool-cases, inl, inr, List, [], ◌∷◌, ◌++◌, All, arith, length,
  replicate, ◌==◌,
}
use robot_server.Common.Bytes.{Mem, IsByte, fill}
use robot_server.Common.Outcome.{ok, ◌>>=◌}
use robot_server.Decimal.{print_nat, print_fuel}
use robot_server.Util.Hex.{hextostring, high_digit, low_digit, high_hextostring, low_hextostring}
use robot_server.Util.Paths.{codes}
use robot_server.Redis.Examples.{table_server-IsStore}
use robot_server.Host.{World, Client}
use robot_server.Protocol.Parse.{apollo_parse_packet}
use robot_server.Protocol.Mailbox.{device_text, report_text, IsBound}
use robot_server.Protocol.Delivery.{IsOwner}
use robot_server.Protocol.Arrival.{framed}
use robot_server.Protocol.Answers.{command_answer, time_answer}
use robot_server.Protocol.Passage.{in_frame, command_answered, packet_cut}
use robot_server.Protocol.Report.{IsUser, report_answered}
use mathlib.Core.Path.{subst}
use robot_server.Protocol.Examples.{host, bindings, world, user_of, alarm-is_single}

fill-IsByte :
    (m : Mem) (off : ℕ) (xs : List ℕ)
    → ((a : ℕ) → IsByte (m a))
    → All IsByte xs
    → (a : ℕ) → IsByte (fill m off xs a)
fill-IsByte m off [] hm hx a = hm a
fill-IsByte m off (x ∷ xs) hm (hx, hs) a = elim (Bool-cases (a == off)) [
  | inl e ↦ rw e hx
  | inr e ↦ rw e (fill-IsByte m (suc off) xs hm hs a)
]

-- A connection that something was sent on.
abbrev fresh_client : Client
fresh_client = record world.client { sent = codes "RETOK%" ∷ [] }

abbrev command_rest : List ℕ
command_rest = 0x00 ∷ 0x00 ∷ 0x00 ∷ 0x07 ∷ 0x08 ∷ replicate 10 0

abbrev id_rest : List ℕ
id_rest = 0x20 ∷ 0x16 ∷ 0x01 ∷ 0x05 ∷ 0x00 ∷ 0x00 ∷ 0x00 ∷ 0x07 ∷ []

abbrev info_rest : List ℕ
info_rest = 0x30 ∷ replicate 21 0x12

frame-IsOwner :
    IsOwner host table_server-IsStore bindings
      (in_frame world.client (0x43 ∷ command_rest))
      (in_frame fresh_client (0x48 ∷ (id_rest ++ (0x08 ∷ info_rest))))
      7
unfolding print_nat print_fuel hextostring high_digit low_digit high_hextostring low_hextostring
frame-IsOwner = record {
  user_id = user_of (in_frame world.client (0x43 ∷ command_rest)) refl refl refl refl;
  small = omega arith;
  owns = refl;
}

frame-IsBound :
    IsBound host table_server-IsStore bindings
      (in_frame fresh_client (0x48 ∷ (id_rest ++ (0x08 ∷ info_rest))))
      (codes "7")
unfolding hextostring high_digit low_digit high_hextostring low_hextostring
frame-IsBound = record {
  byte =
      fill-IsByte (λ a. 0) 0 (0x48 ∷ (id_rest ++ (0x08 ∷ info_rest))) (λ a. omega arith)
        (omega arith);
  bound = refl;
  word = (omega arith, (refl, tt));
  short = omega arith;
  other = λ e. (let l : 1 ≡ 16 = ap length e in omega arith);
  other_key = λ e. (let l : 1 ≡ 18 = ap length e in omega arith);
}

command_answered_example :
    (w₁ : World host) × (w₂ : World host) × (w₃ : World host) × (apollo_parse_packet host
        (0x43 ∷ command_rest)
        (record world { client = world.client })
      ≡ ok ([], w₁))
    × (w₁.client.sent ≡ [])
    × (apollo_parse_packet host
          (0x48 ∷ (id_rest ++ (0x08 ∷ info_rest)))
          (record w₁ { client = fresh_client })
        ≡ ok ([], w₂))
    × (w₂.client.sent ≡ (codes "RETOK%" ∷ []) ++ (command_answer 0x08 ∷ []))
    × (apollo_parse_packet host (0x48 ∷ (id_rest ++ (0x08 ∷ info_rest))) w₂ ≡ ok ([], w₃))
    × (w₃.client.sent ≡ w₂.client.sent ++ (time_answer host w₂.client.sent ∷ []))
command_answered_example =
    command_answered host table_server-IsStore world world.client fresh_client command_rest
      (id_rest ++ (0x08 ∷ info_rest)) 7 (codes "7") (λ sent out. refl)
      (record { index = refl; output = refl }) (record { index = refl; output = refl }) refl refl
      frame-IsOwner frame-IsBound alarm-is_single (omega arith)

packet_cut_example :
    (apollo_parse_packet host (0x48 ∷ id_rest) world >>= λ r.
    apollo_parse_packet host (0x08 ∷ info_rest) r.1)
    ≡ ok ([], framed host (0x08 ∷ info_rest) (framed host (0x48 ∷ id_rest) world))
packet_cut_example =
    packet_cut host 0x48 32 0x08 id_rest info_rest world refl (inl (refl, refl)) refl (omega arith)

abbrev beat_rest : List ℕ
beat_rest = 0x00 ∷ 0x00 ∷ 0x00 ∷ 0x07 ∷ 0x00 ∷ 0x00 ∷ 0x00 ∷ []

frame-IsUser : IsUser host table_server-IsStore (in_frame world.client (0x50 ∷ beat_rest)) 7
frame-IsUser = record {
  user_id = user_of (in_frame world.client (0x50 ∷ beat_rest)) refl refl refl refl;
  small = omega arith;
}

print_nat-user : print_nat 7 ≡ codes "7"
unfolding print_nat print_fuel
print_nat-user = refl

no_command :
    bindings (
      device_text host table_server-IsStore
        (in_frame fresh_client (0x48 ∷ (id_rest ++ (0x08 ∷ info_rest)))))
    ≡ none
unfolding hextostring high_digit low_digit high_hextostring low_hextostring
no_command = refl

report_answered_example :
    (w₁ : World host) × (w₂ : World host) × (apollo_parse_packet host
        (0x48 ∷ (id_rest ++ (0x08 ∷ info_rest)))
        (record world { client = fresh_client })
      ≡ ok ([], w₁))
    × (w₁.client.sent ≡ (codes "RETOK%" ∷ []) ++ (time_answer host (codes "RETOK%" ∷ []) ∷ []))
    × (apollo_parse_packet host (0x50 ∷ beat_rest) (record w₁ { client = world.client })
        ≡ ok ([], w₂))
    × (w₂.client.sent
        ≡ []
          ++ ((codes "RET:"
                ++ report_text host table_server-IsStore
                    (in_frame fresh_client (0x48 ∷ (id_rest ++ (0x08 ∷ info_rest)))))
              ∷ []))
    × (w₂.redis_state ≡ w₁.redis_state)
report_answered_example =
    report_answered host table_server-IsStore world world.client fresh_client beat_rest
      (id_rest ++ (0x08 ∷ info_rest)) 7 (λ sent out. refl) (record { index = refl; output = refl })
      (record { index = refl; output = refl }) refl refl frame-IsUser
      (subst
        (IsBound host table_server-IsStore bindings
          (in_frame fresh_client (0x48 ∷ (id_rest ++ (0x08 ∷ info_rest)))))
        (sym print_nat-user) frame-IsBound)
      no_command
