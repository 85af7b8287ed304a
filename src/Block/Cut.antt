-- ===== src/Block/Cut.antt =====
-- A buffer that is made of frames of 1024 bytes, the last one perhaps shorter, is sent frame by
-- frame, and the flag is stored into each frame.
use robot_server.Common.{
  ℕ, zero, suc, ◌+◌, ◌-◌, ◌*◌, ◌≤◌, ◌<◌, ◌≡◌, refl, sym, ap, ◌∙◌, List, [], ◌∷◌, ◌++◌, map, arith,
  length, length-append, length-set, take, drop, set, flatten, take_all, take-append_at,
  drop-append_at, set-append, set_left, drop-drop, lt→leb, le→leb, lt→ltb, ge→ltb,
}
use mathlib.Core.List.{append-nil, append_assoc}
use native.Mathlib.Decide.{dec_lt}
use robot_server.Block.{flag_loop, take_data_packet_flag, send_loop, send_packets}

-- A header of more than 20 bytes leads each frame; only the last may be short.
abbrev pub IsFrames : List (List ℕ) → Type 0
IsFrames [] = Unit
IsFrames (f ∷ []) = (20 < length f) × (length f ≤ 1024)
IsFrames (f ∷ g ∷ fs) = (length f ≡ 1024) × IsFrames (g ∷ fs)

-- The three ways a round goes, where `rest` is still to be sent.
module _ (fuel n : ℕ) (bytes rest : List ℕ) (at_rest : drop n bytes ≡ rest)
    (size : length bytes ≡ n + length rest) where
  send_done : length rest ≡ 0 → send_loop (suc fuel) n bytes ≡ []
  unfolding send_loop
  send_done h = rw (ge→ltb n (length bytes) (omega arith))

  send_last : 0 < length rest → length rest < 1024 → send_loop (suc fuel) n bytes ≡ rest ∷ []
  unfolding send_loop
  send_last h k =
      rw (
        lt→ltb n (length bytes) (omega arith),
        lt→leb 1024 (length bytes - n) (omega arith),
        at_rest,
      )

  send_full :
      1024 ≤ length rest
      → send_loop (suc fuel) n bytes ≡ take 1024 rest ∷ send_loop fuel (n + 1024) bytes
  unfolding send_loop
  send_full h =
      rw (
        lt→ltb n (length bytes) (omega arith),
        le→leb 1024 (length bytes - n) (omega arith),
        at_rest,
      )

send_loop_end : (fuel n : ℕ) (bytes : List ℕ) → length bytes ≤ n → send_loop fuel n bytes ≡ []
unfolding send_loop
send_loop_end zero n bytes h = refl
send_loop_end (suc fuel) n bytes h = rw (ge→ltb n (length bytes) h)

send_loop-frames :
    (fuel n : ℕ) (bytes : List ℕ) (fs : List (List ℕ))
    → IsFrames fs
    → drop n bytes ≡ flatten fs
    → length bytes ≡ n + length (flatten fs)
    → length (flatten fs) ≤ fuel
    → send_loop fuel n bytes ≡ fs
send_loop-frames fuel n bytes [] w at size h = send_loop_end fuel n bytes (omega arith)
send_loop-frames zero n bytes (f ∷ []) w at size h = absurd (omega (arith, length-append f []))
send_loop-frames (suc fuel) n bytes (f ∷ []) (lo, hi) at size h = elim (dec_lt (length f) 1024) [
  | yes short ↦ send_last fuel n bytes f at' size' (omega arith) short
  | no full ↦
      send_full fuel n bytes f at' size' (omega arith)
      ∙ ap (λ x. x ∷ send_loop fuel (n + 1024) bytes) (take_all 1024 f hi)
      ∙ ap (λ x. f ∷ x) (send_loop_end fuel (n + 1024) bytes (omega (arith, size')))
]
  where
    at' : drop n bytes ≡ f
    at' = at ∙ append-nil f

    size' : length bytes ≡ n + length f
    size' = omega (arith, length-append f [])
send_loop-frames zero n bytes (f ∷ g ∷ fs) (l, w) at size h =
    absurd (omega (arith, length-append f (flatten (g ∷ fs))))
send_loop-frames (suc fuel) n bytes (f ∷ g ∷ fs) (l, w) at size h =
    let tail = flatten (g ∷ fs) in
    let len = length-append f tail in
    send_full fuel n bytes (f ++ tail) at size (omega arith)
    ∙ ap (λ x. x ∷ send_loop fuel (n + 1024) bytes) (take-append_at 1024 f tail l)
    ∙ ap (λ x. f ∷ x)
        (send_loop-frames fuel (n + 1024) bytes (g ∷ fs) w
          (sym (drop-drop 1024 n bytes) ∙ ap (drop 1024) at ∙ drop-append_at 1024 f tail l)
          (omega arith) (omega arith))

-- A buffer that holds frames, each of 1024 bytes but the last, which has 21 to 1024, is sent frame by
-- frame.
pub send_packets-flatten : (fs : List (List ℕ)) → IsFrames fs → send_packets (flatten fs) ≡ fs
unfolding send_packets
send_packets-flatten fs w =
    send_loop-frames (length (flatten fs)) 0 (flatten fs) fs w refl (omega arith) (omega arith)

-- The flag loop, with the frames before number `i` done.
flag_loop_end :
    (fuel i : ℕ) (bytes : List ℕ) (flag : ℕ)
    → length bytes ≤ i * 1024
    → flag_loop fuel i bytes flag ≡ bytes
unfolding flag_loop
flag_loop_end zero i bytes flag h = refl
flag_loop_end (suc fuel) i bytes flag h = rw (ge→ltb (i * 1024) (length bytes) h)

flag_loop_step :
    (fuel i flag : ℕ) (front f rest : List ℕ)
    → length front ≡ i * 1024
    → 20 < length f
    → flag_loop (suc fuel) i (front ++ (f ++ rest)) flag
      ≡ flag_loop fuel (i + 1) (front ++ (set f 20 flag ++ rest)) flag
unfolding flag_loop
flag_loop_step fuel i flag front f rest e h = rw (
  lt→ltb (i * 1024) (length (front ++ (f ++ rest)))
      (omega (arith, length-append front (f ++ rest), length-append f rest)),
  ← e,
  set-append front (f ++ rest) 20 flag,
  set_left f rest 20 flag h,
)

flag_loop-frames :
    (fuel i flag : ℕ) (front : List ℕ) (fs : List (List ℕ))
    → IsFrames fs
    → length front ≡ i * 1024
    → length (flatten fs) ≤ fuel
    → flag_loop fuel i (front ++ flatten fs) flag ≡ front ++ flatten (map (λ f. set f 20 flag) fs)
flag_loop-frames fuel i flag front [] w e h =
    flag_loop_end fuel i (front ++ []) flag (omega (arith, length-append front []))
flag_loop-frames zero i flag front (f ∷ []) w e h = absurd (omega (arith, length-append f []))
flag_loop-frames (suc fuel) i flag front (f ∷ []) (lo, hi) e h =
    flag_loop_step fuel i flag front f [] e lo
    ∙ flag_loop_end fuel (i + 1) (front ++ (set f 20 flag ++ [])) flag (
        omega (
          arith,
          length-append front (set f 20 flag ++ []),
          length-append (set f 20 flag) [],
          length-set f 20 flag,
        ))
flag_loop-frames zero i flag front (f ∷ g ∷ fs) (l, w) e h =
    absurd (omega (arith, length-append f (flatten (g ∷ fs))))
flag_loop-frames (suc fuel) i flag front (f ∷ g ∷ fs) (l, w) e h =
    let f' = set f 20 flag in
    let tail = flatten (g ∷ fs) in
    flag_loop_step fuel i flag front f tail e (omega arith)
    ∙ ap (λ x. flag_loop fuel (i + 1) x flag) (sym (append_assoc front f' tail))
    ∙ flag_loop-frames fuel (i + 1) flag (front ++ f') (g ∷ fs) w
        (omega (arith, length-append front f', length-set f 20 flag))
        (omega (arith, length-append f tail))
    ∙ append_assoc front f' (flatten (map (λ f. set f 20 flag) (g ∷ fs)))

-- `takeDataPacketFlag` stores the flag at offset 20 of every frame of a buffer of frames, each of 1024
-- bytes but the last, which has 21 to 1024.
pub take_data_packet_flag-flatten :
    (fs : List (List ℕ)) (flag : ℕ)
    → IsFrames fs
    → take_data_packet_flag (flatten fs) flag ≡ flatten (map (λ f. set f 20 flag) fs)
unfolding take_data_packet_flag
take_data_packet_flag-flatten fs flag w =
    flag_loop-frames (length (flatten fs)) 0 flag [] fs w (omega arith) (omega arith)

pub IsFrames-map-set :
    (fs : List (List ℕ)) (flag : ℕ) → IsFrames fs → IsFrames (map (λ f. set f 20 flag) fs)
IsFrames-map-set [] flag w = tt
IsFrames-map-set (f ∷ []) flag (lo, hi) = rw (length-set f 20 flag) (lo, hi)
IsFrames-map-set (f ∷ g ∷ fs) flag (l, w) =
    (length-set f 20 flag ∙ l, IsFrames-map-set (g ∷ fs) flag w)
