-- ===== src/Protocol/Loop.antt =====
-- The loop of `apolloParsePacket` ends.
use robot_server.Common.{
  ℕ, zero, suc, ◌-◌, ◌≤◌, ◌<◌, ◌≡◌, refl, sym, ◌∙◌, List, [], ◌∷◌, arith, length, take, drop,
  length-take, length-drop,
}
use robot_server.Common.Outcome.{Outcome, ok, fault, ◌>>=◌}
use robot_server.Common.Bytes.{fill}
use robot_server.Host.{Host, World}
use robot_server.Protocol.Parse.{dispatch, parse_loop}

take-nil : (n : ℕ) → take {A = ℕ} n [] ≡ []
take-nil zero = refl
take-nil (suc n) = refl

pub bind_cong :
    {A B : Type 0} (x : Outcome A) {f g : A → Outcome B}
    → ((a : A) → f a ≡ g a)
    → (x >>= f) ≡ (x >>= g)
bind_cong (ok a) e = e a
bind_cong fault e = refl

module _ (h : Host) where
  pub loop_step :
      (fuel : ℕ) (input : List ℕ) (block_index : ℕ) (w : World h) (c : ℕ) (cs : List ℕ)
      → take (1024 - block_index) input ≡ c ∷ cs
      → parse_loop h (suc fuel) input block_index w ≡ (
          dispatch h (suc (length cs)) block_index (record w {
            client = record w.client { packet = fill w.client.packet block_index (c ∷ cs) };
          })
          >>= λ r. parse_loop h fuel (drop (1024 - block_index) input) r.0 r.1)
  unfolding parse_loop
  loop_step fuel input block_index w c cs e = rw (parse_loop, e) refl

  pub loop_stop :
      (fuel : ℕ) (input : List ℕ) (block_index : ℕ) (w : World h)
      → take (1024 - block_index) input ≡ []
      → parse_loop h fuel input block_index w ≡ ok (input, w)
  unfolding parse_loop
  loop_stop zero input block_index w e = refl
  loop_stop (suc fuel) input block_index w e = rw (parse_loop, e) refl

  pub loop_nil :
      (fuel block_index : ℕ) (w : World h) → parse_loop h fuel [] block_index w ≡ ok ([], w)
  loop_nil fuel block_index w = loop_stop fuel [] block_index w (take-nil (1024 - block_index))

  loop_cong :
      (f g : ℕ) (input : List ℕ) (block_index : ℕ) (w : World h)
      → length input ≤ f
      → length input ≤ g
      → parse_loop h f input block_index w ≡ parse_loop h g input block_index w
  loop_cong zero g [] block_index w lf lg =
      loop_nil zero block_index w ∙ sym (loop_nil g block_index w)
  loop_cong (suc f) zero [] block_index w lf lg =
      loop_nil (suc f) block_index w ∙ sym (loop_nil zero block_index w)
  loop_cong zero g (x ∷ input) block_index w lf lg = absurd (omega arith)
  loop_cong (suc f) zero (x ∷ input) block_index w lf lg = absurd (omega arith)
  loop_cong (suc f) (suc g) input block_index w lf lg =
      let room = 1024 - block_index in
      elim (take room input)
          as (λ got.
            take room input ≡ got
            → parse_loop h (suc f) input block_index w ≡ parse_loop h (suc g) input block_index w) [
              | [] ↦ λ e.
                  loop_stop (suc f) input block_index w e
                  ∙ sym (loop_stop (suc g) input block_index w e)
              | c ∷ cs ↦ λ e.
                  let some_byte : 1 ≤ length (take room input) = rw e (omega arith) in
                  let less : length (drop room input) < length input =
                    omega (arith, some_byte, length-take room input, length-drop room input) in
                  loop_step f input block_index w c cs e
                  ∙ bind_cong
                      (dispatch h (suc (length cs)) block_index (record w {
                        client = record w.client {
                          packet = fill w.client.packet block_index (c ∷ cs);
                        };
                      }))
                      (λ r. loop_cong f g (drop room input) r.0 r.1 (omega arith) (omega arith))
                  ∙ sym (loop_step g input block_index w c cs e)
            ]
        refl

  -- As many rounds as the input has bytes are enough: with more of them the loop comes to the same.
  pub parse_loop_enough :
      (fuel : ℕ) (input : List ℕ) (block_index : ℕ) (w : World h)
      → length input ≤ fuel
      → parse_loop h fuel input block_index w ≡ parse_loop h (length input) input block_index w
  parse_loop_enough fuel input block_index w enough =
      loop_cong fuel (length input) input block_index w enough (omega arith)
