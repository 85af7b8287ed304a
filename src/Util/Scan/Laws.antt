-- ===== src/Util/Scan/Laws.antt =====
-- What `apollo_atoi` and `apollo_strcmp` compute.
use robot_server.Common.{
  ℕ, zero, suc, ◌≡◌, ◌↔◌, refl, Bool, true, false, ◌&&◌, ◌||◌, some, List, [], ◌∷◌, arith, ◌==◌,
  Bool-cases, inl, inr, if◌then◌else◌,
}
use mathlib.Core.List.{head-eq_of_cons-eq, tail-eq_of_cons-eq}
use robot_server.Common.Int.{pos}
use robot_server.Common.Bytes.{Mem, slice}
use robot_server.Common.Outcome.{ok, fault}
use robot_server.Util.Scan.{
  isspace, skip_to_space, read_digits, read_signed, apollo_atoi, apollo_strcmp,
}

abbrev pub has_space : List ℕ → Bool
has_space [] = false
has_space (c ∷ s) = isspace c || has_space s

read_signed_space : (c : ℕ) (s : List ℕ) → isspace c ≡ true → read_signed (c ∷ s) ≡ ok (pos 0)
unfolding isspace read_signed read_digits
read_signed_space c s h = ground arith

-- `apollo_atoi` skips to the first white space of the text instead of past the leading ones: the
-- result is 0 whenever the text has a white space, and otherwise it runs off the text.
pub apollo_atoi_lem :
    (s : List ℕ) → apollo_atoi (some s) ≡ (if has_space s then ok (pos 0) else fault)
unfolding apollo_atoi skip_to_space
apollo_atoi_lem [] = refl
apollo_atoi_lem (c ∷ s) = elim (Bool-cases (isspace c)) [
  | inl e ↦ rw (e, skip_to_space) (read_signed_space c s e)
  | inr e ↦ rw (e, skip_to_space) (apollo_atoi_lem s)
]

and_parts : (a b : ℕ) (r : Bool) → (a == b && r) ≡ true → (a ≡ b) × (r ≡ true)
and_parts a b r e = ground arith

head_true : (m k : Mem) (p q : ℕ) → m p ≡ k q → (m p == k q) ≡ true
head_true m k p q e = ground arith

-- `apollo_strcmp` returns 1 exactly when the first `n` characters of the two arrays agree.
pub apollo_strcmp_iff :
    (m : Mem) (p : ℕ) (k : Mem) (q n : ℕ)
    → (apollo_strcmp m p k q n ≡ true) ↔ (slice m p n ≡ slice k q n)
unfolding apollo_strcmp
apollo_strcmp_iff m p k q zero = (λ _. refl, λ _. refl)
apollo_strcmp_iff m p k q (suc n) =
    let (same, back) = apollo_strcmp_iff m (suc p) k (suc q) n in
    (
      λ e.
          let (head, rest) = and_parts (m p) (k q) (apollo_strcmp m (suc p) k (suc q) n) e in
          cc (head, same rest),
      λ e. rw (head_true m k p q (head-eq_of_cons-eq e)) (back (tail-eq_of_cons-eq e)),
    )
