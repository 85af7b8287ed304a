-- ===== src/Lbs/Matcher.antt =====
-- `compute_prefix` and `kmp_matcher` of curljson.c. The array `array` has 16 elements; the inner loops
-- run on fuel.
use robot_server.Common.{
  ℕ, zero, suc, ◌+◌, ◌≡◌, refl, Bool, true, false, not, ◌&&◌, Option, none, some, ltb, ◌==◌,
  if◌then◌else◌,
}
use robot_server.Common.Bytes.{Mem}
use robot_server.WorkQueue.{update}

-- The inner loop of `compute_prefix`: `k` and the array.
unfoldable pub prefix_while : ℕ → Mem → ℕ → ℕ → Mem → ℕ × Mem
prefix_while zero pattern_bytes q k array = (k, array)
prefix_while (suc fuel) pattern_bytes q k array =
    let k' = array k in
    let k'' = if pattern_bytes (k' + 1) == pattern_bytes q then k' + 1 else k' in
    let rest = prefix_while fuel pattern_bytes q k'' (update array q k'') in
    if ltb 0 k && not (pattern_bytes (k + 1) == pattern_bytes q) then rest else (k, array)

-- `for (q = 1; q < length; q++)`, with the rounds that are left.
unfoldable pub prefix_loop : ℕ → ℕ → Mem → ℕ → ℕ → Mem → Mem
prefix_loop fuel zero pattern_bytes q k array = array
prefix_loop fuel (suc n) pattern_bytes q k array =
    let (k', array') = prefix_while fuel pattern_bytes q k array in
    prefix_loop fuel n pattern_bytes (q + 1) k' array'

unfoldable pub compute_prefix : ℕ → Mem → Mem → ℕ → Mem
compute_prefix fuel pattern_bytes array zero = update array 0 0
compute_prefix fuel pattern_bytes array (suc n) =
    prefix_loop fuel n pattern_bytes 1 0 (update array 0 0)

-- The inner loop of `kmp_matcher` at `c = t[i]`: `q`, and whether it returns `i`.
unfoldable pub matcher_while : ℕ → Mem → Mem → ℕ → ℕ → ℕ → Bool × ℕ
matcher_while zero pattern_bytes array pattern_length c q = (false, q)
matcher_while (suc fuel) pattern_bytes array pattern_length c q =
    let q' = array q in
    let q'' = if pattern_bytes (q' + 1) == c then q' + 1 else q' in
    let rest = matcher_while fuel pattern_bytes array pattern_length c q'' in
    if ltb 0 q && not (pattern_bytes (q + 1) == c)
    then (if q'' == pattern_length then (true, q'') else rest)
    else (false, q)

-- `for (i = 0; i < t_length; i++)`, with the rounds that are left; none for -1.
unfoldable pub matcher_loop : ℕ → ℕ → Mem → Mem → Mem → ℕ → ℕ → ℕ → Option ℕ
matcher_loop fuel zero t pattern_bytes array pattern_length i q = none
matcher_loop fuel (suc n) t pattern_bytes array pattern_length i q =
    let (found, q') = matcher_while fuel pattern_bytes array pattern_length (t i) q in
    let rest = matcher_loop fuel n t pattern_bytes array pattern_length (i + 1) q' in
    if found then some i else rest

unfoldable pub kmp_matcher : ℕ → Mem → Mem → (t_length pattern_length : ℕ) → Option ℕ
kmp_matcher fuel t pattern_bytes t_length pattern_length =
    matcher_loop fuel t_length t pattern_bytes
      (compute_prefix fuel pattern_bytes (λ i. 0) pattern_length) pattern_length 0 0

matcher_while_zero :
    (fuel : ℕ) (p array : Mem) (len c : ℕ) → matcher_while fuel p array len c 0 ≡ (false, 0)
unfolding matcher_while
matcher_while_zero zero p array len c = refl
matcher_while_zero (suc fuel) p array len c = refl

matcher_loop-none :
    (fuel n : ℕ) (t p array : Mem) (len i : ℕ) → matcher_loop fuel n t p array len i 0 ≡ none
unfolding matcher_loop
matcher_loop-none fuel zero t p array len i = refl
matcher_loop-none fuel (suc n) t p array len i =
    rw (matcher_while_zero fuel p array len (t i)) (matcher_loop-none fuel n t p array len (i + 1))

prefix_while_zero : (fuel : ℕ) (p array : Mem) (q : ℕ) → prefix_while fuel p q 0 array ≡ (0, array)
unfolding prefix_while
prefix_while_zero zero p array q = refl
prefix_while_zero (suc fuel) p array q = refl

prefix_loop_same : (fuel n : ℕ) (p array : Mem) (q : ℕ) → prefix_loop fuel n p q 0 array ≡ array
unfolding prefix_loop
prefix_loop_same fuel zero p array q = refl
prefix_loop_same fuel (suc n) p array q =
    rw (prefix_while_zero fuel p array q) (prefix_loop_same fuel n p array (q + 1))

-- The matcher finds nothing, in whatever text, as its loops are never entered: they need a match that
-- only they could begin. Neither does compute_prefix write more than the first element.
pub kmp_matcher-none :
    (fuel : ℕ) (t p array : Mem) (t_length pattern_length : ℕ)
    → (kmp_matcher fuel t p t_length pattern_length ≡ none)
      × (compute_prefix fuel p array pattern_length ≡ update array 0 0)
unfolding kmp_matcher compute_prefix
kmp_matcher-none fuel t p array n zero =
    (matcher_loop-none fuel n t p (update (λ i. 0) 0 0) 0 0, refl)
kmp_matcher-none fuel t p array n (suc len) = (
  matcher_loop-none fuel n t p (prefix_loop fuel len p 1 0 (update (λ i. 0) 0 0)) (suc len) 0,
  prefix_loop_same fuel len p (update array 0 0) 1,
)
