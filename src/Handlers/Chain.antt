-- ===== src/Handlers/Chain.antt =====
-- The chain that `main` builds deals with every request that is not negative.
use robot_server.Common.{
  ℕ, suc, ◌≤◌, ◌<◌, lt→ltb, ge→ltb, ◌≡◌, ◌≢◌, refl, sym, ◌∙◌, true, false, Option, none, some,
  arith, ltb, ==_refl, ne→==, if◌then◌else◌,
}
use native.Mathlib.Decide.{dec_lt}
use robot_server.Common.Int.{ℤ, pos, negsuc}
use robot_server.Common.Outcome.{ok}
use robot_server.Handlers.{
  Class, concrete_handle_a, concrete_handle_b, concrete_handle_c, Handle, Store, put, new_handle,
  set_successor, deals_with, Answer, deal, cant_deal, handle_request, main_chain,
}

-- Who is meant to deal with a request.
abbrev pub meant : ℤ → Answer
meant (negsuc n) = cant_deal
meant (pos n) =
    if ltb n 500
    then deal concrete_handle_a
    else if ltb n 1000
    then deal concrete_handle_b
    else deal concrete_handle_c

module _ (fuel : ℕ) (s : Store) (p : ℕ) (c : Class) (request : ℤ) where
  takes :
      (succ : Option ℕ)
      → s p ≡ some (record { class = c; succ = succ })
      → deals_with c request ≡ true
      → handle_request (suc fuel) s p request ≡ ok (some (deal c))
  unfolding handle_request
  takes succ at e = rw (handle_request, at, e) refl

  passes :
      (q : ℕ)
      → s p ≡ some (record { class = c; succ = some q })
      → deals_with c request ≡ false
      → handle_request (suc fuel) s p request ≡ handle_request fuel s q request
  unfolding handle_request
  passes q at e = rw (handle_request, at, e) refl

  ends :
      s p ≡ some (record { class = c; succ = none })
      → deals_with c request ≡ false
      → handle_request (suc fuel) s p request ≡ ok (some cant_deal)
  unfolding handle_request
  ends at e = rw (handle_request, at, e) refl

-- The links of the chain.
pub record IsMainChain (h1 h2 h3 : ℕ) (s : Store) : Type 0 where
  pub first : s h1 ≡ some (record { class = concrete_handle_a; succ = some h2 })
  pub second : s h2 ≡ some (record { class = concrete_handle_b; succ = some h3 })
  pub third : s h3 ≡ some (record { class = concrete_handle_c; succ = none })

in_a : (n : ℕ) → n < 500 → deals_with concrete_handle_a (pos n) ≡ true
unfolding deals_with
in_a n h = ground arith

behind_a : (n : ℕ) → 500 ≤ n → deals_with concrete_handle_a (pos n) ≡ false
unfolding deals_with
behind_a n h = ground arith

in_b : (n : ℕ) → 500 ≤ n → n < 1000 → deals_with concrete_handle_b (pos n) ≡ true
unfolding deals_with
in_b n h g = ground arith

behind_b : (n : ℕ) → 1000 ≤ n → deals_with concrete_handle_b (pos n) ≡ false
unfolding deals_with
behind_b n h = ground arith

in_c : (n : ℕ) → 1000 ≤ n → deals_with concrete_handle_c (pos n) ≡ true
unfolding deals_with
in_c n h = ground arith

chain_lem :
    (fuel : ℕ) (h1 h2 h3 : ℕ) (s : Store) (request : ℤ)
    → IsMainChain h1 h2 h3 s
    → handle_request (suc (suc (suc fuel))) s h1 request ≡ ok (some (meant request))
chain_lem fuel h1 h2 h3 s (negsuc n) c =
    passes (suc (suc fuel)) s h1 concrete_handle_a (negsuc n) h2 c.first (unfold deals_with in refl)
    ∙ passes (suc fuel) s h2 concrete_handle_b (negsuc n) h3 c.second (unfold deals_with in refl)
    ∙ ends fuel s h3 concrete_handle_c (negsuc n) c.third (unfold deals_with in refl)
chain_lem fuel h1 h2 h3 s (pos n) c = elim (dec_lt n 500) [
  | yes a ↦
      rw (lt→ltb n 500 a)
        (takes (suc (suc fuel)) s h1 concrete_handle_a (pos n) (some h2) c.first (in_a n a))
  | no more ↦ rw (ge→ltb n 500 (omega arith)) (
      passes (suc (suc fuel)) s h1 concrete_handle_a (pos n) h2 c.first (behind_a n (omega arith))
      ∙ elim (dec_lt n 1000) [
        | yes b ↦ rw (lt→ltb n 1000 b) (
            takes (suc fuel) s h2 concrete_handle_b (pos n) (some h3) c.second
              (in_b n (omega arith) b))
        | no most ↦ rw (ge→ltb n 1000 (omega arith)) (
            passes (suc fuel) s h2 concrete_handle_b (pos n) h3 c.second (behind_b n (omega arith))
            ∙ takes fuel s h3 concrete_handle_c (pos n) none c.third (in_c n (omega arith)))
      ])
]

put_same : (p : ℕ) (v : Option Handle) (s : Store) → put p v s p ≡ v
put_same p v s = rw (==_refl p) refl

put_other : (p : ℕ) (v : Option Handle) (s : Store) (a : ℕ) → p ≢ a → put p v s a ≡ s a
put_other p v s a ne = rw (ne→== p a ne) refl

set_successor_lem :
    (p q : ℕ) (s : Store) (c : Class) (succ : Option ℕ)
    → s p ≡ some (record { class = c; succ = succ })
    → set_successor p q s ≡ ok (put p (some (record { class = c; succ = some q })) s)
unfolding set_successor
set_successor_lem p q s c succ e = rw (set_successor, e) refl

module _ (h1 h2 h3 : ℕ) (s : Store) (n12 : h1 ≢ h2) (n13 : h1 ≢ h3) (n23 : h2 ≢ h3) where
  abbrev made_a : Store
  made_a = put h1 (some (record { class = concrete_handle_a; succ = none })) s

  abbrev new_b : Option Handle
  new_b = some (record { class = concrete_handle_b; succ = none })

  abbrev made_b : Store
  made_b = put h2 new_b made_a

  abbrev new_c : Option Handle
  new_c = some (record { class = concrete_handle_c; succ = none })

  abbrev made : Store
  made = put h3 new_c made_b

  abbrev linked : Store
  linked = put h1 (some (record { class = concrete_handle_a; succ = some h2 })) made

  abbrev chained : Store
  chained = put h2 (some (record { class = concrete_handle_b; succ = some h3 })) linked

  made_first : made h1 ≡ some (record { class = concrete_handle_a; succ = none })
  made_first =
      put_other h3 new_c made_b h1 (λ e. n13 (sym e))
      ∙ put_other h2 new_b made_a h1 (λ e. n12 (sym e))
      ∙ put_same h1 (some (record { class = concrete_handle_a; succ = none })) s

  made_second : linked h2 ≡ some (record { class = concrete_handle_b; succ = none })
  made_second =
      put_other h1 _ made h2 n12
      ∙ put_other h3 new_c made_b h2 (λ e. n23 (sym e))
      ∙ put_same h2 new_b made_a

  main_chain_lem : main_chain h1 h2 h3 s ≡ ok chained
  unfolding main_chain new_handle
  main_chain_lem =
      rw
        (
          set_successor_lem h1 h2 made concrete_handle_a none made_first,
          set_successor_lem h2 h3 linked concrete_handle_b none made_second,
        )
        refl

  chained-IsMainChain : IsMainChain h1 h2 h3 chained
  chained-IsMainChain = record {
    first = put_other h2 _ linked h1 (λ e. n12 (sym e)) ∙ put_same h1 _ made;
    second = put_same h2 _ linked;
    third = put_other h2 _ linked h3 n23 ∙ put_other h1 _ made h3 n13 ∙ put_same h3 new_c made_b;
  }

-- The chain that `main` builds, from three objects at different addresses, deals with each request in
-- at most three calls: class A with those below 500, B with those below 1000, C with the others; a
-- negative one is refused.
pub main_chain-handle_request :
    (fuel h1 h2 h3 : ℕ) (s : Store) (request : ℤ)
    → h1 ≢ h2
    → h1 ≢ h3
    → h2 ≢ h3
    → (s' : Store) × (main_chain h1 h2 h3 s ≡ ok s')
      × (handle_request (suc (suc (suc fuel))) s' h1 request ≡ ok (some (meant request)))
main_chain-handle_request fuel h1 h2 h3 s request n12 n13 n23 = (
  chained h1 h2 h3 s n12 n13 n23,
  main_chain_lem h1 h2 h3 s n12 n13 n23,
  chain_lem fuel h1 h2 h3 (chained h1 h2 h3 s n12 n13 n23) request
      (chained-IsMainChain h1 h2 h3 s n12 n13 n23),
)
