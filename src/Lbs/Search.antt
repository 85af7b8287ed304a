-- ===== src/Lbs/Search.antt =====
-- What `get_key_index` finds, and what `get_key` reads.
use robot_server.Common.{
  ℕ, zero, suc, ◌+◌, ◌-◌, ◌≤◌, ◌<◌, ◌≡◌, ◌≢◌, ◌↔◌, refl, sym, ap, ◌∙◌, true, false, none, some,
  List, [], ◌∷◌, ◌++◌, arith, length, length-append, All, ◌==◌, ==_iff, Bool-cases, inl, inr,
}
use robot_server.Common.Outcome.{Outcome, ok, fault, ◌>>=◌}
use robot_server.Lbs.{starts_with, key_index_loop, get_key_index, get_key}

starts_with_sound :
    (key s : List ℕ) → starts_with key s ≡ true → (rest : List ℕ) × (s ≡ key ++ rest)
unfolding starts_with
starts_with_sound [] s e = (s, refl)
starts_with_sound (k ∷ key) [] e = cc
starts_with_sound (k ∷ key) (c ∷ s) e =
    let (same, next) : (c ≡ k) × (starts_with key s ≡ true) = ground arith in
    let (rest, eq) = starts_with_sound key s next in (rest, cc)

starts_with-append : (key rest : List ℕ) → starts_with key (key ++ rest) ≡ true
unfolding starts_with
starts_with-append [] rest = refl
starts_with-append (k ∷ key) rest = ground (arith, starts_with-append key rest)

module _ (n i c : ℕ) (buffer key : List ℕ) where
  loop_hit :
      starts_with key (c ∷ buffer) ≡ true
      → key_index_loop (suc n) i (c ∷ buffer) key ≡ some (i + length key)
  unfolding key_index_loop
  loop_hit e = rw (e, key_index_loop) refl

  loop_miss :
      starts_with key (c ∷ buffer) ≡ false
      → key_index_loop (suc n) i (c ∷ buffer) key ≡ key_index_loop n (i + 1) buffer key
  unfolding key_index_loop
  loop_miss e = rw (e, key_index_loop) refl

loop_sound :
    (n i : ℕ) (buffer key : List ℕ) (k : ℕ)
    → n + length key ≤ length buffer
    → key_index_loop n i buffer key ≡ some k
    → (front : List ℕ) × (rest : List ℕ) × (buffer ≡ front ++ (key ++ rest))
      × (k ≡ i + (length front + length key))
      × (0 < length rest)
unfolding key_index_loop
loop_sound zero i buffer key k room e = cc
loop_sound (suc n) i [] key k room e = cc
loop_sound (suc n) i (c ∷ buffer) key k room e = elim (Bool-cases (starts_with key (c ∷ buffer))) [
  | inl hit ↦
      let (rest, eq) = starts_with_sound key (c ∷ buffer) hit in
      let at : some (i + length key) ≡ some k = sym (loop_hit n i c buffer key hit) ∙ e in
      ([], rest, eq, ground arith, omega (arith, ap length eq, length-append key rest))
  | inr miss ↦
      let (front, rest, eq, at, more) =
        loop_sound n (i + 1) buffer key k (omega arith)
          (sym (loop_miss n i c buffer key miss) ∙ e) in
      (c ∷ front, rest, ap (λ s. c ∷ s) eq, omega (arith, at), more)
]

loop_complete :
    (n i : ℕ) (front key rest : List ℕ)
    → length front < n
    → 0 < length key
    → key_index_loop n i (front ++ (key ++ rest)) key ≢ none
loop_complete zero i front key rest room some_key = absurd (omega arith)
loop_complete (suc n) i [] [] rest room some_key = absurd (omega arith)
loop_complete (suc n) i [] (k ∷ key) rest room some_key =
    rw (loop_hit n i k (key ++ rest) (k ∷ key) (starts_with-append (k ∷ key) rest)) (λ e. cc)
loop_complete (suc n) i (c ∷ front) key rest room some_key =
    let s = front ++ (key ++ rest) in
    elim (Bool-cases (starts_with key (c ∷ s))) [
      | inl hit ↦ rw (loop_hit n i c s key hit) (λ e. cc)
      | inr miss ↦
          rw (loop_miss n i c s key miss)
            (loop_complete n (i + 1) front key rest (omega arith) some_key)
    ]

-- `get_key_index` returns the offset behind an occurrence of the key that is not the end of the text,
-- and -1 only where there is no such occurrence; the key is not empty and no longer than the text.
get_key_index_lem :
    (buffer key : List ℕ)
    → 0 < length key
    → length key ≤ length buffer
    → ((k : ℕ)
        → get_key_index buffer key ≡ some k
        → (front : List ℕ) × (rest : List ℕ) × (buffer ≡ front ++ (key ++ rest))
          × (k ≡ length front + length key)
          × (0 < length rest))
      × (get_key_index buffer key ≡ none
          → (front rest : List ℕ) → 0 < length rest
          → buffer ≢ front ++ (key ++ rest))
unfolding get_key_index
get_key_index_lem buffer key some_key fits = (
  λ k e.
      let (front, rest, eq, at, more) =
        loop_sound (length buffer - length key) 0 buffer key k (omega arith) e in
      (front, rest, eq, omega (arith, at), more),
  λ e front rest more eq.
      loop_complete (length buffer - length key) 0 front key rest
        (omega (arith, ap length eq, length-append front (key ++ rest), length-append key rest))
        some_key (ap (λ s. key_index_loop (length buffer - length key) 0 s key) (sym eq) ∙ e),
)

key_end : (c : ℕ) (s : List ℕ) → (c == b',') ≡ true → get_key (c ∷ s) ≡ ok []
unfolding get_key
key_end c s e = rw (e, get_key) refl

key_step :
    (c : ℕ) (s : List ℕ)
    → (c == b',') ≡ false
    → get_key (c ∷ s) ≡ (get_key s >>= λ value. ok (c ∷ value))
unfolding get_key
key_step c s e = rw (e, get_key) refl

cons_ok :
    (c : ℕ) (x : Outcome (List ℕ)) (v : List ℕ)
    → (x >>= λ value. ok (c ∷ value)) ≡ ok v
    → (w : List ℕ) × (x ≡ ok w) × (c ∷ w ≡ v)
cons_ok c (ok w) v e = (w, refl, cc)
cons_ok c fault v e = cc

-- The text ends a value `v` that has no comma.
abbrev pub EndsAt : List ℕ → List ℕ → Type 0
EndsAt s v = (rest : List ℕ) × (s ≡ v ++ (b',' ∷ rest)) × All (λ c. (c == b',') ≡ false) v

ok-injective : {v w : List ℕ} → ok v ≡ ok w → v ≡ w
ok-injective e = cc

ending : (c : ℕ) (s v : List ℕ) → c ≡ b',' → [] ≡ v → EndsAt (c ∷ s) v
ending c s [] comma e = (s, ap (λ x. x ∷ s) comma, tt)
ending c s (x ∷ v) comma e = cc

key_sound : (s v : List ℕ) → get_key s ≡ ok v → EndsAt s v
key_sound [] v e = (unfold get_key in cc)
key_sound (c ∷ s) v e = elim (Bool-cases (c == b',')) [
  | inl hit ↦
      let empty : ok [] ≡ ok v = sym (key_end c s hit) ∙ e in
      let comma : c ≡ b',' = (==_iff c b',').0 hit in ending c s v comma (ok-injective empty)
  | inr miss ↦
      let (w, next, eq) = cons_ok c (get_key s) v (sym (key_step c s miss) ∙ e) in
      let (rest, at, plain) = key_sound s w next in
      rw (← eq) (rest, ap (λ t. c ∷ t) at, (miss, plain))
]

key_complete :
    (v rest : List ℕ) → All (λ c. (c == b',') ≡ false) v → get_key (v ++ (b',' ∷ rest)) ≡ ok v
key_complete [] rest h = key_end b',' rest refl
key_complete (c ∷ v) rest (miss, h) =
    key_step c (v ++ (b',' ∷ rest)) miss ∙ rw (key_complete v rest h) refl

-- `get_key` reads the text before the first comma, if there is one, and otherwise past the end.
get_key_iff : (s v : List ℕ) → (get_key s ≡ ok v) ↔ EndsAt s v
get_key_iff s v = (key_sound s v, λ (rest, at, plain). ap get_key at ∙ key_complete v rest plain)
