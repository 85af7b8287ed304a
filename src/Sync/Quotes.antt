-- ===== src/Sync/Quotes.antt =====
-- The quotes of a JSON string.
use robot_server.Common.{
  ℕ, zero, suc, ◌⊎◌, inl, inr, Bool-cases, ap, ◌+◌, ◌-◌, ◌≤◌, ◌≡◌, refl, ◌∙◌, false, List, [], ◌∷◌,
  ◌++◌, arith, length, length-append, replicate, All, All-append, ==_iff, ◌==◌, le→leb, lt→ltb,
}
use mathlib.Core.List.{append_assoc}
use robot_server.Common.Outcome.{ok, fault}
use robot_server.Sync.{until_quote, strip_quotes}

abbrev pub NoQuote : List ℕ → Type 0
NoQuote = All (λ c. (c == b'"') ≡ false)

until_quote_some : (s t : List ℕ) → NoQuote s → until_quote (s ++ (b'"' ∷ t)) ≡ s
unfolding until_quote
until_quote_some [] t h = refl
until_quote_some (c ∷ s) t (e, h) = rw (e, until_quote_some s t h) refl

until_quote_none : (s : List ℕ) → NoQuote s → until_quote s ≡ s
unfolding until_quote
until_quote_none [] h = refl
until_quote_none (c ∷ s) (e, h) = rw (e, until_quote_none s h) refl

NoQuote-replicate : (n : ℕ) → NoQuote (replicate n 0)
NoQuote-replicate zero = tt
NoQuote-replicate (suc n) = (refl, NoQuote-replicate n)

length-replicate : (n : ℕ) → length (replicate {A = ℕ} n 0) ≡ n
length-replicate zero = refl
length-replicate (suc n) = ap suc (length-replicate n)

-- The first quote of a text, if there is one.
first_quote :
    (s : List ℕ)
    → ((name : List ℕ) × (t : List ℕ) × (s ≡ name ++ (b'"' ∷ t)) × NoQuote name) ⊎ NoQuote s
first_quote [] = inr tt
first_quote (c ∷ s) = elim (Bool-cases (c == b'"')) [
  | inl e ↦ inl ([], s, ap (λ x. x ∷ s) ((==_iff c b'"').0 e), tt)
  | inr e ↦ elim (first_quote s) [
    | inl (name, t, split, plain) ↦ inl (c ∷ name, t, ap (λ x. c ∷ x) split, (e, plain))
    | inr plain ↦ inr (e, plain)
  ]
]

module _ (c : ℕ) (s : List ℕ) (short : length s ≤ 18) where
  quoted :
      (name t : List ℕ) → s ≡ name ++ (b'"' ∷ t) → NoQuote name → strip_quotes (c ∷ s) ≡ ok name
  unfolding strip_quotes
  quoted name t split plain =
      let zeros = replicate (20 - suc (length s)) 0 in
      let moved : until_quote (s ++ zeros) ≡ name =
        ap (λ x. until_quote (x ++ zeros)) split
        ∙ ap until_quote (append_assoc name (b'"' ∷ t) zeros)
        ∙ until_quote_some name (t ++ zeros) plain in
      let fits : length s ≡ length name + suc (length t) =
        ap length split ∙ length-append name (b'"' ∷ t) in
      rw
        (
          le→leb (suc (suc (length s))) 20 (omega arith),
          moved,
          lt→ltb (suc (length name)) 20 (omega arith),
        )
        refl

  unquoted : NoQuote s → strip_quotes (c ∷ s) ≡ fault
  unfolding strip_quotes
  unquoted plain =
      let n = 20 - suc (length s) in
      let zeros = replicate n 0 in
      let moved : until_quote (s ++ zeros) ≡ s ++ zeros =
        until_quote_none (s ++ zeros)
          (All-append (λ x. (x == b'"') ≡ false) s zeros plain (NoQuote-replicate n)) in
      let len : length (s ++ zeros) ≡ 19 =
        omega (arith, length-append s zeros, length-replicate n) in
      rw (le→leb (suc (suc (length s))) 20 (omega arith), moved, len) refl

-- A JSON text of 1 to 19 characters: where it has a quote behind its first character, the value is what
-- stands between the two; where it has none, as a number or null, a zero is written behind the array.
pub strip_quotes_lem :
    (c : ℕ) (s : List ℕ)
    → length s ≤ 18
    → ((name : List ℕ) × (t : List ℕ) × (s ≡ name ++ (b'"' ∷ t))
        × NoQuote name
        × (strip_quotes (c ∷ s) ≡ ok name))
      ⊎ (NoQuote s × (strip_quotes (c ∷ s) ≡ fault))
strip_quotes_lem c s short = elim (first_quote s) [
  | inl (name, t, split, plain) ↦ inl (name, t, split, plain, quoted c s short name t split plain)
  | inr plain ↦ inr (plain, unquoted c s short plain)
]
