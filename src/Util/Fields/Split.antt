-- ===== src/Util/Fields/Split.antt =====
-- `separation` cuts a text into its fields, and `join` puts them together again.
use robot_server.Common.{
  ℕ, ◌+◌, ◌<◌, ◌≡◌, sym, ap, ◌∙◌, true, false, ◌≢◌, inl, inr, List, [], ◌∷◌, ◌++◌, arith, length,
  length-append, ltb, lt→ltb, ltb→lt, ◌==◌, ==_refl, ==_iff, All, All-append, Bool-cases,
}
use mathlib.Core.List.{append-nil, append_assoc}
use robot_server.Common.Outcome.{ok, fault}
use robot_server.Util.Fields.{separation, separation_loop, store_field, len_ch_array}

-- The fields with `ch` between them.
abbrev pub join : ℕ → List (List ℕ) → List ℕ
join ch [] = []
join ch (f ∷ []) = f
join ch (f ∷ g ∷ fs) = f ++ (ch ∷ join ch (g ∷ fs))

abbrev pub Avoids : ℕ → List ℕ → Type 0
Avoids ch = All (λ c. (c == ch) ≡ false)

abbrev pub IsField : ℕ → List ℕ → Type 0
IsField ch f = Avoids ch f × (length f < len_ch_array)

-- The three ways a round goes.
module _ (ch c : ℕ) (s cur : List ℕ) (table : List (List ℕ)) where
  loop_cut :
      (c == ch) ≡ true
      → length cur < 32
      → separation_loop ch (c ∷ s) cur table ≡ separation_loop ch s [] (table ++ (cur ∷ []))
  unfolding separation_loop store_field
  loop_cut e h = rw (e, separation_loop, lt→ltb (length cur) 32 h)

  loop_add :
      (c == ch) ≡ false
      → length cur < 32
      → separation_loop ch (c ∷ s) cur table ≡ separation_loop ch s (cur ++ (c ∷ [])) table
  unfolding separation_loop store_field
  loop_add e h = rw (e, separation_loop, lt→ltb (length cur) 32 h)

  loop_full : ltb (length cur) 32 ≡ false → separation_loop ch (c ∷ s) cur table ≡ fault
  unfolding separation_loop store_field
  loop_full h = ground arith

loop_end :
    (ch : ℕ) (cur : List ℕ) (table : List (List ℕ))
    → length cur < 32
    → separation_loop ch [] cur table ≡ ok (table ++ (cur ∷ []))
unfolding separation_loop store_field
loop_end ch cur table h = rw (lt→ltb (length cur) 32 h)

loop_end-ne :
    (ch : ℕ) (cur : List ℕ) (table fields : List (List ℕ))
    → ltb (length cur) 32 ≡ false
    → separation_loop ch [] cur table ≢ ok fields
unfolding separation_loop store_field
loop_end-ne ch cur table fields h = rw h (λ e. cc)

-- A field without `ch` is stored character by character.
loop-field :
    (ch : ℕ) (f rest cur : List ℕ) (table : List (List ℕ))
    → Avoids ch f
    → length cur + length f < 32
    → separation_loop ch (f ++ rest) cur table ≡ separation_loop ch rest (cur ++ f) table
loop-field ch [] rest cur table a h = rw append-nil
loop-field ch (c ∷ f) rest cur table (n, a) h =
    loop_add ch c (f ++ rest) cur table n (omega arith)
    ∙ loop-field ch f rest (cur ++ (c ∷ [])) table a (omega (arith, length-append cur (c ∷ [])))
    ∙ rw append_assoc

loop-join :
    (ch : ℕ) (f : List ℕ) (fs table : List (List ℕ))
    → All (IsField ch) (f ∷ fs)
    → separation_loop ch (join ch (f ∷ fs)) [] table ≡ ok (table ++ (f ∷ fs))
loop-join ch f [] table ((a, h), _) =
    ap (λ x. separation_loop ch x [] table) (sym (append-nil f))
    ∙ loop-field ch f [] [] table a (omega arith)
    ∙ loop_end ch f table h
loop-join ch f (g ∷ fs) table ((a, h), hs) =
    loop-field ch f (ch ∷ join ch (g ∷ fs)) [] table a (omega arith)
    ∙ loop_cut ch ch (join ch (g ∷ fs)) f table (==_refl ch) h
    ∙ loop-join ch g fs (table ++ (f ∷ [])) hs
    ∙ ap ok (append_assoc table (f ∷ []) (g ∷ fs))

-- Fields of at most 31 characters, none with `ch` in it, are recovered from their join.
pub separation-join :
    (ch : ℕ) (f : List ℕ) (fs : List (List ℕ))
    → All (IsField ch) (f ∷ fs)
    → separation ch (join ch (f ∷ fs)) ≡ ok (f ∷ fs)
unfolding separation
separation-join ch f fs h = loop-join ch f fs [] h

abbrev Cut : ℕ → List ℕ → List ℕ → List (List ℕ) → List (List ℕ) → Type 0
Cut ch s cur table fields =
    (f : List ℕ) × (fs : List (List ℕ)) × (fields ≡ table ++ (f ∷ fs))
    × (join ch (f ∷ fs) ≡ cur ++ s)
    × All (IsField ch) (f ∷ fs)

Avoids-add :
    (ch c : ℕ) (cur : List ℕ) → Avoids ch cur → (c == ch) ≡ false → Avoids ch (cur ++ (c ∷ []))
Avoids-add ch c cur a n = All-append (λ x. (x == ch) ≡ false) cur (c ∷ []) a (n, tt)

-- What the loop returns, given what it has stored.
loop_returns :
    (ch : ℕ) (s cur : List ℕ) (table fields : List (List ℕ))
    → Avoids ch cur
    → separation_loop ch s cur table ≡ ok fields
    → Cut ch s cur table fields
loop_returns ch [] cur table fields a e = elim (Bool-cases (ltb (length cur) 32)) [
  | inl lt ↦
      let short : length cur < 32 = ltb→lt _ _ lt in
      let got : ok (table ++ (cur ∷ [])) ≡ ok fields = sym (loop_end ch cur table short) ∙ e in
      (cur, [], cc, sym (append-nil cur), ((a, short), tt))
  | inr full ↦ absurd (loop_end-ne ch cur table fields full e)
]
loop_returns ch (c ∷ s) cur table fields a e = elim (Bool-cases (ltb (length cur) 32)) [
  | inr full ↦ let stop : fault ≡ ok fields = sym (loop_full ch c s cur table full) ∙ e in cc
  | inl lt ↦
      let short : length cur < 32 = ltb→lt _ _ lt in
      elim (Bool-cases (c == ch)) [
        | inl hit ↦
            let (f, fs, eq, back, fields_ok) =
              loop_returns ch s [] (table ++ (cur ∷ [])) fields tt
                (sym (loop_cut ch c s cur table hit short) ∙ e) in
            (
              cur,
              f ∷ fs,
              eq ∙ append_assoc table (cur ∷ []) (f ∷ fs),
              ap (λ x. cur ++ (ch ∷ x)) back ∙ ap (λ x. cur ++ (x ∷ s)) (sym ((==_iff c ch).0 hit)),
              ((a, short), fields_ok),
            )
        | inr miss ↦
            let (f, fs, eq, back, fields_ok) =
              loop_returns ch s (cur ++ (c ∷ [])) table fields (Avoids-add ch c cur a miss)
                (sym (loop_add ch c s cur table miss short) ∙ e) in
            (f, fs, eq, back ∙ append_assoc cur (c ∷ []) s, fields_ok)
      ]
]

-- Whatever `separation` returns are the fields of the text: their join is the text, none holds
-- `ch`, and each is at most 31 characters long.
separation_returns :
    (ch : ℕ) (s : List ℕ) (fields : List (List ℕ))
    → separation ch s ≡ ok fields
    → (join ch fields ≡ s) × All (IsField ch) fields
unfolding separation
separation_returns ch s fields e =
    let (f, fs, eq, back, fields_ok) = loop_returns ch s [] [] fields tt e in
    rw eq (back, fields_ok)
