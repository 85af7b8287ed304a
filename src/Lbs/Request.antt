-- ===== src/Lbs/Request.antt =====
-- The text that `encode_lbs` makes of the stations.
use robot_server.Common.{
  ℕ, suc, ◌+◌, ◌*◌, ◌≤◌, ◌<◌, ◌≡◌, refl, sym, ap, ◌∙◌, true, false, List, [], ◌∷◌, ◌++◌, arith,
  length, length-append, All, le→leb, ◌==◌, if◌then◌else◌, Bool-cases, inl, inr,
}
use mathlib.Core.List.{append-nil, append_assoc}
use robot_server.Common.Int.{ℤ, pos, negsuc}
use robot_server.Common.Outcome.{ok}
use robot_server.Decimal.{print_int}
use robot_server.Decimal.Laws.{length-print_int}
use robot_server.Util.Paths.{codes}
use robot_server.Lbs.{Station, is_lbs, lbs_item, encode_loop, encode_lbs}

-- The fields are of the width that `Lbs` gives them.
abbrev pub IsSmall : ℤ → Type 0
IsSmall (pos n) = n < 128
IsSmall (negsuc n) = n < 128

pub record IsStation (l : Station) : Type 0 where
  pub mcc_small : l.mcc < 65536
  pub mnc_small : l.mnc < 65536
  pub lac_small : l.lac < 65536
  pub cid_small : l.cid < 65536
  pub signal_small : IsSmall l.signal

length-signal : (z : ℤ) → IsSmall z → length (print_int z) ≤ 11
unfolding print_int
length-signal (pos n) h = omega (arith, length-print_int n (omega arith))
length-signal (negsuc n) h = omega (arith, length-print_int (n + 1) (omega arith))

-- The stations that are there, each with a comma before it.
abbrev pub behind_commas : List Station → List ℕ
behind_commas [] = []
behind_commas (l ∷ lbs) =
    if is_lbs l then (codes "," ++ lbs_item l) ++ behind_commas lbs else behind_commas lbs

pub length-lbs_item : (l : Station) → IsStation l → length (lbs_item l) ≤ 126
unfolding lbs_item
length-lbs_item l w = omega (
  arith,
  length-append {A = ℕ},
  length-print_int l.cid (omega (arith, w.cid_small)),
  length-print_int l.lac (omega (arith, w.lac_small)),
  length-print_int l.mcc (omega (arith, w.mcc_small)),
  length-print_int l.mnc (omega (arith, w.mnc_small)),
  length-signal l.signal w.signal_small,
)

loop_skip :
    (i : ℕ) (l : Station) (lbs : List Station) (buffer : List ℕ)
    → is_lbs l ≡ false
    → encode_loop i (l ∷ lbs) buffer ≡ encode_loop (i + 1) lbs buffer
unfolding encode_loop
loop_skip i l lbs buffer e = rw (e, encode_loop) refl

-- A station behind the first one is added with a comma before it.
loop_add :
    (i : ℕ) (l : Station) (lbs : List Station) (buffer : List ℕ)
    → is_lbs l ≡ true
    → 0 < i
    → IsStation l
    → length buffer + 127 < 1024
    → encode_loop i (l ∷ lbs) buffer ≡ encode_loop (i + 1) lbs (buffer ++ (codes "," ++ lbs_item l))
unfolding encode_loop
loop_add i l lbs buffer e later w room =
    let first : (i == 0) ≡ false = ground arith in
    let item = codes "," ++ lbs_item l in
    rw
      (
        e,
        encode_loop,
        first,
        le→leb (suc (length item)) 128 (omega (arith, length-lbs_item l w)),
        le→leb (suc (length (buffer ++ item))) 1024
            (omega (arith, length-append buffer item, length-lbs_item l w)),
      )
      refl

encode_behind :
    (i : ℕ) (lbs : List Station) (buffer : List ℕ)
    → 0 < i
    → All IsStation lbs
    → length buffer + 127 * length lbs < 1024
    → encode_loop i lbs buffer ≡ ok (buffer ++ behind_commas lbs)
encode_behind i [] buffer later w room = unfold encode_loop in ap ok (sym (append-nil buffer))
encode_behind i (l ∷ lbs) buffer later (w, ws) room = elim (Bool-cases (is_lbs l)) [
  | inr e ↦
      loop_skip i l lbs buffer e
      ∙ rw e (encode_behind (i + 1) lbs buffer (omega arith) ws (omega arith))
  | inl e ↦
      let item = codes "," ++ lbs_item l in
      loop_add i l lbs buffer e later w (omega arith)
      ∙ rw e (
          encode_behind (i + 1) lbs (buffer ++ item) (omega arith) ws
            (omega (arith, length-append buffer item, length-lbs_item l w))
          ∙ ap ok (append_assoc buffer item (behind_commas lbs)))
]

-- The text of at most six stations fits its buffers, and is that of the stations that are there, in
-- order, with a comma before each but the first of the array: where the first element is empty, the
-- text begins with a comma.
pub encode_lbs_lem :
    (l : Station) (lbs : List Station)
    → All IsStation (l ∷ lbs)
    → length lbs ≤ 5
    → encode_lbs (l ∷ lbs)
      ≡ ok (if is_lbs l then lbs_item l ++ behind_commas lbs else behind_commas lbs)
unfolding encode_lbs encode_loop
encode_lbs_lem l lbs (w, ws) few = elim (Bool-cases (is_lbs l)) [
  | inr e ↦ loop_skip 0 l lbs [] e ∙ rw e (encode_behind 1 lbs [] (omega arith) ws (omega arith))
  | inl e ↦
      rw
        (
          e,
          encode_loop,
          le→leb (suc (length (lbs_item l))) 128 (omega (arith, length-lbs_item l w)),
          le→leb (suc (length (lbs_item l))) 1024 (omega (arith, length-lbs_item l w)),
        )
        (encode_behind 1 lbs (lbs_item l) (omega arith) ws (omega (arith, length-lbs_item l w)))
]
