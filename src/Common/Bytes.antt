-- ===== src/Common/Bytes.antt =====
-- Memory as a function from addresses to bytes, with the copies and slices that the code makes.
use Prim.Native.Nat.{ℕ, zero, suc, ◌+◌, ◌≤◌, ◌<◌}
use mathlib.Core.Path.{◌≡◌, refl, ap, ◌∙◌}
use mathlib.Core.Logic.{◌⊎◌, inl}
use mathlib.Core.List.{List, [], ◌∷◌, ◌++◌}
use native.Mathlib.Omega.{arith}
use robot_server.Common.Tests.{◌==◌, if◌then◌else◌}
use robot_server.Common.Lists.{All, length, get_or, take, drop, take_all}

abbrev pub IsByte : ℕ → Type 0
IsByte b = b < 256

abbrev pub Mem : Type 0
Mem = ℕ → ℕ

-- The `n` bytes from address `off` on.
abbrev pub slice : Mem → ℕ → ℕ → List ℕ
slice m off zero = []
slice m off (suc n) = m off ∷ slice m (suc off) n

-- `memcpy(m + off, xs, length xs)`
abbrev pub fill : Mem → ℕ → List ℕ → Mem
fill m off [] a = m a
fill m off (x ∷ xs) a = if a == off then x else fill m (suc off) xs a

-- `xs` at address 0, and zeroes behind it.
abbrev pub load : List ℕ → Mem
load xs a = get_or xs a 0

pub length-slice : (m : Mem) (off n : ℕ) → length (slice m off n) ≡ n
length-slice m off zero = refl
length-slice m off (suc n) = ap suc (length-slice m (suc off) n)

-- Two memories that agree on a range have one slice there.
pub slice_cong :
    (m k : Mem) (off n : ℕ)
    → ((a : ℕ) → off ≤ a → a < off + n → m a ≡ k a)
    → slice m off n ≡ slice k off n
slice_cong m k off zero h = refl
slice_cong m k off (suc n) h = ground (
  arith,
  h off (omega arith) (omega arith),
  slice_cong m k (suc off) n (λ a p q. h a (omega arith) (omega arith)),
)

pub slice-append :
    (m : Mem) (off a b : ℕ) → slice m off (a + b) ≡ slice m off a ++ slice m (off + a) b
slice-append m off zero b = ground arith
slice-append m off (suc a) b =
    let e : suc a + b ≡ suc (a + b) = omega arith in
    let e' : off + suc a ≡ suc off + a = omega arith in rw (e, e', slice-append m (suc off) a b)

-- Outside the range that it writes a copy changes nothing.
pub fill_outside :
    (m : Mem) (off : ℕ) (xs : List ℕ) (a : ℕ)
    → (a < off) ⊎ (off + length xs ≤ a)
    → fill m off xs a ≡ m a
fill_outside m off [] a h = refl
fill_outside m off (x ∷ xs) a h = ground (arith, fill_outside m (suc off) xs a)

pub slice-fill_self : (m : Mem) (off : ℕ) (xs : List ℕ) → slice (fill m off xs) off (length xs) ≡ xs
slice-fill_self m off [] = refl
slice-fill_self m off (x ∷ xs) = ground (
  arith,
  slice_cong (fill m off (x ∷ xs)) (fill m (suc off) xs) (suc off) (length xs)
      (λ a p q. ground arith),
  slice-fill_self m (suc off) xs,
)

-- A slice that a copy does not touch is what it was.
pub slice-fill_apart :
    (m : Mem) (off : ℕ) (xs : List ℕ) (p n : ℕ)
    → (p + n ≤ off) ⊎ (off + length xs ≤ p)
    → slice (fill m off xs) p n ≡ slice m p n
slice-fill_apart m off xs p n h =
    slice_cong (fill m off xs) m p n (λ a u v. fill_outside m off xs a (omega arith))

slice-load_shift :
    (x : ℕ) (xs : List ℕ) (off n : ℕ) → slice (load (x ∷ xs)) (suc off) n ≡ slice (load xs) off n
slice-load_shift x xs off zero = refl
slice-load_shift x xs off (suc n) = ap (λ r. load xs off ∷ r) (slice-load_shift x xs (suc off) n)

pub slice-load :
    (xs : List ℕ) (off n : ℕ) → off + n ≤ length xs → slice (load xs) off n ≡ take n (drop off xs)
slice-load xs zero zero h = refl
slice-load [] zero (suc n) h = absurd (omega arith)
slice-load (x ∷ xs) zero (suc n) h =
    ap (λ r. x ∷ r) (slice-load_shift x xs 0 n ∙ slice-load xs 0 n (omega arith))
slice-load [] (suc off) zero h = refl
slice-load [] (suc off) (suc n) h = absurd (omega arith)
slice-load (x ∷ xs) (suc off) n h = slice-load_shift x xs off n ∙ slice-load xs off n (omega arith)

-- A text that is loaded is read back.
pub slice-load_self : (xs : List ℕ) → slice (load xs) 0 (length xs) ≡ xs
slice-load_self xs =
    slice-load xs 0 (length xs) (omega arith) ∙ take_all (length xs) xs (omega arith)

-- A block stored behind the first `n` bytes.
pub slice-fill_behind :
    (m : Mem) (n : ℕ) (xs : List ℕ) → slice (fill m n xs) 0 (n + length xs) ≡ slice m 0 n ++ xs
slice-fill_behind m n xs =
    let e : 0 + n ≡ n = omega arith in
    rw (
      slice-append (fill m n xs) 0 n (length xs),
      e,
      slice-fill_self m n xs,
      slice-fill_apart m n xs 0 n (inl (omega arith)),
    )

pub load-IsByte : (xs : List ℕ) → All IsByte xs → (a : ℕ) → IsByte (load xs a)
load-IsByte [] h a = omega arith
load-IsByte (x ∷ xs) (hx, hs) zero = hx
load-IsByte (x ∷ xs) (hx, hs) (suc a) = load-IsByte xs hs a
