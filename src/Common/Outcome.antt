-- ===== src/Common/Outcome.antt =====
-- What a call can end in: a value, or a fault, which stands for undefined behaviour of the C code
-- (a write or a read outside an object, a null pointer).
use robot_server.Common.Tests.{if◌then◌else◌}
use mathlib.Core.Path.{◌≡◌, refl, ap, subst}
use mathlib.Core.Bool.{Bool, true, false}
use mathlib.Core.Option.{Option, none, some}

pub data Outcome {ℓ} (A : Type ℓ) : Type ℓ where
  ok : A → Outcome A
  fault : Outcome A

infixl 5 ◌>>=◌ ◌>>◌
abbrev pub ◌>>=◌ {ℓ κ} : {A : Type ℓ} {B : Type κ} → Outcome A → (A → Outcome B) → Outcome B
ok a >>= f = f a
fault >>= f = fault

abbrev pub ◌>>◌ {ℓ} : {B : Type ℓ} → Outcome (Unit {0}) → Outcome B → Outcome B
m >> k = m >>= λ _. k

-- The condition under which an access is defined.
abbrev pub check : Bool → Outcome (Unit {0})
check true = ok tt
check false = fault

pub bind_assoc {ℓ} :
    {A B C : Type ℓ} (x : Outcome A) (f : A → Outcome B) (g : B → Outcome C)
    → ((x >>= f) >>= g) ≡ (x >>= λ a. f a >>= g)
bind_assoc (ok a) f g = refl
bind_assoc fault f g = refl

pub bind-fault : {A B : Type 0} (x : Outcome A) → ◌>>=◌ {A = A} {B = B} x (λ a. fault) ≡ fault
bind-fault (ok a) = refl
bind-fault fault = refl

-- A value, if there is one, has the property.
pub data OnOk {A : Type 0} (P : A → Type 0) : Outcome A → Type 0 where
  on_ok : (a : A) → P a → OnOk P (ok a)
  on_fault : OnOk P fault

pub OnOk-bind :
    {A B : Type 0} {P : A → Type 0} {Q : B → Type 0} (x : Outcome A) (f : A → Outcome B)
    → OnOk P x
    → ((a : A) → P a → OnOk Q (f a))
    → OnOk Q (x >>= f)
OnOk-bind _ f (on_ok a p) h = h a p
OnOk-bind _ f on_fault h = on_fault

pub OnOk-all :
    {A B : Type 0} {Q : B → Type 0} (x : Outcome A) (f : A → Outcome B)
    → ((a : A) → OnOk Q (f a))
    → OnOk Q (x >>= f)
OnOk-all (ok a) f h = h a
OnOk-all fault f h = on_fault

pub OnOk-if :
    {A : Type 0} {P : A → Type 0} (b : Bool) (x y : Outcome A)
    → OnOk P x
    → OnOk P y
    → OnOk P (if b then x else y)
OnOk-if true x y hx hy = hx
OnOk-if false x y hx hy = hy

pub OnOk-elim :
    {A B : Type 0} {P : A → Type 0} (o : Option B) (x : Outcome A) (f : B → Outcome A)
    → OnOk P x
    → ((b : B) → OnOk P (f b))
    → OnOk P (elim o [ none ↦ x | some b ↦ f b ])
OnOk-elim none x f h g = h
OnOk-elim (some b) x f h g = g b

pub OnOk-weaken :
    {A : Type 0} {P Q : A → Type 0} (x : Outcome A) → ((a : A) → P a → Q a) → OnOk P x → OnOk Q x
OnOk-weaken _ h (on_ok a p) = on_ok a (h a p)
OnOk-weaken _ h on_fault = on_fault

-- What a value that is there has.
pub OnOk-inv : {A : Type 0} {P : A → Type 0} {x : Outcome A} {a : A} → OnOk P x → x ≡ ok a → P a
OnOk-inv {A} {P} (on_ok b p) e = subst P (ap (λ o. elim o as (λ o. A) [ ok v ↦ v | fault ↦ b ]) e) p
OnOk-inv on_fault e = cc
