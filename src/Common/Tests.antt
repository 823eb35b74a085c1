-- ===== src/Common/Tests.antt =====
-- Boolean tests on the native numbers, the conditional, and the `Option` chain of fallible steps.
use Prim.Native.Nat.{ℕ, compare, Ordering}
use mathlib.Core.Path.{◌≡◌, refl}
use mathlib.Core.Logic.{◌↔◌, ◌⊎◌, inl, inr}
use mathlib.Core.Bool.{Bool, true, false}
use mathlib.Core.Option.{Option, none, some}
use native.Mathlib.Omega.{arith}

abbrev pub ltb : ℕ → ℕ → Bool
ltb a b = elim (compare a b) [ Ordering.lt ↦ true | _ ↦ false ]

abbrev pub leb : ℕ → ℕ → Bool
leb a b = elim (compare a b) [ Ordering.gt ↦ false | _ ↦ true ]

infix 50 ◌==◌
abbrev pub ◌==◌ : ℕ → ℕ → Bool
a == b = elim (compare a b) [ Ordering.eq ↦ true | _ ↦ false ]

infix 1 if◌then◌else◌
abbrev pub if◌then◌else◌ {ℓ} : {A : Type ℓ} → Bool → A → A → A
if true then x else y = x
if false then x else y = y

pub ==_iff : (a b : ℕ) → ((a == b) ≡ true) ↔ (a ≡ b)
==_iff a b = ground arith

-- The two cases of a computed test or result, with the equation kept.
pub Bool-cases : (b : Bool) → (b ≡ true) ⊎ (b ≡ false)
Bool-cases true = inl refl
Bool-cases false = inr refl

pub Option-cases {ℓ} : {A : Type ℓ} (o : Option A) → (o ≡ none) ⊎ ((a : A) × (o ≡ some a))
Option-cases none = inl refl
Option-cases (some a) = inr (a, refl)

-- A step that may fault: `none` is undefined behaviour of the source.
infixl 5 ◌>>=◌
abbrev pub ◌>>=◌ {ℓ κ} : {A : Type ℓ} {B : Type κ} → Option A → (A → Option B) → Option B
none >>= f = none
some a >>= f = f a

-- The run ends normally, in a value that satisfies `P`.
abbrev pub Returns {ℓ κ} : {A : Type ℓ} → Option A → (A → Type κ) → Type (ℓ ⊔ κ)
Returns {A} r P = (a : A) × (r ≡ some a) × P a

-- The conditional once its test is known.
module _ {ℓ} {A : Type ℓ} {b : Bool} where
  pub pick_then : (x y : A) → b ≡ true → (if b then x else y) ≡ x
  pick_then x y e = rw e

  pub pick_else : (x y : A) → b ≡ false → (if b then x else y) ≡ y
  pick_else x y e = rw e
