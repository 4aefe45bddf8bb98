-- ===== src/Prelude/Tests.antt =====
-- Boolean tests on the native numbers, and the conditional.
use Prim.Native.Nat.{ℕ, ◌≤◌, ◌<◌, compare, Ordering}
use mathlib.Core.Path.{◌≡◌, refl}
use mathlib.Core.Logic.{◌↔◌, ◌⊎◌, inl, inr}
use mathlib.Core.Bool.{Bool, true, false, not, ◌&&◌}
use native.Mathlib.Omega.{arith}

abbrev pub ltb : ℕ → ℕ → Bool
ltb a b = elim (compare a b) [ Ordering.lt ↦ true | _ ↦ false ]

abbrev pub leb : ℕ → ℕ → Bool
leb a b = elim (compare a b) [ Ordering.gt ↦ false | _ ↦ true ]

abbrev pub nat_beq : ℕ → ℕ → Bool
nat_beq a b = elim (compare a b) [ Ordering.eq ↦ true | _ ↦ false ]

infix 1 if◌then◌else◌
abbrev pub if◌then◌else◌ {ℓ} : {A : Type ℓ} → Bool → A → A → A
if true then x else y = x
if false then x else y = y

pub nat_beq_iff : (a b : ℕ) → (nat_beq a b ≡ true) ↔ (a ≡ b)
nat_beq_iff a b = ground arith

pub leb→le : (a b : ℕ) → leb a b ≡ true → a ≤ b
leb→le a b h = ground arith

pub leb-false→lt : (a b : ℕ) → leb a b ≡ false → b < a
leb-false→lt a b h = ground arith

-- A split on a computed test that keeps the equation.
pub Bool-cases : (b : Bool) → (b ≡ true) ⊎ (b ≡ false)
Bool-cases true = inl refl
Bool-cases false = inr refl

pub true_of_&& : (a b : Bool) → (a && b) ≡ true → (a ≡ true) × (b ≡ true)
true_of_&& a b h = ground arith

pub false_of_not : (b : Bool) → not b ≡ true → b ≡ false
false_of_not b h = ground arith
