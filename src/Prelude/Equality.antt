-- ===== src/Prelude/Equality.antt =====
-- The equality test of keys and identifiers: an interface, and an instance for each type that the
-- program compares.
use Prim.Native.Nat.{ℕ}
use Prim.Native.String.{String}
use text.Mathlib.Text.{◌==◌ as str_eq}
use text.Mathlib.TextEquality.{eq_iff}
use mathlib.Core.Path.{◌≡◌, refl, sym, ap}
use mathlib.Core.Logic.{◌≢◌, ◌↔◌, inl, inr}
use mathlib.Core.Bool.{Bool, true, false, ◌&&◌}
use mathlib.Core.Option.{Option, none, some}
use native.Mathlib.Omega.{arith}
use ai_researcher.Prelude.Tests.{nat_beq, nat_beq_iff, Bool-cases, true_of_&&}

pub record Comparable {ℓ} (A : Type ℓ) : Type ℓ where
  pub equal : A → A → Bool
  pub equal_iff : (a b : A) → (equal a b ≡ true) ↔ (a ≡ b)

infix 50 ◌==◌
abbrev pub ◌==◌ {ℓ} : {A : Type ℓ} ⦃e : Comparable A⦄ → A → A → Bool
◌==◌ ⦃e⦄ = e.equal

instance abbrev pub nat_eq : Comparable ℕ
nat_eq = record { equal_iff = nat_beq_iff; equal = nat_beq }

instance abbrev pub string_eq : Comparable String
string_eq = record { equal_iff = eq_iff; equal = str_eq }

module _ {ℓ κ} {A : Type ℓ} {B : Type κ} ⦃e : Comparable A⦄ ⦃f : Comparable B⦄ where
  abbrev pub pair_beq : A × B → A × B → Bool
  pair_beq p q = e.equal p.0 q.0 && f.equal p.1 q.1

  pub pair_beq_iff : (p q : A × B) → (pair_beq p q ≡ true) ↔ (p ≡ q)
  pair_beq_iff (a, b) (c, d) = (
    λ h.
        let both = true_of_&& (e.equal a c) (f.equal b d) h in
        λ i. ((e.equal_iff a c).0 both.0 i, (f.equal_iff b d).0 both.1 i),
    λ p. ground (
      arith,
      (e.equal_iff a c).1 (ap (λ (r : A × B). r.0) p),
      (f.equal_iff b d).1 (ap (λ (r : A × B). r.1) p),
    ),
  )

  instance abbrev pub pair_eq : Comparable (A × B)
  pair_eq = record { equal_iff = pair_beq_iff; equal = pair_beq }

module _ {ℓ} {A : Type ℓ} ⦃e : Comparable A⦄ where
  abbrev pub option_beq : Option A → Option A → Bool
  option_beq none none = true
  option_beq (some a) (some b) = e.equal a b
  option_beq _ _ = false

  pub option_beq_iff : (p q : Option A) → (option_beq p q ≡ true) ↔ (p ≡ q)
  option_beq_iff none none = (λ h. refl, λ h. refl)
  option_beq_iff none (some b) = (λ h. cc, λ h. cc)
  option_beq_iff (some a) none = (λ h. cc, λ h. cc)
  option_beq_iff (some a) (some b) =
      (λ h. ap some ((e.equal_iff a b).0 h), λ h. (e.equal_iff a b).1 (cc))

  instance abbrev pub option_eq : Comparable (Option A)
  option_eq = record { equal_iff = option_beq_iff; equal = option_beq }

  pub beq_self : (a : A) → (a == a) ≡ true
  beq_self a = (e.equal_iff a a).1 refl

  pub eq_of_beq : (a b : A) → (a == b) ≡ true → a ≡ b
  eq_of_beq a b h = (e.equal_iff a b).0 h

  pub ne_of_beq : (a b : A) → (a == b) ≡ false → a ≢ b
  ne_of_beq a b h p = cc ((e.equal_iff a b).1 p)

  pub beq_comm : (a b : A) → (a == b) ≡ (b == a)
  beq_comm a b = elim (Bool-cases (b == a)) [
    | inl h ↦ ground (arith, eq_of_beq b a h, (e.equal_iff a b).1, beq_self a)
    | inr h ↦ elim (Bool-cases (a == b)) [
      | inl k ↦ absurd (ne_of_beq b a h (sym (eq_of_beq a b k)))
      | inr k ↦ ground arith
    ]
  ]
