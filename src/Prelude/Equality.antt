-- ===== src/Prelude/Equality.antt =====
-- Equality of keys as an interface: one operator for every type that has an instance.
use Prim.Native.Nat.{ℕ}
use mathlib.Core.Path.{◌≡◌, refl}
use mathlib.Core.Logic.{◌↔◌, ◌⊎◌, inl, inr}
use mathlib.Core.Bool.{Bool, true, false, ◌&&◌}
use mathlib.Core.List.{List, [], ◌∷◌}
use native.Mathlib.Omega.{arith}
use relaytv.Prelude.Tests.{◌==◌, ==_iff, Bool-cases}

pub record Eq {ℓ} (A : Type ℓ) : Type ℓ where
  pub beq : A → A → Bool
  pub beq_iff : (a b : A) → (beq a b ≡ true) ↔ (a ≡ b)

infix 50 ◌≟◌
abbrev pub ◌≟◌ {ℓ} : {A : Type ℓ} ⦃e : Eq A⦄ → A → A → Bool
◌≟◌ ⦃e⦄ = e.beq

module _ {ℓ} {A : Type ℓ} ⦃e : Eq A⦄ where
  pub ≟_iff : (a b : A) → ((a ≟ b) ≡ true) ↔ (a ≡ b)
  ≟_iff a b = e.beq_iff a b

  pub ≟_refl : (a : A) → (a ≟ a) ≡ true
  ≟_refl a = (e.beq_iff a a).1 refl

  unfoldable pub contains : List A → A → Bool
  contains [] a = false
  contains (x ∷ xs) a = let rest = contains xs a in elim (x ≟ a) [ true ↦ true | false ↦ rest ]

-- A member of a list, as a sum of equations.
abbrev pub OneOf : {A : Type 0} → List A → A → Type 0
OneOf [] a = ⊥
OneOf (x ∷ xs) a = (x ≡ a) ⊎ OneOf xs a

pub contains-OneOf :
    {A : Type 0} ⦃e : Eq A⦄ (xs : List A) (a : A) → (contains xs a ≡ true) ↔ OneOf xs a
unfolding contains
contains-OneOf [] a = (λ h. absurd cc, λ h. absurd h)
contains-OneOf (x ∷ xs) a = elim (Bool-cases (x ≟ a)) [
  | inl e ↦ rw (e, contains) (λ h. inl ((≟_iff x a).0 e), λ h. refl)
  | inr e ↦
      rw (e, contains)
        (
          λ h. inr ((contains-OneOf xs a).0 h),
          λ h. elim h [
            | inl same ↦ let equal = (≟_iff x a).1 same in absurd cc
            | inr later ↦ (contains-OneOf xs a).1 later
          ],
        )
]

abbrev pub nat_beq : ℕ → ℕ → Bool
nat_beq a b = a == b

instance abbrev pub nat_eq : Eq ℕ
nat_eq = record { beq = nat_beq; beq_iff = ==_iff }

unfoldable pub codes_beq : List ℕ → List ℕ → Bool
codes_beq [] [] = true
codes_beq [] (y ∷ ys) = false
codes_beq (x ∷ xs) [] = false
codes_beq (x ∷ xs) (y ∷ ys) = x == y && codes_beq xs ys

pub codes_beq_iff : (xs ys : List ℕ) → (codes_beq xs ys ≡ true) ↔ (xs ≡ ys)
unfolding codes_beq
codes_beq_iff [] [] = ground arith
codes_beq_iff [] (y ∷ ys) = ground arith
codes_beq_iff (x ∷ xs) [] = ground arith
codes_beq_iff (x ∷ xs) (y ∷ ys) = ground (arith, codes_beq_iff xs ys)

instance abbrev pub codes_eq : Eq (List ℕ)
codes_eq = record { beq = codes_beq; beq_iff = codes_beq_iff }
