-- ===== src/Prelude/Tests.antt =====
-- Boolean tests on native numbers and texts, the conditional, and case splits that keep an equation.
use Prim.Native.Nat.{ℕ, ◌≤◌, ◌<◌, compare, Ordering}
use Prim.Native.String.{String}
use mathlib.Core.Path.{◌≡◌, refl}
use mathlib.Core.Logic.{◌↔◌, ◌⊎◌, inl, inr}
use mathlib.Core.Bool.{Bool, true, false}
use mathlib.Core.Option.{Option, none, some}
use text.Mathlib.Text.{◌==◌ as str_eq}
use text.Mathlib.TextEquality.{eq_iff}
use native.Mathlib.Omega.{arith}

abbrev pub ltb : ℕ → ℕ → Bool
ltb a b = elim (compare a b) [ Ordering.lt ↦ true | _ ↦ false ]

abbrev pub leb : ℕ → ℕ → Bool
leb a b = elim (compare a b) [ Ordering.gt ↦ false | _ ↦ true ]

infix 50 ◌==◌
abbrev pub ◌==◌ : ℕ → ℕ → Bool
a == b = elim (compare a b) [ Ordering.eq ↦ true | _ ↦ false ]

infix 1 if◌then◌else◌
abbrev pub if◌then◌else◌ {ℓ} : {A : Type ℓ} → Bool → A → A → A
if true then x else y = x
if false then x else y = y

pub ltb→lt : (a b : ℕ) → ltb a b ≡ true → a < b
ltb→lt a b h = ground arith

pub leb→le : (a b : ℕ) → leb a b ≡ true → a ≤ b
leb→le a b h = ground arith

pub ==_iff : (a b : ℕ) → ((a == b) ≡ true) ↔ (a ≡ b)
==_iff a b = ground arith

pub Bool-cases : (b : Bool) → (b ≡ true) ⊎ (b ≡ false)
Bool-cases true = inl refl
Bool-cases false = inr refl

pub Option-cases {ℓ} : {A : Type ℓ} (o : Option A) → (o ≡ none) ⊎ ((a : A) × (o ≡ some a))
Option-cases none = inl refl
Option-cases (some a) = inr (a, refl)

-- Equality of texts, as a decision.
unfoldable pub str_dec : Discrete String
unfolding Bool-cases
str_dec s t = elim (Bool-cases (str_eq s t)) [
  | inl h ↦ yes ((eq_iff s t).0 h)
  | inr h ↦ no (λ e. cc ((eq_iff s t).1 e))
]

module _ {A B : Type 0} (dec_a : Discrete A) (dec_b : Discrete B) where
  both : (p q : A × B) → Dec (p.0 ≡ q.0) → Dec (p.1 ≡ q.1) → Dec (p ≡ q)
  both p q (yes e) (yes f) = yes (λ i. (e i, f i))
  both p q (no n) _ = no (λ h. n (λ i. (h i).0))
  both p q (yes e) (no n) = no (λ h. n (λ i. (h i).1))

  -- Equality of pairs, as a decision.
  unfoldable pub pair_dec : Discrete (A × B)
  unfolding both
  pair_dec p q = both p q (dec_a p.0 q.0) (dec_b p.1 q.1)
