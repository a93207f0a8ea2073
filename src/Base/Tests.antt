-- ===== src/Base/Tests.antt =====
-- Boolean tests on the native numbers and on types with decidable equality, and the conditional.
use Prim.Native.Nat.{ℕ, ◌≤◌, ◌<◌, compare, Ordering}
use Prim.Native.String.{String}
use mathlib.Core.Path.{◌≡◌, refl}
use mathlib.Core.Logic.{◌↔◌, ◌⊎◌, inl, inr}
use mathlib.Core.Bool.{Bool, true, false, false≢true}
use mathlib.Core.Option.{Option, none, some}
use native.Mathlib.Omega.{arith}
use text.Mathlib.Text.{◌==◌ as text_eq}
use text.Mathlib.TextEquality.{eq_iff}

abbrev pub ltb : ℕ → ℕ → Bool
ltb a b = elim (compare a b) [ Ordering.lt ↦ true | _ ↦ false ]

abbrev pub leb : ℕ → ℕ → Bool
leb a b = elim (compare a b) [ Ordering.gt ↦ false | _ ↦ true ]

infix 50 ◌==◌
abbrev pub ◌==◌ : ℕ → ℕ → Bool
a == b = elim (compare a b) [ Ordering.eq ↦ true | _ ↦ false ]

infix 1 if◌then◌else◌
abbrev pub if◌then◌else◌ {ℓ} : {A : Type ℓ} → Bool → A → A → A
if true then x else y = x
if false then x else y = y

pub ltb→lt : (a b : ℕ) → ltb a b ≡ true → a < b
ltb→lt a b h = ground arith

pub lt→ltb : (a b : ℕ) → a < b → ltb a b ≡ true
lt→ltb a b h = ground arith

pub leb→le : (a b : ℕ) → leb a b ≡ true → a ≤ b
leb→le a b h = ground arith

pub ==_iff : (a b : ℕ) → ((a == b) ≡ true) ↔ (a ≡ b)
==_iff a b = ground arith

pub ==-refl : (a : ℕ) → (a == a) ≡ true
==-refl a = ground arith

-- To split on a computed value and keep the equation.
pub Bool-cases : (b : Bool) → (b ≡ true) ⊎ (b ≡ false)
Bool-cases true = inl refl
Bool-cases false = inr refl

pub Option-cases {ℓ} : {A : Type ℓ} (o : Option A) → (o ≡ none) ⊎ ((a : A) × (o ≡ some a))
Option-cases none = inl refl
Option-cases (some a) = inr (a, refl)

abbrev pub is_some {ℓ} : {A : Type ℓ} → Option A → Bool
is_some none = false
is_some (some a) = true

-- `a == b` at a type with decidable equality, as `derive(PartialEq)` gives it.
module _ {ℓ} {A : Type ℓ} where
  unfoldable pub eqb : Discrete A → A → A → Bool
  eqb d a b = elim (d a b) [ yes _ ↦ true | no _ ↦ false ]

  pub eqb_refl : (d : Discrete A) (a : A) → eqb d a a ≡ true
  unfolding eqb
  eqb_refl d a = elim (d a a) as (λ x. (elim x [ yes _ ↦ true | no _ ↦ false ]) ≡ true) [
    | yes _ ↦ refl
    | no n ↦ absurd (n refl)
  ]

  pub eq_of_eqb : (d : Discrete A) (a b : A) → eqb d a b ≡ true → a ≡ b
  unfolding eqb
  eq_of_eqb d a b = elim (d a b) as (λ x. (elim x [ yes _ ↦ true | no _ ↦ false ]) ≡ true → a ≡ b) [
    | yes p ↦ λ _. p
    | no _ ↦ λ h. absurd (false≢true h)
  ]

decide_text : (s t : String) → (text_eq s t ≡ true) ⊎ (text_eq s t ≡ false) → Dec (s ≡ t)
decide_text s t (inl h) = yes ((eq_iff s t).0 h)
decide_text s t (inr h) = no (λ p. cc ((eq_iff s t).1 p))

unfoldable pub String-discrete : Discrete String
unfolding decide_text Bool-cases
String-discrete s t = decide_text s t (Bool-cases (text_eq s t))
