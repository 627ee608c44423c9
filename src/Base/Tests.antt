-- ===== src/Base/Tests.antt =====
-- Boolean tests: equality by decisions, for every type with an instance, and order on numbers.
use Prim.Native.Nat.{ℕ, compare, Ordering}
use Prim.Native.String.{String}
use mathlib.Core.Path.{◌≡◌, refl}
use mathlib.Core.Logic.{◌≢◌, ◌⊎◌, inl, inr}
use mathlib.Core.Bool.{Bool, true, false, Bool-discrete}
use mathlib.Core.List.{List}
use mathlib.Core.Option.{Option, none, some}
use native.Mathlib.Omega.{arith}
use native.Mathlib.Decide.{ℕ_discrete}
use text.Mathlib.Text.{◌==◌ as text_test}
use text.Mathlib.TextEquality.{eq_iff}

infix 1 if◌then◌else◌
abbrev pub if◌then◌else◌ {ℓ} : {A : Type ℓ} → Bool → A → A → A
if true then x else y = x
if false then x else y = y

pub Bool-cases : (b : Bool) → (b ≡ true) ⊎ (b ≡ false)
Bool-cases true = inl refl
Bool-cases false = inr refl

pub Option-cases {ℓ} : {A : Type ℓ} (o : Option A) → (o ≡ none) ⊎ ((a : A) × (o ≡ some a))
Option-cases none = inl refl
Option-cases (some a) = inr (a, refl)

pub differ : (s t : String) → text_test s t ≡ false → s ≢ t
differ s t h = ground (arith, eq_iff s t)

-- Two texts are equal or not, by comparison.
unfoldable pub Text-discrete : Discrete String
Text-discrete s t =
    elim (text_test s t) as (λ b. text_test s t ≡ b → Dec (s ≡ t)) [
      | true ↦ λ e. yes ((eq_iff s t).0 e)
      | false ↦ λ e. no (differ s t e)
    ]
      refl

-- Go's `==` on the values of a type.
pub record Eq {ℓ} (A : Type ℓ) : Type ℓ where
  pub same : Discrete A

infix 50 ◌==◌
abbrev pub ◌==◌ {ℓ} : {A : Type ℓ} ⦃e : Eq A⦄ → A → A → Bool
◌==◌ ⦃e⦄ a b = elim (e.same a b) [ yes _ ↦ true | no _ ↦ false ]

instance abbrev pub nat_eq : Eq ℕ
nat_eq = record { same = ℕ_discrete }

instance abbrev pub text_eq : Eq String
text_eq = record { same = Text-discrete }

abbrev pub ltb : ℕ → ℕ → Bool
ltb a b = elim (compare a b) [ Ordering.lt ↦ true | _ ↦ false ]

abbrev pub leb : ℕ → ℕ → Bool
leb a b = elim (compare a b) [ Ordering.gt ↦ false | _ ↦ true ]

pub Optional_nat-discrete : Discrete (Option ℕ)
Optional_nat-discrete = hlevel ℕ_discrete

unfoldable pub Texts-discrete : Discrete (List String)
Texts-discrete = hlevel Text-discrete

instance abbrev pub bool_eq : Eq Bool
bool_eq = record { same = Bool-discrete }

-- `slices.Equal` on slices of strings.
instance abbrev pub texts_eq : Eq (List String)
texts_eq = record { same = Texts-discrete }

-- The two directions of a test, for a value of any type.
module _ {ℓ} {A : Type ℓ} ⦃e : Eq A⦄ (a b : A) where
  pub ==→eq : (a == b) ≡ true → a ≡ b
  ==→eq h = ground arith

  pub eq→== : a ≡ b → (a == b) ≡ true
  eq→== h = ground arith

  pub ne→== : a ≢ b → (a == b) ≡ false
  ne→== h = ground arith
