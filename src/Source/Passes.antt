-- ===== src/Source/Passes.antt =====
-- internal/source/chatgpt/parser.go: what is known of a value that a part of the parser returns, with
-- one rule for each way to build the part.
use gpt_owu_bridge.Base.{
  ◌≡◌, refl, subst, Option, none, some, Bool, true, false, Result, ok, err, ◌>>=◌, refuse_if,
  if◌then◌else◌, arith,
}

-- Every value that is returned has the property.
pub record Passes {ℓ κ μ} {E : Type ℓ} {A : Type κ} (P : A → Type μ) (r : Result E A)
    : Type (ℓ ⊔ κ ⊔ μ) where
  pub at : (a : A) → r ≡ ok a → P a

module _ {ℓ κ μ} {E : Type ℓ} {A : Type κ} {P : A → Type μ} where
  pub Passes-ok : (a : A) → P a → Passes {E = E} P (ok a)
  Passes-ok a p = record { at = λ b h. let same : a ≡ b = ground arith in subst P same p }

  pub Passes-err : (e : E) → Passes P (err e)
  Passes-err e = record { at = λ b h. absurd (cc) }

  pub Passes-if :
      (b : Bool) (r q : Result E A) → Passes P r → Passes P q → Passes P (if b then r else q)
  Passes-if true r q pr pq = pr
  Passes-if false r q pr pq = pq

  pub Passes-option {ν} :
      {B : Type ν} (o : Option B) (r : Result E A) (f : B → Result E A)
      → Passes P r
      → ((b : B) → Passes P (f b))
      → Passes P (elim o [ none ↦ r | some b ↦ f b ])
  Passes-option none r f pr pf = pr
  Passes-option (some b) r f pr pf = pf b

  pub Passes-bind {ν} :
      {B : Type ν} (m : Result E B) (f : B → Result E A)
      → ((b : B) → m ≡ ok b → Passes P (f b))
      → Passes P (m >>= f)
  Passes-bind (ok b) f pf = pf b refl
  Passes-bind (err e) f pf = Passes-err e

  pub Passes-refuse :
      (b : Bool) (e : E) (f : Unit {0} → Result E A)
      → (b ≡ false → Passes P (f tt))
      → Passes P (refuse_if b e >>= f)
  Passes-refuse true e f pf = Passes-err e
  Passes-refuse false e f pf = pf refl

pub ruleset passes_rules = (Passes-ok, Passes-err, Passes-if, Passes-option, Passes-bind)
