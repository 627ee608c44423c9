-- ===== src/Base/Fallible.antt =====
-- Go's `(value, error)` results, and the chain of early returns.
use mathlib.Core.Path.{◌≡◌, refl}
use mathlib.Core.Bool.{Bool, true, false}

pub data Result {ℓ κ} (E : Type ℓ) (A : Type κ) : Type (ℓ ⊔ κ) where
  ok : A → Result E A
  err : E → Result E A

infixl 5 ◌>>=◌ ◌>>◌
abbrev pub ◌>>=◌ {ℓ κ μ} :
    {E : Type ℓ} {A : Type κ} {B : Type μ} → Result E A → (A → Result E B) → Result E B
ok a >>= f = f a
err e >>= f = err e

abbrev pub ◌>>◌ {ℓ μ} : {E : Type ℓ} {B : Type μ} → Result E (Unit {0}) → Result E B → Result E B
m >> k = m >>= λ _. k

-- `if test { return e }`.
abbrev pub refuse_if {ℓ} : {E : Type ℓ} → Bool → E → Result E (Unit {0})
refuse_if true e = err e
refuse_if false e = ok tt

-- What follows from the parts of a chain that succeeds; it takes them as variables.
pub >>=-elim {ℓ κ μ ν} :
    {E : Type ℓ} {A : Type κ} {B : Type μ} {P : Type ν} (m : Result E A) (f : A → Result E B)
    {b : B}
    → (m >>= f) ≡ ok b
    → ((a : A) → m ≡ ok a → f a ≡ ok b → P)
    → P
>>=-elim (ok a) f h k = k a refl h
>>=-elim (err e) f h k = absurd (cc)

-- The parts themselves.
pub >>=-eq-ok {ℓ κ μ} :
    {E : Type ℓ} {A : Type κ} {B : Type μ} (first : Result E A) (rest : A → Result E B) {out : B}
    → (first >>= rest) ≡ ok out
    → (mid : A) × (first ≡ ok mid) × (rest mid ≡ ok out)
>>=-eq-ok first rest passed = >>=-elim first rest passed λ mid p q. (mid, p, q)

-- A check that did not refuse.
pub refused-elim {ℓ κ ν} :
    {E : Type ℓ} {B : Type κ} {P : Type ν} (b : Bool) (e : E) (f : Unit {0} → Result E B) {r : B}
    → (refuse_if b e >>= f) ≡ ok r
    → (b ≡ false → f tt ≡ ok r → P)
    → P
refused-elim true e f h k = absurd (cc)
refused-elim false e f h k = k refl h

pub refuse_if-passed {ℓ} :
    {E : Type ℓ} (b : Bool) (e : E) {u : Unit {0}} → refuse_if b e ≡ ok u → b ≡ false
refuse_if-passed true e h = absurd (cc)
refuse_if-passed false e h = refl

pub >>-elim {ℓ κ ν} :
    {E : Type ℓ} {B : Type κ} {P : Type ν} (m : Result E (Unit {0})) (k : Result E B) {b : B}
    → (m >> k) ≡ ok b
    → (m ≡ ok tt → k ≡ ok b → P)
    → P
>>-elim (ok a) k h f = f refl h
>>-elim (err e) k h f = absurd (cc)
