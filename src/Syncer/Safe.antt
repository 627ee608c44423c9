-- ===== src/Syncer/Safe.antt =====
-- internal/syncer/service.go: properties of the world that a method keeps, with one rule for each
-- way to build a method.
use gpt_owu_bridge.Base.{
  String, ◌≡◌, refl, Option, none, some, Bool, true, false, Result, ok, err, if◌then◌else◌,
}
use gpt_owu_bridge.Storage.Types.{Installation}
use gpt_owu_bridge.Storage.Tables.{Db}
use gpt_owu_bridge.Storage.Updated.{Advanced}
use gpt_owu_bridge.Syncer.Types.{ServiceError, Outcome, Service, World}
use gpt_owu_bridge.Syncer.Exec.{
  Exec, continue, pure, stop, ◌>>=◌, stop_if, need, read_clock, fresh_id, verify_identity,
  read_target,
}
use gpt_owu_bridge.Syncer.Repository.{check}

-- `m` keeps `P`, whether it returns or stops.
pub record Safe {ℓ} {Bytes R : Type 0} {A : Type ℓ} (P : World Bytes R → Type 0)
    (m : Exec Bytes R A) : Type ℓ where
  pub at : (w : World Bytes R) → P w → P (m w).1

-- What a property has to bear: another state of the rest of the world, and a database in which all
-- evidence is left.
pub record Stable {Bytes R : Type 0} (i : Installation) (P : World Bytes R → Type 0) : Type 0 where
  pub elsewhere : (w : World Bytes R) (r : R) → P w → P (record w { remote = r })
  pub advanced :
      (w : World Bytes R) (db : Db Bytes) (r : R)
      → Advanced i w.db db
      → P w
      → P (record w { db = db; remote = r })

module _ {Bytes R : Type 0} where
  -- What follows a result in a block.
  continued {ℓ κ} :
      {A : Type ℓ} {B : Type κ} (r : Result Outcome A) (f : A → Exec Bytes R B) (w : World Bytes R)
      (Q : World Bytes R → Type 0)
      → Q w
      → ((a : A) → r ≡ ok a → Q (f a w).1)
      → Q (continue r f w).1
  continued (ok a) f w Q h k = k a refl
  continued (err o) f w Q h k = h

module _ {Bytes R : Type 0} {P : World Bytes R → Type 0} where
  pub Safe-pure {ℓ} : {A : Type ℓ} (a : A) → Safe P (pure {Bytes = Bytes} {R = R} a)
  unfolding pure
  Safe-pure a = record { at = λ w h. h }

  pub Safe-stop {ℓ} : {A : Type ℓ} (o : Outcome) → Safe P (stop {Bytes = Bytes} {R = R} {A = A} o)
  unfolding stop
  Safe-stop o = record { at = λ w h. h }

  pub Safe-bind {ℓ κ} :
      {A : Type ℓ} {B : Type κ} (m : Exec Bytes R A) (f : A → Exec Bytes R B)
      → Safe P m
      → ((a : A) → Safe P (f a))
      → Safe P (m >>= f)
  unfolding ◌>>=◌
  Safe-bind m f sm sf = record {
    at = λ w h. continued (m w).0 f (m w).1 P (sm.at w h) λ a _. (sf a).at (m w).1 (sm.at w h);
  }

  pub Safe-if {ℓ} :
      {A : Type ℓ} (b : Bool) (m n : Exec Bytes R A)
      → Safe P m
      → Safe P n
      → Safe P (if b then m else n)
  Safe-if true m n sm sn = sm
  Safe-if false m n sm sn = sn

  pub Safe-need {ℓ} :
      {A : Type ℓ} (a : Option A) (o : Outcome) → Safe P (need {Bytes = Bytes} {R = R} a o)
  Safe-need none o = Safe-stop o
  Safe-need (some a) o = Safe-pure a

  pub Safe-stop_if : (b : Bool) (o : Outcome) → Safe P (stop_if {Bytes = Bytes} {R = R} b o)
  Safe-stop_if true o = Safe-stop o
  Safe-stop_if false o = Safe-pure tt

  pub Safe-option {ℓ κ} :
      {A : Type ℓ} {B : Type κ} (a : Option A) (m : Exec Bytes R B) (f : A → Exec Bytes R B)
      → Safe P m
      → ((x : A) → Safe P (f x))
      → Safe P (elim a [ none ↦ m | some x ↦ f x ])
  Safe-option none m f sm sf = sm
  Safe-option (some a) m f sm sf = sf a

module _ {Bytes R : Type 0} (s : Service Bytes R) {P : World Bytes R → Type 0}
    (stable : Stable s.installation P) where
  pub Safe-check :
      (o : ServiceError → Outcome) (r : Result ServiceError (Unit {0})) → Safe P (check s o r)
  Safe-check o (ok _) = Safe-pure tt
  Safe-check o (err e) = Safe-stop (o e)

  pub Safe-read_clock : Safe P (read_clock s)
  unfolding read_clock
  Safe-read_clock = record { at = λ w h. stable.elsewhere w _ h }

  pub Safe-fresh_id : (prefix : String) → Safe P (fresh_id s prefix)
  unfolding fresh_id
  Safe-fresh_id prefix = record { at = λ w h. stable.elsewhere w _ h }

  pub Safe-verify_identity : Safe P (verify_identity s)
  unfolding verify_identity
  Safe-verify_identity = record { at = λ w h. stable.elsewhere w _ h }

  pub Safe-read_target : (id : String) → Safe P (read_target s id)
  unfolding read_target
  Safe-read_target id = record { at = λ w h. stable.elsewhere w _ h }

pub ruleset safe_rules = (
  Safe-pure, Safe-stop, Safe-bind, Safe-if, Safe-need, Safe-stop_if, Safe-option, Safe-check,
  Safe-read_clock, Safe-fresh_id, Safe-verify_identity, Safe-read_target,
)
