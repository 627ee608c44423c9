-- ===== src/Syncer/Answers.antt =====
-- internal/syncer/service.go: what is known when a method has returned a value.
use gpt_owu_bridge.Base.{String, ◌≡◌, refl, Bool, true, false, Result, ok, err, arith}
use gpt_owu_bridge.Domain.{Time}
use gpt_owu_bridge.Storage.Types.{OperationRecord}
use gpt_owu_bridge.Storage.Tables.{Db}
use gpt_owu_bridge.Storage.Operations.{Failure}
use gpt_owu_bridge.Syncer.Types.{Outcome, Service, World}
use gpt_owu_bridge.Syncer.Exec.{
  Exec, continue, pure, stop, ◌>>=◌, faulty, answered, try_store, ask_store,
}
use gpt_owu_bridge.Syncer.Moves.{unknown_operation, unknown_if}
use gpt_owu_bridge.Syncer.Asking.{faulty-ok}

module _ {Bytes R : Type 0} where
  continue-elim {ℓ κ μ} :
      {A : Type ℓ} {B : Type κ} {Q : Type μ} (r : Result Outcome A) (f : A → Exec Bytes R B)
      (w : World Bytes R) {b : B}
      → (continue r f w).0 ≡ ok b
      → ((a : A) → r ≡ ok a → (f a w).0 ≡ ok b → Q)
      → Q
  continue-elim (ok a) f w h k = k a refl h
  continue-elim (err o) f w h k = absurd (cc)

  -- A block that has returned has gone through its first part.
  pub bind-elim {ℓ κ μ} :
      {A : Type ℓ} {B : Type κ} {Q : Type μ} (m : Exec Bytes R A) (f : A → Exec Bytes R B)
      (w : World Bytes R) {b : B}
      → ((m >>= f) w).0 ≡ ok b
      → ((a : A) → (m w).0 ≡ ok a → (f a (m w).1).0 ≡ ok b → Q)
      → Q
  unfolding ◌>>=◌
  bind-elim m f w h k = continue-elim (m w).0 f (m w).1 h k

  pub stop-never {ℓ} :
      {A : Type ℓ} (o : Outcome) (w : World Bytes R) {a : A} → (stop o w).0 ≡ ok a → ⊥
  unfolding stop
  stop-never o w h = absurd (cc)

  pub pure-returns {ℓ} :
      {A : Type ℓ} (a : A) (w : World Bytes R) {b : A} → (pure a w).0 ≡ ok b → a ≡ b
  unfolding pure
  pure-returns a w h = ground arith

module _ {Bytes R : Type 0} (s : Service Bytes R) where
  pub unknown_operation-never {ℓ} :
      {A : Type ℓ} (r : OperationRecord) (code message : String) (w : World Bytes R) {a : A}
      → (unknown_operation s r code message w).0 ≡ ok a
      → ⊥
  unfolding unknown_operation
  unknown_operation-never r code message w h = bind-elim _ _ w h λ updated _ h₁. stop-never _ _ h₁

  -- A check that let the method go on.
  pub unknown_if-passed :
      (b : Bool) (r : OperationRecord) (code message : String) (w : World Bytes R) {u : Unit {0}}
      → (unknown_if s b r code message w).0 ≡ ok u
      → b ≡ false
  unknown_if-passed true r code message w h = absurd (unknown_operation-never r code message w h)
  unknown_if-passed false r code message w h = refl

  answered-passed {ℓ} :
      {A : Type ℓ} (o : Failure → Outcome) (r : Result Failure A) (w : World Bytes R) {a : A}
      → (answered s o r w).0 ≡ ok a
      → (r ≡ ok a) × ((answered s o r w).1 ≡ w)
  unfolding pure stop
  answered-passed o (ok b) w h = (ground arith, refl)
  answered-passed o (err e) w h = absurd (cc)

  -- A call of the store that has returned has worked.
  pub ask_store-worked {ℓ} :
      {A : Type ℓ} (o : Failure → Outcome) (f : Time → Db Bytes → Result Failure (A × Db Bytes))
      (w : World Bytes R) {a : A}
      → (ask_store s o f w).0 ≡ ok a
      → (now : Time) × (f now w.db ≡ ok (a, (ask_store s o f w).1.db))
  unfolding ask_store ◌>>=◌ try_store
  ask_store-worked o f w {a} h =
      let (t, r) = s.environment.now w.remote in
      let (fault, r') = s.environment.fault r in
      let w' : World Bytes R = (try_store s f w).1 in
      let (worked, same) = answered-passed o (faulty fault w.db (f t w.db)).0 w' h in
      (t, rw same (faulty-ok fault w.db (f t w.db) a worked))
