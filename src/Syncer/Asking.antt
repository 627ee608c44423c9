-- ===== src/Syncer/Asking.antt =====
-- internal/syncer/service.go: what a call of the store leaves, whatever fault it meets.
use gpt_owu_bridge.Base.{◌≡◌, refl, Result, ok, err, arith}
use gpt_owu_bridge.Domain.{Time}
use gpt_owu_bridge.Storage.Tables.{Db}
use gpt_owu_bridge.Storage.Operations.{Failure}
use gpt_owu_bridge.Storage.Updated.{Advanced}
use gpt_owu_bridge.Syncer.Types.{Outcome, Fault, none_met, lost, unreported, Service, World}
use gpt_owu_bridge.Syncer.Exec.{Exec, pure, stop, ◌>>=◌, faulty, answered, try_store, ask_store}
use gpt_owu_bridge.Syncer.Safe.{Safe, Safe-pure, Safe-stop, Safe-bind, Stable}

module _ {ℓ} {Bytes : Type 0} {A : Type ℓ} where
  -- A fault leaves the database as it was, or as the call has made it.
  faulty-left :
      (Q : Db Bytes → Type 0) (fault : Fault) (db : Db Bytes) (r : Result Failure (A × Db Bytes))
      → Q db
      → ((a : A) (db' : Db Bytes) → r ≡ ok (a, db') → Q db')
      → Q (faulty fault db r).1
  faulty-left Q none_met db (ok (a, db')) h k = k a db' refl
  faulty-left Q none_met db (err e) h k = h
  faulty-left Q lost db r h k = h
  faulty-left Q unreported db (ok (a, db')) h k = k a db' refl
  faulty-left Q unreported db (err e) h k = h

  -- A call that reports its success has it.
  pub faulty-ok :
      (fault : Fault) (db : Db Bytes) (r : Result Failure (A × Db Bytes)) (a : A)
      → (faulty fault db r).0 ≡ ok a
      → r ≡ ok (a, (faulty fault db r).1)
  faulty-ok none_met db (ok (b, db')) a h = ground arith
  faulty-ok none_met db (err e) a h = absurd (ground arith)
  faulty-ok lost db r a h = absurd (ground arith)
  faulty-ok unreported db (ok (b, db')) a h = absurd (ground arith)
  faulty-ok unreported db (err e) a h = absurd (ground arith)

module _ {Bytes R : Type 0} (s : Service Bytes R) where
  answered-next {ℓ κ} :
      {A : Type ℓ} {B : Type κ} (o : Failure → Outcome) (r : Result Failure A)
      (k : A → Exec Bytes R B) (w : World Bytes R) (Q : World Bytes R → Type 0)
      → Q w
      → ((a : A) → r ≡ ok a → Q (k a w).1)
      → Q ((answered s o r >>= k) w).1
  unfolding ◌>>=◌ pure stop
  answered-next o (ok a) k w Q h f = f a refl
  answered-next o (err e) k w Q h f = h

module _ {Bytes R : Type 0} (s : Service Bytes R) {P : World Bytes R → Type 0}
    (stable : Stable s.installation P) where
  -- A call that keeps the evidence.
  abbrev pub Harmless {ℓ} :
      {A : Type ℓ} → (Time → Db Bytes → Result Failure (A × Db Bytes)) → Type ℓ
  Harmless {A} f =
      (now : Time) (db : Db Bytes) (a : A) (db' : Db Bytes)
      → f now db ≡ ok (a, db')
      → Advanced s.installation db db'

  pub Safe-try_store {ℓ} :
      {A : Type ℓ} (f : Time → Db Bytes → Result Failure (A × Db Bytes))
      → Harmless f
      → Safe P (try_store s f)
  unfolding try_store
  Safe-try_store f harmless = record {
    at = λ w h.
        let (t, r) = s.environment.now w.remote in
        let (fault, r') = s.environment.fault r in
        faulty-left (λ db. P (record w { db = db; remote = r' })) fault w.db (f t w.db)
          (stable.elsewhere w r' h) λ a db' e. stable.advanced w db' r' (harmless t w.db a db' e) h;
  }

  Safe-answered {ℓ} :
      {A : Type ℓ} (o : Failure → Outcome) (r : Result Failure A) → Safe P (answered s o r)
  Safe-answered o (ok a) = Safe-pure a
  Safe-answered o (err e) = Safe-stop (o e)

  pub Safe-ask_store {ℓ} :
      {A : Type ℓ} (o : Failure → Outcome) (f : Time → Db Bytes → Result Failure (A × Db Bytes))
      → Harmless f
      → Safe P (ask_store s o f)
  unfolding ask_store
  Safe-ask_store o f harmless =
      Safe-bind (try_store s f) (answered s o) (Safe-try_store f harmless) (Safe-answered o)

  -- What follows a call knows that the call has worked, on the database that it found.
  pub ask_store-next {ℓ κ} :
      {A : Type ℓ} {B : Type κ} (o : Failure → Outcome)
      (f : Time → Db Bytes → Result Failure (A × Db Bytes)) (k : A → Exec Bytes R B)
      (w : World Bytes R) (Q : World Bytes R → Type 0)
      → Harmless f
      → P w
      → ((w' : World Bytes R) → P w' → Q w')
      → ((a : A) (now : Time) (w' : World Bytes R)
          → f now w.db ≡ ok (a, w'.db)
          → w'.sent ≡ w.sent
          → P w'
          → Q (k a w').1)
      → Q ((ask_store s o f >>= k) w).1
  unfolding ask_store ◌>>=◌ try_store
  ask_store-next o f k w Q harmless h weaken next =
      let (t, r) = s.environment.now w.remote in
      let (fault, r') = s.environment.fault r in
      let w' : World Bytes R = (try_store s f w).1 in
      let kept : P w' = (Safe-try_store f harmless).at w h in
      answered-next s o (faulty fault w.db (f t w.db)).0 k w' Q (weaken w' kept)
        λ a e. next a t w' (faulty-ok fault w.db (f t w.db) a e) refl kept
