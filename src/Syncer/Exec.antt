-- ===== src/Syncer/Exec.antt =====
-- internal/syncer/service.go: how its methods run. A method threads the world and may return early
-- with an error; what it did before stays done.
use gpt_owu_bridge.Base.{String, ◌∷◌, Option, none, some, Bool, Result, ok, err, if◌then◌else◌}
use gpt_owu_bridge.Domain.{Time}
use gpt_owu_bridge.Storage.Types.{refused}
use gpt_owu_bridge.Storage.Tables.{Db}
use gpt_owu_bridge.Storage.Operations.{Failure, failure}
use gpt_owu_bridge.Owu.{
  Snapshot, Identity, OwuCreateRequest, CreateReceipt, UpdateRequest, UpdateReceipt, WriteError,
}
use gpt_owu_bridge.Syncer.Types.{
  Outcome, Fault, none_met, lost, unreported, Service, created, updated, World,
}

abbrev pub Exec {ℓ} : Type 0 → Type 0 → Type ℓ → Type ℓ
Exec Bytes R A = World Bytes R → Result Outcome A × World Bytes R

module _ {Bytes R : Type 0} where
  unfoldable pub pure {ℓ} : {A : Type ℓ} → A → Exec Bytes R A
  pure a w = (ok a, w)

  -- `return operation, err`.
  unfoldable pub stop {ℓ} : {A : Type ℓ} → Outcome → Exec Bytes R A
  stop o w = (err o, w)

  abbrev pub continue {ℓ κ} :
      {A : Type ℓ} {B : Type κ} → Result Outcome A → (A → Exec Bytes R B) → Exec Bytes R B
  continue (ok a) f w = f a w
  continue (err o) f w = (err o, w)

  infixl 5 ◌>>=◌ ◌>>◌
  unfoldable pub ◌>>=◌ {ℓ κ} :
      {A : Type ℓ} {B : Type κ} → Exec Bytes R A → (A → Exec Bytes R B) → Exec Bytes R B
  ◌>>=◌ m f w = let (r, w') = m w in continue r f w'

  abbrev pub ◌>>◌ {κ} : {B : Type κ} → Exec Bytes R (Unit {0}) → Exec Bytes R B → Exec Bytes R B
  m >> n = m >>= λ _. n

  -- `if test { return operation, err }`.
  abbrev pub stop_if : Bool → Outcome → Exec Bytes R (Unit {0})
  stop_if b o = if b then stop o else pure tt

  -- A value, or an early return where there is none.
  abbrev pub need {ℓ} : {A : Type ℓ} → Option A → Outcome → Exec Bytes R A
  need none o = stop o
  need (some a) o = pure a

  abbrev pub lift {ℓ} : {A : Type ℓ} → Result Outcome A → Exec Bytes R A
  lift (ok a) = pure a
  lift (err o) = stop o

-- What the store's call gives back, and the database that it leaves, under a fault.
abbrev pub faulty {ℓ} :
    {Bytes : Type 0} {A : Type ℓ}
    → Fault
    → Db Bytes
    → Result Failure (A × Db Bytes)
    → Result Failure A × Db Bytes
faulty none_met db (ok (a, db')) = (ok a, db')
faulty none_met db (err e) = (err e, db)
faulty lost db r = (err (failure (refused "storage fault")), db)
faulty unreported db (ok (a, db')) = (err (failure (refused "storage fault")), db')
faulty unreported db (err e) = (err e, db)

module _ {Bytes R : Type 0} (s : Service Bytes R) where
  unfoldable pub read_clock : Exec Bytes R Time
  read_clock w = let (t, r) = s.environment.now w.remote in (ok t, record w { remote = r })

  unfoldable pub fresh_id : String → Exec Bytes R String
  fresh_id prefix w =
      let (id, r) = s.environment.new_id prefix w.remote in (ok id, record w { remote = r })

  -- A call of the store, with its result as a value.
  unfoldable pub try_store {ℓ} :
      {A : Type ℓ}
      → (Time → Db Bytes → Result Failure (A × Db Bytes))
      → Exec Bytes R (Result Failure A)
  try_store f w =
      let (t, r) = s.environment.now w.remote in
      let (fault, r') = s.environment.fault r in
      let (answer, db) = faulty fault w.db (f t w.db) in
      (ok answer, record w { db = db; remote = r' })

  abbrev pub answered {ℓ} : {A : Type ℓ} → (Failure → Outcome) → Result Failure A → Exec Bytes R A
  answered o (ok a) = pure a
  answered o (err e) = stop (o e)

  -- A call of the store whose error is returned.
  unfoldable pub ask_store {ℓ} :
      {A : Type ℓ}
      → (Failure → Outcome)
      → (Time → Db Bytes → Result Failure (A × Db Bytes))
      → Exec Bytes R A
  ask_store o f = try_store f >>= answered o

  unfoldable pub verify_identity : Exec Bytes R (Option Identity)
  verify_identity w =
      let (a, r) = s.environment.verify_identity w.remote in (ok a, record w { remote = r })

  unfoldable pub read_target : String → Exec Bytes R (Option (Snapshot Bytes))
  read_target id w = let (a, r) = s.environment.read id w.remote in (ok a, record w { remote = r })

  -- The two writes, which are counted as sent whatever the target answers.
  unfoldable pub create_target :
      OwuCreateRequest Bytes → Exec Bytes R (Result WriteError (CreateReceipt Bytes))
  create_target request w =
      let (a, r) = s.environment.create request w.remote in
      (ok a, record w { remote = r; sent = created request.operation_id ∷ w.sent })

  unfoldable pub update_target :
      String → UpdateRequest Bytes → Exec Bytes R (Result WriteError (UpdateReceipt Bytes))
  update_target id request w =
      let (a, r) = s.environment.update id request w.remote in
      (ok a, record w { remote = r; sent = updated request.operation_id id ∷ w.sent })
