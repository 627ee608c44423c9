-- ===== src/Syncer/Once.antt =====
-- internal/syncer/service.go: every method keeps what the writes have behind them.
use gpt_owu_bridge.Base.{
  String, ◌≡◌, subst, [], ◌∷◌, map, Option, none, some, Bool, Result, ok, err, arith,
}
use mathlib.Core.List.{Mem}
use gpt_owu_bridge.Domain.{SourceSnapshot}
use gpt_owu_bridge.Storage.Types.{StorageError, StoredPlan, OperationRecord, BindingState}
use gpt_owu_bridge.Storage.Tables.{Db}
use gpt_owu_bridge.Storage.Evidence.{Started}
use gpt_owu_bridge.Owu.{Snapshot}
use gpt_owu_bridge.Syncer.Types.{Service, World, operation_of, created, updated}
use gpt_owu_bridge.Syncer.Exec.{◌>>=◌, create_target, update_target}
use gpt_owu_bridge.Syncer.Repository.{reading, meeting, keeping, move_operation, load_state}
use gpt_owu_bridge.Syncer.Create.{send_creation, begin_creation, execute_create, apply_create}
use gpt_owu_bridge.Syncer.Update.{
  send_update, begin_update, update_state, execute_update, carry_out, apply_update,
}
use gpt_owu_bridge.Syncer.Service.{
  replay_or, apply_new, apply_sync, recover_prepared, recover_open, recover_operation,
}
use gpt_owu_bridge.Syncer.Safe.{Safe}
use gpt_owu_bridge.Syncer.Asking.{ask_store-next}
use gpt_owu_bridge.Syncer.Kept.{move_operation-Harmless, state-Harmless}
use gpt_owu_bridge.Syncer.Blocks.{block_rules, Safe-operation_identity}
use gpt_owu_bridge.Syncer.Silent.{
  Safe-receive_creation, Safe-receive_update, Safe-execute_no_change, Safe-recover_sent,
  Safe-confirmed_plan, Safe-replay, Safe-check_binding_version,
}
use gpt_owu_bridge.Syncer.Sound.{Sound, Owned, Sound-Stable, Sound-send, Sound-forget, Sound-learn}
use gpt_owu_bridge.Syncer.Sending.{get_binding_state-Owned, begun-unsent}

module _ {Bytes R : Type 0} (s : Service Bytes R) where
  -- An operation that has begun, without a write so far.
  abbrev Begun : World Bytes R → String → Type 0
  Begun w id = Started w.db id × (Mem id (map operation_of w.sent) → ⊥)

  send_creation-Sound :
      (plan : StoredPlan Bytes) (source : SourceSnapshot) (desired : Snapshot Bytes)
      (begun : OperationRecord) (w : World Bytes R)
      → Begun w begun.operation.id
      → Sound s.installation [] w
      → Sound s.installation [] (send_creation s plan source desired begun w).1
  unfolding send_creation create_target ◌>>=◌
  send_creation-Sound plan source desired begun w (started, new) h =
      (Safe-receive_creation s (Sound-Stable s.installation []) begun plan source _).at _
        (Sound-send s.installation [] (created begun.operation.id) _ w started tt new h)

  send_update-Sound :
      (plan : StoredPlan Bytes) (state : BindingState) (desired : Snapshot Bytes)
      (begun : OperationRecord) (w : World Bytes R)
      → Begun w begun.operation.id
      → Sound s.installation (state.binding.target_chat_id ∷ []) w
      → Sound s.installation
          (state.binding.target_chat_id ∷ [])
          (send_update s plan state desired begun w).1
  unfolding send_update update_target ◌>>=◌
  send_update-Sound plan state desired begun w (started, new) h =
      (Safe-receive_update s (Sound-Stable s.installation _) begun plan state _).at _ (
        Sound-send s.installation _ (updated begun.operation.id state.binding.target_chat_id) _ w
          started h.known.0 new h)

  Safe-begin_creation :
      (r : OperationRecord) (plan : StoredPlan Bytes) (source : SourceSnapshot)
      (desired : Snapshot Bytes)
      → Safe (Sound s.installation []) (begin_creation s r >>= send_creation s plan source desired)
  unfolding move_operation
  Safe-begin_creation r plan source desired = record {
    at = λ w h.
        ask_store-next s (Sound-Stable s.installation []) (meeting "begin create") _
          (send_creation s plan source desired) w (Sound s.installation [])
          (move_operation-Harmless s (Sound-Stable s.installation []) _ _ _ _) h (λ _ x. x)
          λ begun now w' e same h'.
            send_creation-Sound plan source desired begun w'
              (rw same (begun-unsent s.installation [] r.operation.id _ now w begun w'.db e h)) h';
  }

  Safe-begin_update :
      (r : OperationRecord) (plan : StoredPlan Bytes) (state : BindingState)
      (desired : Snapshot Bytes)
      → Safe
          (Sound s.installation (state.binding.target_chat_id ∷ []))
          (begin_update s r state >>= send_update s plan state desired)
  unfolding move_operation
  Safe-begin_update r plan state desired = record {
    at = λ w h.
        let stable = Sound-Stable s.installation (state.binding.target_chat_id ∷ []) in
        ask_store-next s stable (meeting "begin update") _ (send_update s plan state desired) w
          (Sound s.installation (state.binding.target_chat_id ∷ []))
          (move_operation-Harmless s stable _ _ _ _) h (λ _ x. x)
          λ begun now w' e same h'.
            send_update-Sound plan state desired begun w'
              (rw same (begun-unsent s.installation _ r.operation.id _ now w begun w'.db e h)) h';
  }

  Safe-update_state :
      (r : OperationRecord) (plan : StoredPlan Bytes) (state : BindingState)
      → Safe
          (Sound s.installation (state.binding.target_chat_id ∷ []))
          (update_state s r plan state)
  unfolding update_state
  Safe-update_state r plan state =
      search (block_rules, Sound-Stable s.installation, Safe-begin_update) depth 14

  reading-found :
      (db : Db Bytes) (r : Result StorageError BindingState) (a : BindingState) (db' : Db Bytes)
      → reading db r ≡ ok (a, db')
      → (r ≡ ok a) × (db ≡ db')
  reading-found db (ok b) a db' h = (ground arith, ground arith)
  reading-found db (err e) a db' h = absurd (ground arith)

  Safe-execute_update :
      (r : OperationRecord) (plan : StoredPlan Bytes)
      → Safe (Sound s.installation []) (execute_update s r plan)
  unfolding execute_update load_state
  Safe-execute_update r plan = record {
    at = λ w h.
        let stable = Sound-Stable s.installation [] in
        ask_store-next s stable (keeping r "load binding") _ (update_state s r plan) w
          (Sound s.installation []) (state-Harmless s stable plan.binding_id) h (λ _ x. x)
          λ state now w' e same h'.
            let (found, left) = reading-found w.db _ state w'.db e in
            let owned =
              get_binding_state-Owned s.platform w.db s.installation plan.binding_id state found
                h.trusted in
            Sound-forget s.installation _ _ (
              (Safe-update_state r plan state).at w' (
                Sound-learn s.installation state.binding.target_chat_id w'
                  (subst (λ db. Owned db state.binding.target_chat_id) left owned) h'));
  }

  Safe-execute_create :
      (r : OperationRecord) (plan : StoredPlan Bytes)
      → Safe (Sound s.installation []) (execute_create s r plan)
  unfolding execute_create
  Safe-execute_create r plan =
      search (block_rules, Sound-Stable s.installation, Safe-begin_creation) depth 14

  Safe-apply_create :
      (plan : StoredPlan Bytes) (key payload : String)
      → Safe (Sound s.installation []) (apply_create s plan key payload)
  unfolding apply_create
  Safe-apply_create plan key payload =
      search (block_rules, Sound-Stable s.installation, Safe-execute_create) depth 14

  Safe-carry_out :
      (r : OperationRecord) (plan : StoredPlan Bytes)
      → Safe (Sound s.installation []) (carry_out s r plan)
  Safe-carry_out r plan =
      search (block_rules, Sound-Stable s.installation, Safe-execute_no_change, Safe-execute_update)

  Safe-apply_update :
      (plan : StoredPlan Bytes) (key payload : String)
      → Safe (Sound s.installation []) (apply_update s plan key payload)
  unfolding apply_update
  Safe-apply_update plan key payload =
      search (block_rules, Sound-Stable s.installation, Safe-carry_out) depth 14

  Safe-apply_new :
      (plan : StoredPlan Bytes) (id : String) (confirmed : Bool) (key payload : String)
      → Safe (Sound s.installation []) (apply_new s plan id confirmed key payload)
  unfolding apply_new
  Safe-apply_new plan id confirmed key payload =
      search
        (
          block_rules,
          Sound-Stable s.installation,
          Safe-confirmed_plan,
          Safe-apply_create,
          Safe-apply_update,
        )
        depth 14

  Safe-replay_or :
      (found : Option OperationRecord) (plan : StoredPlan Bytes) (id : String) (confirmed : Bool)
      (key payload : String)
      → Safe
          (Sound s.installation [])
          (replay_or s found payload (apply_new s plan id confirmed key payload))
  Safe-replay_or (some existing) plan id confirmed key payload =
      Safe-replay s (Sound-Stable s.installation []) existing payload
  Safe-replay_or none plan id confirmed key payload = Safe-apply_new plan id confirmed key payload

  pub Safe-apply_sync :
      (principal id : String) (confirmed : Bool)
      → Safe (Sound s.installation []) (apply_sync s principal id confirmed)
  unfolding apply_sync
  Safe-apply_sync principal id confirmed =
      search (block_rules, Sound-Stable s.installation, Safe-operation_identity, Safe-replay_or)
        depth 14

  Safe-recover_prepared :
      (r : OperationRecord) (plan : StoredPlan Bytes)
      → Safe (Sound s.installation []) (recover_prepared s r plan)
  unfolding recover_prepared
  Safe-recover_prepared r plan =
      search
        (
          block_rules,
          Sound-Stable s.installation,
          Safe-check_binding_version,
          Safe-execute_create,
          Safe-carry_out,
        )
        depth 14

  Safe-recover_open : (r : OperationRecord) → Safe (Sound s.installation []) (recover_open s r)
  unfolding recover_open
  Safe-recover_open r =
      search (block_rules, Sound-Stable s.installation, Safe-recover_prepared, Safe-recover_sent)
        depth 14

  pub Safe-recover_operation :
      (principal id : String) → Safe (Sound s.installation []) (recover_operation s principal id)
  unfolding recover_operation
  Safe-recover_operation principal id =
      search (block_rules, Sound-Stable s.installation, Safe-recover_open) depth 14
