-- ===== src/Syncer/Sending.antt =====
-- internal/syncer/service.go: the two places that send a write, and all that leads to them.
use gpt_owu_bridge.Base.{
  String, ◌≡◌, sym, ap, subst, ◌∙◌, List, [], ◌∷◌, map, text_eq, ◌==◌, ok, arith, >>=-elim, >>-elim,
  contains, ==→eq,
}
use mathlib.Core.List.{Mem}
use gpt_owu_bridge.Domain.{Time, Binding, prepared, applying}
use gpt_owu_bridge.Storage.Types.{
  Installation, Platform, OperationRecord, BindingState, status_eq, TransitionPatch, refused,
  corrupt, not_found,
}
use gpt_owu_bridge.Storage.Tables.{Db, find_binding, find_operation}
use gpt_owu_bridge.Storage.Records.{or_fail, get_source_snapshot}
use gpt_owu_bridge.Storage.Allowed.{
  get_binding, get_binding_state, get_target_baseline, validate_allowed_binding,
}
use gpt_owu_bridge.Storage.Transition.{transition_operation}
use gpt_owu_bridge.Storage.Operations.{scan_operation}
use gpt_owu_bridge.Storage.Rows.{find_first-holds, All-find, or_fail-found}
use gpt_owu_bridge.Storage.Moves.{transition_operation-Moved}
use gpt_owu_bridge.Storage.Evidence.{Evidenced, Started}
use gpt_owu_bridge.Storage.Calls.{IsTrusted}
use gpt_owu_bridge.Syncer.Types.{World, operation_of}
use gpt_owu_bridge.Syncer.Sound.{Sound, Owned, Owned-Evidenced, prepared-unsent}

module _ {Bytes : Type 0} where
  get_binding-Owned :
      (p : Platform Bytes) (db : Db Bytes) (i : Installation) (id : String) (binding : Binding)
      → get_binding p.codec db i id ≡ ok binding
      → IsTrusted i db
      → Owned db binding.target_chat_id
  unfolding get_binding find_binding
  get_binding-Owned p db i id binding h t = >>-elim (validate_allowed_binding db i id) _ h λ _ h₁.
      >>=-elim (or_fail (find_binding db id) not_found) _ h₁ λ row f h₂.
        >>=-elim (or_fail (p.codec.unmarshal_identity row.source_identity) corrupt) _ h₂
          λ identity _ h₃.
            let (e, _) =
              All-find (Evidenced i db) (λ b. b.binding_id == id) db.bindings row t
                (or_fail-found _ _ f) in
            let same : row.target_chat_id ≡ binding.target_chat_id = ground arith in
            subst (Owned db) same (Owned-Evidenced row e)

  -- The chat of a binding whose state is returned is one that this installation has made.
  pub get_binding_state-Owned :
      (p : Platform Bytes) (db : Db Bytes) (i : Installation) (id : String) (state : BindingState)
      → get_binding_state p db i id ≡ ok state
      → IsTrusted i db
      → Owned db state.binding.target_chat_id
  unfolding get_binding_state
  get_binding_state-Owned p db i id state h t =
      >>=-elim (get_binding p.codec db i id) _ h λ binding a h₁.
        >>=-elim (or_fail (find_binding db id) (refused "read binding source baseline")) _ h₁
          λ row _ h₂.
            >>=-elim (get_source_snapshot p db row.last_source_snapshot_hash) _ h₂ λ source _ h₃.
              >>=-elim (get_target_baseline p.codec db id binding.version) _ h₃ λ baseline _ h₄.
                let same : binding ≡ state.binding = ground arith in
                subst (λ b. Owned db b.target_chat_id) same
                  (get_binding-Owned p db i id binding a t)

  -- An operation that has just begun has no write yet.
  pub begun-unsent :
      {R : Type 0} (i : Installation) (targets : List String) (id : String)
      (patch : TransitionPatch) (now : Time) (w : World Bytes R) (r : OperationRecord)
      (db' : Db Bytes)
      → transition_operation id (prepared ∷ []) applying patch now w.db ≡ ok (r, db')
      → Sound i targets w
      → Started db' r.operation.id × (Mem r.operation.id (map operation_of w.sent) → ⊥)
  unfolding scan_operation find_operation contains
  begun-unsent i targets id patch now w r db' h sound =
      let (row, new, found, moved, here, same, left, _) =
        transition_operation-Moved id (prepared ∷ []) applying patch now w.db r db' h in
      let key : row.operation_id ≡ id =
        ==→eq row.operation_id id
          (find_first-holds (λ o. o.operation_id == id) w.db.operations row found) in
      let named : id ≡ r.operation.id =
        sym key ∙ sym moved.same_id ∙ sym (ap (λ x. x.operation.id) same) in
      let begun : Started db' id = record {
        operation = new;
        found = left;
        begun = λ e. ground (arith, moved.status);
      } in
      (
        subst (Started db') named begun,
        λ m.
            prepared-unsent w.db id row w.sent found (ground (arith, here)) sound.recorded
              (subst (λ x. Mem x (map operation_of w.sent)) (sym named) m),
      )
