-- ===== src/Diff/Applicable.antt =====
-- internal/diff/preview.go: when a preview says `ready` or `no_change`.
use gpt_owu_bridge.Base.{
  String, ◌≡◌, refl, ap, sym, ◌∙◌, ◌≢◌, ◌⊎◌, List, [], Option, none, some, true, false, All,
  append-nil_parts, inl, inr, Bool-cases, distinct, distinct-Nodup, arith, ok, text_eq, subst,
}
use gpt_owu_bridge.Domain.{
  Time, Message, SourceSnapshot, TargetSnapshot, Diff, SyncPlan, PlanStatus, ready, no_change,
}
use gpt_owu_bridge.Domain.Hash.{Codec, source_hash}
use gpt_owu_bridge.Diff.Compare.{same_relative_order, moved_sources}
use gpt_owu_bridge.Diff.Target.{Targets}
use gpt_owu_bridge.Diff.Run.{
  Options, settle, difference, identity_conflicts, order_conflicts, plan_for, make_plan,
  target_conflicts, preview, check_targets, paired,
}
use gpt_owu_bridge.Diff.ValidSource.{ids, validate_source-distinct}
use gpt_owu_bridge.Diff.ValidTarget.{validate_target_iff}
use gpt_owu_bridge.Diff.Inversion.{preview-eq-ok}
use gpt_owu_bridge.Diff.Kept.{InPlace, TargetKept, All-InPlace, compare_target-nil}

abbrev pub Applicable : PlanStatus → Type 0
Applicable status = (status ≡ ready) ⊎ (status ≡ no_change)

settle-Applicable :
    (current : SourceSnapshot) (diff : Diff)
    → Applicable (settle current diff)
    → (current.coverage.status ≢ "partial")
      × (diff.scope_reduced ≡ [])
      × (diff.target_conflicts ≡ [])
unfolding settle
settle-Applicable current diff h = ground arith

-- The target is kept where the preview was given one.
abbrev pub KeptWhere :
    List Message → List Message → Option TargetSnapshot → Option TargetSnapshot → Type 0
KeptWhere previous current (some baseline) (some target) =
    TargetKept previous current baseline target
KeptWhere previous current _ _ = Unit

-- What an applicable preview has made sure of.
pub record Unharmed {Bytes : Type 0} (c : Codec Bytes) (options : Options)
    (previous current : SourceSnapshot) (baseline target : Option TargetSnapshot) : Type 0 where
  pub supported : current.coverage.status ≢ "partial"
  pub in_place : All (InPlace current.messages) previous.messages
  pub in_order : same_relative_order previous.messages current.messages ≡ true
  pub same_candidate :
      (previous.identity.candidate_id ≡ "")
      ⊎ ((current.identity.candidate_id ≡ "")
          ⊎ (previous.identity.candidate_id ≡ current.identity.candidate_id))
  pub same_parser : previous.parser_version ≡ current.parser_version
  pub verified :
      (options.stable_source_ids ≡ true) ⊎ (source_hash c previous ≡ source_hash c current)
  pub target_kept : KeptWhere previous.messages current.messages baseline target

identity_conflicts-nil :
    (previous current : SourceSnapshot)
    → identity_conflicts previous current ≡ []
    → ((previous.identity.candidate_id ≡ "")
        ⊎ ((current.identity.candidate_id ≡ "")
            ⊎ (previous.identity.candidate_id ≡ current.identity.candidate_id)))
      × (previous.parser_version ≡ current.parser_version)
unfolding identity_conflicts
identity_conflicts-nil previous current h = ground arith

order_conflicts-nil :
    (options : Options) (previous current : SourceSnapshot)
    → order_conflicts options previous current ≡ []
    → (same_relative_order previous.messages current.messages ≡ true)
      × (options.stable_source_ids ≡ false → previous.business_hash ≡ current.business_hash)
unfolding order_conflicts
order_conflicts-nil options previous current h = ground arith

plan_for-status :
    {Bytes : Type 0} (c : Codec Bytes) (clock : Time) (options : Options)
    (previous current : SourceSnapshot) (targets : Targets) (hash : String)
    → (plan_for c clock options (some previous) current targets hash).status
      ≡ settle current (difference options previous current targets)
unfolding plan_for make_plan
plan_for-status c clock options previous current targets hash = refl

target_kept :
    {Bytes : Type 0} (c : Codec Bytes) (previous current : SourceSnapshot)
    (baseline target : Option TargetSnapshot) (targets : Targets)
    → distinct (ids previous.messages) ≡ true
    → distinct (ids current.messages) ≡ true
    → paired baseline target ≡ ok targets
    → check_targets c targets ≡ ok tt
    → target_conflicts previous current targets ≡ []
    → KeptWhere previous.messages current.messages baseline target
unfolding paired check_targets
target_kept c previous current none none targets dp d p v h = tt
target_kept c previous current none (some t) targets dp d p v h = tt
target_kept c previous current (some b) none targets dp d p v h = tt
target_kept c previous current (some b) (some t) none dp d p v h = absurd (ground arith)
target_kept c previous current (some b) (some t) (some (b', t')) dp d p v h =
    let same : (b' ≡ b) × (t' ≡ t) = ground arith in
    let vb = (validate_target_iff b).0 (ground arith) in
    let vt = (validate_target_iff t).0 (ground arith) in
    compare_target-nil previous.messages current.messages b t dp d ((distinct-Nodup _).1 vb.unique)
      ((distinct-Nodup _).1 vt.unique) (rw (← same.0, ← same.1) h)

-- A plan against an earlier snapshot that is ready, or reports no change, comes from a supported
-- snapshot that passes the order check and has every earlier message with its order and its parent;
-- the candidate identities agree where both are set, the parser is the same, and the hashes agree
-- where source ids are not declared stable. A target that is given with its baseline has the same
-- current message, no message that the baseline lacks, and each message of the baseline with its
-- place and its owner. The content of such a message is the verified one; or the message is managed,
-- the content of its source has changed, and the target holds the new one. Its title is not compared.
pub preview-Unharmed :
    {Bytes : Type 0} (c : Codec Bytes) (clock : Time) (options : Options)
    (previous current : SourceSnapshot) (baseline target : Option TargetSnapshot) (plan : SyncPlan)
    → preview c clock options (some previous) current baseline target ≡ ok plan
    → Applicable plan.status
    → Unharmed c options previous current baseline target
unfolding difference
preview-Unharmed c clock options previous current baseline target plan h a =
    let (k, e) = preview-eq-ok c clock options previous current baseline target plan h in
    let old = record previous { business_hash = k.previous_hash } in
    let new = record current { business_hash = k.current_hash } in
    let diff = difference options old new k.targets in
    let status : plan.status ≡ settle new diff =
      ap (λ (p : SyncPlan). p.status) e
      ∙ plan_for-status c clock options old new k.targets k.baseline_hash in
    let (supported, reduced, conflicts) = settle-Applicable new diff (subst Applicable status a) in
    let (first, rest) = append-nil_parts (identity_conflicts old new) _ conflicts in
    let (second, rest') = append-nil_parts (moved_sources _ old.messages) _ rest in
    let (third, fourth) = append-nil_parts (order_conflicts options old new) _ rest' in
    let (order, hashes) = order_conflicts-nil options old new third in
    let d = validate_source-distinct current k.current_valid in
    record {
      supported = supported;
      in_place = All-InPlace previous.messages current.messages d reduced second;
      in_order = order;
      same_candidate = (identity_conflicts-nil old new first).0;
      same_parser = (identity_conflicts-nil old new first).1;
      verified = elim (Bool-cases options.stable_source_ids) [
        | inl t ↦ inl t
        | inr s ↦ inr (k.previous_hashed ∙ ap some (hashes s) ∙ sym k.current_hashed)
      ];
      target_kept =
          target_kept c old new baseline target k.targets
            (validate_source-distinct previous k.previous_valid) d k.targets_paired k.targets_valid
            fourth;
    }
