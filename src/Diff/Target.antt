-- ===== src/Diff/Target.antt =====
-- internal/diff/preview.go: `compareTarget`, `titleChange` and `planID`.
use Prim.Native.String.{slice}
use gpt_owu_bridge.Base.{
  String, List, [], ◌∷◌, ◌++◌, filter_map, Option, none, some, Bool, false, not, ◌&&◌, ◌==◌,
  text_eq, texts_eq, bool_eq, if◌then◌else◌, Map, lookup, joined,
}
use gpt_owu_bridge.Base.Int.{int_eq}
use gpt_owu_bridge.Domain.{
  Message, TargetMessage, TargetSnapshot, MessageChange, SyncPlan, title_target_override,
}
use gpt_owu_bridge.Domain.Hash.{Codec, target_hash}
use gpt_owu_bridge.Diff.Compare.{
  index_target_id, message_content_equal, target_message_structure_equal,
  target_message_content_equal, target_matches_source, change,
}

-- The current target already holds the new content of the message's source.
unfoldable pub already_synced : Map Message → Map Message → TargetMessage → TargetMessage → Bool
already_synced previous current base target = elim (lookup base.source_id current) [
  | none ↦ false
  | some new ↦ elim (lookup base.source_id previous) [
    | none ↦ false
    | some old ↦ not (message_content_equal old new) && target_matches_source target new
  ]
]

-- What one message of the verified baseline reports.
unfoldable pub baseline_conflict :
    Map Message → Map Message → Map TargetMessage → TargetMessage → Option MessageChange
baseline_conflict previous current targets base = elim (lookup base.id targets) [
  | none ↦ some (
      change base.source_id "target_message_missing"
        "target removal is never overwritten automatically")
  | some target ↦
      if not (target_message_structure_equal base target)
      then some (
          change base.source_id "target_structure_changed"
            "target message structure differs from the verified baseline")
      else if target_message_content_equal base target
      then none
      else if already_synced previous current base target
      then none
      else some (
          change base.source_id "target_message_changed"
            "current target differs from the verified baseline")
]

-- What one message of the current target reports.
unfoldable pub foreign_conflict : Map TargetMessage → TargetMessage → Option MessageChange
foreign_conflict baselines target = elim (lookup target.id baselines) [
  | some _ ↦ none
  | none ↦ some (
      change target.source_id
        (if target.managed then "unexpected_managed_target_message" else "target_native_message")
        "target structure diverged from the verified baseline")
]

abbrev pub current_conflict : TargetSnapshot → TargetSnapshot → List MessageChange
current_conflict baseline target =
    if baseline.current_message_id == target.current_message_id
    then []
    else change "" "target_current_message_changed"
        "current target node differs from the verified baseline"
      ∷ []

-- The conflicts that `compareTarget` appends.
unfoldable pub compare_target :
    Map Message → Map Message → TargetSnapshot → TargetSnapshot → List MessageChange
compare_target previous current baseline target =
    current_conflict baseline target
    ++ (filter_map (baseline_conflict previous current (index_target_id target.messages))
          baseline.messages
        ++ filter_map (foreign_conflict (index_target_id baseline.messages)) target.messages)

-- The baseline and the current target, where there are such.
abbrev pub Targets : Type 0
Targets = Option (TargetSnapshot × TargetSnapshot)

unfoldable pub title_change : String → String → Targets → String → String
title_change previous current targets policy =
    if policy == title_target_override then "preserve_target_override" else elim targets [
      | none ↦ if previous == current then "unchanged" else "sync_source"
      | some (baseline, target) ↦
          if target.title == baseline.title
          then if previous == current then "unchanged" else "sync_source"
          else if target.title == current
          then "converged"
          else "preserve_target_override"
    ]

module _ {Bytes : Type 0} (c : Codec Bytes) where
  -- The error of the encoder leaves the hash empty.
  abbrev hash_or_empty : Option String → String
  hash_or_empty none = ""
  hash_or_empty (some h) = h

  abbrev target_part : Targets → List String
  target_part none = []
  target_part (some (_, target)) = "\0" ∷ hash_or_empty (target_hash c target) ∷ []

  -- `preview_` and the first eight bytes of the digest, in hexadecimal.
  unfoldable pub plan_id : SyncPlan → Targets → String
  plan_id plan targets = joined (
      "preview_"
      ∷ slice
          (c.sha256_hex (
            c.text (
              joined (
                plan.source_snapshot_hash
                ∷ "\0"
                ∷ plan.target_baseline_hash
                ∷ "\0"
                ∷ plan.policy_version
                ∷ target_part targets))))
          0 16
      ∷ [])
