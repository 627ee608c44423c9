-- ===== src/Diff/Kept.antt =====
-- internal/diff/preview.go: what it means that a preview reports no conflict.
use mathlib.Core.List.{Mem, mem-map_of_mem}
use gpt_owu_bridge.Base.{
  String, ◌≡◌, ◌⊎◌, inl, inr, List, [], ◌∷◌, filter_map, none, some, true, Bool-cases, Option-cases,
  All, All-map, filter_map-nil, append-nil_parts, find_first-mem, lookup, lookup-index_by, distinct,
  arith, ==→eq, eq→==, text_eq, ◌≢◌, false, subst, bool_eq, texts_eq,
}
use gpt_owu_bridge.Domain.{Message, TargetMessage, TargetSnapshot}
use gpt_owu_bridge.Diff.Compare.{
  index_source, index_target_id, target_message_content_equal, scope_reduced, moved_sources,
  source_change, missing, moved, message_content_equal,
}
use gpt_owu_bridge.Diff.Target.{
  already_synced, baseline_conflict, foreign_conflict, compare_target, current_conflict,
}
use gpt_owu_bridge.Diff.ValidSource.{ids}
use gpt_owu_bridge.Diff.ValidTarget.{target_ids}

-- The message is in the later list, at its place.
abbrev pub InPlace : List Message → Message → Type 0
InPlace later old =
    (new : Message) × Mem new later
    × (new.id ≡ old.id)
    × (new.order ≡ old.order)
    × (new.parent_node_id ≡ old.parent_node_id)

-- Two versions of a message differ in their content.
abbrev pub OtherContent : Message → Message → Type 0
OtherContent old new =
    ¬ ((old.role ≡ new.role) × (old.channel ≡ new.channel) × (old.parts ≡ new.parts))

pub unequal-OtherContent :
    (old new : Message) → message_content_equal old new ≡ false → OtherContent old new
unequal-OtherContent old new h same =
    ground (arith, h, eq→== old.role _ same.0, eq→== old.channel _ same.1, eq→== old.parts _ same.2)

-- The content of a target message is the one verified; or the message is managed, the content of its
-- source has changed, and the target holds the new one.
abbrev pub ContentKept : List Message → List Message → TargetMessage → TargetMessage → Type 0
ContentKept previous current base target =
    ((target.role ≡ base.role) × (target.channel ≡ base.channel) × (target.parts ≡ base.parts))
    ⊎ ((old : Message) × (new : Message) × Mem old previous
        × Mem new current
        × (old.id ≡ base.source_id)
        × (new.id ≡ base.source_id)
        × OtherContent old new
        × (target.managed ≡ true)
        × (target.role ≡ new.role)
        × (target.channel ≡ new.channel)
        × (target.parts ≡ new.parts))

-- The target still has the message of the baseline, with its place, owner and content.
abbrev pub StillThere : List Message → List Message → List TargetMessage → TargetMessage → Type 0
StillThere previous current targets base =
    (target : TargetMessage) × Mem target targets
    × (target.id ≡ base.id)
    × (target.source_id ≡ base.source_id)
    × (target.managed ≡ base.managed)
    × (target.order ≡ base.order)
    × ContentKept previous current base target

-- An entry that the index finds is in the list, under that id.
pub found_source :
    (ms : List Message) (k : String) (m : Message)
    → distinct (ids ms) ≡ true
    → lookup k (index_source ms) ≡ some m
    → Mem m ms × (m.id ≡ k)
found_source ms k m d h =
    let r = find_first-mem _ ms m (rw (lookup-index_by (λ (x : Message). x.id) k ms d) at h) in
    (r.0, ==→eq _ _ r.1)

found_target :
    (ms : List TargetMessage) (k : String) (m : TargetMessage)
    → distinct (target_ids ms) ≡ true
    → lookup k (index_target_id ms) ≡ some m
    → Mem m ms × (m.id ≡ k)
found_target ms k m d h =
    let r =
      find_first-mem _ ms m (rw (lookup-index_by (λ (x : TargetMessage). x.id) k ms d) at h) in
    (r.0, ==→eq _ _ r.1)

InPlace-one :
    (later : List Message) (old : Message)
    → distinct (ids later) ≡ true
    → source_change (index_source later) old ≢ missing
    → source_change (index_source later) old ≢ moved
    → InPlace later old
unfolding source_change
InPlace-one later old d h k = elim (Option-cases (lookup old.id (index_source later))) [
  | inl e ↦ absurd (h (ground (arith, e)))
  | inr (new, e) ↦
      let r = found_source later old.id new d e in
      (new, r.0, r.1, ground (arith, e, k), ground (arith, e, k))
]

-- Neither list of reports has an entry: every earlier message is in its place.
pub All-InPlace :
    (previous later : List Message)
    → distinct (ids later) ≡ true
    → scope_reduced (index_source later) previous ≡ []
    → moved_sources (index_source later) previous ≡ []
    → All (InPlace later) previous
unfolding scope_reduced moved_sources filter_map
All-InPlace [] later d h k = tt
All-InPlace (old ∷ previous) later d h k = (
  InPlace-one later old d (λ e. ground (arith, e)) (λ e. ground (arith, e)),
  All-InPlace previous later d (ground arith) (ground arith),
)

synced_content :
    (previous current : List Message) (base target : TargetMessage)
    → distinct (ids previous) ≡ true
    → distinct (ids current) ≡ true
    → already_synced (index_source previous) (index_source current) base target ≡ true
    → ContentKept previous current base target
unfolding already_synced
synced_content previous current base target dp d h =
    elim (Option-cases (lookup base.source_id (index_source current))) [
      | inl e ↦ absurd (ground (arith, e))
      | inr (new, e) ↦ elim (Option-cases (lookup base.source_id (index_source previous))) [
        | inl e' ↦ absurd (ground (arith, e, e'))
        | inr (old, e') ↦
            let r = found_source current base.source_id new d e in
            let q = found_source previous base.source_id old dp e' in
            inr (
              old,
              new,
              q.0,
              r.0,
              q.1,
              r.1,
              unequal-OtherContent old new (ground (arith, e, e')),
              ground (arith, e, e'),
              ground (arith, e, e'),
              ground (arith, e, e'),
              ground (arith, e, e'),
            )
      ]
    ]

StillThere-one :
    (previous current : List Message) (targets : List TargetMessage) (base : TargetMessage)
    → distinct (ids previous) ≡ true
    → distinct (ids current) ≡ true
    → distinct (target_ids targets) ≡ true
    → baseline_conflict
        (index_source previous)
        (index_source current)
        (index_target_id targets)
        base
      ≡ none
    → StillThere previous current targets base
unfolding baseline_conflict already_synced
StillThere-one previous current targets base dp dc dt h =
    elim (Option-cases (lookup base.id (index_target_id targets))) [
      | inl e ↦ absurd (ground (arith, e))
      | inr (target, e) ↦
          let r = found_target targets base.id target dt e in
          (
            target,
            r.0,
            r.1,
            ground (arith, e),
            ground (arith, e),
            ground (arith, e),
            content_of target e,
          )
    ]
  where
    content_of :
        (target : TargetMessage)
        → lookup base.id (index_target_id targets) ≡ some target
        → ContentKept previous current base target
    content_of target e = elim (Bool-cases (target_message_content_equal base target)) [
      | inl same ↦ inl (ground (arith, same), ground (arith, same), ground (arith, same))
      | inr differs ↦ synced_content previous current base target dp dc (ground (arith, e, differs))
    ]

known_target :
    (baseline : List TargetMessage) (target : TargetMessage)
    → distinct (target_ids baseline) ≡ true
    → foreign_conflict (index_target_id baseline) target ≡ none
    → Mem target.id (target_ids baseline)
unfolding foreign_conflict
known_target baseline target d h =
    elim (Option-cases (lookup target.id (index_target_id baseline))) [
      | inl e ↦ absurd (ground (arith, e))
      | inr (base, e) ↦
          let r = found_target baseline target.id base d e in
          subst (λ k. Mem k (target_ids baseline)) r.1
            (mem-map_of_mem (λ (m : TargetMessage). m.id) r.0)
    ]

-- The target is the verified one, but for content that a source has changed in the same way.
pub record TargetKept (previous current : List Message) (baseline target : TargetSnapshot)
    : Type 0 where
  pub current_message : target.current_message_id ≡ baseline.current_message_id
  pub still_there : All (StillThere previous current target.messages) baseline.messages
  pub none_foreign :
      All (λ (m : TargetMessage). Mem m.id (target_ids baseline.messages)) target.messages

pub compare_target-nil :
    (previous current : List Message) (baseline target : TargetSnapshot)
    → distinct (ids previous) ≡ true
    → distinct (ids current) ≡ true
    → distinct (target_ids baseline.messages) ≡ true
    → distinct (target_ids target.messages) ≡ true
    → compare_target (index_source previous) (index_source current) baseline target ≡ []
    → TargetKept previous current baseline target
unfolding compare_target
compare_target-nil previous current baseline target dp dc db dt h =
    let (first, rest) = append-nil_parts (current_conflict baseline target) _ h in
    let (second, third) = append-nil_parts (filter_map _ baseline.messages) _ rest in
    record {
      current_message = ground (arith, first);
      still_there =
          All-map baseline.messages
            (λ base. StillThere-one previous current target.messages base dp dc dt)
            (filter_map-nil _ baseline.messages second);
      none_foreign =
          All-map target.messages (λ m. known_target baseline.messages m db)
            (filter_map-nil _ target.messages third);
    }
