-- ===== src/Diff/Accounts.antt =====
-- internal/diff/preview.go: the lists of a difference account for every message once.
use gpt_owu_bridge.Base.Int.{int_eq}
use gpt_owu_bridge.Base.{
  All, String, ◌≡◌, refl, List, [], ◌∷◌, filter_map, Option, none, some, Bool, true, false, not,
  keep, contains, distinct, arith, ok, text_eq, lookup, lookup-index_by, with_key, find_first,
  bool_eq, texts_eq,
}
use gpt_owu_bridge.Domain.{Time, Message, SourceSnapshot, TargetSnapshot, SyncPlan}
use gpt_owu_bridge.Domain.Hash.{Codec}
use gpt_owu_bridge.Diff.Run.{Options, preview, difference, plan_for, make_plan}
use gpt_owu_bridge.Diff.Inversion.{preview-eq-ok}
use gpt_owu_bridge.Diff.Compare.{index_source, added, scope_reduced, source_change}
use gpt_owu_bridge.Diff.ValidSource.{ids, validate_source-distinct}
use gpt_owu_bridge.Diff.Edited.{reported, Edited, Settled, modified-Edited, modified-Settled}

abbrev is_some {ℓ} : {A : Type ℓ} → Option A → Bool
is_some none = false
is_some (some a) = true

with_key-contains :
    (k : String) (ms : List Message)
    → is_some (with_key (λ (m : Message). m.id) k ms) ≡ contains (ids ms) k
unfolding find_first contains
with_key-contains k [] = refl
with_key-contains k (m ∷ ms) = ground (arith, with_key-contains k ms)

lookup-contains :
    (k : String) (ms : List Message)
    → distinct (ids ms) ≡ true
    → is_some (lookup k (index_source ms)) ≡ contains (ids ms) k
lookup-contains k ms d =
    rw (lookup-index_by (λ (m : Message). m.id) k ms d) (with_key-contains k ms)

reduced_ids :
    (current previous : List Message)
    → distinct (ids current) ≡ true
    → reported (scope_reduced (index_source current) previous)
      ≡ keep (λ k. not (contains (ids current) k)) (ids previous)
unfolding scope_reduced filter_map keep source_change
reduced_ids current [] d = refl
reduced_ids current (m ∷ ms) d =
    ground (arith, lookup-contains m.id current d, reduced_ids current ms d)

added_ids :
    (previous current : List Message)
    → distinct (ids previous) ≡ true
    → reported (added (index_source previous) current)
      ≡ keep (λ k. not (contains (ids previous) k)) (ids current)
unfolding added filter_map keep
added_ids previous [] d = refl
added_ids previous (m ∷ ms) d =
    ground (arith, lookup-contains m.id previous d, added_ids previous ms d)

-- What a preview reports as added, removed and edited.
pub record Accounts (previous current : SourceSnapshot) (plan : SyncPlan) : Type 0 where
  pub all_added :
      reported plan.diff.added
      ≡ keep (λ k. not (contains (ids previous.messages) k)) (ids current.messages)
  pub all_missing :
      reported plan.diff.scope_reduced
      ≡ keep (λ k. not (contains (ids current.messages) k)) (ids previous.messages)
  pub only_edited : All (Edited previous.messages current.messages) plan.diff.modified
  pub all_edited : All (Settled current.messages plan.diff.modified) previous.messages

-- The plan of a preview against an earlier snapshot reports as added exactly the ids of the current
-- messages that the earlier snapshot lacks, and as missing exactly the earlier ids that the current
-- one lacks, both in the order of their snapshot, and as modified exactly the messages that both
-- snapshots have, with one order and parent, but with other content.
pub preview-Accounts :
    {Bytes : Type 0} (c : Codec Bytes) (clock : Time) (options : Options)
    (previous current : SourceSnapshot) (baseline target : Option TargetSnapshot) (plan : SyncPlan)
    → preview c clock options (some previous) current baseline target ≡ ok plan
    → Accounts previous current plan
unfolding difference plan_for make_plan
preview-Accounts c clock options previous current baseline target plan h =
    let (k, e) = preview-eq-ok c clock options previous current baseline target plan h in
    let old = validate_source-distinct previous k.previous_valid in
    let new = validate_source-distinct current k.current_valid in
    rw e record {
      all_added = added_ids previous.messages current.messages old;
      all_missing = reduced_ids current.messages previous.messages new;
      only_edited = modified-Edited previous.messages current.messages new;
      all_edited = modified-Settled previous.messages current.messages new;
    }
