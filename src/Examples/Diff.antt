-- ===== src/Examples/Diff.antt =====
-- The theorems on previews, at a share that gains an answer.
use native.Mathlib.Decide.{ℕ_discrete}
use mathlib.Core.List.{Nodup}
use gpt_owu_bridge.Base.{
  ◌≡◌, refl, ◌↔◌, inl, [], ◌∷◌, some, true, ok, contains, text_eq, Text-discrete, Texts-discrete,
  lookup, insert, index_by, filter_map,
}
use gpt_owu_bridge.Base.Int.{Int-discrete}
use gpt_owu_bridge.Domain.{SourceSnapshot, TargetSnapshot, title_follow_source}
use gpt_owu_bridge.Domain.Hash.{source_hash, target_hash, hashed_source, hashed_target}
use gpt_owu_bridge.Diff.Validate.{
  validate_source, validate_messages, validate_target, validate_all, validate_one,
}
use gpt_owu_bridge.Diff.Compare.{
  same_relative_order, source_change, scope_reduced, moved_sources, modified, added,
}
use gpt_owu_bridge.Diff.Target.{
  baseline_conflict, foreign_conflict, compare_target, title_change, plan_id,
}
use gpt_owu_bridge.Diff.Run.{
  Options, paired, settle, identity_conflicts, order_conflicts, difference, hashed, check_previous,
  check_targets, make_plan, plan_for, preview,
}
use gpt_owu_bridge.Diff.ValidSource.{Named, ids, validate_source_iff}
use gpt_owu_bridge.Diff.ValidTarget.{IsValidTarget, validate_target_iff}
use gpt_owu_bridge.Diff.Applicable.{Unharmed, preview-Unharmed}
use gpt_owu_bridge.Diff.Accounts.{Accounts, preview-Accounts}
use gpt_owu_bridge.Examples.Data.{plain_codec, question, answer, share, target_question, chat}

abbrev old_share : SourceSnapshot
old_share = share (question ∷ [])

abbrev new_share : SourceSnapshot
new_share = share (question ∷ answer ∷ [])

abbrev verified_chat : TargetSnapshot
verified_chat = chat (target_question ∷ [])

abbrev stable : Options
stable = record {
  now = 5;
  title_policy = title_follow_source;
  binding_version = 1;
  stable_source_ids = true;
}

validate_source_iff_example :
    (validate_source new_share ≡ ok tt)
    ↔ (Named new_share.messages × Nodup (ids new_share.messages))
validate_source_iff_example = validate_source_iff new_share

validate_target_iff_example : (validate_target verified_chat ≡ ok tt) ↔ IsValidTarget verified_chat
validate_target_iff_example = validate_target_iff verified_chat

preview-Unharmed_example :
    Unharmed plain_codec stable old_share new_share (some verified_chat) (some verified_chat)
unfolding preview hashed source_hash hashed_source paired validate_source validate_messages contains
    Text-discrete check_previous check_targets target_hash validate_target validate_all validate_one
    plan_for make_plan settle difference identity_conflicts order_conflicts same_relative_order
    scope_reduced moved_sources modified added source_change filter_map lookup insert index_by
    compare_target baseline_conflict foreign_conflict title_change plan_id Int-discrete
    Texts-discrete ℕ_discrete
preview-Unharmed_example =
    preview-Unharmed plain_codec 0 stable old_share new_share (some verified_chat)
      (some verified_chat) _ refl (inl refl)

abbrev edited_share : SourceSnapshot
edited_share = share (record question { parts = "why?" ∷ [] } ∷ answer ∷ [])

preview-Accounts_example : Accounts old_share edited_share (
    plan_for plain_codec 0 stable
      (some (record old_share { business_hash = "talk" }))
      (record edited_share { business_hash = "talk" })
      (some (verified_chat, verified_chat))
      "talk")
unfolding preview hashed source_hash hashed_source paired validate_source validate_messages contains
    Text-discrete check_previous check_targets target_hash validate_target validate_all validate_one
    plan_for make_plan settle difference identity_conflicts order_conflicts same_relative_order
    scope_reduced moved_sources modified added source_change filter_map lookup insert index_by
    compare_target baseline_conflict foreign_conflict title_change plan_id Int-discrete
    Texts-discrete ℕ_discrete hashed_target
preview-Accounts_example =
    preview-Accounts plain_codec 0 stable old_share edited_share (some verified_chat)
      (some verified_chat) _ refl
