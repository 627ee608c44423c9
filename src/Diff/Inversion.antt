-- ===== src/Diff/Inversion.antt =====
-- internal/diff/preview.go: what a preview that succeeds has checked on its way.
use gpt_owu_bridge.Base.{
  String, ◌≡◌, refl, Option, some, Option-cases, inl, inr, Result, ok, err, >>=-eq-ok, >>=-elim,
  arith, ap, not, refuse_if,
}
use gpt_owu_bridge.Domain.{Time, SourceSnapshot, TargetSnapshot, SyncPlan}
use gpt_owu_bridge.Domain.Hash.{Codec, source_hash}
use gpt_owu_bridge.Diff.Validate.{validate_source}
use gpt_owu_bridge.Diff.Target.{Targets}
use gpt_owu_bridge.Diff.Run.{
  Options, PreviewError, hashed, check_previous, check_targets, paired, plan_for, preview, raised,
  invalid_previous, invalid_source, unknown_title_policy, known_policy, policy_of, previous_checked,
  baseline_hash, current_hash_mismatch, previous_hash_mismatch,
}

module _ {Bytes : Type 0} (c : Codec Bytes) where
  -- What the preview of a snapshot against an earlier one has found right.
  pub record Checked (previous current : SourceSnapshot) (baseline target : Option TargetSnapshot)
      : Type 0 where
    pub previous_hash : String
    pub current_hash : String
    pub targets : Targets
    pub baseline_hash : String
    pub previous_hashed : source_hash c previous ≡ some previous_hash
    pub current_hashed : source_hash c current ≡ some current_hash
    pub previous_valid : validate_source previous ≡ ok tt
    pub current_valid : validate_source current ≡ ok tt
    pub targets_paired : paired baseline target ≡ ok targets
    pub targets_valid : check_targets c targets ≡ ok tt

  hashed-eq-ok :
      (e : PreviewError) (r s : SourceSnapshot)
      → hashed c e r ≡ ok s
      → (hash : String) × (source_hash c r ≡ some hash) × (s ≡ record r { business_hash = hash })
  unfolding hashed
  hashed-eq-ok e r s h = elim (Option-cases (source_hash c r)) [
    | inl q ↦ absurd (ground arith)
    | inr (hash, q) ↦ (hash, q, ground arith)
  ]

  raised-eq-ok {ℓ} :
      {E : Type ℓ} (f : E → PreviewError) (r : Result E (Unit {0})) → raised f r ≡ ok tt → r ≡ ok tt
  raised-eq-ok f (ok u) h = refl
  raised-eq-ok f (err e) h = cc

  pub check_previous-eq-ok :
      (previous p : SourceSnapshot)
      → check_previous c previous ≡ ok p
      → (validate_source previous ≡ ok tt)
        × (hash : String) × (source_hash c previous ≡ some hash)
        × (p ≡ record previous { business_hash = hash })
  unfolding check_previous
  check_previous-eq-ok previous p h =
      let (_, valid, rest) = >>=-eq-ok (raised invalid_previous (validate_source previous)) _ h in
      let (hash, q, e) = hashed-eq-ok previous_hash_mismatch previous p rest in
      (raised-eq-ok invalid_previous _ valid, hash, q, e)

  pub preview-eq-ok :
      (clock : Time) (options : Options) (previous current : SourceSnapshot)
      (baseline target : Option TargetSnapshot) (plan : SyncPlan)
      → preview c clock options (some previous) current baseline target ≡ ok plan
      → (k : Checked previous current baseline target) × (plan
          ≡ plan_for c clock options
              (some (record previous { business_hash = k.previous_hash }))
              (record current { business_hash = k.current_hash })
              k.targets
              k.baseline_hash)
  unfolding preview validate_source
  preview-eq-ok clock options previous current baseline target plan h =
      >>=-elim (hashed c current_hash_mismatch current) _ h λ current' hashed_current h₁.
        >>=-elim (paired baseline target) _ h₁ λ targets both h₂.
          >>=-elim (refuse_if (not (known_policy (policy_of options))) unknown_title_policy) _ h₂
            λ _ _ h₃. >>=-elim (raised invalid_source (validate_source current')) _ h₃ λ _ valid h₄.
              >>=-elim (previous_checked c (some previous)) _ h₄ λ previous' earlier h₅.
                >>=-elim (check_targets c targets) _ h₅ λ _ sound h₆.
                  >>=-elim (baseline_hash c targets) _ h₆ λ baseline_sum _ h₇.
                    >>=-elim (check_previous c previous) _ earlier λ old old_ok same.
                      let (old_valid, old_hash, old_sum, old_e) =
                        check_previous-eq-ok previous old old_ok in
                      let (new_hash, new_sum, new_e) =
                        hashed-eq-ok current_hash_mismatch current current' hashed_current in
                      (
                        record {
                          previous_hash = old_hash;
                          current_hash = new_hash;
                          targets = targets;
                          baseline_hash = baseline_sum;
                          previous_hashed = old_sum;
                          current_hashed = new_sum;
                          previous_valid = old_valid;
                          current_valid =
                              rw (← ap (λ (s : SourceSnapshot). validate_source s) new_e)
                                (raised-eq-ok invalid_source _ valid);
                          targets_paired = both;
                          targets_valid = sound;
                        },
                        cc (h₇, same, old_e, new_e),
                      )
