-- ===== src/Storage/Mapped.antt =====
-- internal/storage/bindings.go: which message mappings `validateMappings` accepts.
use mathlib.Core.List.{Nodup}
use gpt_owu_bridge.Base.{
  String, ◌≡◌, refl, ◌≢◌, ◌↔◌, List, [], ◌∷◌, map, true, false, All, contains, distinct, Apart,
  Apart-nil, Apart-cons, distinct-Nodup, arith, ok, text_eq,
}
use gpt_owu_bridge.Domain.{SourceSnapshot, MessageMapping}
use gpt_owu_bridge.Storage.Mappings.{check_mappings, validate_mappings}

abbrev pub sources_of : List MessageMapping → List String
sources_of = map (λ m. m.source_message_id)

abbrev pub targets_of : List MessageMapping → List String
targets_of = map (λ m. m.target_message_id)

-- Both sides of a pair are named, and the source is one of those known.
abbrev pub Known : List String → MessageMapping → Type 0
Known known m =
    (m.source_message_id ≢ "")
    × (m.target_message_id ≢ "")
    × (contains known m.source_message_id ≡ true)

record Fresh (known sources targets : List String) (ms : List MessageMapping) : Type 0 where
  all_known : All (Known known) ms
  sources_apart : Apart sources (sources_of ms)
  targets_apart : Apart targets (targets_of ms)
  sources_distinct : distinct (sources_of ms) ≡ true
  targets_distinct : distinct (targets_of ms) ≡ true

accepted :
    (known sources targets : List String) (ms : List MessageMapping)
    → check_mappings known sources targets ms ≡ ok tt
    → Fresh known sources targets ms
unfolding check_mappings distinct
accepted known sources targets [] h = record {
  all_known = tt;
  sources_apart = tt;
  targets_apart = tt;
  sources_distinct = refl;
  targets_distinct = refl;
}
accepted known sources targets (m ∷ ms) h =
    let next : check_mappings known (m.source_message_id ∷ sources) (m.target_message_id ∷ targets)
          ms
        ≡ ok tt =
      ground arith in
    let r = accepted known _ _ ms next in
    let s = (Apart-cons m.source_message_id sources (sources_of ms)).0 r.sources_apart in
    let t = (Apart-cons m.target_message_id targets (targets_of ms)).0 r.targets_apart in
    record {
      all_known = (ground arith, r.all_known);
      sources_apart = (ground arith, s.0);
      targets_apart = (ground arith, t.0);
      sources_distinct = ground (arith, s.1, r.sources_distinct);
      targets_distinct = ground (arith, t.1, r.targets_distinct);
    }

accepts :
    (known sources targets : List String) (ms : List MessageMapping)
    → Fresh known sources targets ms
    → check_mappings known sources targets ms ≡ ok tt
unfolding check_mappings distinct
accepts known sources targets [] f = refl
accepts known sources targets (m ∷ ms) f =
    let s : contains (sources_of ms) m.source_message_id ≡ false =
      ground (arith, f.sources_distinct) in
    let t : contains (targets_of ms) m.target_message_id ≡ false =
      ground (arith, f.targets_distinct) in
    let rest =
      accepts known (m.source_message_id ∷ sources) (m.target_message_id ∷ targets) ms (record {
        all_known = f.all_known.1;
        sources_apart =
            (Apart-cons m.source_message_id sources (sources_of ms)).1 (f.sources_apart.1, s);
        targets_apart =
            (Apart-cons m.target_message_id targets (targets_of ms)).1 (f.targets_apart.1, t);
        sources_distinct = ground (arith, f.sources_distinct);
        targets_distinct = ground (arith, f.targets_distinct);
      }) in
    let k = f.all_known.0 in
    ground (arith, rest, k.0, k.1, k.2, f.sources_apart.0, f.targets_apart.0)

-- The pairs are accepted exactly when both ids of each are set, the source of each is a message
-- of the snapshot, no two have the same source and no two the same target.
pub validate_mappings_iff :
    (s : SourceSnapshot) (ms : List MessageMapping)
    → (validate_mappings s ms ≡ ok tt) ↔ (
        All (Known (map (λ m. m.id) s.messages)) ms × Nodup (sources_of ms) × Nodup (targets_of ms))
unfolding validate_mappings
validate_mappings_iff s ms = (
  λ h.
      let r = accepted _ [] [] ms h in
      (
        r.all_known,
        (distinct-Nodup _).0 r.sources_distinct,
        (distinct-Nodup _).0 r.targets_distinct,
      ),
  λ h. accepts _ [] [] ms (record {
    all_known = h.0;
    sources_apart = Apart-nil (sources_of ms);
    targets_apart = Apart-nil (targets_of ms);
    sources_distinct = (distinct-Nodup _).1 h.1;
    targets_distinct = (distinct-Nodup _).1 h.2;
  }),
)
