-- ===== src/Diff/ValidSource.antt =====
-- internal/diff/preview.go: which source snapshots `validateSource` accepts.
use mathlib.Core.List.{Nodup}
use gpt_owu_bridge.Base.{
  String, ◌≡◌, refl, ◌≢◌, ◌↔◌, List, [], ◌∷◌, map, true, false, All, contains, distinct, Apart,
  Apart-nil, Apart-cons, distinct-Nodup, arith, ok, text_eq,
}
use gpt_owu_bridge.Domain.{Message, SourceSnapshot}
use gpt_owu_bridge.Diff.Validate.{validate_messages, validate_source}

abbrev pub ids : List Message → List String
ids = map (λ message. message.id)

abbrev pub Named : List Message → Type 0
Named = All (λ message. message.id ≢ "")

accepted :
    (seen : List String) (ms : List Message)
    → validate_messages seen ms ≡ ok tt
    → Named ms × Apart seen (ids ms) × (distinct (ids ms) ≡ true)
unfolding validate_messages distinct
accepted seen [] h = (tt, tt, refl)
accepted seen (m ∷ ms) h =
    let next : validate_messages (m.id ∷ seen) ms ≡ ok tt = ground arith in
    let rest = accepted (m.id ∷ seen) ms next in
    let apart = (Apart-cons m.id seen (ids ms)).0 rest.1 in
    (ground (arith, rest.0), ground (arith, apart), ground (arith, apart, rest.2))

accepts :
    (seen : List String) (ms : List Message)
    → Named ms
    → Apart seen (ids ms)
    → distinct (ids ms) ≡ true
    → validate_messages seen ms ≡ ok tt
unfolding validate_messages distinct
accepts seen [] n f d = refl
accepts seen (m ∷ ms) n f d =
    let apart : contains (ids ms) m.id ≡ false = ground arith in
    ground (arith, accepts (m.id ∷ seen) ms n.1 ((Apart-cons m.id seen (ids ms)).1 (f.1, apart)))

pub validate_source-distinct :
    (s : SourceSnapshot) → validate_source s ≡ ok tt → distinct (ids s.messages) ≡ true
unfolding validate_source
validate_source-distinct s h = (accepted [] s.messages h).2

-- A source snapshot is accepted exactly when every message has an id and no two share one.
pub validate_source_iff :
    (s : SourceSnapshot) → (validate_source s ≡ ok tt) ↔ (Named s.messages × Nodup (ids s.messages))
unfolding validate_source
validate_source_iff s = (
  λ h. let r = accepted [] s.messages h in (r.0, (distinct-Nodup _).0 r.2),
  λ h. accepts [] s.messages h.0 (Apart-nil (ids s.messages)) ((distinct-Nodup _).1 h.1),
)
