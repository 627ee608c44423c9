-- ===== src/Diff/ValidTarget.antt =====
-- internal/diff/preview.go: which target snapshots `validateTarget` accepts.
use mathlib.Core.List.{Mem, Nodup}
use gpt_owu_bridge.Base.{
  suc, String, ◌≡◌, refl, ◌≢◌, ◌↔◌, ◌⊎◌, inl, inr, List, [], ◌∷◌, map, filter_map, Option, none,
  some, true, false, ◌||◌, All, contains, distinct, distinct-Nodup, contains→mem, Apart, Apart-nil,
  Apart-cons, Bool-cases, mem→contains, arith, ok, >>=-eq-ok, subst, ==→eq, ◌==◌, nat_eq, text_eq,
  if◌then◌else◌,
}
use gpt_owu_bridge.Base.Int.{ℤ, pos, negsuc, is_negative, leb_ℤ, ◌<ℤ◌}
use gpt_owu_bridge.Domain.{TargetMessage, TargetSnapshot}
use gpt_owu_bridge.Diff.Validate.{Seen, nothing_seen, validate_one, validate_all, validate_target}

abbrev pub target_ids : List TargetMessage → List String
target_ids = map (λ message. message.id)

abbrev source_of : TargetMessage → Option String
source_of message = if message.managed then some message.source_id else none

abbrev pub managed_sources : List TargetMessage → List String
managed_sources = filter_map source_of

-- Each order is above the one before it, and the first above `last`.
abbrev pub Rising : ℤ → List TargetMessage → Type 0
Rising last [] = Unit
Rising last (m ∷ ms) = (last <ℤ m.order) × Rising m.order ms

abbrev pub Sourced : TargetMessage → Type 0
Sourced m = m.managed ≡ true → m.source_id ≢ ""

-- The messages have distinct ids, orders that start at 0 or above and rise, and distinct sources
-- where they are managed; the current message is one of them, or none is named.
pub record IsValidTarget (s : TargetSnapshot) : Type 0 where
  pub named : All (λ m. m.id ≢ "") s.messages
  pub unique : Nodup (target_ids s.messages)
  pub rising : Rising (negsuc 0) s.messages
  pub sourced : All Sourced s.messages
  pub unique_sources : Nodup (managed_sources s.messages)
  pub current : (s.current_message_id ≡ "") ⊎ Mem s.current_message_id (target_ids s.messages)

-- What one round needs, and the state after it.
record Fits (seen : Seen) (m : TargetMessage) : Type 0 where
  named : m.id ≢ ""
  fresh : contains seen.ids m.id ≡ false
  above : seen.last_order <ℤ m.order
  sourced : Sourced m
  fresh_source : m.managed ≡ true → contains seen.sources m.source_id ≡ false

abbrev next : Seen → TargetMessage → Seen
next seen m = record {
  ids = m.id ∷ seen.ids;
  sources = if m.managed then m.source_id ∷ seen.sources else seen.sources;
  last_order = m.order;
  index = suc seen.index;
}

-- The last order is at least -1, and is -1 before the first message.
record Rooted (seen : Seen) : Type 0 where
  floor : leb_ℤ (negsuc 0) seen.last_order ≡ true
  start : seen.index ≡ 0 → seen.last_order ≡ negsuc 0

above_of_tests :
    (a b : ℤ)
    → leb_ℤ (negsuc 0) a ≡ true
    → is_negative b ≡ false
    → ((a ≡ negsuc 0) ⊎ (leb_ℤ b a ≡ false))
    → a <ℤ b
above_of_tests (pos a) (pos b) f n h = ground arith
above_of_tests (pos a) (negsuc b) f n h = cc
above_of_tests (negsuc a) (pos b) f n h = λ x. x
above_of_tests (negsuc a) (negsuc b) f n h = cc

tests_of_above :
    (a b : ℤ)
    → leb_ℤ (negsuc 0) a ≡ true
    → a <ℤ b
    → (is_negative b ≡ false) × (leb_ℤ b a ≡ false) × (leb_ℤ (negsuc 0) b ≡ true)
tests_of_above (pos a) (pos b) f h = ground arith
tests_of_above (pos a) (negsuc b) f h = absurd (h tt)
tests_of_above (negsuc a) (pos b) f h = ground arith
tests_of_above (negsuc a) (negsuc b) f h = absurd (h (ground arith))

validate_one-Fits :
    (seen after : Seen) (m : TargetMessage)
    → Rooted seen
    → validate_one seen m ≡ ok after
    → Fits seen m × (after ≡ next seen m) × Rooted after
unfolding validate_one
validate_one-Fits seen after m r h = ground (arith, above_of_tests seen.last_order m.order r.floor)

Fits-validate_one :
    (seen : Seen) (m : TargetMessage)
    → Rooted seen
    → Fits seen m
    → (validate_one seen m ≡ ok (next seen m)) × Rooted (next seen m)
unfolding validate_one
Fits-validate_one seen m r f =
    ground (arith, tests_of_above seen.last_order m.order r.floor f.above)

-- The same for the messages that are left, by the lists of their ids and managed sources.
record Passes (seen : Seen) (ms : List TargetMessage) : Type 0 where
  named : All (λ m. m.id ≢ "") ms
  fresh : Apart seen.ids (target_ids ms)
  unique : distinct (target_ids ms) ≡ true
  rising : Rising seen.last_order ms
  sourced : All Sourced ms
  fresh_sources : Apart seen.sources (managed_sources ms)
  unique_sources : distinct (managed_sources ms) ≡ true

Passes-cons :
    (seen : Seen) (m : TargetMessage) (ms : List TargetMessage)
    → Fits seen m
    → Passes (next seen m) ms
    → Passes seen (m ∷ ms)
unfolding distinct filter_map
Passes-cons seen m ms f p =
    let ids = (Apart-cons m.id seen.ids (target_ids ms)).0 p.fresh in
    elim (Bool-cases m.managed) [
      | inl e ↦
          let sources =
            (Apart-cons m.source_id seen.sources (managed_sources ms)).0
              (ground (arith, p.fresh_sources)) in
          ground (arith, f, p, ids, sources)
      | inr e ↦ ground (arith, f, p, ids)
    ]

Passes-uncons :
    (seen : Seen) (m : TargetMessage) (ms : List TargetMessage)
    → Passes seen (m ∷ ms)
    → Fits seen m × Passes (next seen m) ms
unfolding distinct filter_map
Passes-uncons seen m ms p =
    let ids : Apart (m.id ∷ seen.ids) (target_ids ms) =
      (Apart-cons m.id seen.ids (target_ids ms)).1 (ground (arith, p)) in
    elim (Bool-cases m.managed) [
      | inl e ↦
          let sources : Apart (m.source_id ∷ seen.sources) (managed_sources ms) =
            (Apart-cons m.source_id seen.sources (managed_sources ms)).1 (ground (arith, p)) in
          (ground (arith, p), ground (arith, p, ids, sources))
      | inr e ↦ (ground (arith, p), ground (arith, p, ids))
    ]

-- The ids that the loop has seen in the end.
Collects : Seen → List TargetMessage → Seen → Type 0
Collects seen ms after =
    (k : String) → contains after.ids k ≡ (contains (target_ids ms) k || contains seen.ids k)

validate_all-Passes :
    (seen after : Seen) (ms : List TargetMessage)
    → Rooted seen
    → validate_all seen ms ≡ ok after
    → Passes seen ms × Collects seen ms after
unfolding validate_all distinct filter_map Collects contains
validate_all-Passes seen after [] r h = (ground arith, λ k. ground arith)
validate_all-Passes seen after (m ∷ ms) r h =
    let (s, one, rest) = >>=-eq-ok (validate_one seen m) (λ s. validate_all s ms) h in
    let (fits, e, rooted) = validate_one-Fits seen s m r one in
    let (passes, all) =
      validate_all-Passes (next seen m) after ms (subst Rooted e rooted)
        (subst (λ s. validate_all s ms ≡ ok after) e rest) in
    (Passes-cons seen m ms fits passes, λ k. ground (arith, all k))

Passes-validate_all :
    (seen : Seen) (ms : List TargetMessage)
    → Rooted seen
    → Passes seen ms
    → (after : Seen) × (validate_all seen ms ≡ ok after) × Collects seen ms after
unfolding validate_all Collects contains
Passes-validate_all seen [] r p = (seen, refl, λ k. refl)
Passes-validate_all seen (m ∷ ms) r p =
    let (fits, passes) = Passes-uncons seen m ms p in
    let (one, rooted) = Fits-validate_one seen m r fits in
    let (after, rest, all) = Passes-validate_all (next seen m) ms rooted passes in
    (after, rw one rest, λ k. ground (arith, all k))

nothing_seen-Rooted : Rooted nothing_seen
nothing_seen-Rooted = ground arith

validate_target-valid : (s : TargetSnapshot) → validate_target s ≡ ok tt → IsValidTarget s
unfolding validate_target Collects contains
validate_target-valid s h =
    let (after, all, current) = >>=-eq-ok (validate_all nothing_seen s.messages) _ h in
    let (p, ids) = validate_all-Passes nothing_seen after s.messages nothing_seen-Rooted all in
    record {
      named = p.named;
      unique = (distinct-Nodup _).0 p.unique;
      rising = p.rising;
      sourced = p.sourced;
      unique_sources = (distinct-Nodup _).0 p.unique_sources;
      current = elim (Bool-cases (s.current_message_id == "")) [
        | inl e ↦ inl (==→eq _ _ e)
        | inr e ↦ inr (contains→mem _ _ (ground (arith, ids s.current_message_id)))
      ];
    }

valid-validate_target : (s : TargetSnapshot) → IsValidTarget s → validate_target s ≡ ok tt
unfolding validate_target Collects contains
valid-validate_target s v =
    let p : Passes nothing_seen s.messages = record {
      named = v.named;
      fresh = Apart-nil _;
      unique = (distinct-Nodup _).1 v.unique;
      rising = v.rising;
      sourced = v.sourced;
      fresh_sources = Apart-nil _;
      unique_sources = (distinct-Nodup _).1 v.unique_sources;
    } in
    let (after, all, ids) = Passes-validate_all nothing_seen s.messages nothing_seen-Rooted p in
    rw all elim v.current [
      | inl e ↦ ground (arith, e)
      | inr m ↦ ground (
        arith,
        ids s.current_message_id,
        mem→contains (target_ids s.messages) s.current_message_id m,
      )
    ]

-- A target snapshot is accepted exactly when its message ids are set and distinct, its orders are
-- not negative and strictly increase, its managed messages have source ids that are set and
-- distinct, and its current message, if any, is one of its messages.
pub validate_target_iff : (s : TargetSnapshot) → (validate_target s ≡ ok tt) ↔ IsValidTarget s
validate_target_iff s = (validate_target-valid s, valid-validate_target s)
