-- ===== src/Diff/Edited.antt =====
-- internal/diff/preview.go: the messages that a difference reports as modified.
use mathlib.Core.Logic.Or
use mathlib.Core.List.{mem-cons, not-mem-nil, mem-map_of_mem, Mem, mem-cons_self, mem-cons_of_mem}
use gpt_owu_bridge.Base.Int.{int_eq}
use gpt_owu_bridge.Base.{
  ◌⊎◌, ◌∙◌, ◌≢◌, eq→==, ==→eq, ◌==◌, Bool-cases, mem→contains, Option-cases, inl, inr, All, All-map,
  String, ◌≡◌, refl, List, [], ◌∷◌, map, filter_map, some, true, contains, distinct, arith, text_eq,
  lookup, lookup-index_by, with_key, find_first, bool_eq, texts_eq,
}
use mathlib.Core.Option.{Option-elim}
use gpt_owu_bridge.Domain.{Message, MessageChange}
use gpt_owu_bridge.Diff.Compare.{
  message_content_equal, index_source, change, reports, modified, SourceChange, unchanged, missing,
  moved, edited, source_change,
}
use gpt_owu_bridge.Diff.Kept.{OtherContent, unequal-OtherContent, found_source}
use gpt_owu_bridge.Diff.ValidSource.{ids}

abbrev pub reported : List MessageChange → List String
reported = map (λ x. x.source_id)

-- The message was edited: it is in both lists under one id and at one place, with other content.
abbrev pub Edited : List Message → List Message → MessageChange → Type 0
Edited previous current x =
    (old : Message) × (new : Message) × Mem old previous
    × Mem new current
    × (old.id ≡ x.source_id)
    × (new.id ≡ x.source_id)
    × (old.order ≡ new.order)
    × (old.parent_node_id ≡ new.parent_node_id)
    × OtherContent old new

Edited-later :
    (m : Message) (previous current : List Message) (x : MessageChange)
    → Edited previous current x
    → Edited (m ∷ previous) current x
Edited-later m previous current x (old, new, p, q, a, b, c, d, e) =
    (old, new, mem-cons_of_mem m p, q, a, b, c, d, e)

Edited-first :
    (m : Message) (previous current : List Message)
    → distinct (ids current) ≡ true
    → source_change (index_source current) m ≡ edited
    → Edited (m ∷ previous) current (change m.id "modify" "")
unfolding source_change
Edited-first m previous current d h = elim (Option-cases (lookup m.id (index_source current))) [
  | inl e ↦ absurd (ground (arith, e))
  | inr (new, e) ↦
      let r = found_source current m.id new d e in
      (
        m,
        new,
        mem-cons_self,
        r.0,
        refl,
        r.1,
        ground (arith, e),
        ground (arith, e),
        unequal-OtherContent m new (ground (arith, e)),
      )
]

All-reported :
    (P : MessageChange → Type 0) (c : SourceChange) (f : Message → MessageChange) (m : Message)
    (rest : List MessageChange)
    → All P rest
    → (c ≡ edited → P (f m))
    → All P (Option-elim (reports edited f c m) rest (λ b. b ∷ rest))
unfolding Option-elim
All-reported P unchanged f m rest h k = h
All-reported P missing f m rest h k = h
All-reported P moved f m rest h k = h
All-reported P edited f m rest h k = (k refl, h)

pub modified-Edited :
    (previous current : List Message)
    → distinct (ids current) ≡ true
    → All (Edited previous current) (modified (index_source current) previous)
unfolding modified filter_map
modified-Edited [] current d = tt
modified-Edited (m ∷ ms) current d =
    let rest =
      All-map (modified (index_source current) ms) (Edited-later m ms current)
        (modified-Edited ms current d) in
    All-reported _ (source_change (index_source current) m) _ m _ rest (Edited-first m ms current d)

-- A message of a list without repeated ids is the one that is found under its id.
mem-with_key :
    (ms : List Message) (m : Message)
    → distinct (ids ms) ≡ true
    → Mem m ms
    → ¬ (with_key (λ (x : Message). x.id) m.id ms ≢ some m)
unfolding find_first distinct
mem-with_key [] m d h n = not-mem-nil h
mem-with_key (x ∷ xs) m d h n =
    Or.elim (hlevel) (mem-cons.0 h) (λ e. n (rw e (rw (eq→== x.id _ refl) refl)))
      λ k. elim (Bool-cases (x.id == m.id)) [
        | inl t ↦
            let same : x.id ≡ m.id = ==→eq _ _ t in
            let again : contains (ids xs) m.id ≡ true =
              mem→contains (ids xs) m.id (mem-map_of_mem (λ (y : Message). y.id) k) in
            let clash : contains (ids xs) x.id ≡ true = rw same again in
            absurd (ground (arith, d, clash))
        | inr f ↦ mem-with_key xs m (ground (arith, d)) k (λ e. n (rw f e))
      ]

-- The message is in the later list at its place, with other content.
abbrev pub EditedInto : List Message → Message → Type 0
EditedInto current old =
    (new : Message) × Mem new current
    × (new.id ≡ old.id)
    × (old.order ≡ new.order)
    × (old.parent_node_id ≡ new.parent_node_id)
    × OtherContent old new

found-edited :
    (current : List Message) (old new : Message)
    → lookup old.id (index_source current) ≡ some new
    → (old.order ≡ new.order) × (old.parent_node_id ≡ new.parent_node_id) × OtherContent old new
    → source_change (index_source current) old ≡ edited
unfolding source_change
found-edited current old new e (o, p, c) = elim (Bool-cases (message_content_equal old new)) [
  | inl t ↦ absurd (c (ground (arith, t), ground (arith, t), ground (arith, t)))
  | inr f ↦ ground (arith, e, f, eq→== old.order _ o, eq→== old.parent_node_id _ p)
]

not-EditedInto :
    (current : List Message) (old : Message)
    → distinct (ids current) ≡ true
    → source_change (index_source current) old ≢ edited
    → ¬ EditedInto current old
not-EditedInto current old d n (new, m, same, o, p, c) = mem-with_key current new d m λ e. n (
    found-edited current old new
      (rw (← same) (lookup-index_by (λ (x : Message). x.id) new.id current d ∙ e)) (o, p, c))

reported-first :
    (c : SourceChange) (f : Message → MessageChange) (m : Message) (rest : List MessageChange)
    → c ≡ edited
    → Mem (f m).source_id (reported (Option-elim (reports edited f c m) rest (λ b. b ∷ rest)))
unfolding Option-elim
reported-first unchanged f m rest h = absurd (cc)
reported-first missing f m rest h = absurd (cc)
reported-first moved f m rest h = absurd (cc)
reported-first edited f m rest h = mem-cons_self

reported-later :
    (c : SourceChange) (f : Message → MessageChange) (m : Message) (rest : List MessageChange)
    (k : String)
    → Mem k (reported rest)
    → Mem k (reported (Option-elim (reports edited f c m) rest (λ b. b ∷ rest)))
unfolding Option-elim
reported-later unchanged f m rest k h = h
reported-later missing f m rest k h = h
reported-later moved f m rest k h = h
reported-later edited f m rest k h = mem-cons_of_mem _ h

edited-or_not : (c : SourceChange) → (c ≡ edited) ⊎ (c ≢ edited)
edited-or_not unchanged = inr (λ e. absurd (cc))
edited-or_not missing = inr (λ e. absurd (cc))
edited-or_not moved = inr (λ e. absurd (cc))
edited-or_not edited = inl refl

-- The message is reported as modified, or it was not edited.
abbrev pub Settled : List Message → List MessageChange → Message → Type 0
Settled current changes old = Mem old.id (reported changes) ⊎ ¬ EditedInto current old

pub modified-Settled :
    (previous current : List Message)
    → distinct (ids current) ≡ true
    → All (Settled current (modified (index_source current) previous)) previous
unfolding modified filter_map
modified-Settled [] current d = tt
modified-Settled (m ∷ ms) current d =
    let c = source_change (index_source current) m in
    let f : Message → MessageChange = λ x. change x.id "modify" "" in
    let rest = modified (index_source current) ms in
    (
      elim (edited-or_not c) [
        | inl e ↦ inl (reported-first c f m rest e)
        | inr n ↦ inr (not-EditedInto current m d n)
      ],
      All-map ms
          (λ old h. elim h [ inl k ↦ inl (reported-later c f m rest old.id k) | inr n ↦ inr n ])
          (modified-Settled ms current d),
    )
