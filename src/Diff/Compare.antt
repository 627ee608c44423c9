-- ===== src/Diff/Compare.antt =====
-- internal/diff/preview.go: the comparisons that a preview is made of.
use gpt_owu_bridge.Base.{
  ℕ, suc, String, List, [], ◌∷◌, filter_map, Option, none, some, Bool, true, false, not, ◌&&◌, ◌==◌,
  text_eq, texts_eq, bool_eq, if◌then◌else◌, Map, lookup, insert, index_by,
}
use gpt_owu_bridge.Base.Int.{ℤ, pos, negsuc, leb_ℤ, int_eq}
use gpt_owu_bridge.Domain.{Message, TargetMessage, MessageChange}

abbrev pub index_source : List Message → Map Message
index_source = index_by (λ message. message.id)

abbrev pub index_target_id : List TargetMessage → Map TargetMessage
index_target_id = index_by (λ message. message.id)

abbrev pub message_content_equal : Message → Message → Bool
message_content_equal left right =
    left.role == right.role && left.channel == right.channel && left.parts == right.parts

abbrev pub target_message_structure_equal : TargetMessage → TargetMessage → Bool
target_message_structure_equal left right =
    left.source_id == right.source_id && left.managed == right.managed && left.order == right.order

abbrev pub target_message_content_equal : TargetMessage → TargetMessage → Bool
target_message_content_equal left right =
    left.role == right.role && left.channel == right.channel && left.parts == right.parts

abbrev pub target_matches_source : TargetMessage → Message → Bool
target_matches_source target source =
    target.managed
    && target.source_id == source.id
    && target.role == source.role
    && target.channel == source.channel
    && target.parts == source.parts

abbrev pub change : String → String → String → MessageChange
change source_id kind detail = record { source_id = source_id; kind = kind; detail = detail }

-- `positions[message.ID] = index`.
positions_from : ℕ → Map ℕ → List Message → Map ℕ
positions_from index m [] = m
positions_from index m (message ∷ rest) =
    positions_from (suc index) (insert message.id index m) rest

-- The loop over the previous messages, with the position of the last one that was found.
in_order : Map ℕ → ℤ → List Message → Bool
in_order positions last [] = true
in_order positions last (message ∷ rest) = elim (lookup message.id positions) [
  | none ↦ in_order positions last rest
  | some position ↦
      if leb_ℤ (pos position) last then false else in_order positions (pos position) rest
]

unfoldable pub same_relative_order : List Message → List Message → Bool
unfolding positions_from in_order
same_relative_order previous current = in_order (positions_from 0 [] current) (negsuc 0) previous

-- What one previous message reports, by the index of the current ones: none, that it is missing,
-- that its place changed, or that its content changed.
pub data SourceChange : Type 0 where
  unchanged missing moved edited : SourceChange

unfoldable pub source_change : Map Message → Message → SourceChange
source_change current old = elim (lookup old.id current) [
  | none ↦ missing
  | some new ↦
      if not (old.order == new.order && old.parent_node_id == new.parent_node_id)
      then moved
      else if not (message_content_equal old new)
      then edited
      else unchanged
]

abbrev pub reports :
    SourceChange → (Message → MessageChange) → SourceChange → Message → Option MessageChange
reports missing f missing m = some (f m)
reports moved f moved m = some (f m)
reports edited f edited m = some (f m)
reports _ f _ m = none

-- The three lists that the loop over the previous messages appends to, in its order.
unfoldable pub scope_reduced : Map Message → List Message → List MessageChange
scope_reduced current = filter_map λ old.
    reports missing (λ m. change m.id "source_message_missing" "absence is not treated as deletion")
      (source_change current old) old

unfoldable pub moved_sources : Map Message → List Message → List MessageChange
moved_sources current = filter_map λ old.
    reports moved
      (λ m.
        change m.id "source_structure_changed" "branch or order changes require explicit handling")
      (source_change current old) old

unfoldable pub modified : Map Message → List Message → List MessageChange
modified current =
    filter_map λ old. reports edited (λ m. change m.id "modify" "") (source_change current old) old

-- The loop over the current messages.
unfoldable pub added : Map Message → List Message → List MessageChange
added previous =
    filter_map
      λ new. elim (lookup new.id previous) [ none ↦ some (change new.id "add" "") | some _ ↦ none ]
