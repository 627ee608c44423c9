-- ===== src/Storage/Mappings.antt =====
-- internal/storage/bindings.go: the pairs of a source message and the target message made for it.
use gpt_owu_bridge.Base.{
  String, List, [], ◌∷◌, map, filter_map, Option, none, some, Bool, true, false, not, ◌&&◌, ◌||◌,
  ◌==◌, text_eq, nat_eq, if◌then◌else◌, contains, length, Map, lookup, index_by, Result, ok, err,
  ◌>>=◌, keep,
}
use gpt_owu_bridge.Domain.{SourceSnapshot, TargetMessage, TargetSnapshot, MessageMapping}
use gpt_owu_bridge.Storage.Types.{StorageError, refused}
use gpt_owu_bridge.Storage.Tables.{Db, MappingRow, Violation, insert_mapping}

-- One round of the loop of `validateMappings`, by the known ids and those seen on both sides.
unfoldable pub check_mappings :
    List String → List String → List String → List MessageMapping → Result StorageError (Unit {0})
check_mappings known sources targets [] = ok tt
check_mappings known sources targets (m ∷ ms) =
    let rest =
      check_mappings known (m.source_message_id ∷ sources) (m.target_message_id ∷ targets) ms in
    if m.source_message_id == "" || m.target_message_id == ""
    then err (refused "message mapping IDs cannot be empty")
    else if not (contains known m.source_message_id)
    then err (refused "message mapping references an unknown source message")
    else if contains sources m.source_message_id
    then err (refused "duplicate source message mapping")
    else if contains targets m.target_message_id
    then err (refused "duplicate target message mapping")
    else rest

unfoldable pub validate_mappings :
    SourceSnapshot → List MessageMapping → Result StorageError (Unit {0})
validate_mappings source = check_mappings (map (λ m. m.id) source.messages) [] []

abbrev pub mapping_of : TargetMessage → Option MessageMapping
mapping_of m =
    if m.managed && not (m.source_id == "") && not (m.id == "")
    then some (record { source_message_id = m.source_id; target_message_id = m.id })
    else none

unfoldable pub mappings_from_target : TargetSnapshot → List MessageMapping
mappings_from_target target = filter_map mapping_of target.messages

-- `rightBySource`, and Go's read of a missing key, which is the empty text.
abbrev pub by_source : List MessageMapping → Map MessageMapping
by_source = index_by (λ m. m.source_message_id)

abbrev target_at : Map MessageMapping → String → String
target_at m k = elim (lookup k m) [ none ↦ "" | some r ↦ r.target_message_id ]

unfoldable pub all_agree : Map MessageMapping → List MessageMapping → Bool
all_agree right [] = true
all_agree right (m ∷ ms) =
    target_at right m.source_message_id == m.target_message_id && all_agree right ms

unfoldable pub same_mappings : List MessageMapping → List MessageMapping → Bool
same_mappings left right =
    if not (length left == length right) then false else all_agree (by_source right) left

abbrev pub mapping_row : String → MessageMapping → MappingRow
mapping_row id m = record {
  binding_id = id;
  source_message_id = m.source_message_id;
  target_message_id = m.target_message_id;
}

-- `replaceMappings`: delete the pairs of the binding, then insert the new ones.
unfoldable pub insert_mappings :
    {Bytes : Type 0} → String → List MessageMapping → Db Bytes → Result Violation (Db Bytes)
insert_mappings id [] db = ok db
insert_mappings id (m ∷ ms) db = insert_mapping db (mapping_row id m) >>= insert_mappings id ms

unfoldable pub replace_mappings :
    {Bytes : Type 0} → String → List MessageMapping → Db Bytes → Result Violation (Db Bytes)
unfolding insert_mappings
replace_mappings id ms db =
    insert_mappings id ms
      (record db { mappings = keep (λ r. not (r.binding_id == id)) db.mappings })
