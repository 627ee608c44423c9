-- ===== src/Source/Snapshot.antt =====
-- internal/source/chatgpt/parser.go: `buildSnapshot`.
use gpt_owu_bridge.Base.{
  String, List, [], ◌∷◌, map, Map, length, nonempty, Option, none, some, Bool, false, not, ◌==◌,
  text_eq, texts_eq, if◌then◌else◌, ltb, Result, ok, ◌>>=◌, ◌>>◌, refuse_if,
}
use gpt_owu_bridge.Domain.{
  Time, Message, Coverage, ContentDiagnostic, UnsupportedItem, SourceIdentity, SourceSnapshot,
  source_chatgpt_share, parser_version, evidence_unknown, evidence_candidate,
}
use gpt_owu_bridge.Storage.Sort.{sort_by, text_before}
use gpt_owu_bridge.Source.Values.{
  Value, Library, Limits, as_text, as_array, as_object, at, is_null, string_slice, or_bare,
  parse_time,
}
use gpt_owu_bridge.Source.Graph.{or_refuse, check_nodes, linear_nodes, ancestry, validate_children}
use gpt_owu_bridge.Source.Scan.{Scan, scan_nodes}

abbrev pub optional_string : Map Value → String → String → Result String String
optional_string fields key message =
    if is_null (at fields key) then ok "" else or_refuse (as_text (at fields key)) message

-- The nodes with more than one child.
abbrev branches : Option (List String) → Bool
branches none = false
branches (some children) = ltb 1 (length children)

abbrev pub branch_diagnostics : Map Value → List ContentDiagnostic
branch_diagnostics [] = []
branch_diagnostics ((id, raw) ∷ rest) =
    if branches (string_slice (at (or_bare (as_object raw)) "children"))
    then record {
      source_id = id;
      node_id = id;
      role = "conversation";
      content_type = "alternate_branch";
      disposition = "ignored";
      detail = "non-current alternate branches are outside the selected conversation path";
    }
      ∷ branch_diagnostics rest
    else branch_diagnostics rest

abbrev pub first_scan : Map Value → Scan
first_scan mapping = record {
  messages = [];
  ids = [];
  coverage = record {
    status = "supported_path_complete";
    selected_messages = 0;
    excluded_internal_nodes = 0;
    excluded_non_message_nodes = 0;
    unsupported = [];
    diagnostics = branch_diagnostics mapping;
    limitations =
        "only the observed React Router reference-table format is supported"
        ∷ "attachments and alternate-branch fidelity are not yet verified" ∷ [];
  };
  parts = 0;
  text_bytes = 0;
}

-- The orders of `slices.SortFunc`; entries that tie stay in the order in which they came.
abbrev item_before : UnsupportedItem → UnsupportedItem → Bool
item_before x y =
    if not (x.node_id == y.node_id)
    then text_before x.node_id y.node_id
    else text_before x.kind y.kind

abbrev diagnostic_before : ContentDiagnostic → ContentDiagnostic → Bool
diagnostic_before x y =
    if not (x.node_id == y.node_id)
    then text_before x.node_id y.node_id
    else if not (x.disposition == y.disposition)
    then text_before x.disposition y.disposition
    else text_before x.content_type y.content_type

unfoldable pub settled_coverage : Scan → Coverage
settled_coverage scan = record (scan.coverage) {
  status = if nonempty scan.coverage.unsupported then "partial" else scan.coverage.status;
  selected_messages = length scan.messages;
  unsupported = sort_by item_before scan.coverage.unsupported;
  diagnostics = sort_by diagnostic_before scan.coverage.diagnostics;
}

abbrev pub identity_of : String → SourceIdentity
identity_of backing_id =
    if backing_id == ""
    then record { candidate_id = ""; evidence = evidence_unknown; basis = "" }
    else record {
      candidate_id = backing_id;
      evidence = evidence_candidate;
      basis = "backing_conversation_id observed in share payload; lifecycle not verified";
    }

abbrev last_node_id : List Message → String
last_node_id [] = ""
last_node_id (m ∷ []) = m.node_id
last_node_id (m ∷ n ∷ ns) = last_node_id (n ∷ ns)

module _ (l : Library) (limits : Limits) where
  -- The checks of the nodes, and the nodes of the conversation.
  unfoldable pub conversation_nodes :
      Map Value → Map Value → Result String (List (String × Map Value))
  conversation_nodes conversation mapping = do
    check_nodes mapping
    linear ←
        or_refuse (as_array (at conversation "linear_conversation"))
          "linear conversation is missing or empty"
    refuse_if (not (nonempty linear)) "linear conversation is missing or empty"
    refuse_if (ltb limits.max_nodes (length linear)) "linear conversation exceeds node limit"
    current ← or_refuse (as_text (at conversation "current_node")) "current node is missing"
    refuse_if (current == "") "current node is missing"
    nodes ← linear_nodes l mapping linear
    chain ← ancestry mapping current limits.max_depth
    refuse_if (not (chain == map (λ node. node.0) nodes))
        "linear conversation differs from current-node ancestry"
    validate_children mapping
    ok nodes

  -- The snapshot of the messages that the loop has found.
  unfoldable pub assemble : Map Value → Time → Scan → Result String SourceSnapshot
  assemble conversation fetched_at scan = do
    refuse_if (not (nonempty scan.messages)) "no supported user-facing messages"
    title ← optional_string conversation "title" "title is not a string"
    share_id ← optional_string conversation "conversation_id" "conversation_id is not a string"
    backing_id ←
        optional_string conversation "backing_conversation_id"
          "backing_conversation_id is not a string"
    ok (record {
      source_type = source_chatgpt_share;
      identity = identity_of backing_id;
      share_id = share_id;
      title = title;
      messages = scan.messages;
      current_node_id = last_node_id scan.messages;
      source_created_at = parse_time l (at conversation "create_time");
      fetched_at = fetched_at;
      parser_version = parser_version;
      coverage = settled_coverage scan;
      business_hash = "";
    })

  -- `buildSnapshot`.
  unfoldable pub build_snapshot : Map Value → Time → Result String SourceSnapshot
  build_snapshot conversation fetched_at = do
    mapping ← or_refuse (as_object (at conversation "mapping")) "mapping is missing or empty"
    refuse_if (not (nonempty mapping)) "mapping is missing or empty"
    refuse_if (ltb limits.max_nodes (length mapping)) "mapping exceeds node limit"
    nodes ← conversation_nodes conversation mapping
    scan ← scan_nodes l limits nodes (first_scan mapping)
    assemble conversation fetched_at scan
