-- ===== src/Examples/Source.antt =====
-- A conversation of two nodes, one of them with a message.
use mathlib.Core.List.{Nodup}
use gpt_owu_bridge.Base.{
  suc, ◌≤◌, String, ◌≡◌, refl, ◌↔◌, [], ◌∷◌, Map, none, true, false, ok, nonempty, length,
  Text-discrete, Texts-discrete, lookup, contains,
}
use gpt_owu_bridge.Base.Int.{pos, Int-discrete}
use gpt_owu_bridge.Domain.{SourceSnapshot}
use gpt_owu_bridge.Diff.Validate.{validate_source}
use gpt_owu_bridge.Source.Values.{
  Value, null, text, number, array, object, no_elements, element, Members, no_members, member,
  entries, Library, Limits, string_slice, hidden, internal_recipient, auxiliary_content_type,
  parse_time,
}
use gpt_owu_bridge.Source.Graph.{
  ancestry, ancestors, parent_of, check_nodes, linear_nodes, validate_linear_node,
  validate_children, each_children, each_parent,
}
use native.Mathlib.Decide.{ℕ_discrete}
use gpt_owu_bridge.Storage.Sort.{sort_by, place}
use gpt_owu_bridge.Source.Citations.{degrade_citations, rewrite, apply_references}
use gpt_owu_bridge.Source.Scan.{
  scan_nodes, scan_node, scan_message, take_content, take_parts, add_message, append_message,
}
use gpt_owu_bridge.Source.Snapshot.{build_snapshot, conversation_nodes, assemble, settled_coverage}
use gpt_owu_bridge.Source.Found.{text_in}
use gpt_owu_bridge.Source.Parsed.{build_snapshot-accepted, build_snapshot-bounded}
use gpt_owu_bridge.Source.Decode.{
  Numerals, progress, put, entry_at, encoded_key_index, reference_index, decode_elements,
  decode_members, decode_value, decode, decode_root,
}
use gpt_owu_bridge.Source.Decoded.{Means, decode_root-Means}
use gpt_owu_bridge.Base.{some, List, ◌==◌, if◌then◌else◌, text_eq}
use gpt_owu_bridge.Source.Ancestry.{Chain, ancestry_iff}

abbrev pub library : Library
library = record {
  deep_equal = λ v w. true;
  text_length = λ s. 2;
  time_of_seconds = λ s. none;
  time_of_text = λ s. none;
  parse_url = λ s. none;
  replace_all = λ s old new. s;
  escape_label = λ s. s;
  escape_address = λ s. s;
  is_citation = λ s. false;
  replace_citations = λ s new. s;
}

abbrev pub limits : Limits
limits = record { max_depth = 8; max_nodes = 8; max_parts = 8; max_text_bytes = 8 }

abbrev root_node : Value
root_node = object (
    member "id" (text "r") (
      member "children" (array (element (text "m") no_elements))
        (member "message" null no_members)))

abbrev message : Value
message = object (
    member "id" (text "x") (
      member "author" (object (member "role" (text "user") no_members)) (
        member "content"
          (object (
            member "content_type" (text "text")
              (member "parts" (array (element (text "hi") no_elements)) no_members)))
          no_members)))

abbrev message_node : Value
message_node = object (
    member "id" (text "m") (
      member "parent" (text "r")
        (member "children" (array no_elements) (member "message" message no_members))))

abbrev nodes : Members
nodes = member "r" root_node (member "m" message_node no_members)

abbrev conversation : Map Value
conversation =
    ("mapping", object nodes)
    ∷ ("linear_conversation", array (element root_node (element message_node no_elements)))
    ∷ ("current_node", text "m")
    ∷ ("title", text "greeting")
    ∷ []

abbrev pub greeting : SourceSnapshot
greeting = record {
  source_type = "chatgpt_share";
  identity = record { candidate_id = ""; evidence = "unknown"; basis = "" };
  share_id = "";
  title = "greeting";
  messages =
      record {
        id = "x";
        node_id = "m";
        role = "user";
        channel = "";
        parts = "hi" ∷ [];
        parent_node_id = "";
        child_node_ids = [];
        order = pos 0;
        source_created_at = none;
      }
      ∷ [];
  current_node_id = "m";
  source_created_at = none;
  fetched_at = 7;
  parser_version = "chatgpt-share-ref-v2";
  coverage = record {
    status = "supported_path_complete";
    selected_messages = 1;
    excluded_internal_nodes = 0;
    excluded_non_message_nodes = 1;
    unsupported = [];
    diagnostics =
        record {
          source_id = "r";
          node_id = "r";
          role = "none";
          content_type = "non_message";
          disposition = "ignored";
          detail = "conversation structure node has no message payload";
        }
        ∷ [];
    limitations =
        "only the observed React Router reference-table format is supported"
        ∷ "attachments and alternate-branch fidelity are not yet verified" ∷ [];
  };
  business_hash = "";
}

parsed_greeting : build_snapshot library limits conversation 7 ≡ ok greeting
unfolding build_snapshot conversation_nodes assemble settled_coverage Text-discrete Texts-discrete
    lookup contains string_slice hidden internal_recipient auxiliary_content_type parse_time
    ancestry ancestors parent_of check_nodes linear_nodes validate_linear_node validate_children
    each_children each_parent ℕ_discrete sort_by place degrade_citations rewrite apply_references
    scan_nodes scan_node scan_message take_content take_parts add_message append_message
parsed_greeting = refl

build_snapshot-accepted_example :
    (validate_source greeting ≡ ok tt) × (nonempty greeting.messages ≡ true)
build_snapshot-accepted_example =
    build_snapshot-accepted library limits conversation 7 greeting parsed_greeting

build_snapshot-bounded_example : text_in library limits greeting.messages ≤ limits.max_text_bytes
build_snapshot-bounded_example =
    build_snapshot-bounded library limits conversation 7 greeting parsed_greeting

ancestry_iff_example : (ancestry (entries nodes) "m" 8 ≡ ok ("r" ∷ "m" ∷ [])) ↔ (
    Chain (entries nodes) "m" [] ("r" ∷ "m" ∷ [])
    × Nodup {A = String} ("r" ∷ "m" ∷ [])
    × (length {A = String} ("r" ∷ "m" ∷ []) ≤ suc 8))
ancestry_iff_example = ancestry_iff (entries nodes) "m" 8 ("r" ∷ "m" ∷ [])

abbrev numerals : Numerals
numerals = record {
  text_length = λ s. 2;
  after_underscore = λ s. if s == "_1" then some "1" else none;
  atoi = λ s.
      if s == "1"
      then some (pos 1)
      else if s == "2"
      then some (pos 2)
      else if s == "3"
      then some (pos 3)
      else none;
}

-- An object whose field is an array that refers to one entry twice.
abbrev table : List Value
table =
    object (member "_1" (number "2") no_members)
    ∷ text "title"
    ∷ array (element (number "3") (element (number "3") no_elements))
    ∷ text "word"
    ∷ []

abbrev decoded : Value
decoded =
    object (
      member "title" (array (element (text "word") (element (text "word") no_elements))) no_members)

read_whole : decode_root numerals table 2 (pos 0) ≡ ok decoded
unfolding decode_root decode decode_value decode_members decode_elements progress put entry_at
    encoded_key_index reference_index Int-discrete Text-discrete ℕ_discrete
read_whole = refl

decode_root-Means_example : Means numerals table (pos 0) decoded
decode_root-Means_example = decode_root-Means numerals table 2 (pos 0) decoded read_whole
