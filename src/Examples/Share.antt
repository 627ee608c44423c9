-- ===== src/Examples/Share.antt =====
-- A share whose page has one table of references, with the conversation as its first entry.
use gpt_owu_bridge.Base.{
  String, ◌≡◌, refl, List, [], ◌∷◌, Map, lookup, ok, Text-discrete, Texts-discrete, contains,
}
use gpt_owu_bridge.Base.Int.{ℤ, pos, negsuc, Int-discrete}
use gpt_owu_bridge.Domain.Hash.{source_hash, hashed_source}
use gpt_owu_bridge.Source.Values.{
  Value, text, number, array, object, no_elements, element, no_members, member, string_slice,
  hidden, internal_recipient, auxiliary_content_type, parse_time,
}
use gpt_owu_bridge.Source.Graph.{
  ancestry, ancestors, parent_of, check_nodes, linear_nodes, validate_linear_node,
  validate_children, each_children, each_parent,
}
use native.Mathlib.Decide.{ℕ_discrete}
use gpt_owu_bridge.Storage.Sort.{sort_by, place}
use gpt_owu_bridge.Source.Citations.{degrade_citations, rewrite, apply_references}
use gpt_owu_bridge.Source.Scan.{
  scan_nodes, scan_node, scan_message, take_content, take_parts, add_message, append_message,
}
use gpt_owu_bridge.Source.Snapshot.{build_snapshot, conversation_nodes, assemble, settled_coverage}
use gpt_owu_bridge.Source.Decode.{
  Numerals, progress, put, entry_at, encoded_key_index, reference_index, decode_elements,
  decode_members, decode_value, decode, decode_root,
}
use gpt_owu_bridge.Source.Share.{encoded_object_keys, candidates_in, candidates_of, parse_tables}
use gpt_owu_bridge.Source.Shared.{FromTable, parse_tables-FromTable}
use gpt_owu_bridge.Examples.Data.{plain_codec}
use gpt_owu_bridge.Examples.Source.{library, limits, greeting}

abbrev keys : Map String
keys =
    ("_0", "0")
    ∷ ("_1", "1")
    ∷ ("_2", "2")
    ∷ ("_3", "3")
    ∷ ("_4", "4")
    ∷ ("_5", "5")
    ∷ ("_6", "6")
    ∷ ("_7", "7")
    ∷ ("_8", "8")
    ∷ ("_9", "9")
    ∷ ("_10", "10")
    ∷ ("_11", "11")
    ∷ ("_12", "12")
    ∷ ("_13", "13")
    ∷ ("_14", "14")
    ∷ ("_15", "15")
    ∷ ("_16", "16")
    ∷ ("_17", "17")
    ∷ ("_18", "18")
    ∷ ("_19", "19")
    ∷ ("_20", "20")
    ∷ ("_21", "21")
    ∷ ("_22", "22")
    ∷ ("_23", "23")
    ∷ ("_24", "24")
    ∷ ("_25", "25")
    ∷ ("_26", "26")
    ∷ ("_27", "27")
    ∷ ("_28", "28")
    ∷ ("_29", "29")
    ∷ ("_30", "30")
    ∷ []

abbrev digits : Map ℤ
digits =
    ("-5", negsuc 4)
    ∷ ("0", pos 0)
    ∷ ("1", pos 1)
    ∷ ("2", pos 2)
    ∷ ("3", pos 3)
    ∷ ("4", pos 4)
    ∷ ("5", pos 5)
    ∷ ("6", pos 6)
    ∷ ("7", pos 7)
    ∷ ("8", pos 8)
    ∷ ("9", pos 9)
    ∷ ("10", pos 10)
    ∷ ("11", pos 11)
    ∷ ("12", pos 12)
    ∷ ("13", pos 13)
    ∷ ("14", pos 14)
    ∷ ("15", pos 15)
    ∷ ("16", pos 16)
    ∷ ("17", pos 17)
    ∷ ("18", pos 18)
    ∷ ("19", pos 19)
    ∷ ("20", pos 20)
    ∷ ("21", pos 21)
    ∷ ("22", pos 22)
    ∷ ("23", pos 23)
    ∷ ("24", pos 24)
    ∷ ("25", pos 25)
    ∷ ("26", pos 26)
    ∷ ("27", pos 27)
    ∷ ("28", pos 28)
    ∷ ("29", pos 29)
    ∷ ("30", pos 30)
    ∷ []

abbrev indices : Numerals
indices = record {
  text_length = λ s. 2;
  after_underscore = λ s. lookup s keys;
  atoi = λ s. lookup s digits;
}

abbrev share : List Value
share =
    object (
      member "_1" (number "2") (
        member "_26" (number "27")
          (member "_28" (number "8") (member "_29" (number "30") no_members))))
    ∷ text "mapping"
    ∷ object (member "_3" (number "4") (member "_8" (number "10") no_members))
    ∷ text "r"
    ∷ object
        (member "_5" (number "3") (member "_6" (number "7") (member "_9" (number "-5") no_members)))
    ∷ text "id"
    ∷ text "children"
    ∷ array (element (number "8") no_elements)
    ∷ text "m"
    ∷ text "message"
    ∷ object (
        member "_5" (number "8") (
          member "_11" (number "3")
            (member "_6" (number "12") (member "_9" (number "13") no_members))))
    ∷ text "parent"
    ∷ array no_elements
    ∷ object (
        member "_5" (number "14")
          (member "_15" (number "16") (member "_19" (number "20") no_members)))
    ∷ text "x"
    ∷ text "author"
    ∷ object (member "_17" (number "18") no_members)
    ∷ text "role"
    ∷ text "user"
    ∷ text "content"
    ∷ object (member "_21" (number "22") (member "_23" (number "24") no_members))
    ∷ text "content_type"
    ∷ text "text"
    ∷ text "parts"
    ∷ array (element (number "25") no_elements)
    ∷ text "hi"
    ∷ text "linear_conversation"
    ∷ array (element (number "4") (element (number "10") no_elements))
    ∷ text "current_node"
    ∷ text "title"
    ∷ text "greeting"
    ∷ []

shared_greeting :
    parse_tables plain_codec library indices limits (share ∷ []) 0 7
    ≡ ok (record greeting { business_hash = "greeting" })
unfolding parse_tables candidates_of candidates_in encoded_object_keys source_hash hashed_source
    decode_root decode decode_value decode_members decode_elements progress put entry_at
    encoded_key_index reference_index Int-discrete ℕ_discrete build_snapshot conversation_nodes
    assemble settled_coverage Text-discrete Texts-discrete lookup contains string_slice hidden
    internal_recipient auxiliary_content_type parse_time ancestry ancestors parent_of check_nodes
    linear_nodes validate_linear_node validate_children each_children each_parent sort_by place
    degrade_citations rewrite apply_references scan_nodes scan_node scan_message take_content
    take_parts add_message append_message
shared_greeting = refl

parse_tables-FromTable_example :
    FromTable plain_codec library indices limits
      (share ∷ [])
      7
      (record greeting { business_hash = "greeting" })
parse_tables-FromTable_example =
    parse_tables-FromTable plain_codec library indices limits (share ∷ []) 0 7
      (record greeting { business_hash = "greeting" }) shared_greeting
