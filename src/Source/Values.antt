-- ===== src/Source/Values.antt =====
-- internal/source/chatgpt/parser.go: decoded JSON values, and how the parser reads their fields.
use gpt_owu_bridge.Base.{
  ℕ, String, List, [], ◌∷◌, Map, lookup, Option, none, some, Bool, true, false, not, ◌&&◌, ◌||◌,
  ◌==◌, text_eq, if◌then◌else◌,
}
use gpt_owu_bridge.Domain.{Time}

-- `any`, as `encoding/json` fills it with `UseNumber`; the fields of an object are in the order in
-- which Go's map gives them.
mutual
  pub data Value : Type 0 where
    null : Value
    boolean : Bool → Value
    number : String → Value
    text : String → Value
    array : Elements → Value
    object : Members → Value

  pub data Elements : Type 0 where
    no_elements : Elements
    element : Value → Elements → Elements

  pub data Members : Type 0 where
    no_members : Members
    member : String → Value → Members → Members

abbrev pub elements : Elements → List Value
elements no_elements = []
elements (element v rest) = v ∷ elements rest

abbrev pub entries : Members → Map Value
entries no_members = []
entries (member key v rest) = (key, v) ∷ entries rest

-- The limits that `buildSnapshot` checks.
pub record Limits : Type 0 where
  pub max_depth : ℕ
  pub max_nodes : ℕ
  pub max_parts : ℕ
  pub max_text_bytes : ℕ

-- The parts of an address that `url.Parse` finds.
pub record Url : Type 0 where
  pub scheme : String
  pub host : String
  pub hostname : String
  pub printed : String

-- What the parser takes from Go's library: `reflect.DeepEqual`, `len` of a text, `ParseFloat` with
-- `time.Unix`, `time.Parse`, `url.Parse`, `strings.ReplaceAll`, the two replacers, and the compiled
-- pattern of citations.
pub record Library : Type 0 where
  pub deep_equal : Value → Value → Bool
  pub text_length : String → ℕ
  pub time_of_seconds : String → Option Time
  pub time_of_text : String → Option Time
  pub parse_url : String → Option Url
  pub replace_all : String → String → String → String
  pub escape_label : String → String
  pub escape_address : String → String
  pub is_citation : String → Bool
  pub replace_citations : String → String → String

-- `value, ok := v.(string)`, and the same for arrays and objects.
abbrev pub as_text : Value → Option String
as_text (text s) = some s
as_text _ = none

abbrev pub as_array : Value → Option (List Value)
as_array (array vs) = some (elements vs)
as_array _ = none

abbrev pub as_object : Value → Option (Map Value)
as_object (object fs) = some (entries fs)
as_object _ = none

abbrev pub or_null : Option Value → Value
or_null none = null
or_null (some v) = v

-- `object[key]`, which is nil where the key is missing.
abbrev pub at : Map Value → String → Value
at fields key = or_null (lookup key fields)

abbrev pub or_empty : Option String → String
or_empty none = ""
or_empty (some s) = s

abbrev pub or_none : Option (List Value) → List Value
or_none none = []
or_none (some vs) = vs

abbrev pub or_bare : Option (Map Value) → Map Value
or_bare none = []
or_bare (some fs) = fs

-- `value, _ := object[key].(string)`, and the same for arrays and objects.
abbrev pub text_at : Map Value → String → String
text_at fields key = or_empty (as_text (at fields key))

abbrev pub array_at : Map Value → String → List Value
array_at fields key = or_none (as_array (at fields key))

abbrev pub object_at : Map Value → String → Map Value
object_at fields key = or_bare (as_object (at fields key))

abbrev pub is_null : Value → Bool
is_null null = true
is_null _ = false

abbrev pub texts : List Value → Option (List String)
texts [] = some []
texts (v ∷ vs) = elim (as_text v) [
  | none ↦ none
  | some s ↦ elim (texts vs) [ none ↦ none | some rest ↦ some (s ∷ rest) ]
]

-- `stringSlice`.
unfoldable pub string_slice : Value → Option (List String)
string_slice null = some []
string_slice (array vs) = texts (elements vs)
string_slice _ = none

-- `parseTime`.
unfoldable pub parse_time : Library → Value → Option Time
parse_time l (number n) = l.time_of_seconds n
parse_time l (text s) = l.time_of_text s
parse_time l _ = none

-- `hidden`.
abbrev is_true : Value → Bool
is_true (boolean b) = b
is_true _ = false

unfoldable pub hidden : Map Value → Bool
hidden message = is_true (at (object_at message "metadata") "is_visually_hidden_from_conversation")

abbrev tool : Option String → Bool
tool none = true
tool (some s) = not (s == "") && not (s == "all")

-- `internalRecipient`.
unfoldable pub internal_recipient : Map Value → Bool
internal_recipient message =
    if is_null (at message "recipient") then false else tool (as_text (at message "recipient"))

unfoldable pub auxiliary_content_type : String → Bool
auxiliary_content_type t =
    t == "model_editable_context"
    || t == "reasoning_recap"
    || t == "thoughts"
    || t == "reasoning"
    || t == "analysis"
    || t == "tether_browsing_display"
    || t == "tether_quote"
