-- ===== src/Source/Share.antt =====
-- internal/source/chatgpt/parser.go: from the reference tables of a share to its snapshot.
use gpt_owu_bridge.Base.{
  ℕ, zero, suc, String, List, [], ◌∷◌, ◌++◌, Option, none, some, Bool, ◌&&◌, text_eq, if◌then◌else◌,
  Result, ok, err, ◌>>=◌, contains,
}
use gpt_owu_bridge.Base.Int.{ℤ, pos}
use gpt_owu_bridge.Domain.{Time, SourceSnapshot}
use gpt_owu_bridge.Domain.Hash.{Codec, source_hash}
use gpt_owu_bridge.Source.Values.{
  Value, object, Members, no_members, member, as_text, as_object, Library, Limits,
}
use gpt_owu_bridge.Source.Graph.{or_refuse}
use gpt_owu_bridge.Source.Decode.{Numerals, in_range, encoded_key_index, decode_root}
use gpt_owu_bridge.Source.Snapshot.{build_snapshot}

pub record Candidate : Type 0 where
  pub table : List Value
  pub index : ℕ

abbrev pub entry_of_key : Result String ℤ → List Value → Option Value
entry_of_key (err message) table = none
entry_of_key (ok index) table = in_range table index

abbrev pub names_conversation : List String → Bool
names_conversation keys =
    contains keys "mapping" && contains keys "linear_conversation" && contains keys "current_node"

-- The one candidate.
abbrev pub single : List Candidate → Option Candidate
single [] = none
single (c ∷ []) = some c
single (c ∷ d ∷ rest) = none

-- `options.FetchedAt.UTC()`, or what the clock says where that is not set.
abbrev pub fetched_or_now : Time → Time → Time
fetched_or_now zero now = now
fetched_or_now (suc t) now = suc t

module _ (m : Numerals) where
  unfoldable pub encoded_object_keys : List Value → Members → Result String (List String)
  encoded_object_keys table no_members = ok []
  encoded_object_keys table (member encoded raw rest) = do
    entry ←
        or_refuse (entry_of_key (encoded_key_index m encoded) table) "invalid encoded object key"
    key ← or_refuse (as_text entry) "encoded object key does not reference a string"
    keys ← encoded_object_keys table rest
    ok (key ∷ keys)

  -- What an entry of a table adds to the candidates.
  abbrev pub candidate_here : List Value → ℕ → Value → Result String (List Candidate)
  candidate_here table index (object fields) = do
    keys ← encoded_object_keys table fields
    ok (if names_conversation keys then record { table = table; index = index } ∷ [] else [])
  candidate_here table index _ = ok []

  -- The loop over the entries of a table, from an index on.
  unfoldable pub candidates_in : List Value → ℕ → List Value → Result String (List Candidate)
  candidates_in table index [] = ok []
  candidates_in table index (v ∷ rest) = do
    here ← candidate_here table index v
    others ← candidates_in table (suc index) rest
    ok (here ++ others)

  -- The loop over the tables.
  unfoldable pub candidates_of : List (List Value) → Result String (List Candidate)
  candidates_of [] = ok []
  candidates_of (table ∷ rest) = do
    here ← candidates_in table 0 table
    others ← candidates_of rest
    ok (here ++ others)

module _ {Bytes : Type 0} (c : Codec Bytes) (l : Library) (m : Numerals) (limits : Limits) where
  -- `ParseHTML` after its tables have been extracted; the last time is what the clock says.
  unfoldable pub parse_tables : List (List Value) → Time → Time → Result String SourceSnapshot
  parse_tables tables fetched now = do
    candidates ← candidates_of m tables
    chosen ← or_refuse (single candidates) "ambiguous or missing conversation structure"
    decoded ← decode_root m chosen.table limits.max_depth (pos chosen.index)
    conversation ← or_refuse (as_object decoded) "conversation root is not an object"
    snapshot ← build_snapshot l limits conversation (fetched_or_now fetched now)
    hash ← or_refuse (source_hash c snapshot) "cannot encode the snapshot"
    ok (record snapshot { business_hash = hash })
