-- ===== src/Source/Decode.antt =====
-- internal/source/chatgpt/parser.go: the decoder of a table of references.
use gpt_owu_bridge.Base.{
  ℕ, zero, suc, String, List, [], ◌∷◌, Option, none, some, ◌==◌, text_eq, if◌then◌else◌, ltb,
  Result, ok, err, ◌>>=◌,
}
use gpt_owu_bridge.Base.Int.{ℤ, pos, negsuc, int_eq}
use gpt_owu_bridge.Source.Values.{
  Value, null, boolean, text, number, array, object, Elements, no_elements, element, Members,
  no_members, member, as_text,
}
use gpt_owu_bridge.Source.Graph.{or_refuse}

-- What the decoder takes from Go's library: `len` of a text, what follows an underscore at the start
-- of a text, and `strconv.Atoi`.
pub record Numerals : Type 0 where
  pub text_length : String → ℕ
  pub after_underscore : String → Option String
  pub atoi : String → Option ℤ

-- What is known of an entry of the table: it is being decoded, or it has been.
pub data Progress : Type 0 where
  busy : Progress
  done : Value → Progress

abbrev pub Memo : Type 0
Memo = List (ℤ × Progress)

unfoldable pub progress : Memo → ℤ → Option Progress
progress [] i = none
progress ((j, p) ∷ rest) i = if j == i then some p else progress rest i

-- The entry at an index.
abbrev pub nth : List Value → ℕ → Option Value
nth [] n = none
nth (v ∷ vs) zero = some v
nth (v ∷ vs) (suc n) = nth vs n

abbrev pub in_range : List Value → ℤ → Option Value
in_range table (pos n) = nth table n
in_range table (negsuc n) = none

unfoldable pub entry_at : List Value → ℤ → Result String Value
entry_at table i = or_refuse (in_range table i) "reference index is out of range"

abbrev not_negative : ℤ → Option ℤ
not_negative (pos n) = some (pos n)
not_negative (negsuc n) = none

abbrev integer_in : Numerals → Value → Option ℤ
integer_in m (number n) = m.atoi n
integer_in m _ = none

module _ (m : Numerals) where
  abbrev key_digits : Option String → Option ℤ
  key_digits none = none
  key_digits (some digits) = elim (m.atoi digits) [ none ↦ none | some i ↦ not_negative i ]

  unfoldable pub encoded_key_index : String → Result String ℤ
  encoded_key_index key =
      or_refuse (if ltb (m.text_length key) 2 then none else key_digits (m.after_underscore key))
        "unsupported object encoding"

  unfoldable pub reference_index : Value → Result String ℤ
  reference_index v = or_refuse (integer_in m v) "reference is not an integer"

-- `object[key] = value`.
unfoldable pub put : String → Value → Members → Members
put key new no_members = member key new no_members
put key new (member here old rest) =
    let others = put key new rest in
    if here == key then member here new rest else member here old others

module _ (m : Numerals) (go : ℤ → Memo → Result String (Value × Memo)) where
  -- An array, with the decoder for its references.
  unfoldable pub decode_elements : Elements → Memo → Result String (Elements × Memo)
  decode_elements no_elements memo = ok (no_elements, memo)
  decode_elements (element raw rest) memo = do
    index ← reference_index m raw
    here ← go index memo
    others ← decode_elements rest here.1
    ok (element here.0 others.0, others.1)

  -- An object, with what has been decoded of it.
  unfoldable pub decode_members : Members → Members → Memo → Result String (Members × Memo)
  decode_members no_members fields memo = ok (fields, memo)
  decode_members (member key raw rest) fields memo = do
    key_index ← encoded_key_index m key
    decoded ← go key_index memo
    name ← or_refuse (as_text decoded.0) "object key is not a string"
    index ← reference_index m raw
    here ← go index decoded.1
    decode_members rest (put name here.0 fields) here.1

  -- The value of an entry.
  unfoldable pub decode_value : Value → Memo → Result String (Value × Memo)
  decode_value (array es) memo = decode_elements es memo >>= λ r. ok (array r.0, r.1)
  decode_value (object ms) memo = decode_members ms no_members memo >>= λ r. ok (object r.0, r.1)
  decode_value null memo = ok (null, memo)
  decode_value (boolean b) memo = ok (boolean b, memo)
  decode_value (number n) memo = ok (number n, memo)
  decode_value (text s) memo = ok (text s, memo)

-- The entry, by what is known of it.
abbrev pub known :
    Option Progress → Memo → Result String (Value × Memo) → Result String (Value × Memo)
known none memo decoded = decoded
known (some busy) memo decoded = err "cyclic reference table"
known (some (done v)) memo decoded = ok (v, memo)

module _ (m : Numerals) (table : List Value) where
  -- `decode`, with the number of levels that are left.
  unfoldable pub decode : ℕ → ℤ → Memo → Result String (Value × Memo)
  decode zero index memo =
      if index == negsuc 4
      then ok (null, memo)
      else (entry_at table index >>= λ raw. err "reference depth limit exceeded")
  decode (suc left) index memo =
      if index == negsuc 4
      then ok (null, memo)
      else (entry_at table index >>= λ raw. known (progress memo index) memo (
          decode_value m (decode left) raw ((index, busy) ∷ memo) >>= λ r.
          ok (r.0, (index, done r.0) ∷ r.1)))

  -- `decode` at depth zero, on nothing decoded.
  unfoldable pub decode_root : ℕ → ℤ → Result String Value
  unfolding decode
  decode_root max_depth index = decode (suc max_depth) index [] >>= λ r. ok r.0
