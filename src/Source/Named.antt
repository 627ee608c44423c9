-- ===== src/Source/Named.antt =====
-- internal/source/chatgpt/parser.go: the entries of a table that look like a conversation.
use gpt_owu_bridge.Base.{
  sym, ◌⊎◌, inl, inr, contains, text_eq, ◌==◌, Bool-cases, ==→eq, eq→==, err, ℕ, String, ◌≡◌, refl,
  subst, List, [], ◌∷◌, some, true, Result, ok, arith, >>=-elim,
}
use gpt_owu_bridge.Base.Int.{ℤ}
use gpt_owu_bridge.Source.Values.{
  Value, null, boolean, text, number, array, object, Members, no_members, member, as_text,
}
use gpt_owu_bridge.Source.Graph.{or_refuse}
use gpt_owu_bridge.Source.Decode.{Numerals, entry_at, encoded_key_index}
use gpt_owu_bridge.Source.Decoded.{or_refuse-eq, as_text-eq}
use gpt_owu_bridge.Source.Share.{
  Candidate, entry_of_key, names_conversation, encoded_object_keys, candidate_here,
}

text-injective :
    {v : Result String Value} {s t : String} → v ≡ ok (text s) → v ≡ ok (text t) → s ≡ t
text-injective h k = ground (arith, h, k)

module _ (m : Numerals) where
  -- A field of the object has a key that refers to the name.
  pub data HasKey (table : List Value) (name : String) : Members → Type 0 where
    here :
        {encoded : String} {i : ℤ} {raw : Value} {rest : Members}
        → encoded_key_index m encoded ≡ ok i
        → entry_at table i ≡ ok (text name)
        → HasKey table name (member encoded raw rest)
    there :
        {encoded : String} {raw : Value} {rest : Members}
        → HasKey table name rest
        → HasKey table name (member encoded raw rest)

  -- The entry is an object with the three fields of a conversation.
  abbrev pub IsConversation : List Value → Value → Type 0
  IsConversation table v =
      (fields : Members) × (v ≡ object fields)
      × HasKey table "mapping" fields
      × HasKey table "linear_conversation" fields
      × HasKey table "current_node" fields

  abbrev pub IsOther : List Value → Value → Type 0
  IsOther table v = ¬ IsConversation table v

  field-entry :
      (table : List Value) (encoded : String) (entry : Value) (key : String) (r : Result String ℤ)
      → encoded_key_index m encoded ≡ r
      → entry_of_key r table ≡ some entry
      → entry ≡ text key
      → (i : ℤ) × (encoded_key_index m encoded ≡ ok i) × (entry_at table i ≡ ok (text key))
  unfolding entry_at
  field-entry table encoded entry key (err e) at_key found same = absurd (cc)
  field-entry table encoded entry key (ok i) at_key found same =
      (i, at_key, rw found (rw same refl))

  -- What the key of a field refers to.
  field-text :
      (table : List Value) (encoded : String) (entry : Value) (key : String)
      → or_refuse (entry_of_key (encoded_key_index m encoded) table) "invalid encoded object key"
        ≡ ok entry
      → or_refuse (as_text entry) "encoded object key does not reference a string" ≡ ok key
      → (i : ℤ) × (encoded_key_index m encoded ≡ ok i) × (entry_at table i ≡ ok (text key))
  unfolding entry_at
  field-text table encoded entry key h k =
      let in_table = or_refuse-eq (entry_of_key (encoded_key_index m encoded) table) _ entry h in
      let is_text = as_text-eq entry key (or_refuse-eq (as_text entry) _ key k) in
      field-entry table encoded entry key (encoded_key_index m encoded) refl in_table is_text

  -- The keys that are read are the names that fields refer to.
  keys-HasKey :
      (table : List Value) (fields : Members) (keys : List String) (name : String)
      → encoded_object_keys m table fields ≡ ok keys
      → contains keys name ≡ true
      → HasKey table name fields
  unfolding encoded_object_keys contains
  keys-HasKey table no_members keys name h k =
      let none_read : keys ≡ [] = ground (arith, h) in absurd (ground (arith, none_read, k))
  keys-HasKey table (member encoded raw rest) keys name h k =
      >>=-elim
        (or_refuse (entry_of_key (encoded_key_index m encoded) table) "invalid encoded object key")
        _ h
        λ entry h₁ h₂.
          >>=-elim (or_refuse (as_text entry) "encoded object key does not reference a string") _ h₂
            λ key h₃ h₄. >>=-elim (encoded_object_keys m table rest) _ h₄ λ others h₅ h₆.
              let read : keys ≡ key ∷ others = ground (arith, h₆) in
              let (i, e, at_i) = field-text table encoded entry key h₁ h₃ in
              elim (Bool-cases (key == name)) [
                | inl t ↦ here e (subst (λ n. entry_at table i ≡ ok (text n)) (==→eq _ _ t) at_i)
                | inr t ↦ there (keys-HasKey table rest others name h₅ (ground (arith, read, t, k)))
              ]

  named :
      (table : List Value) (encoded name key : String) (raw : Value) (rest : Members)
      (keys : List String) (i : ℤ)
      → encoded_key_index m encoded ≡ ok i
      → entry_at table i ≡ ok (text key)
      → (HasKey table name rest → contains keys name ≡ true)
      → HasKey table name (member encoded raw rest)
      → contains (key ∷ keys) name ≡ true
  unfolding contains
  named table encoded name key raw rest keys i e at_i later (here {i = j} p q) =
      let same_index : j ≡ i = ground (arith, e, p) in
      let same : name ≡ key =
        text-injective (subst (λ x. entry_at table x ≡ ok (text name)) same_index q) at_i in
      ground (arith, eq→== key name (sym same))
  named table encoded name key raw rest keys i e at_i later (there k) = ground (arith, later k)

  HasKey-keys :
      (table : List Value) (fields : Members) (keys : List String) (name : String)
      → encoded_object_keys m table fields ≡ ok keys
      → HasKey table name fields
      → contains keys name ≡ true
  unfolding encoded_object_keys contains
  HasKey-keys table no_members keys name h k = elim k [ ]
  HasKey-keys table (member encoded raw rest) keys name h k =
      >>=-elim
        (or_refuse (entry_of_key (encoded_key_index m encoded) table) "invalid encoded object key")
        _ h
        λ entry h₁ h₂.
          >>=-elim (or_refuse (as_text entry) "encoded object key does not reference a string") _ h₂
            λ key h₃ h₄. >>=-elim (encoded_object_keys m table rest) _ h₄ λ others h₅ h₆.
              let read : keys ≡ key ∷ others = ground (arith, h₆) in
              let (i, e, at_i) = field-text table encoded entry key h₁ h₃ in
              rw read (
                named table encoded name key raw rest others i e at_i
                  (HasKey-keys table rest others name h₅) k)

  own :
      {table : List Value} {name : String} {fields others : Members}
      → object fields ≡ object others
      → HasKey table name others
      → HasKey table name fields
  own {table} {name} {fields} {others} e h =
      let same : fields ≡ others = ground (arith, e) in subst (HasKey table name) (sym same) h

  abbrev Here : List Value → ℕ → Value → List Candidate → Type 0
  Here table n v cs =
      (IsConversation table v × (cs ≡ record { table = table; index = n } ∷ []))
      ⊎ (IsOther table v × (cs ≡ []))

  pub candidate_here-Here :
      (table : List Value) (n : ℕ) (v : Value) (cs : List Candidate)
      → candidate_here m table n v ≡ ok cs
      → Here table n v cs
  candidate_here-Here table n (object fields) cs h =
      >>=-elim (encoded_object_keys m table fields) _ h λ keys h₁ h₂.
        elim (Bool-cases (names_conversation keys)) [
          | inl t ↦ inl (
            (
              fields,
              refl,
              keys-HasKey table fields keys "mapping" h₁ (ground (arith, t)),
              keys-HasKey table fields keys "linear_conversation" h₁ (ground (arith, t)),
              keys-HasKey table fields keys "current_node" h₁ (ground (arith, t)),
            ),
            ground (arith, t, h₂),
          )
          | inr t ↦ inr (
            λ c. ground (
              arith,
              t,
              HasKey-keys table fields keys "mapping" h₁ (own c.1 c.2),
              HasKey-keys table fields keys "linear_conversation" h₁ (own c.1 c.3),
              HasKey-keys table fields keys "current_node" h₁ (own c.1 c.4),
            ),
            ground (arith, t, h₂),
          )
        ]
  candidate_here-Here table n null cs h = inr (λ k. absurd (cc), ground (arith, h))
  candidate_here-Here table n (boolean b) cs h = inr (λ k. absurd (cc), ground (arith, h))
  candidate_here-Here table n (number b) cs h = inr (λ k. absurd (cc), ground (arith, h))
  candidate_here-Here table n (text b) cs h = inr (λ k. absurd (cc), ground (arith, h))
  candidate_here-Here table n (array b) cs h = inr (λ k. absurd (cc), ground (arith, h))
