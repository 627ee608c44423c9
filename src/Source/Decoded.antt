-- ===== src/Source/Decoded.antt =====
-- internal/source/chatgpt/parser.go: the decoder agrees with what a table means.
use gpt_owu_bridge.Base.{
  ℕ, zero, suc, String, ◌≡◌, refl, sym, subst, List, [], ◌∷◌, Option, none, some, Bool, true, false,
  if◌then◌else◌, inl, inr, ◌==◌, Bool-cases, ==→eq, Result, ok, arith, >>=-elim, text_eq,
}
use gpt_owu_bridge.Base.Int.{ℤ, negsuc, int_eq}
use gpt_owu_bridge.Source.Values.{
  Value, null, boolean, text, number, array, object, Elements, no_elements, element, Members,
  no_members, member, as_text,
}
use gpt_owu_bridge.Source.Graph.{or_refuse}
use gpt_owu_bridge.Source.Decode.{
  Numerals, Progress, busy, done, Memo, progress, entry_at, encoded_key_index, reference_index, put,
  decode_elements, decode_members, decode_value, known, decode, decode_root,
}

-- The values that are no references themselves.
abbrev pub plain : Value → Bool
plain (array es) = false
plain (object ms) = false
plain _ = true

-- What an index of a table stands for, without a memo.
mutual
  pub data Means (m : Numerals) (table : List Value) : ℤ → Value → Type 0 where
    missing : Means m table (negsuc 4) null
    as_it_is : {i : ℤ} {v : Value} → entry_at table i ≡ ok v → plain v ≡ true → Means m table i v
    an_array :
        {i : ℤ} {es vs : Elements}
        → entry_at table i ≡ ok (array es)
        → MeansElements m table es vs
        → Means m table i (array vs)
    an_object :
        {i : ℤ} {ms out : Members}
        → entry_at table i ≡ ok (object ms)
        → MeansMembers m table ms no_members out
        → Means m table i (object out)

  pub data MeansElements (m : Numerals) (table : List Value) : Elements → Elements → Type 0 where
    no_more : MeansElements m table no_elements no_elements
    one_more :
        {raw v : Value} {i : ℤ} {es vs : Elements}
        → reference_index m raw ≡ ok i
        → Means m table i v
        → MeansElements m table es vs
        → MeansElements m table (element raw es) (element v vs)

  pub data MeansMembers (m : Numerals) (table : List Value)
      : Members → Members → Members → Type 0 where
    all_read : {fields : Members} → MeansMembers m table no_members fields fields
    read_one :
        {key name : String} {raw v : Value} {i j : ℤ} {ms fields out : Members}
        → encoded_key_index m key ≡ ok i
        → Means m table i (text name)
        → reference_index m raw ≡ ok j
        → Means m table j v
        → MeansMembers m table ms (put name v fields) out
        → MeansMembers m table (member key raw ms) fields out

pub as_text-eq : (v : Value) (name : String) → as_text v ≡ some name → v ≡ text name
as_text-eq (text s) name h = ground (arith, h)
as_text-eq null name h = absurd (cc)
as_text-eq (boolean b) name h = absurd (cc)
as_text-eq (number n) name h = absurd (cc)
as_text-eq (array es) name h = absurd (cc)
as_text-eq (object ms) name h = absurd (cc)

pub or_refuse-eq {ℓ} :
    {A : Type ℓ} (o : Option A) (message : String) (a : A) → or_refuse o message ≡ ok a → o ≡ some a
or_refuse-eq none message a h = absurd (cc)
or_refuse-eq (some b) message a h = ground (arith, h)

module _ (m : Numerals) (table : List Value) where
  -- What holds of a result holds of an equal one.
  of_result {ℓ κ} :
      {A : Type ℓ} (P : A → Type κ) (a b : A) → ◌≡◌ {A = Result String A} (ok a) (ok b) → P a → P b
  of_result P a b h p = let same : a ≡ b = ground (arith, h) in subst P same p

  of_done {κ} : (P : Value → Type κ) (v w : Value) → some (done v) ≡ some (done w) → P v → P w
  of_done P v w h p = let same : v ≡ w = ground (arith, h) in subst P same p

  if-elim {ℓ κ} :
      {A : Type ℓ} {P : Type κ} (b : Bool) (x y : A) {z : A}
      → (if b then x else y) ≡ z
      → (b ≡ true → x ≡ z → P)
      → (b ≡ false → y ≡ z → P)
      → P
  if-elim true x y h k n = k refl h
  if-elim false x y h k n = n refl h

  -- What has been decoded is what the table means.
  abbrev Correct : Memo → Type 0
  Correct memo = (i : ℤ) (v : Value) → progress memo i ≡ some (done v) → Means m table i v

  -- A decoder of references that agrees with the table.
  abbrev Agrees : (ℤ → Memo → Result String (Value × Memo)) → Type 0
  Agrees go =
      (i : ℤ) (memo : Memo) (r : Value × Memo)
      → go i memo ≡ ok r
      → Correct memo
      → Means m table i r.0 × Correct r.1

  Correct-nil : Correct []
  unfolding progress
  Correct-nil i v h = absurd (cc)

  Correct-busy : (memo : Memo) (i : ℤ) → Correct memo → Correct ((i, busy) ∷ memo)
  unfolding progress
  Correct-busy memo i good j v h = elim (Bool-cases (i == j)) [
    | inl same ↦ absurd (ground (arith, same, h))
    | inr other ↦ good j v (ground (arith, other, h))
  ]

  Correct-done :
      (memo : Memo) (i : ℤ) (v : Value)
      → Correct memo
      → Means m table i v
      → Correct ((i, done v) ∷ memo)
  unfolding progress
  Correct-done memo i v good means j w h = elim (Bool-cases (i == j)) [
    | inl same ↦
        subst (λ k. Means m table k w) (==→eq i j same)
          (of_done (Means m table i) v w (ground (arith, same, h)) means)
    | inr other ↦ good j w (ground (arith, other, h))
  ]

  module _ (go : ℤ → Memo → Result String (Value × Memo)) (agrees : Agrees go) where
    decode_elements-Means :
        (es : Elements) (memo : Memo) (r : Elements × Memo)
        → decode_elements m go es memo ≡ ok r
        → Correct memo
        → MeansElements m table es r.0 × Correct r.1
    unfolding decode_elements
    decode_elements-Means no_elements memo r h good =
        of_result (λ q. MeansElements m table no_elements q.0 × Correct q.1) (no_elements, memo) r h
          (no_more, good)
    decode_elements-Means (element raw rest) memo r h good =
        >>=-elim (reference_index m raw) _ h λ index h₀ h₁.
          >>=-elim (go index memo) _ h₁ λ here h₂ h₃.
            >>=-elim (decode_elements m go rest here.1) _ h₃ λ others h₄ h₅.
              let now = agrees index memo here h₂ good in
              let later = decode_elements-Means rest here.1 others h₄ now.1 in
              of_result (λ q. MeansElements m table (element raw rest) q.0 × Correct q.1)
                (element here.0 others.0, others.1) r h₅ (one_more h₀ now.0 later.0, later.1)

    decode_members-Means :
        (ms fields : Members) (memo : Memo) (r : Members × Memo)
        → decode_members m go ms fields memo ≡ ok r
        → Correct memo
        → MeansMembers m table ms fields r.0 × Correct r.1
    unfolding decode_members
    decode_members-Means no_members fields memo r h good =
        of_result (λ q. MeansMembers m table no_members fields q.0 × Correct q.1) (fields, memo) r h
          (all_read, good)
    decode_members-Means (member key raw rest) fields memo r h good =
        >>=-elim (encoded_key_index m key) _ h λ i h₀ h₁. >>=-elim (go i memo) _ h₁ λ decoded h₂ h₃.
          >>=-elim (or_refuse (as_text decoded.0) "object key is not a string") _ h₃ λ name h₄ h₅.
            >>=-elim (reference_index m raw) _ h₅ λ j h₆ h₇.
              >>=-elim (go j decoded.1) _ h₇ λ here h₈ h₉.
                let named = agrees i memo decoded h₂ good in
                let now = agrees j decoded.1 here h₈ named.1 in
                let later = decode_members-Means rest (put name here.0 fields) here.1 r h₉ now.1 in
                let is_text = as_text-eq decoded.0 name (or_refuse-eq _ _ name h₄) in
                (read_one h₀ (subst (Means m table i) is_text named.0) h₆ now.0 later.0, later.1)

    decode_value-Means :
        (i : ℤ) (raw : Value) (memo : Memo) (r : Value × Memo)
        → entry_at table i ≡ ok raw
        → decode_value m go raw memo ≡ ok r
        → Correct memo
        → Means m table i r.0 × Correct r.1
    unfolding decode_value
    decode_value-Means i (array es) memo r at_i h good =
        >>=-elim (decode_elements m go es memo) _ h λ q h₁ h₂.
          let inner = decode_elements-Means es memo q h₁ good in
          of_result (λ q. Means m table i q.0 × Correct q.1) (array q.0, q.1) r h₂
            (an_array at_i inner.0, inner.1)
    decode_value-Means i (object ms) memo r at_i h good =
        >>=-elim (decode_members m go ms no_members memo) _ h λ q h₁ h₂.
          let inner = decode_members-Means ms no_members memo q h₁ good in
          of_result (λ q. Means m table i q.0 × Correct q.1) (object q.0, q.1) r h₂
            (an_object at_i inner.0, inner.1)
    decode_value-Means i null memo r at_i h good =
        of_result (λ q. Means m table i q.0 × Correct q.1) (null, memo) r h
          (as_it_is at_i refl, good)
    decode_value-Means i (boolean b) memo r at_i h good =
        of_result (λ q. Means m table i q.0 × Correct q.1) (boolean b, memo) r h
          (as_it_is at_i refl, good)
    decode_value-Means i (number n) memo r at_i h good =
        of_result (λ q. Means m table i q.0 × Correct q.1) (number n, memo) r h
          (as_it_is at_i refl, good)
    decode_value-Means i (text s) memo r at_i h good =
        of_result (λ q. Means m table i q.0 × Correct q.1) (text s, memo) r h
          (as_it_is at_i refl, good)

  known-Means :
      (i : ℤ) (memo : Memo) (p : Option Progress) (decoded : Result String (Value × Memo))
      (r : Value × Memo)
      → progress memo i ≡ p
      → Correct memo
      → ((decoded ≡ ok r) → Means m table i r.0 × Correct r.1)
      → known p memo decoded ≡ ok r
      → Means m table i r.0 × Correct r.1
  known-Means i memo none decoded r at_i good new h = new h
  known-Means i memo (some busy) decoded r at_i good new h = absurd (cc)
  known-Means i memo (some (done v)) decoded r at_i good new h =
      of_result (λ q. Means m table i q.0 × Correct q.1) (v, memo) r h (good i v at_i, good)

  decode-hole :
      (i : ℤ) (memo : Memo) (r : Value × Memo)
      → Correct memo
      → (i == negsuc 4) ≡ true
      → ◌≡◌ {A = Result String (Value × Memo)} (ok (null, memo)) (ok r)
      → Means m table i r.0 × Correct r.1
  decode-hole i memo r good hole h =
      of_result (λ q. Means m table i q.0 × Correct q.1) (null, memo) r h
        (subst (λ k. Means m table k null) (sym (==→eq i (negsuc 4) hole)) missing, good)

  decode-Agrees : (left : ℕ) → Agrees (decode m table left)
  unfolding decode
  decode-Agrees zero i memo r h good =
      if-elim (i == negsuc 4) _ _ h (decode-hole i memo r good)
        λ _ h₁. >>=-elim (entry_at table i) _ h₁ λ raw _ h₂. absurd (cc)
  decode-Agrees (suc left) i memo r h good =
      if-elim (i == negsuc 4) _ _ h (decode-hole i memo r good) λ _ h₁.
        >>=-elim (entry_at table i) _ h₁ λ raw at_i h₂.
          known-Means i memo (progress memo i) _ r refl good
            (λ h₃.
              >>=-elim (decode_value m (decode m table left) raw ((i, busy) ∷ memo)) _ h₃ λ q h₄ h₅.
                let inner =
                  decode_value-Means (decode m table left) (decode-Agrees left) i raw
                    ((i, busy) ∷ memo) q at_i h₄ (Correct-busy memo i good) in
                of_result (λ q. Means m table i q.0 × Correct q.1) (q.0, (i, done q.0) ∷ q.1) r h₅
                  (inner.0, Correct-done q.1 i q.0 inner.1 inner.0))
            h₂

  -- A value that the decoder returns for an index of a table is what the index stands for in the
  -- table by its entries alone, whatever the decoder remembered on the way.
  pub decode_root-Means :
      (max_depth : ℕ) (i : ℤ) (v : Value)
      → decode_root m table max_depth i ≡ ok v
      → Means m table i v
  unfolding decode_root
  decode_root-Means max_depth i v h = >>=-elim (decode m table (suc max_depth) i []) _ h λ r h₁ h₂.
      of_result (Means m table i) r.0 v h₂ (decode-Agrees (suc max_depth) i [] r h₁ Correct-nil).0
