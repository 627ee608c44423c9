-- ===== src/Source/Chosen.antt =====
-- internal/source/chatgpt/parser.go: the one entry that a conversation is taken from.
use gpt_owu_bridge.Base.{
  length, All, ap, ◌∙◌, ◌⊎◌, inl, inr, append-nil_parts, text_eq, ◌+◌, ℕ, suc, ◌≡◌, refl, List, [],
  ◌∷◌, ◌++◌, some, ok, arith, >>=-elim,
}
use gpt_owu_bridge.Source.Values.{Value}
use gpt_owu_bridge.Source.Decode.{Numerals}
use gpt_owu_bridge.Source.Share.{Candidate, single, candidate_here, candidates_in, candidates_of}
use gpt_owu_bridge.Source.Named.{IsConversation, IsOther, candidate_here-Here}

-- One entry of a list is picked, by what comes before it and by itself; no other can be.
pub record Sole {ℓ} {A : Type ℓ} (P : List A → A → Type 0) (Other : A → Type 0) (xs : List A)
    : Type ℓ where
  pub before : List A
  pub picked : A
  pub later : List A
  pub split : xs ≡ before ++ picked ∷ later
  pub none_before : All Other before
  pub chosen : P before picked
  pub none_later : All Other later

module _ {ℓ} {A : Type ℓ} (Other : A → Type 0) where
  Sole-first :
      (P : List A → A → Type 0) (x : A) (xs : List A)
      → P [] x
      → All Other xs
      → Sole P Other (x ∷ xs)
  Sole-first P x xs p h = record {
    before = [];
    picked = x;
    later = xs;
    split = refl;
    none_before = tt;
    chosen = p;
    none_later = h;
  }

  Sole-next :
      (P Q : List A → A → Type 0) (x : A) (xs : List A)
      → Other x
      → ((before : List A) (y : A) → Q before y → P (x ∷ before) y)
      → Sole Q Other xs
      → Sole P Other (x ∷ xs)
  Sole-next P Q x xs o f s = record {
    before = x ∷ s.before;
    picked = s.picked;
    later = s.later;
    split = ap (λ ys. x ∷ ys) s.split;
    none_before = (o, s.none_before);
    chosen = f s.before s.picked s.chosen;
    none_later = s.none_later;
  }

-- Two lists of which all entries together are one.
append-single :
    (xs ys : List Candidate) (c : Candidate)
    → xs ++ ys ≡ c ∷ []
    → ((xs ≡ []) × (ys ≡ c ∷ [])) ⊎ ((xs ≡ c ∷ []) × (ys ≡ []))
append-single [] ys c h = inl (refl, h)
append-single (x ∷ xs) ys c h =
    let same : x ≡ c = ground (arith, h) in
    let empty : xs ++ ys ≡ [] = ground (arith, h) in
    let parts = append-nil_parts xs ys empty in inr (rw same (rw parts.0 refl), parts.1)

pub single-eq : (cs : List Candidate) (c : Candidate) → single cs ≡ some c → cs ≡ c ∷ []
single-eq [] c h = absurd (cc)
single-eq (d ∷ []) c h = let same : d ≡ c = ground (arith, h) in rw same refl
single-eq (d ∷ e ∷ rest) c h = absurd (cc)

module _ (m : Numerals) where
  -- The entry at an index from n on, in a table whose other entries are no conversations.
  abbrev pub At : List Value → ℕ → Candidate → List Value → Value → Type 0
  At table n c before v =
      IsConversation m table v × (c.table ≡ table) × (c.index ≡ n + length before)

  abbrev pub OneIn : List Value → ℕ → Candidate → List Value → Type 0
  OneIn table n c = Sole (At table n c) (IsOther m table)

  abbrev pub NoneIn : List Value → Type 0
  NoneIn table = All (IsOther m table) table

  candidates_in-none :
      (table : List Value) (n : ℕ) (vs : List Value)
      → candidates_in m table n vs ≡ ok []
      → All (IsOther m table) vs
  unfolding candidates_in
  candidates_in-none table n [] h = tt
  candidates_in-none table n (v ∷ rest) h = >>=-elim (candidate_here m table n v) _ h λ here h₁ h₂.
      >>=-elim (candidates_in m table (suc n) rest) _ h₂ λ others h₃ h₄.
        let both : here ++ others ≡ [] = ground (arith, h₄) in
        let parts = append-nil_parts here others both in
        elim (candidate_here-Here m table n v here h₁) [
          | inl (_, e) ↦ absurd (cc (e, parts.0))
          | inr (o, _) ↦ (o, candidates_in-none table (suc n) rest (h₃ ∙ ap ok parts.1))
        ]

  candidates_in-one :
      (table : List Value) (n : ℕ) (vs : List Value) (c : Candidate)
      → candidates_in m table n vs ≡ ok (c ∷ [])
      → OneIn table n c vs
  unfolding candidates_in
  candidates_in-one table n [] c h = absurd (cc)
  candidates_in-one table n (v ∷ rest) c h = >>=-elim (candidate_here m table n v) _ h λ here h₁ h₂.
      >>=-elim (candidates_in m table (suc n) rest) _ h₂ λ others h₃ h₄.
        let both : here ++ others ≡ c ∷ [] = ground (arith, h₄) in
        elim (append-single here others c both) [
          | inl (none_here, one) ↦ elim (candidate_here-Here m table n v here h₁) [
            | inl (_, e) ↦ absurd (cc (e, none_here))
            | inr (o, _) ↦
                Sole-next (IsOther m table) (At table n c) (At table (suc n) c) v rest o
                  (λ before y p. (p.0, p.1, omega (arith, p.2)))
                  (candidates_in-one table (suc n) rest c (h₃ ∙ ap ok one))
          ]
          | inr (one, none_later) ↦ elim (candidate_here-Here m table n v here h₁) [
            | inl (is, e) ↦
                let same : c ≡ record { table = table; index = n } = ground (arith, one, e) in
                Sole-first (IsOther m table) (At table n c) v rest
                  (
                    is,
                    ap (λ (x : Candidate). x.table) same,
                    ap (λ (x : Candidate). x.index) same ∙ omega arith,
                  )
                  (candidates_in-none table (suc n) rest (h₃ ∙ ap ok none_later))
            | inr (_, e) ↦ absurd (cc (e, one))
          ]
        ]

  candidates_of-none :
      (tables : List (List Value)) → candidates_of m tables ≡ ok [] → All NoneIn tables
  unfolding candidates_of
  candidates_of-none [] h = tt
  candidates_of-none (table ∷ rest) h = >>=-elim (candidates_in m table 0 table) _ h λ here h₁ h₂.
      >>=-elim (candidates_of m rest) _ h₂ λ others h₃ h₄.
        let both : here ++ others ≡ [] = ground (arith, h₄) in
        let parts = append-nil_parts here others both in
        (
          candidates_in-none table 0 table (h₁ ∙ ap ok parts.0),
          candidates_of-none rest (h₃ ∙ ap ok parts.1),
        )

  -- One table has one such entry, and no other table has any.
  abbrev pub OneOf : List (List Value) → Candidate → Type 0
  OneOf tables c = Sole (λ before table. OneIn table 0 c table) NoneIn tables

  pub candidates_of-one :
      (tables : List (List Value)) (c : Candidate)
      → candidates_of m tables ≡ ok (c ∷ [])
      → OneOf tables c
  unfolding candidates_of
  candidates_of-one [] c h = absurd (cc)
  candidates_of-one (table ∷ rest) c h = >>=-elim (candidates_in m table 0 table) _ h λ here h₁ h₂.
      >>=-elim (candidates_of m rest) _ h₂ λ others h₃ h₄.
        let both : here ++ others ≡ c ∷ [] = ground (arith, h₄) in
        elim (append-single here others c both) [
          | inl (none_here, one) ↦
              Sole-next NoneIn _ (λ before table. OneIn table 0 c table) table rest
                (candidates_in-none table 0 table (h₁ ∙ ap ok none_here)) (λ before y p. p)
                (candidates_of-one rest c (h₃ ∙ ap ok one))
          | inr (one, none_later) ↦
              Sole-first NoneIn _ table rest (candidates_in-one table 0 table c (h₁ ∙ ap ok one))
                (candidates_of-none rest (h₃ ∙ ap ok none_later))
        ]
