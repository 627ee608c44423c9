-- ===== src/Source/Ancestry.antt =====
-- internal/source/chatgpt/parser.go: `ancestry` returns the chain of parents.
use mathlib.Core.List.{Nodup}
use gpt_owu_bridge.Base.{
  ℕ, zero, suc, ◌+◌, ◌≤◌, String, ◌≡◌, refl, sym, subst, ◌≢◌, ◌↔◌, inl, inr, List, [], ◌∷◌, Map,
  length, true, false, ◌==◌, text_eq, ok, ◌>>=◌, arith, Bool-cases, ==→eq, eq→==, ne→==, contains,
  distinct, distinct-Nodup, >>=-elim,
}
use gpt_owu_bridge.Source.Values.{Value}
use gpt_owu_bridge.Source.Graph.{parent_of, ancestors, ancestry}

-- A chain of parents that leads up to a node, the root first.
pub data Chain (mapping : Map Value) : String → List String → List String → Type 0 where
  root : {chain : List String} → Chain mapping "" chain chain
  below :
      {id parent : String} {chain top : List String}
      → id ≢ ""
      → parent_of mapping id ≡ ok parent
      → Chain mapping parent (id ∷ chain) top
      → Chain mapping id chain top

ended :
    (mapping : Map Value) (chain : List String) (current : String) (ids : List String)
    → (current == "") ≡ true
    → chain ≡ ids
    → Chain mapping current chain ids
ended mapping chain current ids e same =
    subst (Chain mapping current chain) same
      (subst (λ c. Chain mapping c chain chain) (sym (==→eq current "" e)) root)

ancestors-Chain :
    (mapping : Map Value) (chain : List String) (left : ℕ) (current : String) (ids : List String)
    → ancestors mapping chain left current ≡ ok ids
    → Chain mapping current chain ids
      × (distinct chain ≡ true → distinct ids ≡ true)
      × (length ids ≤ left + length chain)
unfolding ancestors distinct
ancestors-Chain mapping chain zero current ids h = elim (Bool-cases (current == "")) [
  | inl e ↦
      let same : chain ≡ ids = ground arith in
      (ended mapping chain current ids e same, λ d. rw (← same) d, rw (← same) (omega arith))
  | inr e ↦ absurd (ground arith)
]
ancestors-Chain mapping chain (suc left) current ids h = elim (Bool-cases (current == "")) [
  | inl e ↦
      let same : chain ≡ ids = ground arith in
      (ended mapping chain current ids e same, λ d. rw (← same) d, rw (← same) (omega arith))
  | inr e ↦ elim (Bool-cases (contains chain current)) [
    | inl c ↦ absurd (ground arith)
    | inr c ↦
        let rest : (parent_of mapping current >>= λ parent.
        ancestors mapping (current ∷ chain) left parent)
            ≡ ok ids =
          ground arith in
        >>=-elim (parent_of mapping current) _ rest λ parent k h₁.
          let (up, apart, short) = ancestors-Chain mapping (current ∷ chain) left parent ids h₁ in
          (below (λ x. ground arith) k up, λ d. apart (ground arith), omega (arith, short))
  ]
]

Chain-distinct :
    {mapping : Map Value} {current : String} {chain ids : List String}
    → Chain mapping current chain ids
    → distinct ids ≡ true
    → (distinct chain ≡ true) × (length chain ≤ length ids)
unfolding distinct
Chain-distinct root d = (d, omega arith)
Chain-distinct (below n k up) d =
    let (apart, short) = Chain-distinct up d in (ground arith, omega (arith, short))

Chain-ancestors :
    {mapping : Map Value} (left : ℕ) {current : String} {chain ids : List String}
    → Chain mapping current chain ids
    → distinct ids ≡ true
    → length ids ≤ left + length chain
    → ancestors mapping chain left current ≡ ok ids
unfolding ancestors distinct
Chain-ancestors zero root d b = rw (eq→== {A = String} "" "" refl) refl
Chain-ancestors (suc left) root d b = rw (eq→== {A = String} "" "" refl) refl
Chain-ancestors zero (below n k up) d b =
    let (_, short) = Chain-distinct up d in absurd (omega (arith, short, b))
Chain-ancestors (suc left) {current} {chain} (below n k up) d b =
    let (apart, short) = Chain-distinct up d in
    let new : contains chain current ≡ false = ground arith in
    rw (ne→== current "" n) (rw new (rw k (Chain-ancestors left up d (omega (arith, b)))))

-- The chain that is returned leads from a root to the current node, each node before its child; no
-- node is on it twice, and it has at most one node more than the depth limit. Each chain like
-- this is the one that is returned.
pub ancestry_iff :
    (mapping : Map Value) (current : String) (max_depth : ℕ) (ids : List String)
    → (ancestry mapping current max_depth ≡ ok ids)
      ↔ (Chain mapping current [] ids × Nodup ids × (length ids ≤ suc max_depth))
unfolding ancestry distinct
ancestry_iff mapping current max_depth ids = (
  λ h.
      let (up, apart, short) = ancestors-Chain mapping [] (suc max_depth) current ids h in
      (up, (distinct-Nodup ids).0 (apart refl), omega (arith, short)),
  λ (up, apart, short).
      Chain-ancestors (suc max_depth) up ((distinct-Nodup ids).1 apart) (omega (arith, short)),
)
