-- ===== src/Base/Maps.antt =====
-- Go's maps from texts, as association lists, and the index of a list by a key of its entries.
use gpt_owu_bridge.Base.Tests.{◌==◌, text_eq, if◌then◌else◌}
use gpt_owu_bridge.Base.Lists.{contains, distinct, find_first}
use Prim.Native.String.{String}
use mathlib.Core.Path.{◌≡◌, refl}
use mathlib.Core.Bool.{true, false}
use mathlib.Core.Option.{Option, none, some}
use mathlib.Core.List.{List, [], ◌∷◌, map}
use native.Mathlib.Omega.{arith}

abbrev pub Map {ℓ} : Type ℓ → Type ℓ
Map V = List (String × V)

module _ {ℓ} {V : Type ℓ} where
  unfoldable pub lookup : String → Map V → Option V
  lookup key [] = none
  lookup key ((here, value) ∷ rest) = if here == key then some value else lookup key rest

  unfoldable pub insert : String → V → Map V → Map V
  insert key new [] = (key, new) ∷ []
  insert key new ((here, old) ∷ rest) =
      if here == key then (here, new) ∷ rest else (here, old) ∷ insert key new rest

  -- A write is seen at its key and at no other.
  pub lookup-insert :
      (key other : String) (new : V) (entries : Map V)
      → lookup other (insert key new entries)
        ≡ (if key == other then some new else lookup other entries)
  unfolding lookup insert
  lookup-insert key other new [] = refl
  lookup-insert key other new ((here, old) ∷ rest) =
      ground (arith, lookup-insert key other new rest)

  -- `for _, x := range xs { result[key(x)] = x }`: the last entry of a key stays.
  index_from : (V → String) → Map V → List V → Map V
  index_from key m [] = m
  index_from key m (x ∷ xs) = index_from key (insert (key x) x m) xs

  unfoldable pub index_by : (V → String) → List V → Map V
  unfolding index_from
  index_by key xs = index_from key [] xs

  abbrev pub or_else : Option V → Option V → Option V
  or_else none b = b
  or_else (some a) b = some a

  abbrev pub with_key : (V → String) → String → List V → Option V
  with_key key k = find_first (λ x. key x == k)

  with_key_absent :
      (key : V → String) (k : String) (xs : List V)
      → contains (map key xs) k ≡ false
      → with_key key k xs ≡ none
  unfolding contains find_first
  with_key_absent key k [] h = refl
  with_key_absent key k (x ∷ xs) h = ground (arith, with_key_absent key k xs)

  lookup-index_from :
      (key : V → String) (k : String) (m : Map V) (xs : List V)
      → distinct (map key xs) ≡ true
      → lookup k (index_from key m xs) ≡ or_else (with_key key k xs) (lookup k m)
  unfolding index_from find_first distinct
  lookup-index_from key k m [] h = refl
  lookup-index_from key k m (x ∷ xs) h = ground (
    arith,
    lookup-index_from key k (insert (key x) x m) xs,
    lookup-insert (key x) k x m,
    with_key_absent key (key x) xs,
  )

  -- Where no key occurs twice, the index finds the one entry of a key.
  pub lookup-index_by :
      (key : V → String) (k : String) (xs : List V)
      → distinct (map key xs) ≡ true
      → lookup k (index_by key xs) ≡ with_key key k xs
  unfolding index_by lookup
  lookup-index_by key k xs h = ground (arith, lookup-index_from key k [] xs h)
