-- ===== src/Storage/Sort.antt =====
-- `ORDER BY`: rows in the order of a test, rows that tie in the order of insertion.
use Prim.Native.String.{String, compare}
use Prim.Native.Nat.{Ordering}
use gpt_owu_bridge.Base.{List, [], ◌∷◌, Bool, true, false, if◌then◌else◌}

-- Texts compare by their bytes.
abbrev pub text_before : String → String → Bool
text_before s t = elim (compare s t) [ Ordering.lt ↦ true | _ ↦ false ]

module _ {ℓ} {A : Type ℓ} (before : A → A → Bool) where
  unfoldable pub place : A → List A → List A
  place x [] = x ∷ []
  place x (y ∷ ys) = if before y x then y ∷ place x ys else x ∷ y ∷ ys

  unfoldable pub sort_by : List A → List A
  sort_by [] = []
  sort_by (x ∷ xs) = place x (sort_by xs)
