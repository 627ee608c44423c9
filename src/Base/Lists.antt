-- ===== src/Base/Lists.antt =====
-- Lists measured by native numbers, the sets of seen keys, and Go's maps as association lists.
use gpt_owu_bridge.Base.Tests.{Eq, ◌==◌, if◌then◌else◌, Bool-cases}
use Prim.Native.Nat.{ℕ, suc, ◌+◌}
use mathlib.Core.Path.{◌≡◌, refl}
use mathlib.Core.Logic.{◌↔◌, inl, inr}
use mathlib.Core.Logic.Or
use mathlib.Core.Bool.{Bool, true, false, not, ◌&&◌, ◌||◌, Bool-set}
use mathlib.Core.Option.{Option, none, some}
use mathlib.Core.List.{
  List, [], ◌∷◌, ◌++◌, Mem, Nodup, Nodup-nil, Nodup-cons, not-mem-nil, mem-cons, mem-cons_self,
  mem-cons_of_mem,
}
use native.Mathlib.Omega.{arith}

module _ {ℓ} {A : Type ℓ} where
  abbrev pub length : List A → ℕ
  length [] = 0
  length (x ∷ xs) = suc (length xs)

  pub length-append : (xs ys : List A) → length (xs ++ ys) ≡ length xs + length ys
  length-append [] ys = omega arith
  length-append (x ∷ xs) ys = omega (arith, length-append xs ys)

  -- `len(xs) > 0`.
  abbrev pub nonempty : List A → Bool
  nonempty [] = false
  nonempty (x ∷ xs) = true

  -- The entries that pass a Boolean test, and the first of them.
  unfoldable pub keep : (A → Bool) → List A → List A
  keep p [] = []
  keep p (x ∷ xs) = let rest = keep p xs in if p x then x ∷ rest else rest

  unfoldable pub find_first : (A → Bool) → List A → Option A
  find_first p [] = none
  find_first p (x ∷ xs) = if p x then some x else find_first p xs

  -- Every entry has the property.
  abbrev pub All {κ} : (A → Type κ) → List A → Type κ
  All P [] = Unit
  All P (x ∷ xs) = P x × All P xs

module _ {ℓ} {A : Type ℓ} ⦃e : Eq A⦄ where
  -- `slices.Contains`, and the test of a key in a set.
  unfoldable pub contains : List A → A → Bool
  contains [] a = false
  contains (x ∷ xs) a = x == a || contains xs a

  pub contains→mem : (xs : List A) (a : A) → contains xs a ≡ true → Mem a xs
  unfolding contains
  contains→mem [] a h = cc
  contains→mem (x ∷ xs) a h = elim (e.same x a) [
    | yes p ↦ rw p mem-cons_self
    | no n ↦ mem-cons_of_mem x (contains→mem xs a (ground arith))
  ]

  pub mem→contains : (xs : List A) (a : A) → Mem a xs → contains xs a ≡ true
  unfolding contains
  mem→contains [] a h = absurd (not-mem-nil h)
  mem→contains (x ∷ xs) a h =
      Or.elim (Bool-set _ _) (mem-cons.0 h) (λ p. ground arith)
        (λ m. ground (arith, mem→contains xs a m))

  -- No entry occurs twice.
  unfoldable pub distinct : List A → Bool
  distinct [] = true
  distinct (x ∷ xs) = not (contains xs x) && distinct xs

  pub distinct-Nodup : (xs : List A) → (distinct xs ≡ true) ↔ Nodup xs
  unfolding distinct
  distinct-Nodup [] = (λ _. Nodup-nil, λ _. refl)
  distinct-Nodup (x ∷ xs) = (
    λ h.
        Nodup-cons.1
          (λ m. ground (arith, mem→contains xs x m), (distinct-Nodup xs).0 (ground arith)),
    λ h. elim (Bool-cases (contains xs x)) [
      | inl e ↦ absurd ((Nodup-cons.0 h).0 (contains→mem xs x e))
      | inr e ↦ rw e ((distinct-Nodup xs).1 (Nodup-cons.0 h).1)
    ],
  )

  -- No entry of the second list is in the first.
  abbrev pub Apart : List A → List A → Type 0
  Apart seen = All (λ x. contains seen x ≡ false)

  pub Apart-nil : (xs : List A) → Apart [] xs
  unfolding contains
  Apart-nil [] = tt
  Apart-nil (x ∷ xs) = (refl, Apart-nil xs)

  -- To be apart from one more entry is to be apart from the others and not to have it.
  pub Apart-cons :
      (k : A) (seen xs : List A) → Apart (k ∷ seen) xs ↔ (Apart seen xs × (contains xs k ≡ false))
  unfolding contains
  Apart-cons k seen [] = (λ h. (tt, refl), λ h. tt)
  Apart-cons k seen (x ∷ xs) = (
    λ h. ground (arith, (Apart-cons k seen xs).0 h.1),
    λ h. ground (arith, λ (p : contains xs k ≡ false). (Apart-cons k seen xs).1 (h.0.1, p)),
  )
