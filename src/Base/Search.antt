-- ===== src/Base/Search.antt =====
-- Lemmas on the searches and the filters of lists.
use mathlib.Core.List.{Mem, mem-cons_self, mem-cons_of_mem, mem-cons, not-mem-nil}
use mathlib.Core.Path.{◌≡◌, refl, sym, subst}
use mathlib.Core.Bool.{Bool, true}
use mathlib.Core.Option.{Option, none, some}
use mathlib.Core.List.{List, [], ◌∷◌, ◌++◌, filter_map}
use mathlib.Core.Logic.{inl, inr}
use mathlib.Core.Logic.Or
use native.Mathlib.Omega.{arith}
use gpt_owu_bridge.Base.Tests.{Bool-cases, Option-cases}
use gpt_owu_bridge.Base.Lists.{find_first, All}

module _ {ℓ} {A : Type ℓ} where
  -- What a search finds is an entry that passes the test.
  pub find_first-mem :
      (p : A → Bool) (xs : List A) (x : A) → find_first p xs ≡ some x → Mem x xs × (p x ≡ true)
  unfolding find_first
  find_first-mem p [] x h = cc
  find_first-mem p (y ∷ ys) x h = elim (Bool-cases (p y)) [
    | inl e ↦ let same : y ≡ x = ground arith in (rw same mem-cons_self, rw (← same) e)
    | inr e ↦ let rest = find_first-mem p ys x (ground arith) in (mem-cons_of_mem y rest.0, rest.1)
  ]

  pub append-nil_parts : (xs ys : List A) → xs ++ ys ≡ [] → (xs ≡ []) × (ys ≡ [])
  append-nil_parts [] ys h = (refl, h)
  append-nil_parts (x ∷ xs) ys h = cc

  pub All-map {κ μ} :
      {P : A → Type κ} {Q : A → Type μ} (xs : List A) → ((x : A) → P x → Q x) → All P xs → All Q xs
  All-map [] f h = tt
  All-map (x ∷ xs) f h = (f x h.0, All-map xs f h.1)

  -- A property of all entries holds of a member, where it is a proposition.
  pub All-mem {κ} :
      {P : A → Type κ} (x : A) (xs : List A) → ((y : A) → IsProp (P y)) → All P xs → Mem x xs → P x
  All-mem {P} x [] c h m = absurd (not-mem-nil m)
  All-mem {P} x (y ∷ ys) c h m =
      Or.elim (c x) (mem-cons.0 m) (λ e. subst P (sym e) h.0) (All-mem x ys c h.1)

  pub All-of_mem {κ} : {P : A → Type κ} (xs : List A) → ((x : A) → Mem x xs → P x) → All P xs
  All-of_mem [] f = tt
  All-of_mem (x ∷ xs) f = (f x mem-cons_self, All-of_mem xs (λ y m. f y (mem-cons_of_mem x m)))

  pub filter_map-nil {κ} :
      {B : Type κ} (f : A → Option B) (xs : List A)
      → filter_map f xs ≡ []
      → All (λ x. f x ≡ none) xs
  unfolding filter_map
  filter_map-nil f [] h = tt
  filter_map-nil f (x ∷ xs) h = elim (Option-cases (f x)) [
    | inl e ↦ (e, filter_map-nil f xs (ground arith))
    | inr (b, e) ↦ absurd (ground arith)
  ]
