-- ===== src/Storage/Listing.antt =====
-- Lists that a query filters and sorts: what holds of their entries, and which entries they have.
use mathlib.Core.List.{Mem, mem-cons, mem-cons_self, mem-cons_of_mem}
use mathlib.Core.Logic.Or
use gpt_owu_bridge.Base.{◌≡◌, List, [], ◌∷◌, Bool, true, keep, All, Bool-cases, inl, inr, arith, ap}
use gpt_owu_bridge.Storage.Sort.{place, sort_by}

module _ {ℓ κ} {A : Type ℓ} (P : A → Type κ) where
  All-place :
      (before : A → A → Bool) (x : A) (xs : List A) → P x → All P xs → All P (place before x xs)
  unfolding place
  All-place before x [] p h = (p, tt)
  All-place before x (y ∷ ys) p h = elim (Bool-cases (before y x)) [
    | inl t ↦ rw t (h.0, All-place before x ys p h.1)
    | inr t ↦ rw t (p, h)
  ]

  pub All-sort_by : (before : A → A → Bool) (xs : List A) → All P xs → All P (sort_by before xs)
  unfolding sort_by
  All-sort_by before [] h = tt
  All-sort_by before (x ∷ xs) h = All-place before x _ h.0 (All-sort_by before xs h.1)

  pub All-keep : (q : A → Bool) (xs : List A) → All P xs → All (λ x. P x × (q x ≡ true)) (keep q xs)
  unfolding keep
  All-keep q [] h = tt
  All-keep q (x ∷ xs) h = elim (Bool-cases (q x)) [
    | inl t ↦ rw t ((h.0, t), All-keep q xs h.1)
    | inr t ↦ rw t (All-keep q xs h.1)
  ]

pub All-both {ℓ κ μ} :
    {A : Type ℓ} (P : A → Type κ) (Q : A → Type μ) (xs : List A)
    → All P xs
    → All Q xs
    → All (λ x. P x × Q x) xs
All-both P Q [] h k = tt
All-both P Q (x ∷ xs) h k = ((h.0, k.0), All-both P Q xs h.1 k.1)

module _ {ℓ} {A : Type ℓ} where
  mem-place :
      (before : A → A → Bool) (a x : A) (xs : List A) → Mem a (x ∷ xs) → Mem a (place before x xs)
  unfolding place
  mem-place before a x [] h = h
  mem-place before a x (y ∷ ys) h = elim (Bool-cases (before y x)) [
    | inl t ↦ rw t (
        Or.elim (hlevel) (mem-cons.0 h)
          (λ e. mem-cons_of_mem y (mem-place before a x ys (mem-cons.1 (Or.inl e))))
          (λ m.
            Or.elim (hlevel) (mem-cons.0 m) (λ e. rw e mem-cons_self)
              (λ k. mem-cons_of_mem y (mem-place before a x ys (mem-cons_of_mem x k)))))
    | inr t ↦ rw t h
  ]

  pub mem-sort_by :
      (before : A → A → Bool) (a : A) (xs : List A) → Mem a xs → Mem a (sort_by before xs)
  unfolding sort_by
  mem-sort_by before a [] h = h
  mem-sort_by before a (x ∷ xs) h = mem-place before a x (sort_by before xs) (
      Or.elim (hlevel) (mem-cons.0 h) (λ e. rw e mem-cons_self)
        (λ m. mem-cons_of_mem x (mem-sort_by before a xs m)))

  pub mem-keep : (q : A → Bool) (a : A) (xs : List A) → Mem a xs → q a ≡ true → Mem a (keep q xs)
  unfolding keep
  mem-keep q a [] h t = h
  mem-keep q a (x ∷ xs) h t = elim (Bool-cases (q x)) [
    | inl y ↦ rw y (
        Or.elim (hlevel) (mem-cons.0 h) (λ e. rw e mem-cons_self)
          (λ m. mem-cons_of_mem x (mem-keep q a xs m t)))
    | inr n ↦ rw n (
        Or.elim (hlevel) (mem-cons.0 h) (λ e. absurd (ground (arith, ap q e)))
          (λ m. mem-keep q a xs m t))
  ]
