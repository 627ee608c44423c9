-- ===== src/Storage/Rows.antt =====
-- Look-ups of rows across insertions and updates of a table.
use gpt_owu_bridge.Base.{
  ◌≡◌, refl, List, [], ◌∷◌, ◌++◌, Option, none, some, Bool, true, false, if◌then◌else◌, find_first,
  or_else, All, Bool-cases, subst, inl, inr, arith, Option-cases, Result, ok, err,
}
use gpt_owu_bridge.Storage.Types.{StorageError}
use gpt_owu_bridge.Storage.Tables.{modify_where, Violation}
use gpt_owu_bridge.Storage.Records.{or_fail}
use gpt_owu_bridge.Storage.Operations.{plainly, saved}

module _ {ℓ} {A : Type ℓ} where
  -- A row as an update leaves it.
  abbrev pub updated : (A → Bool) → (A → A) → A → A
  updated p f r = if p r then f r else r

  abbrev pub mapped : (A → A) → Option A → Option A
  mapped f none = none
  mapped f (some a) = some (f a)

  -- An update that keeps the key is seen through the look-up by the key.
  pub find_first-modify_where :
      (q p : A → Bool) (f : A → A) (rows : List A)
      → ((r : A) → q (f r) ≡ q r)
      → find_first q (modify_where p f rows) ≡ mapped (updated p f) (find_first q rows)
  unfolding find_first modify_where
  find_first-modify_where q p f [] h = refl
  find_first-modify_where q p f (r ∷ rows) h =
      ground (arith, h r, find_first-modify_where q p f rows h)

  pub find_first-holds :
      (q : A → Bool) (xs : List A) (a : A) → find_first q xs ≡ some a → q a ≡ true
  unfolding find_first
  find_first-holds q [] a e = absurd (ground arith)
  find_first-holds q (x ∷ xs) a e = elim (Bool-cases (q x)) [
    | inl t ↦ ground arith
    | inr t ↦ find_first-holds q xs a (ground arith)
  ]

  -- The row that was found is found as the update leaves it.
  pub find_first-modified :
      (q p : A → Bool) (f : A → A) (rows : List A) (a : A)
      → ((r : A) → q (f r) ≡ q r)
      → find_first q rows ≡ some a
      → p a ≡ true
      → find_first q (modify_where p f rows) ≡ some (f a)
  find_first-modified q p f rows a h e k = ground (arith, find_first-modify_where q p f rows h)

  -- A row that the update is not for is found as before.
  pub find_first-spared :
      (q p : A → Bool) (f : A → A) (rows : List A) (a : A)
      → ((r : A) → q (f r) ≡ q r)
      → find_first q rows ≡ some a
      → p a ≡ false
      → find_first q (modify_where p f rows) ≡ some a
  find_first-spared q p f rows a h e k = ground (arith, find_first-modify_where q p f rows h)

  -- An update of other rows leaves what is found.
  pub find_first-untouched :
      (q p : A → Bool) (f : A → A) (rows : List A)
      → ((r : A) → q (f r) ≡ q r)
      → ((r : A) → q r ≡ true → p r ≡ false)
      → find_first q (modify_where p f rows) ≡ find_first q rows
  find_first-untouched q p f rows h k = elim (Option-cases (find_first q rows)) [
    | inl e ↦ ground (arith, find_first-modify_where q p f rows h)
    | inr (a, e) ↦
        ground (arith, find_first-modify_where q p f rows h, k a (find_first-holds q rows a e))
  ]

  pub find_first-append :
      (q : A → Bool) (xs ys : List A)
      → find_first q (xs ++ ys) ≡ or_else (find_first q xs) (find_first q ys)
  unfolding find_first
  find_first-append q [] ys = refl
  find_first-append q (x ∷ xs) ys = ground (arith, find_first-append q xs ys)

  -- A row that was found is found after an insertion.
  pub find_first-append_some :
      (q : A → Bool) (xs ys : List A) (a : A)
      → find_first q xs ≡ some a
      → find_first q (xs ++ ys) ≡ some a
  find_first-append_some q xs ys a h = ground (arith, find_first-append q xs ys)

  -- A new row is found where none was before.
  pub find_first-append_new :
      (q : A → Bool) (xs : List A) (a : A)
      → find_first q xs ≡ none
      → q a ≡ true
      → find_first q (xs ++ a ∷ []) ≡ some a
  unfolding find_first
  find_first-append_new q xs a h k = ground (arith, find_first-append q xs (a ∷ []))

  pub All-find {κ} :
      (P : A → Type κ) (q : A → Bool) (xs : List A) (a : A)
      → All P xs
      → find_first q xs ≡ some a
      → P a × (q a ≡ true)
  unfolding find_first
  All-find P q [] a h e = absurd (ground arith)
  All-find P q (x ∷ xs) a h e = elim (Bool-cases (q x)) [
    | inl t ↦ let same : x ≡ a = ground arith in (subst P same h.0, rw (← same) t)
    | inr t ↦ All-find P q xs a h.1 (ground arith)
  ]

  pub All-append {κ} : (P : A → Type κ) (xs ys : List A) → All P xs → All P ys → All P (xs ++ ys)
  All-append P [] ys h k = k
  All-append P (x ∷ xs) ys h k = (h.0, All-append P xs ys h.1 k)

  pub All-modify_where {κ} :
      (P : A → Type κ) (p : A → Bool) (f : A → A) (xs : List A)
      → ((a : A) → P a → P (f a))
      → All P xs
      → All P (modify_where p f xs)
  unfolding modify_where
  All-modify_where P p f [] k h = tt
  All-modify_where P p f (x ∷ xs) k h = elim (Bool-cases (p x)) [
    | inl t ↦ rw t (k x h.0, All-modify_where P p f xs k h.1)
    | inr t ↦ rw t (h.0, All-modify_where P p f xs k h.1)
  ]

pub or_fail-found {ℓ} :
    {A : Type ℓ} (o : Option A) (e : StorageError) {a : A} → or_fail o e ≡ ok a → o ≡ some a
or_fail-found none e h = absurd (cc)
or_fail-found (some a) e h = ground arith

pub plainly-found {ℓ} :
    {A : Type ℓ} (m : Result StorageError A) {a : A} → plainly m ≡ ok a → m ≡ ok a
plainly-found (ok a) h = ground arith
plainly-found (err e) h = absurd (ground arith)

pub saved-found {ℓ} :
    {A : Type ℓ} (f : Violation → StorageError) (m : Result Violation A) {a : A}
    → saved f m ≡ ok a
    → m ≡ ok a
saved-found f (ok a) h = ground arith
saved-found f (err e) h = absurd (ground arith)
