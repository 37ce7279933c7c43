-- ===== src/Std/Sort.antt =====
-- std::list::sort: a stable sort by a strict comparison. An element is put before the first one
-- that is not less than it, so that equal elements keep their order.
use mathlib.Core.List.{Perm}
use mathlib.Core.List.Perm
use exmap.Prelude.{
  ℕ, ◌≤◌, Bool, List, [], ◌∷◌, arith, ltb, if◌then◌else◌, Bool-cases, inl, inr, All,
}

module _ {ℓ} {A : Type ℓ} (less : A → A → Bool) where
  unfoldable pub sort_insert : A → List A → List A
  sort_insert x [] = x ∷ []
  sort_insert x (y ∷ ys) = if less y x then y ∷ sort_insert x ys else x ∷ y ∷ ys

  unfoldable pub sort : List A → List A
  unfolding sort_insert
  sort [] = []
  sort (x ∷ xs) = sort_insert x (sort xs)

  sort_insert-perm : (x : A) (l : List A) → Perm (sort_insert x l) (x ∷ l)
  unfolding sort_insert
  sort_insert-perm x [] = Perm.rfl
  sort_insert-perm x (y ∷ ys) = elim (Bool-cases (less y x)) [
    | inl p ↦ rw p (Perm.trans (Perm.cons y (sort_insert-perm x ys)) (Perm.swap x y ys))
    | inr p ↦ rw p Perm.rfl
  ]

  -- A sort loses and invents nothing.
  pub sort-perm : (l : List A) → Perm (sort l) l
  unfolding sort
  sort-perm [] = Perm.rfl
  sort-perm (x ∷ xs) = Perm.trans (sort_insert-perm x (sort xs)) (Perm.cons x (sort-perm xs))

  sort_insert-All {κ} :
      (P : A → Type κ) (x : A) (l : List A) → P x → All P l → All P (sort_insert x l)
  unfolding sort_insert
  sort_insert-All P x [] h a = (h, a)
  sort_insert-All P x (y ∷ ys) h a = elim (Bool-cases (less y x)) [
    | inl p ↦ rw p (a.0, sort_insert-All P x ys h a.1)
    | inr p ↦ rw p (h, a)
  ]

  pub sort-All {κ} : (P : A → Type κ) (l : List A) → All P l → All P (sort l)
  unfolding sort
  sort-All P [] a = a
  sort-All P (x ∷ xs) a = sort_insert-All P x (sort xs) a.0 (sort-All P xs a.1)

module _ {ℓ} {A : Type ℓ} (key : A → ℕ) where
  -- The keys rise along the list, from `n` on.
  abbrev pub Ascending : ℕ → List A → Type 0
  Ascending n [] = Unit
  Ascending n (x ∷ xs) = (n ≤ key x) × Ascending (key x) xs

  -- A list sorted by a numeric key is ascending.
  abbrev pub by_key : A → A → Bool
  by_key x y = ltb (key x) (key y)

  sort_insert-Ascending :
      (n : ℕ) (x : A) (l : List A)
      → n ≤ key x
      → Ascending n l
      → Ascending n (sort_insert by_key x l)
  unfolding sort_insert
  sort_insert-Ascending n x [] h a = (h, tt)
  sort_insert-Ascending n x (y ∷ ys) h a = ground (arith, sort_insert-Ascending (key y) x ys)

  pub sort-Ascending : (l : List A) → Ascending 0 (sort by_key l)
  unfolding sort
  sort-Ascending [] = tt
  sort-Ascending (x ∷ xs) =
      sort_insert-Ascending 0 x (sort by_key xs) (omega arith) (sort-Ascending xs)
