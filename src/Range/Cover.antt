-- ===== src/Range/Cover.antt =====
-- The addresses that a list of ranges covers, which is what the operations on lists are about.
use exmap.Prelude.{
  ℕ, ◌+◌, ◌≤◌, ◌<◌, ◌≡◌, refl, Bool, false, ◌||◌, List, [], ◌∷◌, arith, All, word_mod,
}
use exmap.Std.Sort.{sort, sort_insert}
use exmap.Range.{Range, contains, less}
use exmap.Range.Basic.{IsWellFormed}

unfoldable pub covers : List Range → ℕ → Bool
unfolding contains
covers [] v = false
covers (r ∷ rs) v = contains r v || covers rs v

-- Ranges with a gap between each and the next, the first from `n` on.
abbrev pub Separated : ℕ → List Range → Type 0
Separated n [] = Unit
Separated n (r ∷ rs) = (n ≤ r.start) × IsWellFormed r × Separated (r.end + 1) rs

-- Non-empty ranges with gaps between them, from `lo` on and none beyond `hi`.
abbrev pub Blocks : ℕ → ℕ → List Range → Type 0
Blocks lo hi [] = Unit
Blocks lo hi (r ∷ rs) = (lo ≤ r.start) × (r.start < r.end) × (r.end ≤ hi) × Blocks (r.end + 1) hi rs

pub Separated-All : (n : ℕ) (l : List Range) → Separated n l → All IsWellFormed l
Separated-All n [] s = tt
Separated-All n (r ∷ l) s = (s.1, Separated-All (r.end + 1) l s.2)

pub Blocks-mono : (m n hi : ℕ) (l : List Range) → m ≤ n → Blocks n hi l → Blocks m hi l
Blocks-mono m n hi [] h s = tt
Blocks-mono m n hi (r ∷ l) h s = (omega arith, s.1, s.2, s.3)

-- Blocks within the words are well formed.
pub Blocks-All : (lo hi : ℕ) (l : List Range) → hi < word_mod → Blocks lo hi l → All IsWellFormed l
Blocks-All lo hi [] h b = tt
Blocks-All lo hi (r ∷ l) h b = ((omega arith, omega arith), Blocks-All (r.end + 1) hi l h b.3)

pub Blocks-below :
    (lo hi : ℕ) (l : List Range) (v : ℕ) → Blocks lo hi l → v < lo → covers l v ≡ false
unfolding covers
Blocks-below lo hi [] v b h = refl
Blocks-below lo hi (r ∷ l) v b h = ground (arith, Blocks-below (r.end + 1) hi l v b.3)

pub Blocks-above :
    (lo hi : ℕ) (l : List Range) (v : ℕ) → Blocks lo hi l → hi ≤ v → covers l v ≡ false
unfolding covers
Blocks-above lo hi [] v b h = refl
Blocks-above lo hi (r ∷ l) v b h = ground (arith, Blocks-above (r.end + 1) hi l v b.3)

covers-sort_insert :
    (x : Range) (l : List Range) (v : ℕ) → covers (sort_insert less x l) v ≡ covers (x ∷ l) v
unfolding covers sort_insert
covers-sort_insert x [] v = refl
covers-sort_insert x (y ∷ l) v = ground (arith, covers-sort_insert x l v)

pub covers-sort : (l : List Range) (v : ℕ) → covers (sort less l) v ≡ covers l v
unfolding covers sort
covers-sort [] v = refl
covers-sort (x ∷ l) v = ground (arith, covers-sort_insert x (sort less l) v, covers-sort l v)
