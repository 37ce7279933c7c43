-- ===== src/Calculator/Filled.antt =====
-- The maps sorted, and the areas filled by the maps and the holes between them.
use exmap.Prelude.{
  ℕ, ◌≡◌, refl, ◌∙◌, ap, Bool, true, false, ◌||◌, List, [], ◌∷◌, ◌++◌, arith, All, Bool-cases, inl,
  inr, if◌then◌else◌,
}
use exmap.Std.Names.{Name, name_eq}
use exmap.Std.Sort.{sort, sort_insert, Ascending, sort-Ascending}
use exmap.Range.{Range, contains}
use exmap.Range.Basic.{IsWellFormed}
use exmap.Range.Cover.{covers}
use exmap.Vma.{Vma, is_file_backed}
use exmap.Map.{MapPtr}
use exmap.Calculator.Grouping.{areas_with}
use exmap.Calculator.Holes.{range_of}
use exmap.Calculator.Coverage.{ranges, areas, all_holes, all_holes-covers, covers-append}
use exmap.Calculator.Inside.{IsInside, AreInside}
use exmap.Calculator.Run.{mapptr_is_less_than, sort_maps}

-- The key that Map::sort compares.
abbrev pub start_of : MapPtr → ℕ
start_of m = (range_of m).start

pub covers-insert_map :
    (m : MapPtr) (maps : List MapPtr) (v : ℕ)
    → covers (ranges (sort_insert mapptr_is_less_than m maps)) v ≡ covers (ranges (m ∷ maps)) v
unfolding sort_insert covers
covers-insert_map m [] v = refl
covers-insert_map m (n ∷ maps) v = elim (Bool-cases (mapptr_is_less_than n m)) [
  | inl e ↦ rw (e, sort_insert) (ground (arith, covers-insert_map m maps v))
  | inr e ↦ rw (e, sort_insert) refl
]

pub covers-sort_maps :
    (maps : List MapPtr) (v : ℕ) → covers (ranges (sort_maps maps)) v ≡ covers (ranges maps) v
unfolding sort_maps sort covers
covers-sort_maps [] v = refl
covers-sort_maps (m ∷ maps) v =
    covers-insert_map m (sort_maps maps) v
    ∙ ap (λ b. contains (range_of m) v || b) (covers-sort_maps maps v)

pub keep-AreInside :
    (vmas : List Vma) (b : Bool) (vma : Vma) (rest : List Vma)
    → IsInside vmas vma.range
    → AreInside vmas rest
    → AreInside vmas (if b then vma ∷ rest else rest)
keep-AreInside vmas true vma rest h i = (h, i)
keep-AreInside vmas false vma rest h i = i

pub areas_with-AreInside :
    (vmas : List Vma) (name : Name) (inside : Bool) (files : List Vma)
    → AreInside vmas files
    → AreInside vmas (areas_with name inside files)
unfolding areas_with
areas_with-AreInside vmas name inside [] i = tt
areas_with-AreInside vmas name inside (vma ∷ files) i =
    let now = (if is_file_backed vma then name_eq vma.fname name else inside) in
    keep-AreInside vmas now vma (areas_with name now files) i.0
      (areas_with-AreInside vmas name now files i.1)

pub own-AreInside :
    (vmas files : List Vma)
    → ((v : ℕ) → covers (areas files) v ≡ true → covers (areas vmas) v ≡ true)
    → AreInside vmas files
unfolding covers
own-AreInside vmas [] h = tt
own-AreInside vmas (vma ∷ files) h =
    (λ v e. h v (ground arith), own-AreInside vmas files (λ v e. h v (ground arith)))

pub All-front : (P : Range → Type 0) (k l : List Range) → All P (k ++ l) → All P k
All-front P [] l h = tt
All-front P (r ∷ k) l h = (h.0, All-front P k l h.1)

pub inside-covers :
    (vmas : List Vma) (l : List Range) (v : ℕ)
    → All (IsInside vmas) l
    → covers l v ≡ true
    → covers (areas vmas) v ≡ true
unfolding covers
inside-covers vmas [] v i e = cc
inside-covers vmas (r ∷ l) v i e = elim (Bool-cases (contains r v)) [
  | inl f ↦ i.0 v f
  | inr f ↦ inside-covers vmas l v i.1 (ground (arith, e, f))
]

-- Old ranges within the areas and the holes that they leave are the areas.
pub filled :
    (vmas : List Vma) (old : List Range) (v : ℕ)
    → All (IsInside vmas) old
    → All IsWellFormed old
    → All IsWellFormed (areas vmas)
    → covers (old ++ all_holes old vmas) v ≡ covers (areas vmas) v
filled vmas old v i wo wf =
    covers-append old (all_holes old vmas) v
    ∙ ground (arith, all_holes-covers old vmas v wo wf, inside-covers vmas old v i)

pub ascending : (maps : List MapPtr) → Ascending start_of 0 (sort_maps maps)
unfolding sort_maps mapptr_is_less_than
ascending maps = sort-Ascending start_of maps
