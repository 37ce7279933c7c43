-- ===== src/Examples/Ranges.antt =====
-- Lists of ranges, after the cases of src/t_range.cpp.
use mathlib.Core.List.{Pairwise}
use exmap.Prelude.{ℕ, ◌≡◌, refl, ◌↔◌, true, false, not, ◌&&◌, List, [], ◌∷◌, none, some, arith, All}
use exmap.Range.{Range, contains, overlaps, intersect, subtract, merge}
use exmap.Range.Basic.{IsWellFormed}
use exmap.Range.Lists.{merge_list, restrict, invert_list, any_overlap}
use exmap.Range.Cover.{covers, Separated}
use exmap.Range.Merge.{merge_list-covers, merge_list-Separated}
use exmap.Range.Restrict.{restrict-covers}
use exmap.Range.Invert.{invert_list-covers, invert_list-invert_list}
use exmap.Range.Overlap.{any_overlap_iff, Disjoint}

abbrev rng : ℕ → ℕ → Range
rng a b = record { start = a; end = b }

-- Out of order, with neighbours and an overlap.
abbrev mixed : List Range
mixed = rng 5 7 ∷ rng 1 2 ∷ rng 3 5 ∷ rng 6 9 ∷ []

abbrev gapped : List Range
gapped = rng 1 2 ∷ rng 3 9 ∷ []

abbrev whole : Range
whole = rng 0 10

-- Operations on one range and two.
overlaps_runs : (overlaps (rng 2 6) (rng 2 2) ≡ true) × (overlaps (rng 2 6) (rng 6 6) ≡ false)
unfolding overlaps
overlaps_runs = (refl, refl)

intersect_runs :
    (intersect (rng 2 6) (rng 3 9) ≡ some (rng 3 6)) × (intersect (rng 2 6) (rng 6 8) ≡ none)
unfolding intersect
intersect_runs = (refl, refl)

subtract_runs : subtract (rng 2 6) 2 ≡ rng 0 4
unfolding subtract
subtract_runs = refl

merge_list_runs : merge_list mixed ≡ gapped
unfolding merge_list merge
merge_list_runs = refl

restrict_runs : restrict (rng 5 10) (rng 2 3 ∷ rng 4 6 ∷ rng 6 8 ∷ []) ≡ rng 5 8 ∷ []
unfolding restrict merge
restrict_runs = refl

invert_list_runs :
    invert_list (rng 0 10) (rng 1 2 ∷ rng 3 5 ∷ rng 5 7 ∷ []) ≡ rng 0 1 ∷ rng 2 3 ∷ rng 7 10 ∷ []
unfolding invert_list merge
invert_list_runs = refl

any_overlap_runs : any_overlap mixed ≡ true
unfolding any_overlap overlaps
any_overlap_runs = refl

mixed-formed : All IsWellFormed mixed
mixed-formed = omega arith

merge_list-covers_example : covers (merge_list mixed) 4 ≡ covers mixed 4
merge_list-covers_example = merge_list-covers mixed 4 mixed-formed

merge_list-Separated_example : Separated 0 (merge_list mixed)
merge_list-Separated_example = merge_list-Separated mixed mixed-formed

restrict-covers_example : covers (restrict whole mixed) 4 ≡ (contains whole 4 && covers mixed 4)
restrict-covers_example = restrict-covers whole mixed (omega arith) mixed-formed 4

invert_list-covers_example :
    covers (invert_list whole mixed) 2 ≡ (contains whole 2 && not (covers mixed 2))
invert_list-covers_example = invert_list-covers whole mixed (omega arith) mixed-formed 2

invert_list-invert_list_example : invert_list whole (invert_list whole mixed) ≡ restrict whole mixed
invert_list-invert_list_example = invert_list-invert_list whole mixed (omega arith) mixed-formed

any_overlap_iff_example : (any_overlap mixed ≡ false) ↔ Pairwise Disjoint mixed
any_overlap_iff_example = any_overlap_iff mixed (omega arith)
