-- ===== src/Range/Lists.antt =====
-- src/Range.cpp: merge_list, restrict, invert_list and any_overlap, on lists of ranges.
-- `std::list<RangePtr>` is a list of ranges: no caller puts a null pointer in.
use exmap.Prelude.{
  ℕ, Bool, false, List, [], ◌∷◌, Option, none, some, ltb, if◌then◌else◌, length, ◌||◌,
}
use exmap.Std.Sort.{sort}
use exmap.Range.{Range, size, less, overlaps, merge, truncate_below, truncate_above}

-- The `while` of merge_list with `current` set. When the front does not merge, `current` goes to
-- the result and is reset, and the next round takes the front: the two rounds are one step here.
unfoldable pub merge_loop : Range → List Range → List Range
merge_loop current [] = current ∷ []
merge_loop current (front ∷ l) = elim (merge current front) [
  | some merged ↦ merge_loop merged l
  | none ↦ current ∷ merge_loop front l
]

unfoldable pub merge_sorted : List Range → List Range
unfolding merge_loop
merge_sorted [] = []
merge_sorted (front ∷ l) = merge_loop front l

unfoldable pub merge_list : List Range → List Range
unfolding merge_sorted less sort
merge_list arg = merge_sorted (sort less arg)

-- The body of the `for` of restrict: truncate below, and above if something is left.
unfoldable pub restrict_one : Range → Range → Option Range
unfolding truncate_below truncate_above size
restrict_one r it =
    let below = truncate_below it r.start in
    let subr = (if ltb 0 (size below) then truncate_above below r.end else below) in
    if ltb 0 (size subr) then some subr else none

unfoldable pub restrict_loop : Range → List Range → List Range
unfolding restrict_one
restrict_loop r [] = []
restrict_loop r (it ∷ l) =
    let rest = restrict_loop r l in
    elim (restrict_one r it) [ some subr ↦ subr ∷ rest | none ↦ rest ]

unfoldable pub restrict : Range → List Range → List Range
unfolding merge_list restrict_loop
restrict r arg = restrict_loop r (merge_list arg)

-- The `while` of invert_list: `val` is where the part that is not yet looked at begins.
unfoldable pub invert_loop : ℕ → ℕ → List Range → List Range
invert_loop val end [] = if ltb val end then record { start = val; end = end } ∷ [] else []
invert_loop val end (front ∷ l) =
    let rest = invert_loop front.end end l in
    if ltb val front.start then record { start = val; end = front.start } ∷ rest else rest

unfoldable pub invert_list : Range → List Range → List Range
unfolding restrict invert_loop
invert_list r arg = invert_loop r.start r.end (restrict r arg)

unfoldable pub overlap_loop : Range → List Range → Bool
overlap_loop last [] = false
overlap_loop last (front ∷ l) = overlaps front last || overlap_loop front l

unfoldable pub overlap_sorted : List Range → Bool
unfolding overlap_loop
overlap_sorted [] = false
overlap_sorted (last ∷ l) = overlap_loop last l

unfoldable pub any_overlap : List Range → Bool
unfolding overlap_sorted less sort
any_overlap arg = if ltb (length arg) 2 then false else overlap_sorted (sort less arg)
