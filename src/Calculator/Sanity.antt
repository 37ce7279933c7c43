-- ===== src/Calculator/Sanity.antt =====
-- sanity_check: whether the sorted maps begin and end with the areas.
-- The debug lines print `**map_it` also where that is the end of the list: a crash.
use exmap.Prelude.{
  Bool, true, false, not, List, [], ◌∷◌, Option, none, some, if◌then◌else◌, ltb, ◌==◌,
}
use exmap.Range.{contains_range}
use exmap.Vma.{Vma}
use exmap.Outcome.{Outcome, done, crash, ◌>>=◌}
use exmap.Map.{MapPtr}
use exmap.Calculator.Holes.{range_of}

-- `lastmap && lastmap->mem_range()->end() != next->mem_range()->start()`
unfoldable pub leaves_gap : Option MapPtr → MapPtr → Bool
leaves_gap none next = false
leaves_gap (some last) next = not ((range_of last).end == (range_of next).start)

-- The inner `while`, at the map `m` with `rest` behind it. The result is `none` where the code
-- returns false, and otherwise the map that the loop stops at and the rest.
unfoldable pub maps_loop :
    Vma → Option MapPtr → MapPtr → List MapPtr → Outcome (Option (MapPtr × List MapPtr))
unfolding leaves_gap
maps_loop vma lastmap m [] =
    if ltb (range_of m).end vma.range.end
    then if not (contains_range vma.range (range_of m)) then done none else crash
    else done (some (m, []))
maps_loop vma lastmap m (next ∷ rest) =
    let after = maps_loop vma (some next) next rest in
    if ltb (range_of m).end vma.range.end
    then if not (contains_range vma.range (range_of m))
      then done none
      else if leaves_gap lastmap next
      then done none
      else after
    else done (some (m, next ∷ rest))

-- One round of the outer `while`: the maps behind those of the area, or `none` for false.
unfoldable pub vma_round : Vma → List MapPtr → Outcome (Option (List MapPtr))
unfolding maps_loop
vma_round vma [] = crash
vma_round vma (m ∷ rest) = if not ((range_of m).start == vma.range.start) then done none else do
  found ← maps_loop vma none m rest
  elim found [
    | none ↦ done none
    | some (last, behind) ↦
        if not ((range_of last).end == vma.range.end) then done none else done (some behind)
  ]

-- `vma_it != _vmas.end() && map_it == maps.end()`
unfoldable pub too_few : List Vma → List MapPtr → Bool
too_few (vma ∷ vmas) [] = true
too_few _ _ = false

unfoldable pub sanity_check : List Vma → List MapPtr → Outcome Bool
unfolding vma_round too_few
sanity_check [] [] = done true
sanity_check [] (m ∷ maps) = done false
sanity_check (vma ∷ vmas) maps = do
  round ← vma_round vma maps
  elim round [
    | none ↦ done false
    | some behind ↦ if too_few vmas behind then done false else sanity_check vmas behind
  ]
