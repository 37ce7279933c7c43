-- ===== src/Calculator/Run.antt =====
-- calc_maps: the whole calculation for a process.
use exmap.Prelude.{Bool, true, false, not, List, [], ◌∷◌, Option, none, some, if◌then◌else◌, ltb}
use exmap.Std.Names.{Name}
use exmap.Std.OrderedMap.{map_keys}
use exmap.Std.Sort.{sort}
use exmap.Elf.File.{ElfFile}
use exmap.Outcome.{Outcome, done, ◌>>=◌}
use exmap.Map.{MapPtr}
use exmap.Calculator.{Calc}
use exmap.Calculator.Walk.{walk_vma_files}
use exmap.Calculator.Segments.{calc_maps_for_file}
use exmap.Calculator.Holes.{range_of, add_holes}
use exmap.Calculator.Sanity.{sanity_check}

unfoldable pub mapptr_is_less_than : MapPtr → MapPtr → Bool
mapptr_is_less_than lhs rhs = ltb (range_of lhs).start (range_of rhs).start

-- Map::sort
unfoldable pub sort_maps : List MapPtr → List MapPtr
unfolding mapptr_is_less_than sort
sort_maps maplist = sort mapptr_is_less_than maplist

module _ (open_elf : Name → Option ElfFile) where
  -- The loop over the names.
  unfoldable pub names_loop : List Name → Calc → Outcome (Calc × Bool)
  names_loop [] c = done (c, true)
  names_loop (fname ∷ fnames) c = do
    (c', worked) ← calc_maps_for_file open_elf fname c
    elim worked [ true ↦ names_loop fnames c' | false ↦ done (c', false) ]

  -- What follows the loop: the holes, the sort and the check. The maps are `none` where the code
  -- returns before it assigns them.
  unfoldable pub finish_maps : Calc → Outcome (Calc × Option (List MapPtr) × Bool)
  unfolding sort_maps
  finish_maps c = do
    (c', worked) ← add_holes open_elf c
    if not worked then done (c', none, false) else (do
      sane ← sanity_check c'.vmas (sort_maps c'.maps)
      done (c', some (sort_maps c'.maps), sane))

  unfoldable pub calc_maps : Calc → Outcome (Calc × Option (List MapPtr) × Bool)
  unfolding names_loop finish_maps map_keys
  calc_maps c = do
    walked ← walk_vma_files open_elf c
    (c', worked) ← names_loop (map_keys walked.fname_to_vmas) walked
    elim worked [ true ↦ finish_maps c' | false ↦ done (c', none, false) ]
