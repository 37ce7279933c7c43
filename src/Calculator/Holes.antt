-- ===== src/Calculator/Holes.antt =====
-- add_holes: a map for each part of an area that no map covers.
use exmap.Prelude.{Bool, true, List, [], ◌∷◌, Option, none, map}
use exmap.Std.Names.{Name}
use exmap.Range.{Range}
use exmap.Range.Lists.{invert_list}
use exmap.Elf.File.{ElfFile}
use exmap.Vma.{Vma}
use exmap.Outcome.{Outcome, done, ◌>>=◌}
use exmap.Map.{MapPtr}
use exmap.File.{get_or_make_file}
use exmap.Calculator.{Calc, push_map}

abbrev pub range_of : MapPtr → Range
range_of m = m.object.mem_range

unfoldable pub hole_loop : Vma → List Range → Calc → Outcome Calc
unfolding push_map
hole_loop vma [] c = done c
hole_loop vma (hole ∷ vma_holes) c = do
  c' ← push_map c vma.fname vma hole none
  hole_loop vma vma_holes c'

module _ (open_elf : Name → Option ElfFile) where
  unfoldable pub vma_loop : List Range → List Vma → Calc → Outcome Calc
  unfolding hole_loop
  vma_loop map_ranges [] c = done c
  vma_loop map_ranges (vma ∷ vmas) c = do
    let pool = (get_or_make_file open_elf c.file_pool vma.fname).0
    c' ← hole_loop vma (invert_list vma.range map_ranges) (record c { file_pool = pool })
    vma_loop map_ranges vmas c'

  unfoldable pub add_holes : Calc → Outcome (Calc × Bool)
  unfolding vma_loop
  add_holes c = do c' ← vma_loop (map range_of c.maps) c.vmas c; done (c', true)
