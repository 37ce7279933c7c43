-- ===== src/Calculator/Segments.antt =====
-- calc_map_for_seg, calc_maps_for_elf_file, calc_maps_for_nonelf_file and calc_maps_for_file.
use exmap.Prelude.{
  ℕ, Bool, true, false, not, List, [], ◌∷◌, Option, none, some, if◌then◌else◌, leb, ◌==◌, length,
  sub_word,
}
use exmap.Std.Names.{Name, name_eq}
use exmap.Range.{Range, size, add, subtract, intersect}
use exmap.Elf.Segment.{Segment, mem_range}
use exmap.Elf.File.{ElfFile, loadable_segments}
use exmap.Vma.{Vma, is_file_backed}
use exmap.Outcome.{Outcome, done, crash, ◌>>=◌, deref}
use exmap.File.{File, get_or_make_file}
use exmap.Calculator.{Calc, push_map}
use exmap.Calculator.Walk.{vmas_of}

-- From the addresses of the segment to those of the memory, by an area of the file.
unfoldable pub seg_offset : Segment → Vma → ℕ
unfolding mem_range
seg_offset seg vma =
    let segmem_base = sub_word (mem_range seg).start seg.offset in
    let vmamem_base = sub_word vma.range.start vma.offset in sub_word vmamem_base segmem_base

-- The part of an area that the segment takes, if any.
unfoldable pub working_range : Segment → ℕ → Vma → Option Range
unfolding mem_range intersect add size
working_range seg seg_to_mem vma = elim (intersect (add (mem_range seg) seg_to_mem) vma.range) [
  | none ↦ none
  | some working_mrange ↦ if leb (size working_mrange) 0 then none else some working_mrange
]

-- The loop of calc_map_for_seg. It ends behind the first area without a file that gets a map.
unfoldable pub seg_loop : Name → Segment → List Vma → ℕ → Calc → Outcome Calc
unfolding seg_offset working_range push_map
seg_loop fname seg [] seg_to_mem c = done c
seg_loop fname seg (vma ∷ vmas) seg_to_mem c =
    let offset = (if is_file_backed vma then seg_offset seg vma else seg_to_mem) in
    elim (working_range seg offset vma) [
      | none ↦ seg_loop fname seg vmas offset c
      | some working_mrange ↦ do
        c' ← push_map c fname vma working_mrange (some (subtract working_mrange offset))
        elim (is_file_backed vma) [ false ↦ done c' | true ↦ seg_loop fname seg vmas offset c' ]
    ]

-- The areas without a file at the front are consumed.
unfoldable pub drop_anon : List Vma → List Vma
drop_anon [] = []
drop_anon (vma ∷ vmas) =
    let rest = drop_anon vmas in if is_file_backed vma then vma ∷ vmas else rest

-- The code only warns of an empty list before it takes the front.
unfoldable pub calc_map_for_seg :
    Name → Segment → List Vma → Calc → Outcome (Calc × List Vma × Bool)
unfolding seg_loop drop_anon
calc_map_for_seg fname seg [] c = crash
calc_map_for_seg fname seg (front ∷ filevmas) c =
    if not (is_file_backed front) then done (c, front ∷ filevmas, false) else do
      c' ← seg_loop fname seg (front ∷ filevmas) 0 c
      (if length c'.maps == 0
          then done (c', front ∷ filevmas, false)
          else done (c', drop_anon filevmas, true))

unfoldable pub segs_loop : Name → List Segment → List Vma → Calc → Outcome (Calc × Bool)
unfolding calc_map_for_seg
segs_loop fname [] filevmas c = done (c, true)
segs_loop fname (seg ∷ segs) filevmas c = do
  (c', rest, worked) ← calc_map_for_seg fname seg filevmas c
  elim worked [ true ↦ segs_loop fname segs rest c' | false ↦ done (c', false) ]

unfoldable pub calc_maps_for_elf_file : Name → ElfFile → Calc → Outcome (Calc × Bool)
unfolding segs_loop
calc_maps_for_elf_file fname elf c =
    if length (loadable_segments elf) == 0
    then done (c, false)
    else if length (vmas_of c.fname_to_vmas fname) == 0
    then done (c, false)
    else segs_loop fname (loadable_segments elf) (vmas_of c.fname_to_vmas fname) c

-- The loop of calc_maps_for_nonelf_file: a map for each area of that name.
unfoldable pub nonelf_loop : Name → List Vma → Calc → Outcome Calc
unfolding push_map
nonelf_loop fname [] c = done c
nonelf_loop fname (vma ∷ vmas) c = elim (name_eq vma.fname fname) [
  | false ↦ nonelf_loop fname vmas c
  | true ↦ do c' ← push_map c fname vma vma.range none; nonelf_loop fname vmas c'
]

unfoldable pub calc_maps_for_nonelf_file : Name → Calc → Outcome (Calc × Bool)
unfolding nonelf_loop
calc_maps_for_nonelf_file fname c =
    if length (vmas_of c.fname_to_vmas fname) == 0
    then done (c, false)
    else do c' ← nonelf_loop fname (vmas_of c.fname_to_vmas fname) c; done (c', true)

-- By what the file is.
unfoldable pub calc_by_kind : Name → File → Calc → Outcome (Calc × Bool)
unfolding calc_maps_for_elf_file calc_maps_for_nonelf_file
calc_by_kind fname file c = elim file.elf [
  | some elf ↦ calc_maps_for_elf_file fname elf c
  | none ↦ calc_maps_for_nonelf_file fname c
]

unfoldable pub calc_maps_for_file : (Name → Option ElfFile) → Name → Calc → Outcome (Calc × Bool)
unfolding calc_by_kind
calc_maps_for_file open_elf fname c =
    let (pool, ptr) = get_or_make_file open_elf c.file_pool fname in
    do
      file ← deref ptr
      (c', worked) ← calc_by_kind fname file (record c { file_pool = pool })
      (if not worked then done (c', false) else done (c', not (length c'.maps == length c.maps)))
