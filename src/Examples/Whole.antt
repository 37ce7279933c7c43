-- ===== src/Examples/Whole.antt =====
-- The whole calculation for a process.
use exmap.Prelude.{ℕ, ◌≡◌, refl, true, false, List, [], ◌∷◌, ◌++◌, Option, none, some, arith, All}
use exmap.Std.Names.{Name, byte_is, name_eq, name_less}
use exmap.Std.OrderedMap.{assign, find, map_keys}
use exmap.Std.Sort.{Ascending, sort, sort_insert}
use exmap.Range.{
  contains_range, intersect, overlaps, contains, add, contains, contains_range, equals, intersect,
  less, merge, overlaps, size, subtract, truncate_above, truncate_below,
}
use exmap.Range.Basic.{IsWellFormed}
use exmap.Range.Cover.{covers}
use exmap.Std.Streams.{opened}
use exmap.Elf.Segment.{Segment}
use exmap.Elf.File.{ElfFile, load_only, loadable_segments}
use exmap.Vma.{Vma, is_file_backed, is_file_backed_name}
use exmap.Outcome.{done}
use exmap.Map.{MapPtr}
use exmap.File.Pool.{NoNulls}
use exmap.Calculator.{Calc, new_calc, push_map}
use exmap.Calculator.Walk.{
  associate, last_name, name_insert, push_vma, vmas_of, walk_file, walk_loop, walk_vma_files,
}
use exmap.Calculator.Grouping.{areas_with, walk_vma_files_lem}
use exmap.Calculator.Coverage.{ranges, areas}
use exmap.Calculator.Run.{calc_maps, finish_maps, mapptr_is_less_than, names_loop, sort_maps}
use exmap.Calculator.Checked.{joined}
use exmap.Calculator.Accepted.{SpansAll, sanity_check-SpansAll}
use exmap.Calculator.Complete.{calc_maps-covers}
use exmap.Calculator.Filled.{start_of}
use exmap.File.{update_file, get_or_make_file, add_proc, add_map, new_file}
use exmap.Calculator.Segments.{
  calc_maps_for_file, calc_by_kind, calc_map_for_seg, calc_maps_for_elf_file,
  calc_maps_for_nonelf_file, drop_anon, nonelf_loop, seg_loop, seg_offset, segs_loop, working_range,
}
use exmap.Elf.Segment.{is_load, mem_range}
use exmap.Calculator.Holes.{add_holes, hole_loop, vma_loop}
use exmap.Range.Lists.{
  invert_list, invert_loop, merge_list, merge_loop, merge_sorted, restrict, restrict_loop,
  restrict_one,
}
use exmap.Calculator.Sanity.{sanity_check, leaves_gap, maps_loop, too_few, vma_round}
use exmap.Std.Sets.{set_insert}
use exmap.Examples.Calculation.{lib_area, heap_area, text_segment}

-- A loaded file with no sections.
abbrev loaded : List Segment → ElfFile
loaded segments = record {
  fname = lib_area.fname;
  ifs = opened [];
  filestruct = record {
    type = 3;
    shoff = 0;
    shnum = 0;
    shentsize = 0;
    phoff = 64;
    phnum = 1;
    phentsize = 56;
    shstrndx = 0;
  };
  segments = segments;
  sections = [];
  symbol_table_section = none;
  started_lazy_load_sections = false;
}

-- The library is an ELF file with one segment; its area is larger.
abbrev open_lib : Name → Option ElfFile
open_lib name = elim (name_eq name lib_area.fname) [
  | true ↦ some (loaded (text_segment ∷ []))
  | false ↦ none
]

abbrev both : List Vma
both = lib_area ∷ heap_area ∷ []

abbrev fresh : Calc
unfolding new_calc
fresh = new_calc both [] 42 [] 0

no_files-NoNulls : NoNulls []
unfolding find
no_files-NoNulls name = λ e. cc

calculated :
    (c : Calc) × (maps : List MapPtr) × (calc_maps open_lib fresh ≡ done (c, some maps, true))
    × All IsWellFormed (ranges c.maps)
unfolding calc_maps walk_vma_files fresh update_file find get_or_make_file assign name_less
    is_file_backed calc_maps_for_file add_proc name_eq loadable_segments is_load add_holes
    invert_list sanity_check contains_range hole_loop vma_loop finish_maps mapptr_is_less_than
    names_loop sort_maps leaves_gap maps_loop too_few vma_round calc_by_kind calc_map_for_seg
    calc_maps_for_elf_file calc_maps_for_nonelf_file drop_anon nonelf_loop seg_loop seg_offset
    segs_loop working_range associate last_name name_insert push_vma vmas_of walk_file walk_loop
    new_calc push_map load_only mem_range add_map new_file invert_loop merge_list merge_loop
    merge_sorted restrict restrict_loop restrict_one add contains equals intersect less merge
    overlaps size subtract truncate_above truncate_below byte_is map_keys set_insert sort
    sort_insert is_file_backed_name
calculated = (
  _,
  _,
  refl,
  ((omega arith, omega arith), ((omega arith, omega arith), ((omega arith, omega arith), tt))),
)

both-IsWellFormed : All IsWellFormed (areas both)
both-IsWellFormed = ((omega arith, omega arith), ((omega arith, omega arith), tt))

calc_maps-covers_example :
    Ascending start_of 0 calculated.1
    × ((v : ℕ) → covers (ranges calculated.1) v ≡ covers (areas both) v)
unfolding fresh
calc_maps-covers_example =
    calc_maps-covers open_lib both both-IsWellFormed [] 42 [] 0 no_files-NoNulls (calculated.0)
      (calculated.1) true (calculated.2) (calculated.3)

walk_vma_files_lem_example :
    (c : Calc) × (walk_vma_files open_lib fresh ≡ done c)
    × NoNulls c.file_pool
    × (c.maps ≡ fresh.maps)
    × (c.vmas ≡ fresh.vmas)
    × (vmas_of c.fname_to_vmas [] ≡ vmas_of fresh.fname_to_vmas [])
    × ((b : ℕ) (name : Name)
        → vmas_of c.fname_to_vmas (b ∷ name)
          ≡ vmas_of fresh.fname_to_vmas (b ∷ name) ++ areas_with (b ∷ name) false fresh.vmas)
unfolding fresh
walk_vma_files_lem_example = walk_vma_files_lem open_lib fresh no_files-NoNulls

accepted : sanity_check both calculated.1 ≡ done true
unfolding calculated sanity_check contains_range intersect overlaps contains
accepted = refl

sanity_check-SpansAll_example :
    (groups : List (List MapPtr)) × (calculated.1 ≡ joined groups) × SpansAll both groups
sanity_check-SpansAll_example = sanity_check-SpansAll both (calculated.1) accepted
