-- ===== src/Examples/Calculation.antt =====
-- The calculation of maps, on a process with one area of a file and one without.
use exmap.Prelude.{
  ℕ, ◌≤◌, ◌<◌, ◌≡◌, ◌≢◌, ◌⊎◌, refl, true, [], ◌∷◌, Option, none, some, arith, add_word, sub_word,
}
use exmap.Std.Names.{Name, name_key}
use exmap.Std.OrderedMap.{find, assign}
use exmap.Range.{Range, size, add, subtract}
use exmap.Elf.Segment.{Segment, mem_range}
use exmap.Elf.File.{ElfFile}
use exmap.Vma.{Vma}
use exmap.Map.{MapPtr, elf_to_mem_range}
use exmap.Outcome.{done, crash}
use exmap.File.{File, FilePool, get_or_make_file}
use exmap.File.Pool.{NoNulls, assign-NoNulls, get_or_make_file_lem}
use exmap.Calculator.{Calc, new_calc}
use exmap.Calculator.Segments.{seg_offset, working_range}
use exmap.Calculator.Sanity.{sanity_check}
use exmap.Calculator.Shift.{seg_offset_file, working_range_lem, elf_to_mem_range_lem}
use exmap.Calculator.Checked.{sanity_check-Tiles, sanity_check_gap, sanity_check_short}

abbrev lib_name : Name
lib_name = b'/' ∷ b'l' ∷ []

abbrev heap_name : Name
heap_name = b'[' ∷ b'h' ∷ b']' ∷ []

-- A segment of 0x1800 bytes at 0x400000, from the start of the file.
abbrev pub text_segment : Segment
text_segment = record {
  vaddr = 0x400000;
  memsz = 0x1800;
  offset = 0;
  filesz = 0x1800;
  type = 1;
  flags = 5;
  align = 0x1000;
}

abbrev open_lib : Name → Option ElfFile
open_lib name = none

abbrev pub lib_area : Vma
lib_area = record {
  range = record { start = 0x7000; end = 0x9000 };
  offset = 0;
  fname = lib_name;
  pages = [];
}

abbrev pub heap_area : Vma
heap_area = record {
  range = record { start = 0x9000; end = 0xa000 };
  offset = 0;
  fname = heap_name;
  pages = [];
}

abbrev map_at : ℕ → Range → MapPtr
map_at n r = record {
  address = n;
  object = record { vma = lib_area; mem_range = r; elf_range = none };
}

abbrev taken : Range
taken = record { start = 0x7000; end = 0x8800 }

abbrev left : Range
left = record { start = 0x8800; end = 0x9000 }

abbrev apart : Range
apart = record { start = 0x8c00; end = 0x9000 }

abbrev seg_shift : ℕ
seg_shift = sub_word 0x7000 0x400000

-- A calculator that has mapped a part of the first area.
abbrev begun : Calc
unfolding new_calc
begun = record (new_calc (lib_area ∷ heap_area ∷ []) [] 42 [] 0) {
  maps = map_at 0 taken ∷ [];
  next_address = 1;
}

begun-NoNulls : NoNulls []
unfolding find
begun-NoNulls name = λ e. cc

seg_offset_file_example :
    add_word 0 (sub_word 0x7123 0x7000)
    ≡ add_word 0 (sub_word (sub_word 0x7123 (seg_offset text_segment lib_area)) 0x400000)
seg_offset_file_example =
    seg_offset_file text_segment lib_area 0x7123 (omega arith) (omega arith) (omega arith)
      (omega arith) (omega arith)

text_works : working_range text_segment seg_shift lib_area ≡ some taken
unfolding working_range
text_works = refl

working_range_lem_example :
    (0x7000 ≤ taken.start)
    × (taken.start < taken.end)
    × (taken.end ≤ 0x9000)
    × ((mem_range text_segment).start ≤ (subtract taken seg_shift).start)
    × ((subtract taken seg_shift).end ≤ (mem_range text_segment).end)
    × (size (subtract taken seg_shift) ≡ size taken)
unfolding mem_range add
working_range_lem_example =
    working_range_lem text_segment lib_area seg_shift taken (omega arith) (omega arith)
      (omega arith) (omega arith) text_works

abbrev symbol_range : Range
symbol_range = record { start = 0x400100; end = 0x400200 }

elf_to_mem_range_lem_example :
    (elf_to_mem_range
        (record { vma = lib_area; mem_range = taken; elf_range = some (subtract taken seg_shift) })
        (subtract taken seg_shift)
        symbol_range
      ≡ some (add symbol_range seg_shift))
    × (taken.start ≤ (add symbol_range seg_shift).start)
    × ((add symbol_range seg_shift).end ≤ taken.end)
    × (size (add symbol_range seg_shift) ≡ size symbol_range)
unfolding mem_range subtract
elf_to_mem_range_lem_example =
    elf_to_mem_range_lem text_segment lib_area seg_shift taken (omega arith) (omega arith)
      (omega arith) (omega arith) text_works symbol_range (omega arith) (omega arith) (omega arith)

sanity_check-Tiles_example :
    sanity_check (lib_area ∷ []) (map_at 0 taken ∷ map_at 1 left ∷ []) ≡ done true
sanity_check-Tiles_example =
    sanity_check-Tiles (lib_area ∷ []) ((map_at 0 taken ∷ map_at 1 left ∷ []) ∷ []) (omega arith)

sanity_check_gap_example :
    sanity_check (lib_area ∷ []) (map_at 0 taken ∷ map_at 1 apart ∷ []) ≡ done true
sanity_check_gap_example =
    sanity_check_gap lib_area (map_at 0 taken) (map_at 1 apart) refl (omega arith) (omega arith)
      refl

sanity_check_short_example :
    (sanity_check (lib_area ∷ heap_area ∷ []) [] ≡ crash)
    × (sanity_check (lib_area ∷ heap_area ∷ []) (map_at 0 taken ∷ []) ≡ crash)
sanity_check_short_example =
    sanity_check_short lib_area (heap_area ∷ []) (map_at 0 taken) refl (omega arith) (omega arith)

-- A file that the process 11 has.
abbrev held_lib : File
held_lib = record { name = lib_name; maps = []; procs = 11 ∷ []; elf = none }

abbrev holding : FilePool
holding = assign [] lib_name (some held_lib)

get_or_make_file_lem_example :
    (f : File) × ((get_or_make_file open_lib holding lib_name).1 ≡ some f)
    × (((find holding lib_name ≡ some (some f))
          × ((get_or_make_file open_lib holding lib_name).0 ≡ holding))
        ⊎ ((find holding lib_name ≡ none)
            × (f ≡ record { name = lib_name; maps = []; procs = []; elf = open_lib lib_name })))
    × (find (get_or_make_file open_lib holding lib_name).0 lib_name ≡ some (some f))
    × NoNulls (get_or_make_file open_lib holding lib_name).0
    × ((other : Name)
        → lib_name ≢ other
        → find (get_or_make_file open_lib holding lib_name).0 other ≡ find holding other)
    × (get_or_make_file open_lib (get_or_make_file open_lib holding lib_name).0 lib_name
        ≡ get_or_make_file open_lib holding lib_name)
get_or_make_file_lem_example =
    get_or_make_file_lem open_lib holding lib_name
      (assign-NoNulls [] lib_name held_lib begun-NoNulls)
