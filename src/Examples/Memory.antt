-- ===== src/Examples/Memory.antt =====
-- Pages and sizes.
use mathlib.Core.List.{Perm}
use exmap.Prelude.{
  All, ℕ, ◌+◌, ◌≡◌, refl, true, false, List, [], ◌∷◌, none, some, arith, ◌==◌, ◌/◌, min,
}
use exmap.Double.{Double}
use exmap.Range.{Range, size}
use exmap.Page.{
  is_mapped, is_resident, Page, PagePool, increment_last, assignment_last, count, inc_pages_count,
}
use exmap.Page.Counts.{occurrences, count-inc_pages_count, count-inc_pages_count_assignment}
use exmap.Vma.{Vma, PartialPageInfo, get_pages_for_range}
use exmap.Vma.Pages.{IsPaged}
use exmap.Vma.Overlaps.{page_overlaps, total_bytes}
use exmap.Vma.Covering.{get_pages_for_range_lem}
use exmap.Sizes.{resident, Measure, Sizes}
use exmap.Map.{sum_sizes, Map, MapPtr, sizes_for_mem_range}
use exmap.Map.Exact.{IsExact, selects, bytes_where}
use exmap.Map.Sizing.{all_counted, sizes_for_mem_range-IsExact, sizes_for_mem_range-uncounted}
use exmap.Map.Sums.{IsMeasured, bytes_of, sum_sizes-IsExact}
use exmap.Map.Pointers.{intersect_lists, intersect_lists-occurrences}
use exmap.Map.Pointers

-- Doubles that hold whole numbers, which meet the laws of the interface.
abbrev pub whole_double : Double
whole_double = record {
  Val = ℕ;
  of_word = λ n. n;
  of_int = λ n. n;
  add = ◌+◌;
  div = ◌/◌;
  eq = ◌==◌;
  of_int-eq = λ n h. refl;
  add-of_word = λ a b h. refl;
  eq-of_word = λ a b h k. refl;
}

abbrev pub shared_page : Page
shared_page = record { cookie = 7; resident = true; writable = false }

abbrev pub own_page : Page
own_page = record { cookie = 9; resident = true; writable = true }

abbrev unmapped_page : Page
unmapped_page = record { cookie = 0; resident = false; writable = false }

abbrev area_pages : List Page
area_pages = shared_page ∷ own_page ∷ unmapped_page ∷ []

-- Three pages of 4096 bytes, from 0x1000 on.
abbrev pub area : Vma
area = record {
  range = record { start = 0x1000; end = 0x4000 };
  offset = 0;
  fname = b'a' ∷ [];
  pages = area_pages;
}

abbrev part : Range
part = record { start = 0x1800; end = 0x3100 }

area-IsPaged : IsPaged 4096 area
area-IsPaged = record {
  power = (12, omega arith, refl);
  formed = omega arith;
  aligned = refl;
  covered = omega arith;
  few = omega arith;
}

abbrev area_map : Map
area_map = record { vma = area; mem_range = area.range; elf_range = none }

abbrev pool_of : ℕ → PagePool
pool_of n = record { counts = λ c. n }

count-inc_pages_count_example :
    count (inc_pages_count increment_last (pool_of 1) area_pages) own_page
    ≡ count (pool_of 1) own_page + occurrences 9 area_pages
count-inc_pages_count_example = count-inc_pages_count (pool_of 1) area_pages own_page

count-inc_pages_count_assignment_example :
    count (inc_pages_count assignment_last (pool_of 1) area_pages) own_page
    ≡ count (pool_of 1) own_page
count-inc_pages_count_assignment_example =
    count-inc_pages_count_assignment (pool_of 1) area_pages own_page

get_pages_for_range_lem_example :
    (info : List PartialPageInfo) × (get_pages_for_range 4096 area part ≡ some info)
    × Perm info (page_overlaps 4096 0x1000 part area_pages)
    × (total_bytes info ≡ size part)
get_pages_for_range_lem_example = get_pages_for_range_lem 4096 area part area-IsPaged (omega arith)

sizes_for_mem_range-IsExact_example :
    (s : Sizes whole_double) × (sizes_for_mem_range 4096 whole_double (pool_of 1) area_map part
      ≡ some s)
    × ((k : Measure)
        → IsExact k
        → s k ≡ bytes_where (selects (pool_of 1) k) (page_overlaps 4096 0x1000 part area_pages))
unfolding all_counted size count page_overlaps
sizes_for_mem_range-IsExact_example =
    sizes_for_mem_range-IsExact 4096 whole_double (pool_of 1) area_map part area-IsPaged
      (omega arith) (omega arith) (omega arith) refl

sizes_for_mem_range-uncounted_example :
    sizes_for_mem_range 4096 whole_double (pool_of 0) area_map part ≡ none
unfolding all_counted size count page_overlaps
sizes_for_mem_range-uncounted_example =
    sizes_for_mem_range-uncounted 4096 whole_double (pool_of 0) area_map part area-IsPaged
      (omega arith) (omega arith) (omega arith) refl

abbrev ptr : ℕ → MapPtr
ptr n = record { address = n; object = area_map }

intersect_lists-occurrences_example :
    Pointers.occurrences 3 (intersect_lists (ptr 3 ∷ ptr 1 ∷ ptr 3 ∷ []) (ptr 3 ∷ ptr 2 ∷ []))
    ≡ min
        (Pointers.occurrences 3 (ptr 3 ∷ ptr 1 ∷ ptr 3 ∷ []))
        (Pointers.occurrences 3 (ptr 3 ∷ ptr 2 ∷ []))
intersect_lists-occurrences_example =
    intersect_lists-occurrences 3 (ptr 3 ∷ ptr 1 ∷ ptr 3 ∷ []) (ptr 3 ∷ ptr 2 ∷ [])

abbrev area_maps : List Map
area_maps = area_map ∷ record area_map { mem_range = part } ∷ []

area_maps-IsMeasured : All (IsMeasured 4096 (pool_of 1)) area_maps
unfolding all_counted size count page_overlaps
area_maps-IsMeasured = (
  record {
    paged = area-IsPaged;
    within = omega arith;
    wide = omega arith;
    fits = omega arith;
    counted = refl;
  },
  (
    record {
      paged = area-IsPaged;
      within = omega arith;
      wide = omega arith;
      fits = omega arith;
      counted = refl;
    },
    tt,
  ),
)

sum_sizes-IsExact_example :
    sum_sizes 4096 whole_double (pool_of 1) area_maps resident
    ≡ bytes_of 4096 (pool_of 1) resident area_maps
unfolding bytes_of bytes_where page_overlaps selects count is_mapped is_resident
sum_sizes-IsExact_example =
    sum_sizes-IsExact 4096 (pool_of 1) whole_double resident area_maps tt area_maps-IsMeasured
      (omega arith)
