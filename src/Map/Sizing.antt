-- ===== src/Map/Sizing.antt =====
-- sizes_for_mem_range: what the sizes of a range are, and when there are none.
use mathlib.Core.List.{Perm}
use native.Mathlib.Bridge.{le_prop}
use exmap.Prelude.{
  ℕ, ◌+◌, ◌^◌, ◌≤◌, ◌<◌, ◌≡◌, refl, ap, ◌∙◌, Bool, true, false, not, ◌&&◌, List, [], ◌∷◌, none,
  some, arith, ◌==◌, if◌then◌else◌, All, All-perm,
}
use exmap.Double.{Double}
use exmap.Range.{Range, size}
use exmap.Range.Basic.{contains_range_iff, intersect_of_contains}
use exmap.Page.{Page, PagePool, count}
use exmap.Elf.Paging.{IsPageSize-lt}
use exmap.Vma.{PartialPageInfo, get_pages_for_range}
use exmap.Vma.Pages.{IsPaged}
use exmap.Vma.Overlaps.{page_overlaps, total_bytes}
use exmap.Vma.Covering.{get_pages_for_range_lem, total_bytes-overlaps}
use exmap.Sizes.{Measure, vm, Sizes, zero_sizes, val}
use exmap.Map.{Map, add_all_pages, sizes_for_mem_range}
use exmap.Map.Exact.{
  IsExact, selects, bytes_where, bytes_where-perm, bytes_where-le, add_all_pages_lem,
}

-- The pool has counted every page that is listed.
unfoldable pub all_counted : PagePool → List PartialPageInfo → Bool
all_counted pp [] = true
all_counted pp (it ∷ info) = not (count pp it.page == 0) && all_counted pp info

bytes_where-counted :
    (pp : PagePool) (info : List PartialPageInfo)
    → all_counted pp info ≡ true
    → bytes_where (selects pp vm) info ≡ total_bytes info
unfolding all_counted bytes_where total_bytes selects
bytes_where-counted pp [] h = refl
bytes_where-counted pp (it ∷ info) h = ground (arith, bytes_where-counted pp info)

bytes_where-uncounted :
    (pp : PagePool) (info : List PartialPageInfo)
    → All (λ it. 0 < it.bytes) info
    → all_counted pp info ≡ false
    → bytes_where (selects pp vm) info < total_bytes info
unfolding all_counted bytes_where total_bytes selects
bytes_where-uncounted pp [] p h = cc
bytes_where-uncounted pp (it ∷ info) p h =
    ground (arith, bytes_where-uncounted pp info p.1, bytes_where-le (selects pp vm) info)

-- Each overlapping page has at least one byte, and at most a page of them.
page_overlaps-bounds :
    (page_size lo : ℕ) (r : Range) (pages : List Page)
    → All (λ it. (0 < it.bytes) × (it.bytes ≤ page_size)) (page_overlaps page_size lo r pages)
unfolding page_overlaps
page_overlaps-bounds page_size lo r [] = tt
page_overlaps-bounds page_size lo r (p ∷ pages) =
    ground (arith, page_overlaps-bounds page_size (lo + page_size) r pages)

module _ (page_size : ℕ) (d : Double) (pp : PagePool) (m : Map) (r : Range)
    (v : IsPaged page_size m.vma)
    (map_within : (m.vma.range.start ≤ m.mem_range.start) × (m.mem_range.end ≤ m.vma.range.end))
    (within : (m.mem_range.start ≤ r.start) × (r.start < r.end) × (r.end ≤ m.mem_range.end))
    (fits : size r ≤ 2 ^ 53) where
  abbrev pub pages_of : List PartialPageInfo
  pages_of = page_overlaps page_size m.vma.range.start r m.vma.pages

  pages :
      (info : List PartialPageInfo) × (get_pages_for_range page_size m.vma r ≡ some info)
      × Perm info pages_of
      × (total_bytes info ≡ size r)
  pages = get_pages_for_range_lem page_size m.vma r v (omega arith, within.1, omega arith)

  pages-bounds : All (λ it. (0 < it.bytes) × (it.bytes ≤ page_size)) (pages.0)
  pages-bounds =
      All-perm (λ it. (0 < it.bytes) × (it.bytes ≤ page_size)) (λ it. hlevel le_prop) (pages.2)
        (page_overlaps-bounds page_size m.vma.range.start r m.vma.pages)

  pages-small : All (λ it. it.bytes < 2 ^ 31) (pages.0)
  pages-small = All_map (pages.0) pages-bounds
    where
      All_map :
          (info : List PartialPageInfo)
          → All (λ it. (0 < it.bytes) × (it.bytes ≤ page_size)) info
          → All (λ it. it.bytes < 2 ^ 31) info
      All_map [] h = tt
      All_map (it ∷ info) h =
          (omega (arith, h.0, IsPageSize-lt page_size v.power), All_map info h.1)

  -- The overlapping pages hold all the bytes of the range.
  total_pages : total_bytes pages_of ≡ size r
  total_pages = total_bytes-overlaps page_size m.vma r v (omega arith, within.1, omega arith)

  positive : All (λ it. 0 < it.bytes) pages_of
  positive = go pages_of (page_overlaps-bounds page_size m.vma.range.start r m.vma.pages)
    where
      go :
          (info : List PartialPageInfo)
          → All (λ it. (0 < it.bytes) × (it.bytes ≤ page_size)) info
          → All (λ it. 0 < it.bytes) info
      go [] h = tt
      go (it ∷ info) h = (h.0.0, go info h.1)

  sizes_of : Sizes d
  sizes_of = add_all_pages d pp (zero_sizes d) (pages.0)

  -- Each whole-byte measure of the sum is the number of the bytes that it counts.
  sizes_of-exact :
      (k : Measure) → IsExact k → sizes_of k ≡ d.of_word (bytes_where (selects pp k) (pages.0))
  unfolding sizes_of zero_sizes
  sizes_of-exact k e =
      add_all_pages_lem d pp (zero_sizes d) (pages.0) k 0 e refl pages-small
        (omega (arith, pages.3))
      ∙ ap d.of_word (omega arith)

  sizes_for_mem_range-sizes_of :
      sizes_for_mem_range page_size d pp m r
      ≡ (if d.eq (sizes_of vm) (d.of_word (size r)) then some sizes_of else none)
  unfolding sizes_for_mem_range sizes_of size val
  sizes_for_mem_range-sizes_of =
      let inside = (contains_range_iff m.mem_range r within.1).1 (within.0, within.2) in
      let same = intersect_of_contains m.mem_range r within.1 within.0 within.2 in
      rw (inside, same, pages.1, sizes_for_mem_range) (ground (arith, pages.1, v.formed))

  total_eq :
      d.eq (sizes_of vm) (d.of_word (size r)) ≡ (bytes_where (selects pp vm) (pages.0) == size r)
  total_eq =
      rw (sizes_of-exact vm tt)
        (d.eq-of_word _ _ (omega (arith, bytes_where-le (selects pp vm) (pages.0), pages.3)) fits)

  -- For a range within a map that lies within its area, of whole pages all of which the pool has
  -- counted, and of at most 2 ^ 53 bytes, there are sizes. Each measure but the effective ones
  -- is then exactly the number of bytes of the range in the pages that the measure counts.
  pub sizes_for_mem_range-IsExact :
      all_counted pp pages_of ≡ true
      → (s : Sizes d) × (sizes_for_mem_range page_size d pp m r ≡ some s)
        × ((k : Measure) → IsExact k → s k ≡ d.of_word (bytes_where (selects pp k) pages_of))
  sizes_for_mem_range-IsExact h =
      let moved = λ (k : Measure). bytes_where-perm (selects pp k) (pages.2) in
      let whole : bytes_where (selects pp vm) (pages.0) ≡ size r =
        moved vm ∙ bytes_where-counted pp pages_of h ∙ total_pages in
      (
        sizes_of,
        sizes_for_mem_range-sizes_of ∙ rw total_eq (rw whole (ground arith)),
        λ k e. sizes_of-exact k e ∙ ap d.of_word (moved k),
      )

  -- There are no sizes, under the same conditions on the range, the map and the area, where a
  -- page with bytes of the range has not been counted.
  pub sizes_for_mem_range-uncounted :
      all_counted pp pages_of ≡ false → sizes_for_mem_range page_size d pp m r ≡ none
  sizes_for_mem_range-uncounted h =
      let moved = bytes_where-perm (selects pp vm) (pages.2) in
      let less = bytes_where-uncounted pp pages_of positive h in
      sizes_for_mem_range-sizes_of ∙ rw total_eq (ground (arith, moved, less, total_pages))
