-- ===== src/Map/Sums.antt =====
-- sum_sizes: the sizes of a list of maps are the exact sums over all their pages.
use mathlib.Core.Path.{ap₂}
use exmap.Prelude.{ℕ, ◌+◌, ◌^◌, ◌≤◌, ◌<◌, ◌≡◌, refl, ap, ◌∙◌, true, List, [], ◌∷◌, some, arith, All}
use exmap.Double.{Double}
use exmap.Range.{size}
use exmap.Page.{PagePool}
use exmap.Vma.Pages.{IsPaged}
use exmap.Vma.Overlaps.{page_overlaps}
use exmap.Sizes.{Measure, Sizes, zero_sizes, add_sizes}
use exmap.Map.{Map, sizes_for_mem_range, sum_sizes_from, sum_sizes}
use exmap.Map.Exact.{IsExact, selects, bytes_where}
use exmap.Map.Sizing.{all_counted, sizes_for_mem_range-IsExact}

module _ (page_size : ℕ) (pp : PagePool) where
  -- A map that is not empty, within an area of whole pages, whose pages are all counted.
  pub record IsMeasured (m : Map) : Type 0 where
    pub paged : IsPaged page_size m.vma
    pub within : (m.vma.range.start ≤ m.mem_range.start) × (m.mem_range.end ≤ m.vma.range.end)
    pub wide : m.mem_range.start < m.mem_range.end
    pub fits : size m.mem_range ≤ 2 ^ 53
    pub counted :
        all_counted pp (page_overlaps page_size m.vma.range.start m.mem_range m.vma.pages) ≡ true

  -- The bytes of the maps that a measure counts.
  unfoldable pub bytes_of : Measure → List Map → ℕ
  bytes_of k [] = 0
  bytes_of k (m ∷ maps) =
      bytes_where (selects pp k) (page_overlaps page_size m.vma.range.start m.mem_range m.vma.pages)
      + bytes_of k maps

  module _ (d : Double) where
    sum_sizes_from_cons :
        (s sub : Sizes d) (m : Map) (maps : List Map)
        → sizes_for_mem_range page_size d pp m m.mem_range ≡ some sub
        → sum_sizes_from page_size d pp s (m ∷ maps)
          ≡ sum_sizes_from page_size d pp (add_sizes d s sub) maps
    unfolding sum_sizes_from
    sum_sizes_from_cons s sub m maps e = rw (e, sum_sizes_from) refl

    sum_sizes_from_lem :
        (k : Measure) (maps : List Map) (s : Sizes d) (a : ℕ)
        → IsExact k
        → s k ≡ d.of_word a
        → All IsMeasured maps
        → a + bytes_of k maps ≤ 2 ^ 53
        → sum_sizes_from page_size d pp s maps k ≡ d.of_word (a + bytes_of k maps)
    unfolding sum_sizes_from bytes_of add_sizes
    sum_sizes_from_lem k [] s a x e h fits = e ∙ ap d.of_word (omega arith)
    sum_sizes_from_lem k (m ∷ maps) s a x e h fits =
        let w = h.0 in
        let (sub, eq, exact) =
          sizes_for_mem_range-IsExact page_size d pp m m.mem_range w.paged w.within
            (omega arith, w.wide, omega arith) w.fits w.counted in
        let b : ℕ =
          bytes_where (selects pp k)
            (page_overlaps page_size m.vma.range.start m.mem_range m.vma.pages) in
        let small : a + b ≤ 2 ^ 53 = omega arith in
        let step : add_sizes d s sub k ≡ d.of_word (a + b) =
          ap₂ d.add e (exact k x) ∙ d.add-of_word a b small in
        let regroup : a + b + bytes_of k maps ≡ a + (b + bytes_of k maps) = omega arith in
        rw (sum_sizes_from_cons s sub m maps eq) (
          sum_sizes_from_lem k maps (add_sizes d s sub) (a + b) x step h.1 (omega arith)
          ∙ ap d.of_word regroup)

    -- Where every map is not empty, lies within an area of whole pages all of which the pool has
    -- counted, and has at most 2 ^ 53 bytes, each measure of `sum_sizes` but the effective ones is
    -- exactly the number of bytes of the maps in the pages that the measure counts, up to a total
    -- of 2 ^ 53.
    pub sum_sizes-IsExact :
        (k : Measure) (maps : List Map)
        → IsExact k
        → All IsMeasured maps
        → bytes_of k maps ≤ 2 ^ 53
        → sum_sizes page_size d pp maps k ≡ d.of_word (bytes_of k maps)
    unfolding sum_sizes zero_sizes
    sum_sizes-IsExact k maps x h fits =
        sum_sizes_from_lem k maps (zero_sizes d) 0 x refl h (omega arith)
        ∙ ap d.of_word (omega arith)
