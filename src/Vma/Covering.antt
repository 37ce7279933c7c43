-- ===== src/Vma/Covering.antt =====
-- get_pages_for_range against the list of overlapping pages.
use mathlib.Core.Path.{ap₂}
use mathlib.Core.List.{Perm, perm_middle, append-nil}
use mathlib.Core.List.Perm
use exmap.Prelude.{
  ℕ, ◌+◌, ◌-◌, ◌*◌, ◌<◌, ◌≡◌, ap, ◌∙◌, sym, List, [], ◌∷◌, some, arith, get_elem?, get_elem?_total,
  drop_get_elem, ◌==◌, Bool-cases, inl, inr,
}
use exmap.Range.{Range, size}
use exmap.Elf.Paging.{IsPageSize-pos}
use exmap.Page.{Page}
use exmap.Vma.{Vma, PartialPageInfo, several_pages, pages_between, get_pages_for_range}
use exmap.Vma.Pages.{IsPaged, IsWithin, pgnum-lt-length}
use exmap.Vma.Overlaps.{
  overlap, page_overlaps, page_overlaps_hit, page_overlaps_skip, page_overlaps_beyond, total_bytes,
  total_bytes-append, total_bytes-page_overlaps,
}
use exmap.Vma.Several.{
  first_pgnum, last_pgnum, first_lo, last_lo, first_page, last_page, get_pages_for_range-between,
  pgnums_le, entry, middle, page_overlaps_lem, several_pages_lem,
}

module _ (page_size : ℕ) (vma : Vma) (r : Range) (v : IsPaged page_size vma)
    (w : IsWithin r vma) where
  -- What a list of pages with their bytes is, against the overlapping pages of the area.
  abbrev Covers : List PartialPageInfo → Type 0
  Covers info =
      Perm info (page_overlaps page_size vma.range.start r vma.pages) × (total_bytes info ≡ size r)

  pub total_bytes-overlaps :
      total_bytes (page_overlaps page_size vma.range.start r vma.pages) ≡ size r
  unfolding size
  total_bytes-overlaps =
      omega (
        arith,
        total_bytes-page_overlaps page_size vma.range.start r vma.pages,
        v.covered,
        v.formed,
      )

  several-Covers :
      (first last : Page)
      → get_elem? vma.pages (first_pgnum page_size vma r v w) ≡ some first
      → get_elem? vma.pages (last_pgnum page_size vma r v w) ≡ some last
      → (first_pgnum page_size vma r v w) < (last_pgnum page_size vma r v w)
      → Covers (
          several_pages page_size vma r
            (first_pgnum page_size vma r v w)
            (last_pgnum page_size vma r v w)
            first
            last)
  unfolding total_bytes
  several-Covers first last ef el lt =
      let shape = page_overlaps_lem page_size vma r v w lt first last ef el in
      let a =
        entry page_size vma r v w lt first (overlap page_size (first_lo page_size vma r v w) r) in
      let b =
        entry page_size vma r v w lt last (overlap page_size (last_lo page_size vma r v w) r) in
      let total = rw shape at total_bytes-overlaps in
      rw (several_pages_lem page_size vma r v w lt first last) (
        rw shape (
            Perm.cons a (
              Perm.trans (rw (append-nil (middle page_size vma r v w lt)) Perm.rfl)
                (Perm.symm (perm_middle (middle page_size vma r v w lt) [])))),
        omega (arith, total, total_bytes-append (middle page_size vma r v w lt) (b ∷ [])),
      )

  single_overlap :
      (first : Page)
      → get_elem? vma.pages (first_pgnum page_size vma r v w) ≡ some first
      → (first_pgnum page_size vma r v w) ≡ (last_pgnum page_size vma r v w)
      → page_overlaps page_size vma.range.start r vma.pages
        ≡ record { page = first; bytes = size r } ∷ []
  unfolding size
  single_overlap first ef e =
      let ends : (last_lo page_size vma r v w) ≡ (first_lo page_size vma r v w) =
        ap (λ (t : ℕ). vma.range.start + t * page_size) (sym e) in
      let bytes : overlap page_size (first_lo page_size vma r v w) r ≡ size r = omega (
        arith,
        ends,
        (first_page page_size vma r v w),
        (last_page page_size vma r v w),
        v.formed,
      ) in
      page_overlaps_skip page_size r (first_pgnum page_size vma r v w) vma.range.start vma.pages
        ((first_page page_size vma r v w).0)
      ∙ rw (drop_get_elem vma.pages (first_pgnum page_size vma r v w) ef) (
          page_overlaps_hit page_size r (first_lo page_size vma r v w) first _
            ((first_page page_size vma r v w).1)
            (omega (arith, ends, (last_page page_size vma r v w))) w.1
            (IsPageSize-pos page_size v.power)
          ∙ ap₂ (λ (b : ℕ) rest. record { page = first; bytes = b } ∷ rest) bytes
              (page_overlaps_beyond page_size r ((first_lo page_size vma r v w) + page_size) _
                (omega (arith, ends, (last_page page_size vma r v w)))))

  single-Covers :
      (first : Page)
      → get_elem? vma.pages (first_pgnum page_size vma r v w) ≡ some first
      → (first_pgnum page_size vma r v w) ≡ (last_pgnum page_size vma r v w)
      → Covers (record { page = first; bytes = size r } ∷ [])
  unfolding total_bytes
  single-Covers first ef e = (rw (single_overlap first ef e) Perm.rfl, omega arith)

  -- For a range within an area of whole pages `get_pages_for_range` succeeds. It returns the pages
  -- of the area that share bytes with the range, each with the number of those bytes, in some
  -- order, and the bytes add up to the size of the range.
  pub get_pages_for_range_lem :
      (info : List PartialPageInfo) × (get_pages_for_range page_size vma r ≡ some info)
      × Perm info (page_overlaps page_size vma.range.start r vma.pages)
      × (total_bytes info ≡ size r)
  unfolding pages_between
  get_pages_for_range_lem =
      let (first, ef) =
        get_elem?_total vma.pages (first_pgnum page_size vma r v w)
          (pgnum-lt-length page_size vma v r.start w.0 (omega arith)) in
      let (last, el) =
        get_elem?_total vma.pages (last_pgnum page_size vma r v w)
          (pgnum-lt-length page_size vma v (r.end - 1) (omega arith) (omega arith)) in
      elim (Bool-cases ((first_pgnum page_size vma r v w) == (last_pgnum page_size vma r v w))) [
        | inl e ↦
            let same : (first_pgnum page_size vma r v w) ≡ (last_pgnum page_size vma r v w) =
              ground arith in
            let c = single-Covers first ef same in
            (
              record { page = first; bytes = size r } ∷ [],
              (get_pages_for_range-between page_size vma r v w)
                  ∙ ground (arith, (pgnums_le page_size vma r v w)),
              c.0,
              c.1,
            )
        | inr e ↦
            let c =
              several-Covers first last ef el (ground (arith, (pgnums_le page_size vma r v w))) in
            (
              several_pages page_size vma r (first_pgnum page_size vma r v w)
                  (last_pgnum page_size vma r v w) first last,
              (get_pages_for_range-between page_size vma r v w)
                  ∙ ground (arith, (pgnums_le page_size vma r v w)),
              c.0,
              c.1,
            )
      ]
