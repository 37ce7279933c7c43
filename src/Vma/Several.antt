-- ===== src/Vma/Several.antt =====
-- The first, the last and the middle pages of a range, against the list of overlapping pages.
use mathlib.Core.Path.{ap₂}
use native.Mathlib.Nat.{div-add-mod, mod-lt}
use exmap.Prelude.{
  ℕ, suc, ◌+◌, ◌-◌, ◌*◌, ◌/◌, ◌≤◌, ◌<◌, ◌≡◌, ap, ◌∙◌, List, [], ◌∷◌, ◌++◌, some, arith, get_elem?,
  drop, drop_get_elem, sub_word,
}
use exmap.Range.{Range, size}
use exmap.Range.Basic.{contains_range_iff}
use exmap.Elf.Paging.{page_align_down, IsPageSize-pos, IsPageSize-lt}
use exmap.Page.{Page}
use exmap.Vma.{
  Vma, PartialPageInfo, middle_pages, several_pages, pages_between, get_pages_for_range,
}
use exmap.Vma.Pages.{IsPaged, IsWithin, addr_to_pgnum_lem, pgnum-lt-length, align-sub_word}
use exmap.Vma.Overlaps.{
  overlap, page_overlaps, page_overlaps_hit, page_overlaps_skip, page_overlaps_beyond,
  page_overlaps_full,
}

abbrev pgnum_of : ℕ → Vma → ℕ → ℕ
pgnum_of page_size vma addr = (addr - vma.range.start) / page_size

div_mono : (a b p : ℕ) → 0 < p → a ≤ b → a / p ≤ b / p
div_mono a b p h l = grind arith

page_bounds : (d p : ℕ) → 0 < p → (d / p * p ≤ d) × (d < d / p * p + p)
page_bounds d p h = (omega (arith, div-add-mod d p), omega (arith, div-add-mod d p, mod-lt d h))

mul_step : (s e p : ℕ) → s < e → s * p + p ≤ e * p
mul_step s e p h = grind arith

mul_rounds : (s e p : ℕ) → s < e → s * p + p + (e - s - 1) * p ≡ e * p
mul_rounds s e p h =
    let split : e ≡ s + 1 + (e - s - 1) = omega arith in omega (arith, ap (λ (t : ℕ). t * p) split)

module _ (page_size : ℕ) (vma : Vma) (r : Range) (v : IsPaged page_size vma)
    (w : IsWithin r vma) where
  abbrev pub first_pgnum : ℕ
  first_pgnum = pgnum_of page_size vma r.start

  abbrev pub last_pgnum : ℕ
  last_pgnum = pgnum_of page_size vma (r.end - 1)

  pub get_pages_for_range-between :
      get_pages_for_range page_size vma r ≡ pages_between page_size vma r first_pgnum last_pgnum
  unfolding get_pages_for_range size
  get_pages_for_range-between =
      let inside = (contains_range_iff vma.range r w.1).1 (w.0, w.2) in
      let before : sub_word r.end 1 ≡ r.end - 1 = omega (arith, v.formed) in
      let first = addr_to_pgnum_lem page_size vma v r.start w.0 (omega arith) in
      let last = addr_to_pgnum_lem page_size vma v (r.end - 1) (omega arith) (omega arith) in
      ground (arith, inside, before, first, rw (← before) at last, v.formed)

  pub pgnums_le : first_pgnum ≤ last_pgnum
  pgnums_le =
      div_mono (r.start - vma.range.start) (r.end - 1 - vma.range.start) page_size
        (IsPageSize-pos page_size v.power) (omega arith)

  -- Where the pages of the first and of the last address lie.
  pub first_page :
      (vma.range.start + first_pgnum * page_size ≤ r.start)
      × (r.start < vma.range.start + first_pgnum * page_size + page_size)
  first_page =
      let b =
        page_bounds (r.start - vma.range.start) page_size (IsPageSize-pos page_size v.power) in
      omega (arith, b)

  pub last_page :
      (vma.range.start + last_pgnum * page_size < r.end)
      × (r.end ≤ vma.range.start + last_pgnum * page_size + page_size)
  last_page =
      let b =
        page_bounds (r.end - 1 - vma.range.start) page_size (IsPageSize-pos page_size v.power) in
      omega (arith, b)

  abbrev pub first_lo : ℕ
  first_lo = vma.range.start + first_pgnum * page_size

  abbrev pub last_lo : ℕ
  last_lo = vma.range.start + last_pgnum * page_size

  module _ (several : first_pgnum < last_pgnum) where
    first_full : first_lo + page_size ≤ last_lo
    first_full = omega (arith, mul_step first_pgnum last_pgnum page_size several)

    first_bytes :
        sub_word page_size (sub_word r.start (page_align_down page_size r.start))
        ≡ overlap page_size first_lo r
    first_bytes =
        let a = align-sub_word page_size vma v r.start w.0 (omega arith) in
        let d : ℕ = r.start - vma.range.start in
        rw (a.0) (
          omega (
            arith,
            a.1,
            first_page,
            last_page,
            first_full,
            div-add-mod d page_size,
            v.formed,
            IsPageSize-lt page_size v.power,
          ))

    last_bytes :
        sub_word r.end (page_align_down page_size (sub_word r.end 1)) ≡ overlap page_size last_lo r
    last_bytes =
        let a = align-sub_word page_size vma v (r.end - 1) (omega arith) (omega arith) in
        let d : ℕ = r.end - 1 - vma.range.start in
        let before : sub_word r.end 1 ≡ r.end - 1 = omega (arith, v.formed) in
        rw before (
          rw (a.0) (
            omega
              (arith, a.1, first_page, last_page, first_full, div-add-mod d page_size, v.formed)))

    abbrev pub entry : Page → ℕ → PartialPageInfo
    entry page bytes = record { page = page; bytes = bytes }

    abbrev pub middle : List PartialPageInfo
    middle = middle_pages page_size (last_pgnum - first_pgnum - 1) (first_pgnum + 1) vma.pages

    pub several_pages_lem :
        (first last : Page)
        → several_pages page_size vma r first_pgnum last_pgnum first last
          ≡ entry first (overlap page_size first_lo r)
            ∷ entry last (overlap page_size last_lo r)
            ∷ middle
    unfolding several_pages
    several_pages_lem first last =
        rw (first_bytes, last_bytes) (ground (arith, last_page, first_page, first_full))

    -- The overlapping pages: the first, those between, the last.
    pub page_overlaps_lem :
        (first last : Page)
        → get_elem? vma.pages first_pgnum ≡ some first
        → get_elem? vma.pages last_pgnum ≡ some last
        → page_overlaps page_size vma.range.start r vma.pages
          ≡ entry first (overlap page_size first_lo r)
            ∷ (middle ++ entry last (overlap page_size last_lo r) ∷ [])
    page_overlaps_lem first last ef el =
        page_overlaps_skip page_size r first_pgnum vma.range.start vma.pages (first_page.0)
        ∙ rw (drop_get_elem vma.pages first_pgnum ef) (
            page_overlaps_hit page_size r first_lo first _ (first_page.1)
              (omega (arith, first_full, last_page)) w.1 pos
            ∙ ap (◌∷◌ (entry first (overlap page_size first_lo r)))
                (from_suc ∙ between ∙ ap (◌++◌ middle) (ends ∙ the_last)))
      where
        pos : 0 < page_size
        pos = IsPageSize-pos page_size v.power

        rounds : ℕ
        rounds = last_pgnum - first_pgnum - 1

        from_suc :
            page_overlaps page_size (first_lo + page_size) r (drop (suc first_pgnum) vma.pages)
            ≡ page_overlaps page_size (first_lo + page_size) r (drop (first_pgnum + 1) vma.pages)
        from_suc =
            let step : suc first_pgnum ≡ first_pgnum + 1 = omega arith in
            ap (λ (k : ℕ). page_overlaps page_size (first_lo + page_size) r (drop k vma.pages)) step

        after : first_lo + page_size + rounds * page_size ≡ last_lo
        after = omega (arith, mul_rounds first_pgnum last_pgnum page_size several)

        between :
            page_overlaps page_size (first_lo + page_size) r (drop (first_pgnum + 1) vma.pages)
            ≡ middle
              ++ page_overlaps page_size
                  (first_lo + page_size + rounds * page_size)
                  r
                  (drop (first_pgnum + 1 + rounds) vma.pages)
        between =
            page_overlaps_full page_size r rounds (first_lo + page_size) (first_pgnum + 1) vma.pages
              pos
              (omega
                (arith, pgnum-lt-length page_size vma v (r.end - 1) (omega arith) (omega arith)))
              (omega (arith, first_page)) (omega (arith, after, last_page))

        ends :
            page_overlaps page_size
              (first_lo + page_size + rounds * page_size)
              r
              (drop (first_pgnum + 1 + rounds) vma.pages)
            ≡ page_overlaps page_size last_lo r (drop last_pgnum vma.pages)
        ends = ap₂ (λ (t k : ℕ). page_overlaps page_size t r (drop k vma.pages)) after (omega arith)

        the_last :
            page_overlaps page_size last_lo r (drop last_pgnum vma.pages)
            ≡ entry last (overlap page_size last_lo r) ∷ []
        the_last = rw (drop_get_elem vma.pages last_pgnum el) (
            page_overlaps_hit page_size r last_lo last _ (omega (arith, first_page, first_full))
              (last_page.0) w.1 pos
            ∙ ap (◌∷◌ (entry last (overlap page_size last_lo r)))
                (page_overlaps_beyond page_size r (last_lo + page_size) _ (last_page.1)))
