-- ===== src/Vma/Overlaps.antt =====
-- The pages of an area that a range overlaps, read off the whole page list: what
-- get_pages_for_range is to return, in whatever order.
use mathlib.Core.Path.{ap₂}
use native.Mathlib.Numerals.{add-one}
use exmap.Prelude.{
  ℕ, zero, suc, ◌+◌, ◌-◌, ◌*◌, ◌≤◌, ◌<◌, ◌≡◌, refl, ap, ◌∙◌, min, max, List, [], ◌∷◌, ◌++◌, some,
  arith, length, get_elem?, get_elem?_total, drop, drop_get_elem, ◌==◌, if◌then◌else◌,
}
use exmap.Range.{Range}
use exmap.Page.{Page}
use exmap.Vma.{PartialPageInfo, middle_pages}

-- How many bytes the page at `lo` shares with a range.
abbrev pub overlap : ℕ → ℕ → Range → ℕ
overlap page_size lo r = min r.end (lo + page_size) - max r.start lo

-- Every page, the first of which lies at `lo`, that shares bytes with the range.
unfoldable pub page_overlaps : ℕ → ℕ → Range → List Page → List PartialPageInfo
page_overlaps page_size lo r [] = []
page_overlaps page_size lo r (p ∷ pages) =
    let rest = page_overlaps page_size (lo + page_size) r pages in
    if overlap page_size lo r == 0
    then rest
    else record { page = p; bytes = overlap page_size lo r } ∷ rest

unfoldable pub total_bytes : List PartialPageInfo → ℕ
total_bytes [] = 0
total_bytes (it ∷ info) = it.bytes + total_bytes info

pub total_bytes-append :
    (xs ys : List PartialPageInfo) → total_bytes (xs ++ ys) ≡ total_bytes xs + total_bytes ys
unfolding total_bytes
total_bytes-append [] ys = omega arith
total_bytes-append (x ∷ xs) ys = omega (arith, total_bytes-append xs ys)

-- The overlaps add up to what the range shares with all the pages.
pub total_bytes-page_overlaps :
    (page_size lo : ℕ) (r : Range) (pages : List Page)
    → total_bytes (page_overlaps page_size lo r pages)
      ≡ min r.end (lo + length pages * page_size) - max r.start lo
unfolding total_bytes page_overlaps
total_bytes-page_overlaps page_size lo r [] = omega arith
total_bytes-page_overlaps page_size lo r (p ∷ pages) =
    ground (arith, total_bytes-page_overlaps page_size (lo + page_size) r pages)

module _ (page_size : ℕ) (r : Range) where
  -- A page that shares bytes with the range is listed, with their number.
  pub page_overlaps_hit :
      (lo : ℕ) (p : Page) (pages : List Page)
      → r.start < lo + page_size
      → lo < r.end
      → r.start < r.end
      → 0 < page_size
      → page_overlaps page_size lo r (p ∷ pages)
        ≡ record { page = p; bytes = overlap page_size lo r }
          ∷ page_overlaps page_size (lo + page_size) r pages
  unfolding page_overlaps
  page_overlaps_hit lo p pages h l w pos = ground arith

  page_overlaps_miss :
      (lo : ℕ) (p : Page) (pages : List Page)
      → lo + page_size ≤ r.start
      → page_overlaps page_size lo r (p ∷ pages) ≡ page_overlaps page_size (lo + page_size) r pages
  unfolding page_overlaps
  page_overlaps_miss lo p pages h = ground arith

  middle_pages_step :
      (m pgnum : ℕ) (p : Page) (pages : List Page)
      → get_elem? pages pgnum ≡ some p
      → middle_pages page_size (suc m) pgnum pages
        ≡ record { page = p; bytes = page_size } ∷ middle_pages page_size m (suc pgnum) pages
  unfolding middle_pages
  middle_pages_step m pgnum p pages e = rw (e, middle_pages, add-one pgnum)

  pub page_overlaps_skip :
      (n lo : ℕ) (pages : List Page)
      → lo + n * page_size ≤ r.start
      → page_overlaps page_size lo r pages
        ≡ page_overlaps page_size (lo + n * page_size) r (drop n pages)
  unfolding page_overlaps
  page_overlaps_skip zero lo pages h =
      ap (λ (t : ℕ). page_overlaps page_size t r pages) (omega arith)
  page_overlaps_skip (suc n) lo [] h = refl
  page_overlaps_skip (suc n) lo (p ∷ pages) h =
      page_overlaps_miss lo p pages (omega arith)
      ∙ page_overlaps_skip n (lo + page_size) pages (omega arith)
      ∙ ap (λ (t : ℕ). page_overlaps page_size t r (drop n pages)) (omega arith)

  pub page_overlaps_beyond :
      (lo : ℕ) (pages : List Page) → r.end ≤ lo → page_overlaps page_size lo r pages ≡ []
  unfolding page_overlaps
  page_overlaps_beyond lo [] h = refl
  page_overlaps_beyond lo (p ∷ pages) h =
      ground (arith, page_overlaps_beyond (lo + page_size) pages)

  -- Pages wholly within the range are those that the loop over the middle pages collects.
  pub page_overlaps_full :
      (m lo pgnum : ℕ) (pages : List Page)
      → 0 < page_size
      → pgnum + m ≤ length pages
      → r.start ≤ lo
      → lo + m * page_size ≤ r.end
      → page_overlaps page_size lo r (drop pgnum pages)
        ≡ middle_pages page_size m pgnum pages
          ++ page_overlaps page_size (lo + m * page_size) r (drop (pgnum + m) pages)
  unfolding middle_pages
  page_overlaps_full zero lo pgnum pages pos h s e =
      ap₂ (λ (t k : ℕ). page_overlaps page_size t r (drop k pages)) (omega arith) (omega arith)
  page_overlaps_full (suc m) lo pgnum pages pos h s e =
      let (p, here) = get_elem?_total pages pgnum (omega arith) in
      let tail = drop (suc pgnum) pages in
      let whole : overlap page_size lo r ≡ page_size = omega arith in
      let hit = page_overlaps_hit lo p tail (omega arith) (omega arith) (omega arith) pos in
      let next =
        page_overlaps_full m (lo + page_size) (suc pgnum) pages pos (omega arith) (omega arith)
          (omega arith) in
      let ends : page_overlaps page_size (lo + page_size + m * page_size) r
            (drop (suc pgnum + m) pages)
          ≡ page_overlaps page_size (lo + suc m * page_size) r (drop (pgnum + suc m) pages) =
        ap₂ (λ (t k : ℕ). page_overlaps page_size t r (drop k pages)) (omega arith) (omega arith) in
      rw (drop_get_elem pages pgnum here, middle_pages_step m pgnum p pages here)
        (hit
          ∙ ap₂ (λ (b : ℕ) rest. record { page = p; bytes = b } ∷ rest) whole
              (next ∙ ap (◌++◌ (middle_pages page_size m (suc pgnum) pages)) ends))
