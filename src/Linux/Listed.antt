-- ===== src/Linux/Listed.antt =====
-- What read_page_info is to give of a process, said of the page tables of that process.
use Prim.Native.Nat.{bit_or}
use exmap.Prelude.{
  ℕ, ◌+◌, ◌-◌, ◌*◌, ◌%◌, ◌^◌, ◌<◌, ◌≡◌, ◌⊎◌, inl, inr, refl, ap, ◌∙◌, true, false, List, [], ◌∷◌,
  some, ltb, length, map, get_elem?, get_elem?-map, length-map, arith, All, Each,
}
use exmap.Std.OrderedMap.{assign, nat_key}
use exmap.Page.{Page}
use exmap.Kernel.{PteMacros, VmaData, cookie}
use exmap.Kernel.Setup.{PageTables, VmArea, Kernel}
use exmap.Kernel.Walk.{IsArea, pages_in, HasEntry, IsSaved}
use exmap.Linux.{resident_bits}
use exmap.Linux.PageLine.{FitsPte, page_of}
use exmap.Linux.PageInfo.{FitsArea, pages_by_start}
use exmap.Linux.Whole.{IsUnread}

-- Pages at addresses, entered one after another, so that of two at one address the later counts.
abbrev pub entered : List (ℕ × List Page) → List (ℕ × List Page) → List (ℕ × List Page)
entered m [] = m
entered m ((start, pages) ∷ listed) = entered (assign m start pages) listed

module _ {Pte : Type 0} (macros : PteMacros Pte) where
  -- pte_present gives an int, and the others an unsigned long.
  pub record AreNumbers : Type 0 where
    pub present : (pte : Pte) → macros.present pte < 2 ^ 31
    pub pfn : (pte : Pte) → macros.pfn pte < 2 ^ 64
    pub swp_entry : (pte : Pte) → macros.swp_entry pte < 2 ^ 64

  -- The swap entry of a page that is not there, and the frame number of one that is, or zero if that
  -- is not valid.
  abbrev pub IsFrame : Pte → ℕ → Type 0
  IsFrame pte frame =
      ((macros.present pte ≡ 0) × (frame ≡ macros.swp_entry pte))
      ⊎ (((0 < macros.present pte)
            × (macros.pfn_valid (macros.pfn pte) ≡ true)
            × (frame ≡ macros.pfn pte))
          ⊎ ((0 < macros.present pte) × (macros.pfn_valid (macros.pfn pte) ≡ false) × (frame ≡ 0)))

  -- A page that stands for an entry. Where pte_present gives an odd number, the cookie has the bits
  -- from 31 on set as well.
  pub record StandsFor (pte : Pte) (page : Page) : Type 0 where
    pub resident : page.resident ≡ ltb 0 (macros.present pte)
    pub writable : page.writable ≡ macros.write pte
    pub frame : ℕ
    pub is_frame : IsFrame pte frame
    pub cookie :
        ((macros.present pte % 2 ≡ 0) × (page.cookie ≡ bit_or frame 0))
        ⊎ ((macros.present pte % 2 ≡ 1) × (page.cookie ≡ bit_or frame (2 ^ 64 - 2 ^ 31)))

  cookie-IsFrame : (pte : Pte) → IsFrame pte (cookie macros pte)
  unfolding cookie
  cookie-IsFrame pte = ground arith

  resident_bits-cases :
      (n : ℕ)
      → ((n % 2 ≡ 0) × (resident_bits n ≡ 0)) ⊎ ((n % 2 ≡ 1) × (resident_bits n ≡ 2 ^ 64 - 2 ^ 31))
  unfolding resident_bits
  resident_bits-cases n = ground arith

  page_of-StandsFor : (pte : Pte) → StandsFor pte (page_of macros pte)
  unfolding page_of
  page_of-StandsFor pte = record {
    resident = ground arith;
    writable = refl;
    frame = cookie macros pte;
    is_frame = cookie-IsFrame pte;
    cookie = elim (resident_bits-cases (macros.present pte)) [
      | inl (even, none_set) ↦ inl (even, ap (bit_or (cookie macros pte)) none_set)
      | inr (odd, set) ↦ inr (odd, ap (bit_or (cookie macros pte)) set)
    ];
  }

  fits_pte : AreNumbers → (pte : Pte) → FitsPte macros pte
  unfolding cookie
  fits_pte numbers pte = record {
    present = numbers.present pte;
    cookie = ground (arith, numbers.pfn pte, numbers.swp_entry pte);
  }

  fits_ptes : AreNumbers → (ptes : List Pte) → All (FitsPte macros) ptes
  fits_ptes numbers [] = tt
  fits_ptes numbers (pte ∷ ptes) = (fits_pte numbers pte, fits_ptes numbers ptes)

  -- The pages that are given for an area, and its start.
  abbrev pub listing : VmaData Pte → ℕ × List Page
  listing v = (v.vm_start, map (page_of macros) v.ptes)

  pub pages_by_start-entered :
      (areas : List (VmaData Pte)) (m : List (ℕ × List Page))
      → pages_by_start macros areas m ≡ entered m (map listing areas)
  unfolding pages_by_start
  pages_by_start-entered [] m = refl
  pages_by_start-entered (v ∷ areas) m =
      pages_by_start-entered areas (assign m v.vm_start (map (page_of macros) v.ptes))

  module _ (kernel : Kernel Pte) (tables : PageTables Pte) where
    -- A start and pages that list an area of the process: a page for each of the area, in order, that
    -- stands for the entry at the address of that page.
    pub record Lists (vma : VmArea) (listed : ℕ × List Page) : Type 0 where
      pub start : listed.0 ≡ vma.vm_start
      pub count : length listed.1 ≡ pages_in vma
      pub pages :
          (i : ℕ)
          → i < pages_in vma
          → (page : Page) × (pte : Pte) × (get_elem? listed.1 i ≡ some page)
            × HasEntry kernel tables (vma.vm_start + i * 4096) pte
            × StandsFor pte page

    listing-Lists :
        (vma : VmArea) (v : VmaData Pte) → IsSaved kernel tables vma v → Lists vma (listing v)
    listing-Lists vma v saved = record {
      start = saved.start;
      count = length-map (page_of macros) v.ptes ∙ saved.count;
      pages = λ i h.
          let (pte, there, entry) = saved.entries i h in
          (
            page_of macros pte,
            pte,
            get_elem?-map (page_of macros) v.ptes i there,
            entry,
            page_of-StandsFor pte,
          );
    }

    pub Lists-Each :
        (vmas : List VmArea) (areas : List (VmaData Pte))
        → Each (IsSaved kernel tables) vmas areas
        → Each Lists vmas (map listing areas)
    Lists-Each [] [] saved = tt
    Lists-Each [] (v ∷ areas) saved = elim saved [ ]
    Lists-Each (vma ∷ vmas) [] saved = elim saved [ ]
    Lists-Each (vma ∷ vmas) (v ∷ areas) (first, saved) =
        (listing-Lists vma v first, Lists-Each vmas areas saved)

    pub saved-IsUnread :
        (vmas : List VmArea) (areas : List (VmaData Pte))
        → Each (IsSaved kernel tables) vmas areas
        → All (IsUnread macros) areas
    saved-IsUnread [] [] saved = tt
    saved-IsUnread [] (v ∷ areas) saved = elim saved [ ]
    saved-IsUnread (vma ∷ vmas) [] saved = elim saved [ ]
    saved-IsUnread (vma ∷ vmas) (v ∷ areas) (first, saved) =
        ((first.new, first.first), saved-IsUnread vmas areas saved)

    pub saved-FitsArea :
        (vmas : List VmArea) (areas : List (VmaData Pte))
        → AreNumbers
        → All IsArea vmas
        → Each (IsSaved kernel tables) vmas areas
        → All (FitsArea macros) areas
    saved-FitsArea [] [] numbers mapped saved = tt
    saved-FitsArea [] (v ∷ areas) numbers mapped saved = elim saved [ ]
    saved-FitsArea (vma ∷ vmas) [] numbers mapped saved = elim saved [ ]
    saved-FitsArea (vma ∷ vmas) (v ∷ areas) numbers (area, mapped) (first, saved) = (
      record {
        start = omega (arith, first.start, area.order, area.word);
        ptes = fits_ptes numbers v.ptes;
      },
      saved-FitsArea vmas areas numbers mapped saved,
    )
