-- ===== src/Kernel.antt =====
-- kernel/exmap.c: the kernel module behind /proc/exmap. A write of a pid saves the areas and the
-- page table entries of that process, which reads then show, one buffer at a time. What the kernel
-- itself does with a page table entry is a parameter.
pub mod Setup
pub mod Reading
pub mod Chunks
pub mod Walk
pub mod Written
pub mod Saving
pub mod Stale
use exmap.Prelude.{
  ℕ, zero, suc, ◌+◌, ◌-◌, Bool, true, false, not, ◌&&◌, List, [], ◌∷◌, ◌++◌, Option, none, some,
  ltb, leb, ◌==◌, if◌then◌else◌, length, drop, take,
}
use exmap.Std.Names.{Name}
use exmap.Std.Digits.{decimal, hexadecimal}
use exmap.Outcome.{Outcome, done, crash, ◌>>=◌}

-- pte_present, an int of at least zero, which is zero where the page is not there, pte_write, pte_pfn, pfn_valid and the
-- value of pte_to_swp_entry.
pub record PteMacros (Pte : Type 0) : Type 0 where
  pub present : Pte → ℕ
  pub write : Pte → Bool
  pub pfn : Pte → ℕ
  pub pfn_valid : ℕ → Bool
  pub swp_entry : Pte → ℕ

-- struct exmap_vma_data: `ptes` is an array of `num_pages` entries.
pub record VmaData (Pte : Type 0) : Type 0 where
  pub vm_start : ℕ
  pub start_shown : Bool
  pub ptes : List Pte
  pub num_pages : ℕ
  pub page_cursor : ℕ

-- struct exmap_data: no array is the null pointer.
pub record ExmapData (Pte : Type 0) : Type 0 where
  pub vma_data : Option (List (VmaData Pte))
  pub num_vmas : ℕ
  pub vma_cursor : ℕ

-- snprintf into the buffer that is left: a line that does not fit with its null byte is dropped.
unfoldable pub fitted : Name → ℕ → Name
fitted line buflen = if leb buflen (length line) then [] else line

module _ {Pte : Type 0} (macros : PteMacros Pte) where
  -- The frame number of a page that is there, or its swap entry.
  unfoldable pub cookie : Pte → ℕ
  cookie pte =
      let pfn = macros.pfn pte in
      if macros.present pte == 0
      then macros.swp_entry pte
      else if macros.pfn_valid pfn
      then pfn
      else 0

  -- "%d %d %lx\n"
  unfoldable pub page_line : Pte → Name
  unfolding decimal hexadecimal cookie
  page_line pte =
      decimal (macros.present pte)
      ++ (b' '
          ∷ (decimal (if macros.write pte then 1 else 0)
              ++ (b' ' ∷ (hexadecimal (cookie pte) ++ (b'\n' ∷ [])))))

  -- "VMA %lx %lu\n"
  unfoldable pub vma_line : VmaData Pte → Name
  unfolding decimal hexadecimal
  vma_line vma_data =
      b'V'
      ∷ b'M'
      ∷ b'A'
      ∷ b' '
      ∷ (hexadecimal vma_data.vm_start ++ (b' ' ∷ (decimal vma_data.num_pages ++ (b'\n' ∷ []))))

  unfoldable pub show_one_page : Pte → ℕ → Name
  unfolding page_line fitted
  show_one_page pte buflen = fitted (page_line pte) buflen

  unfoldable pub show_vma_start : VmaData Pte → ℕ → Name
  unfolding vma_line fitted
  show_vma_start vma_data buflen = fitted (vma_line vma_data) buflen

  -- The inner loop, over the entries from the page cursor on: the lines, how many, and whether all
  -- were shown. `left` is the number of pages still to show: past the entries, memory of others is
  -- read.
  unfoldable pub show_pages : ℕ → List Pte → ℕ → Outcome (Name × ℕ × Bool)
  unfolding show_one_page
  show_pages zero ptes buflen = done ([], 0, true)
  show_pages (suc left) [] buflen = crash
  show_pages (suc left) (pte ∷ ptes) buflen =
      let line = show_one_page pte buflen in
      let others = show_pages left ptes (buflen - length line) in
      if length line == 0
      then done ([], 0, false)
      else (do (out, shown, all) ← others; done (line ++ out, suc shown, all))

  -- The body of the outer loop: what is shown of an area, and whether its end was reached.
  unfoldable pub show_area : VmaData Pte → ℕ → Outcome (Name × VmaData Pte × Bool)
  unfolding show_vma_start show_pages
  show_area vma_data buflen =
      let start = if vma_data.start_shown then [] else show_vma_start vma_data buflen in
      if not vma_data.start_shown && length start == 0 then done ([], vma_data, false) else (do
        (out, shown, all) ←
            show_pages (vma_data.num_pages - vma_data.page_cursor)
              (drop vma_data.page_cursor vma_data.ptes) (buflen - length start)
        done (
          start ++ out,
          record vma_data { start_shown = true; page_cursor = vma_data.page_cursor + shown },
          all,
        ))

  -- The outer loop, over the areas from the cursor on: the text, the areas as they are afterwards,
  -- and how many ended. `left` is the number of areas still to show.
  unfoldable pub show_areas : ℕ → List (VmaData Pte) → ℕ → Outcome (Name × List (VmaData Pte) × ℕ)
  unfolding show_area
  show_areas zero areas buflen = done ([], areas, 0)
  show_areas (suc left) [] buflen = crash
  show_areas (suc left) (vma_data ∷ areas) buflen = do
    (out, shown, all) ← show_area vma_data buflen
    (if not all then done (out, shown ∷ areas, 0) else (do
      (more, others, ended) ← show_areas left areas (buflen - length out)
      done (out ++ more, shown ∷ others, suc ended)))

  -- What a read stores, with the cursors moved on. `length` is the length of the buffer.
  unfoldable pub exmap_show_next :
      List (VmaData Pte) → ExmapData Pte → ℕ → Outcome (Name × ExmapData Pte)
  unfolding show_areas
  exmap_show_next vma_data local_data buflen =
      let cursor = local_data.vma_cursor in
      do
        (out, areas, ended) ←
            show_areas (local_data.num_vmas - cursor) (drop cursor vma_data) buflen
        done (
          out,
          record local_data {
            vma_data = some (take cursor vma_data ++ areas);
            vma_cursor = cursor + ended;
          },
        )

  -- An error, -EINVAL, is `none`.
  unfoldable pub procfile_read : ExmapData Pte → ℕ → Outcome (Option Name × ExmapData Pte)
  unfolding exmap_show_next
  procfile_read local_data buffer_length = elim local_data.vma_data [
    | none ↦ done (none, local_data)
    | some vma_data ↦ do
      (out, shown) ← exmap_show_next vma_data local_data buffer_length
      done (some out, shown)
  ]
