-- ===== src/Kernel/Walk.antt =====
-- What a write to /proc/exmap saves of an area: the entries that the page tables have for the pages
-- of it.
use exmap.Prelude.{
  ℕ, zero, suc, ◌+◌, ◌-◌, ◌*◌, ◌/◌, ◌%◌, ◌^◌, ◌≤◌, ◌<◌, ◌≡◌, ◌⊎◌, inl, inr, refl, ap, false, List,
  ◌∷◌, some, length, get_elem?, arith, All, Option-cases,
}
use exmap.Kernel.{VmaData}
use exmap.Kernel.Setup.{PageTables, VmArea, Mm, Kernel, walk_page_tables, save_pages}

-- The addresses are in order, and the loops count areas and pages of an area with an int.
pub record IsArea (vma : VmArea) : Type 0 where
  pub order : vma.vm_start ≤ vma.vm_end
  pub word : vma.vm_end < 2 ^ 64
  pub few_pages : (vma.vm_end - vma.vm_start) / 4096 < 2 ^ 31

pub record IsMapped {Pte : Type 0} (mm : Mm Pte) : Type 0 where
  pub areas : All IsArea mm.mmap
  pub few_areas : length mm.mmap < 2 ^ 31

-- The number of whole pages.
abbrev pub pages_in : VmArea → ℕ
pages_in vma = (vma.vm_end - vma.vm_start) / 4096

module _ {Pte : Type 0} where
  -- The tables lead from an address, step by step, to an entry.
  pub record Walks (tables : PageTables Pte) (address : ℕ) (pte : Pte) : Type 0 where
    pub pgd : ℕ
    pub pud : ℕ
    pub pmd : ℕ
    pub at_pgd : tables.pgd_offset address ≡ some pgd
    pub at_pud : tables.pud_offset pgd address ≡ some pud
    pub at_pmd : tables.pmd_offset pud address ≡ some pmd
    pub at_pte : tables.pte_offset_map pmd address ≡ some pte

  walk-Walks :
      (tables : PageTables Pte) (address : ℕ) (pte : Pte)
      → walk_page_tables tables address ≡ some pte
      → Walks tables address pte
  unfolding walk_page_tables
  walk-Walks tables address pte e = elim (Option-cases (tables.pgd_offset address)) [
    | inl a ↦ cc (rw (a, walk_page_tables) at e)
    | inr (pgd, a) ↦ elim (Option-cases (tables.pud_offset pgd address)) [
      | inl b ↦ cc (rw (a, b, walk_page_tables) at e)
      | inr (pud, b) ↦ elim (Option-cases (tables.pmd_offset pud address)) [
        | inl c ↦ cc (rw (a, b, c, walk_page_tables) at e)
        | inr (pmd, c) ↦ record {
          pgd = pgd;
          pud = pud;
          pmd = pmd;
          at_pgd = a;
          at_pud = b;
          at_pmd = c;
          at_pte = rw (a, b, c, walk_page_tables) at e;
        }
      ]
    ]
  ]

  Walks-walk :
      (tables : PageTables Pte) (address : ℕ) (pte : Pte)
      → Walks tables address pte
      → walk_page_tables tables address ≡ some pte
  unfolding walk_page_tables
  Walks-walk tables address pte w =
      rw (w.at_pgd, w.at_pud, w.at_pmd, w.at_pte, walk_page_tables) refl

  module _ (kernel : Kernel Pte) (tables : PageTables Pte) where
    -- The entry of the page at an address: the one that the tables lead to, or the zero entry where
    -- they lead to none.
    abbrev pub HasEntry : ℕ → Pte → Type 0
    HasEntry address pte =
        Walks tables address pte
        ⊎ ((pte ≡ kernel.zero_pte) × ((other : Pte) → Walks tables address other → ⊥))

    -- An area of a process as it is saved, nothing shown of it yet.
    pub record IsSaved (vma : VmArea) (v : VmaData Pte) : Type 0 where
      pub start : v.vm_start ≡ vma.vm_start
      pub new : v.start_shown ≡ false
      pub first : v.page_cursor ≡ 0
      pub num : v.num_pages ≡ pages_in vma
      pub count : length v.ptes ≡ pages_in vma
      pub entries :
          (i : ℕ)
          → i < pages_in vma
          → (pte : Pte) × (get_elem? v.ptes i ≡ some pte) × HasEntry (vma.vm_start + i * 4096) pte

    pub length-save_pages : (left addr : ℕ) → length (save_pages kernel tables left addr) ≡ left
    unfolding save_pages
    length-save_pages zero addr = refl
    length-save_pages (suc left) addr = ap suc (length-save_pages left ((addr + 4096) % 2 ^ 64))

    entry_here :
        (left addr : ℕ)
        → (pte : Pte) × (save_pages kernel tables (suc left) addr
            ≡ pte ∷ save_pages kernel tables left ((addr + 4096) % 2 ^ 64))
          × HasEntry addr pte
    unfolding save_pages
    entry_here left addr = elim (Option-cases (walk_page_tables tables addr)) [
      | inl e ↦ (
        kernel.zero_pte,
        rw (e, save_pages) refl,
        inr (refl, λ other w. cc (Walks-walk tables addr other w, e)),
      )
      | inr (pte, e) ↦ (pte, rw (e, save_pages) refl, inl (walk-Walks tables addr pte e))
    ]

    entry_later :
        (left addr i : ℕ) (pte : Pte)
        → addr + 4096 < 2 ^ 64
        → get_elem? (save_pages kernel tables left (addr + 4096)) i ≡ some pte
        → get_elem? (save_pages kernel tables (suc left) addr) (suc i) ≡ some pte
    entry_later left addr i pte near there =
        let (first, e, skipped) = entry_here left addr in
        let next : (addr + 4096) % 2 ^ 64 ≡ addr + 4096 = omega arith in rw (e, next) there

    pub save_pages-HasEntry :
        (left addr i : ℕ)
        → i < left
        → addr + i * 4096 < 2 ^ 64
        → (pte : Pte) × (get_elem? (save_pages kernel tables left addr) i ≡ some pte)
          × HasEntry (addr + i * 4096) pte
    save_pages-HasEntry zero addr i h near = elim h [ ]
    save_pages-HasEntry (suc left) addr zero h near =
        let (pte, e, entry) = entry_here left addr in
        let same : addr + 0 * 4096 ≡ addr = omega arith in
        (pte, ap (λ (ptes : List Pte). get_elem? ptes 0) e, rw same entry)
    save_pages-HasEntry (suc left) addr (suc i) h near =
        let (pte, there, entry) =
          save_pages-HasEntry left (addr + 4096) i (omega arith) (omega arith) in
        let same : addr + suc i * 4096 ≡ addr + 4096 + i * 4096 = omega arith in
        (pte, entry_later left addr i pte (omega arith) there, rw same entry)
