-- ===== src/Map.antt =====
-- src/Exmap.cpp: Map, a range of memory with one meaning within an area, and the sizes of a range
-- of a map or of a list of maps. A map is never written again, and is modelled by its value.
pub mod Exact
pub mod Sizing
pub mod Sums
pub mod Pointers
use exmap.Prelude.{
  ℕ, ◌+◌, ◌%◌, ◌^◌, Bool, true, false, not, List, [], ◌∷◌, ◌++◌, Option, none, some, ltb, ◌==◌,
  if◌then◌else◌, sub_word,
}
use exmap.Std.Sort.{sort}
use exmap.Double.{Double}
use exmap.Range.{Range, size, contains_range, intersect, add}
use exmap.Page.{Page, PagePool, count, is_mapped, is_resident, is_writable}
use exmap.Vma.{Vma, PartialPageInfo, get_pages_for_range}
use exmap.Sizes.{
  Measure, effective_resident, effective_mapped, writable, vm, sole_mapped, mapped, resident, Sizes,
  zero_sizes, val, increase, add_sizes,
}

pub record Map : Type 0 where
  pub vma : Vma
  pub mem_range : Range
  pub elf_range : Option Range

-- A MapPtr: the address, which tells two maps apart and orders them, and the map there.
pub record MapPtr : Type 0 where
  pub address : ℕ
  pub object : Map

-- `_mem_range->start() - _elf_range->start()`, where `own` is the map's `_elf_range`, not null.
unfoldable pub elf_to_mem_offset : Map → Range → ℕ
elf_to_mem_offset m own = sub_word m.mem_range.start own.start

unfoldable pub elf_to_mem_range : Map → Range → Range → Option Range
unfolding elf_to_mem_offset
elf_to_mem_range m own elf_range =
    if not (contains_range own elf_range)
    then none
    else some (add elf_range (elf_to_mem_offset m own))

module _ (d : Double) where
  -- What a mapped page adds, after the total: `bytes` is an int.
  unfoldable pub add_resident : Sizes d → Page → ℕ → ℕ → Sizes d
  add_resident sizes page count bytes =
      if not (is_resident page)
      then sizes
      else let counted =
          increase d (increase d sizes resident (d.of_int bytes)) effective_resident
            (d.div (d.of_int bytes) (d.of_int count)) in
        if is_writable page then increase d counted writable (d.of_int bytes) else counted

  unfoldable pub add_mapped : Sizes d → Page → ℕ → ℕ → Sizes d
  unfolding add_resident
  add_mapped sizes page count bytes =
      if not (is_mapped page)
      then sizes
      else let shared =
          increase d (increase d sizes mapped (d.of_int bytes)) effective_mapped
            (d.div (d.of_int bytes) (d.of_int count)) in
        let sole =
          (if count == 1 then increase d shared sole_mapped (d.of_int bytes) else shared) in
        add_resident sole page count bytes

  -- One round of the loop over the pages; `int bytes` takes the low 32 bits.
  unfoldable pub add_page : PagePool → Sizes d → PartialPageInfo → Sizes d
  unfolding add_mapped
  add_page pp sizes it =
      let n = count pp it.page in
      let bytes = it.bytes % 2 ^ 32 in
      if n == 0 then sizes else add_mapped (increase d sizes vm (d.of_int bytes)) it.page n bytes

  unfoldable pub add_all_pages : PagePool → Sizes d → List PartialPageInfo → Sizes d
  unfolding add_page
  add_all_pages pp sizes [] = sizes
  add_all_pages pp sizes (it ∷ info) = add_all_pages pp (add_page pp sizes it) info

module _ (page_size : ℕ) (d : Double) where
  -- The result is `none` where the code returns null. The intersection is not null, as the range
  -- is contained.
  unfoldable pub sizes_for_subrange : PagePool → Map → Range → Option (Sizes d)
  unfolding add_all_pages
  sizes_for_subrange pp m subrange =
      if size subrange == 0
      then some (zero_sizes d)
      else elim (get_pages_for_range page_size m.vma subrange) [
        | none ↦ none
        | some ppi_info ↦
            let sizes = add_all_pages d pp (zero_sizes d) ppi_info in
            if not (d.eq (val d sizes vm) (d.of_word (size subrange))) then none else some sizes
      ]

  unfoldable pub sizes_for_mem_range : PagePool → Map → Range → Option (Sizes d)
  unfolding sizes_for_subrange
  sizes_for_mem_range pp m mrange =
      if not (contains_range m.mem_range mrange)
      then none
      else elim (intersect m.mem_range mrange) [
        | none ↦ none
        | some subrange ↦ sizes_for_subrange pp m subrange
      ]

  -- The loop of sum_sizes, from the sizes so far.
  unfoldable pub sum_sizes_from : PagePool → Sizes d → List Map → Sizes d
  unfolding sizes_for_mem_range
  sum_sizes_from pp sizes [] = sizes
  sum_sizes_from pp sizes (m ∷ maps) =
      sum_sizes_from pp
        (elim (sizes_for_mem_range pp m m.mem_range) [
          | none ↦ sizes
          | some subsizes ↦ add_sizes d sizes subsizes
        ])
        maps

  unfoldable pub sum_sizes : PagePool → List Map → Sizes d
  unfolding sum_sizes_from
  sum_sizes pp maps = sum_sizes_from pp (zero_sizes d) maps
