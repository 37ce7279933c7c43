-- ===== src/Vma/Pages.antt =====
-- Which pages get_pages_for_range returns, and with how many bytes each.
use native.Mathlib.Nat.{div-add-mod, add-mul-mod_self_right}
use exmap.Prelude.{
  ℕ, ◌+◌, ◌-◌, ◌*◌, ◌/◌, ◌%◌, ◌^◌, ◌≤◌, ◌<◌, ◌≡◌, ap, ◌∙◌, some, arith, length, sub_word,
}
use exmap.Range.{Range}
use exmap.Range.Basic.{IsWellFormed}
use exmap.Elf.Paging.{page_align_down, page_align_down_lem, IsPageSize, IsPageSize-pos}
use exmap.Vma.{Vma, addr_to_pgnum}

-- An area of whole pages, with an entry for each.
pub record IsPaged (page_size : ℕ) (vma : Vma) : Type 0 where
  pub power : IsPageSize page_size
  pub formed : IsWellFormed vma.range
  pub aligned : vma.range.start % page_size ≡ 0
  pub covered : vma.range.end ≤ vma.range.start + length vma.pages * page_size
  pub few : length vma.pages < 2 ^ 32

-- A range that is not empty and lies within the area.
abbrev pub IsWithin : Range → Vma → Type 0
IsWithin r vma = (vma.range.start ≤ r.start) × (r.start < r.end) × (r.end ≤ vma.range.end)

mod_add : (s d p : ℕ) → 0 < p → s % p ≡ 0 → (s + d) % p ≡ d % p
mod_add s d p h e =
    let regroup : s + d ≡ d + s / p * p = omega (arith, div-add-mod s p) in
    rw regroup (add-mul-mod_self_right d (s / p) p)

div_align : (d p : ℕ) → 0 < p → (d - d % p) / p ≡ d / p
div_align d p h = grind arith

div-lt : (d p n : ℕ) → 0 < p → d < n * p → d / p < n
div-lt d p n h l = grind arith

mod_le : (d p : ℕ) → d % p ≤ d
mod_le d p = omega arith

module _ (page_size : ℕ) (vma : Vma) (v : IsPaged page_size vma) where
  pub pgnum-lt-length :
      (addr : ℕ)
      → vma.range.start ≤ addr
      → addr < vma.range.end
      → (addr - vma.range.start) / page_size < length vma.pages
  pgnum-lt-length addr h l =
      div-lt (addr - vma.range.start) page_size (length vma.pages)
        (IsPageSize-pos page_size v.power) (omega (arith, v.covered))

  -- The page of an address is counted from the start of the area.
  pub align-sub_word :
      (addr : ℕ)
      → vma.range.start ≤ addr
      → addr < vma.range.end
      → (page_align_down page_size addr ≡ addr - (addr - vma.range.start) % page_size)
        × ((addr - vma.range.start) % page_size ≤ addr - vma.range.start)
  align-sub_word addr h l =
      let pos = IsPageSize-pos page_size v.power in
      let shift : vma.range.start + (addr - vma.range.start) ≡ addr = omega arith in
      let offset = mod_add vma.range.start (addr - vma.range.start) page_size pos v.aligned in
      (
        page_align_down_lem page_size addr v.power (omega (arith, v.formed))
            ∙ ap (λ (t : ℕ). addr - t) (rw shift at offset),
        mod_le _ page_size,
      )

  pub addr_to_pgnum_lem :
      (addr : ℕ)
      → vma.range.start ≤ addr
      → addr < vma.range.end
      → addr_to_pgnum page_size vma addr ≡ some ((addr - vma.range.start) / page_size)
  unfolding addr_to_pgnum
  addr_to_pgnum_lem addr h l =
      let a = align-sub_word addr h l in
      let d : ℕ = addr - vma.range.start in
      let pos = IsPageSize-pos page_size v.power in
      let word : sub_word (page_align_down page_size addr) vma.range.start ≡ d - d % page_size =
        rw (a.0) (omega (arith, a.1, v.formed)) in
      let fits = pgnum-lt-length addr h l in
      rw word (rw (div_align d page_size pos) (ground (arith, a, fits, v.few, v.formed)))
