-- ===== src/Vma.antt =====
-- src/Exmap.cpp: Vma, one mapped area of a process, a line of /proc/<pid>/maps.
-- A Vma is written only while the process loads; its pages are then fixed, and it is modelled by
-- its value. `_selfptr`, which nothing reads, is left out.
pub mod Overlaps
pub mod Pages
pub mod Several
pub mod Covering
use exmap.Prelude.{
  ℕ, zero, suc, ◌+◌, ◌-◌, ◌/◌, ◌%◌, ◌^◌, Bool, true, false, not, ◌&&◌, List, [], ◌∷◌, ◌++◌, Option,
  none, some, ltb, leb, ◌==◌, if◌then◌else◌, sub_word, length, get_elem?,
}
use exmap.Std.Names.{Name, name_eq, byte_is}
use exmap.Range.{Range, size, contains_range}
use exmap.Elf.Paging.{page_align_down}
use exmap.Page.{Page}

-- `offset` is an off_t, kept as its bit pattern.
pub record Vma : Type 0 where
  pub range : Range
  pub offset : ℕ
  pub fname : Name
  pub pages : List Page

unfoldable pub vm_size : Vma → ℕ
unfolding size
vm_size vma = size vma.range

unfoldable pub num_pages : Vma → ℕ
num_pages vma = length vma.pages

unfoldable pub add_pages : Vma → List Page → Vma
add_pages vma pages = record vma { pages = vma.pages ++ pages }

abbrev pub vdso : Name
vdso = b'[' ∷ b'v' ∷ b'd' ∷ b's' ∷ b'o' ∷ b']' ∷ []

abbrev pub vsyscall : Name
vsyscall = b'[' ∷ b'v' ∷ b's' ∷ b'y' ∷ b's' ∷ b'c' ∷ b'a' ∷ b'l' ∷ b'l' ∷ b']' ∷ []

unfoldable pub is_ignorable : Vma → Bool
unfolding name_eq
is_ignorable vma = if name_eq vma.fname vdso then true else name_eq vma.fname vsyscall

unfoldable pub is_file_backed_name : Name → Bool
unfolding byte_is
is_file_backed_name fname =
    let pos = length fname in
    if pos == 0 then false else not (byte_is fname 0 b'[' && byte_is fname (pos - 1) b']')

unfoldable pub is_file_backed : Vma → Bool
unfolding is_file_backed_name
is_file_backed vma = is_file_backed_name vma.fname

-- A page with the number of its bytes that lie in a range.
pub record PartialPageInfo : Type 0 where
  pub page : Page
  pub bytes : ℕ

module _ (page_size : ℕ) where
  -- `pgnum` is an unsigned int of 32 bits.
  unfoldable pub addr_to_pgnum : Vma → ℕ → Option ℕ
  addr_to_pgnum vma addr =
      let a = page_align_down page_size addr in
      if ltb vma.range.end addr
      then none
      else if ltb a vma.range.start
      then none
      else some (sub_word a vma.range.start / page_size % 2 ^ 32)

  -- `for (pgnum = start_pgnum + 1; pgnum < end_pgnum; ++pgnum)`, on the count of rounds.
  unfoldable pub middle_pages : ℕ → ℕ → List Page → List PartialPageInfo
  middle_pages zero pgnum pages = []
  middle_pages (suc rounds) pgnum pages =
      let rest = middle_pages rounds (pgnum + 1) pages in
      elim (get_elem? pages pgnum) [
        | none ↦ rest
        | some page ↦ record { page = page; bytes = page_size } ∷ rest
      ]

  -- The pages when the range begins and ends in different ones: first, last, those between.
  unfoldable pub several_pages : Vma → Range → ℕ → ℕ → Page → Page → List PartialPageInfo
  unfolding middle_pages
  several_pages vma mrange start_pgnum end_pgnum first last =
      let first_bytes =
        sub_word page_size (sub_word mrange.start (page_align_down page_size mrange.start)) in
      let last_bytes = sub_word mrange.end (page_align_down page_size (sub_word mrange.end 1)) in
      let middle = middle_pages (end_pgnum - start_pgnum - 1) (start_pgnum + 1) vma.pages in
      record { page = first; bytes = first_bytes }
      ∷ (if ltb 0 last_bytes then record { page = last; bytes = last_bytes } ∷ middle else middle)

  unfoldable pub pages_between : Vma → Range → ℕ → ℕ → Option (List PartialPageInfo)
  unfolding several_pages
  pages_between vma mrange start_pgnum end_pgnum =
      if ltb end_pgnum start_pgnum then none else elim (get_elem? vma.pages start_pgnum) [
        | none ↦ none
        | some first ↦ elim (get_elem? vma.pages end_pgnum) [
          | none ↦ none
          | some last ↦
              if start_pgnum == end_pgnum
              then some (record { page = first; bytes = size mrange } ∷ [])
              else some (several_pages vma mrange start_pgnum end_pgnum first last)
        ]
      ]

  -- The result is `none` where the code returns false.
  unfoldable pub get_pages_for_range : Vma → Range → Option (List PartialPageInfo)
  unfolding pages_between addr_to_pgnum
  get_pages_for_range vma mrange =
      if leb (size mrange) 0
      then none
      else if not (contains_range vma.range mrange)
      then none
      else elim (addr_to_pgnum vma mrange.start) [
        | none ↦ none
        | some start_pgnum ↦ elim (addr_to_pgnum vma (sub_word mrange.end 1)) [
          | none ↦ none
          | some end_pgnum ↦ pages_between vma mrange start_pgnum end_pgnum
        ]
      ]
