-- ===== src/Process.antt =====
-- src/Exmap.cpp: Process, and the loading of its areas and pages. The page pool is shared, and is
-- passed along. A pointer to an area of the process is its place in the list.
pub mod Loading
pub mod Matched
pub mod Mapping
pub mod Totals
pub mod Safety
use exmap.Prelude.{
  ℕ, zero, suc, Bool, true, false, List, [], ◌∷◌, ◌++◌, Option, none, some, ◌==◌, ◌||◌, ◌&&◌,
  if◌then◌else◌, length, ltb, add_word,
}
use exmap.Std.Names.{Name}
use exmap.Page.{Page, PagePool, WriteOrder, inc_pages_count}
use exmap.Vma.{Vma, add_pages, is_ignorable, num_pages}
use exmap.Map.{MapPtr}
use exmap.System.{SysInfo}

-- A file is pointed to by its name.
pub record Process : Type 0 where
  pub pid : ℕ
  pub cmdline : Name
  pub vmas : List Vma
  pub maps : List MapPtr
  pub files : List Name

-- The constructor.
unfoldable pub new_process : ℕ → Process
new_process pid = record { pid = pid; cmdline = []; vmas = []; maps = []; files = [] }

unfoldable pub has_mm : Process → Bool
has_mm proc = ltb 0 (length proc.vmas)

abbrev pub nocmdline : Name
nocmdline = b'[' ∷ b'n' ∷ b'o' ∷ b'c' ∷ b'm' ∷ b'd' ∷ b'l' ∷ b'i' ∷ b'n' ∷ b'e' ∷ b']' ∷ []

-- `erase` from the first space on.
unfoldable pub until_space : Name → Name
until_space [] = []
until_space (b ∷ name) = let rest = until_space name in if b == b' ' then [] else b ∷ rest

unfoldable pub short_cmdline : Name → Name
unfolding until_space
short_cmdline [] = until_space nocmdline
short_cmdline (b ∷ name) = until_space (b ∷ name)

-- The first area that begins at the address, or a page above it, as newer kernels leave out the
-- guard page of a stack.
unfoldable pub find_vma_by_addr : ℕ → List Vma → ℕ → Option ℕ
find_vma_by_addr page_size [] start = none
find_vma_by_addr page_size (it ∷ vmas) start =
    let rest = find_vma_by_addr page_size vmas start in
    if it.range.start == start || it.range.start == add_word start page_size
    then some 0
    else elim rest [ none ↦ none | some i ↦ some (suc i) ]

-- `vma->add_pages`, for the area at a place.
unfoldable pub add_pages_at : List Vma → ℕ → List Page → List Vma
unfolding add_pages
add_pages_at [] i pages = []
add_pages_at (vma ∷ vmas) zero pages = add_pages vma pages ∷ vmas
add_pages_at (vma ∷ vmas) (suc i) pages = vma ∷ add_pages_at vmas i pages

-- The first area of the kernel's that has no pages is erased.
unfoldable pub remove_ignorable : List Vma → List Vma
unfolding is_ignorable num_pages
remove_ignorable [] = []
remove_ignorable (it ∷ vmas) =
    let rest = remove_ignorable vmas in
    if is_ignorable it && num_pages it == 0 then vmas else it ∷ rest

unfoldable pub remove_ignorable_if_nopages : Process → Process
unfolding remove_ignorable
remove_ignorable_if_nopages proc = record proc { vmas = remove_ignorable proc.vmas }

module _ (order : WriteOrder) (sys_info : SysInfo) where
  -- The loop of load_page_info; `page_info` is in the order of its addresses.
  unfoldable pub page_info_loop : List (ℕ × List Page) → List Vma → PagePool → List Vma × PagePool
  unfolding find_vma_by_addr add_pages_at inc_pages_count
  page_info_loop [] vmas pp = (vmas, pp)
  page_info_loop ((start_address, pages) ∷ page_info) vmas pp =
      elim (find_vma_by_addr sys_info.page_size vmas start_address) [
        | none ↦ page_info_loop page_info vmas pp
        | some vma ↦
            page_info_loop page_info (add_pages_at vmas vma pages) (inc_pages_count order pp pages)
      ]

  unfoldable pub load_page_info : Process → PagePool → Process × PagePool × Bool
  unfolding page_info_loop
  load_page_info proc pp =
      let (page_info, worked) = sys_info.read_page_info proc.pid in
      let (vmas, pp') = page_info_loop page_info proc.vmas pp in
      if worked then (record proc { vmas = vmas }, pp', true) else (proc, pp, false)

  -- What load does once it has the areas.
  unfoldable pub load_pages : Process → PagePool → Process × PagePool × Bool
  unfolding has_mm load_page_info remove_ignorable_if_nopages
  load_pages proc pp =
      let (loaded, pp', worked) = load_page_info proc pp in
      if has_mm proc
      then if worked then (remove_ignorable_if_nopages loaded, pp', true) else (loaded, pp', false)
      else (proc, pp, true)

  unfoldable pub load : Process → PagePool → Process × PagePool × Bool
  unfolding load_pages short_cmdline
  load proc pp =
      let (vmas, worked) = sys_info.read_vmas proc.pid in
      let named = record proc {
        cmdline = short_cmdline (sys_info.read_cmdline proc.pid);
        vmas = vmas;
      } in
      if worked then load_pages named pp else (named, pp, false)
