-- ===== src/Process/Matched.antt =====
-- load_page_info gives each area its pages.
use exmap.Prelude.{
  ℕ, suc, ◌+◌, ◌^◌, ◌<◌, ◌≡◌, refl, ap, ◌∙◌, sym, true, List, [], ◌∷◌, ◌++◌, some, arith, length,
  map, All, All-append,
}
use mathlib.Core.List.{append_assoc}
use exmap.Page.{Page, PagePool, WriteOrder, increment_last, assignment_last, count, inc_pages_count}
use exmap.Page.Counts.{occurrences, count-inc_pages_count, count-inc_pages_count_assignment}
use exmap.Vma.{Vma, add_pages}
use exmap.System.{SysInfo}
use exmap.Process.{Process, find_vma_by_addr, add_pages_at, page_info_loop, load_page_info}

abbrev pub IsBelow : ℕ → List Vma → Type 0
IsBelow a vmas = All (λ (v : Vma). v.range.start < a) vmas

-- An area is passed that begins below the address.
find_step :
    (page_size a : ℕ) (v : Vma) (vmas : List Vma) (i : ℕ)
    → v.range.start < a
    → a + page_size < 2 ^ 64
    → find_vma_by_addr page_size vmas a ≡ some i
    → find_vma_by_addr page_size (v ∷ vmas) a ≡ some (suc i)
unfolding find_vma_by_addr
find_step page_size a v vmas i below near e = rw (e, find_vma_by_addr) (ground arith)

find_here :
    (page_size a : ℕ) (v : Vma) (vmas : List Vma)
    → v.range.start ≡ a
    → find_vma_by_addr page_size (v ∷ vmas) a ≡ some 0
unfolding find_vma_by_addr
find_here page_size a v vmas e = ground (arith, e)

-- The area that begins at an address, behind some that begin below, is found.
find_behind :
    (page_size a : ℕ) (front : List Vma) (v : Vma) (vmas : List Vma)
    → IsBelow a front
    → a + page_size < 2 ^ 64
    → v.range.start ≡ a
    → find_vma_by_addr page_size (front ++ (v ∷ vmas)) a ≡ some (length front)
find_behind page_size a [] v vmas below near e = find_here page_size a v vmas e
find_behind page_size a (f ∷ front) v vmas (under, below) near e =
    find_step page_size a f (front ++ (v ∷ vmas)) (length front) under near
      (find_behind page_size a front v vmas below near e)

add_behind :
    (front : List Vma) (v : Vma) (vmas : List Vma) (pages : List Page)
    → add_pages_at (front ++ (v ∷ vmas)) (length front) pages ≡ front ++ (add_pages v pages ∷ vmas)
unfolding add_pages_at
add_behind [] v vmas pages = refl
add_behind (f ∷ front) v vmas pages = ap (◌∷◌ f) (add_behind front v vmas pages)

-- An area and the pages that the system has at its address.
abbrev pub Area : Type 0
Area = Vma × List Page

-- The areas follow one another, and a page above the start of each there are still addresses.
unfoldable pub IsRising : ℕ → List Area → Type 0
IsRising page_size [] = Unit
IsRising page_size ((v, pages) ∷ areas) =
    (v.range.start + page_size < 2 ^ 64)
    × All (λ (next : Area). v.range.start < next.0.range.start) areas
    × IsRising page_size areas

abbrev pub vmas_of : List Area → List Vma
vmas_of areas = map (λ (a : Area). a.0) areas

abbrev pub infos_of : List Area → List (ℕ × List Page)
infos_of areas = map (λ (a : Area). (a.0.range.start, a.1)) areas

-- Each area with the pages behind those it had.
abbrev pub filled_of : List Area → List Vma
filled_of areas = map (λ (a : Area). record a.0 { pages = a.0.pages ++ a.1 }) areas

-- How often a cookie is among the pages of all the areas.
abbrev pub times_in : ℕ → List Area → ℕ
times_in cookie [] = 0
times_in cookie ((v, pages) ∷ areas) = occurrences cookie pages + times_in cookie areas

-- How much the count of a cookie grows: not at all, where the assignment is the last write.
abbrev pub growth : WriteOrder → ℕ → List Area → ℕ
growth increment_last cookie areas = times_in cookie areas
growth assignment_last cookie areas = 0

abbrev counted : WriteOrder → PagePool → List Area → PagePool
counted order pp [] = pp
counted order pp ((v, pages) ∷ areas) = counted order (inc_pages_count order pp pages) areas

count-counted :
    (order : WriteOrder) (pp : PagePool) (areas : List Area) (page : Page)
    → count (counted order pp areas) page ≡ count pp page + growth order page.cookie areas
count-counted increment_last pp [] page = omega arith
count-counted increment_last pp ((v, pages) ∷ areas) page = omega (
  arith,
  count-inc_pages_count pp pages page,
  count-counted increment_last (inc_pages_count increment_last pp pages) areas page,
)
count-counted assignment_last pp [] page = omega arith
count-counted assignment_last pp ((v, pages) ∷ areas) page = omega (
  arith,
  count-inc_pages_count_assignment pp pages page,
  count-counted assignment_last (inc_pages_count assignment_last pp pages) areas page,
)

IsBelow-next :
    (front : List Vma) (v : Vma) (pages : List Page) (areas : List Area)
    → All (λ (a : Area). IsBelow a.0.range.start front) areas
    → All (λ (next : Area). v.range.start < next.0.range.start) areas
    → All (λ (a : Area). IsBelow a.0.range.start (front ++ (add_pages v pages ∷ []))) areas
unfolding add_pages
IsBelow-next front v pages [] below above = tt
IsBelow-next front v pages (a ∷ areas) (under, below) (low, above) = (
  All-append (λ (w : Vma). w.range.start < a.0.range.start) front _ under (low, tt),
  IsBelow-next front v pages areas below above,
)

all-IsBelow : (areas : List Area) → All (λ (a : Area). IsBelow a.0.range.start []) areas
all-IsBelow [] = tt
all-IsBelow (a ∷ areas) = (tt, all-IsBelow areas)

module _ (order : WriteOrder) (sys_info : SysInfo) where
  loop_step :
      (vmas : List Vma) (pp : PagePool) (a i : ℕ) (pages : List Page) (infos : List (ℕ × List Page))
      → find_vma_by_addr sys_info.page_size vmas a ≡ some i
      → page_info_loop order sys_info ((a, pages) ∷ infos) vmas pp
        ≡ page_info_loop order sys_info infos
            (add_pages_at vmas i pages)
            (inc_pages_count order pp pages)
  unfolding page_info_loop
  loop_step vmas pp a i pages infos e = rw (e, page_info_loop) refl

  page_info_loop-areas :
      (front : List Vma) (areas : List Area) (pp : PagePool)
      → All (λ (a : Area). IsBelow a.0.range.start front) areas
      → IsRising sys_info.page_size areas
      → page_info_loop order sys_info (infos_of areas) (front ++ vmas_of areas) pp
        ≡ (front ++ filled_of areas, counted order pp areas)
  unfolding page_info_loop IsRising add_pages
  page_info_loop-areas front [] pp below rising = refl
  page_info_loop-areas front ((v, pages) ∷ areas) pp (under, below) (near, above, rising) =
      loop_step (front ++ (v ∷ vmas_of areas)) pp v.range.start (length front) pages
        (infos_of areas)
        (find_behind sys_info.page_size v.range.start front v (vmas_of areas) under near refl)
      ∙ ap
          (λ (vmas : List Vma).
            page_info_loop order sys_info (infos_of areas) vmas (inc_pages_count order pp pages))
          (add_behind front v (vmas_of areas) pages
            ∙ sym (append_assoc front (add_pages v pages ∷ []) (vmas_of areas)))
      ∙ page_info_loop-areas (front ++ (add_pages v pages ∷ [])) areas
          (inc_pages_count order pp pages) (IsBelow-next front v pages areas below above) rising
      ∙ ap (λ (vmas : List Vma). (vmas, counted order (inc_pages_count order pp pages) areas))
          (append_assoc front (add_pages v pages ∷ []) (filled_of areas))

  load_steps :
      (proc : Process) (pp pp' : PagePool) (page_info : List (ℕ × List Page)) (vmas : List Vma)
      → sys_info.read_page_info proc.pid ≡ (page_info, true)
      → page_info_loop order sys_info page_info proc.vmas pp ≡ (vmas, pp')
      → load_page_info order sys_info proc pp ≡ (record proc { vmas = vmas }, pp', true)
  unfolding load_page_info
  load_steps proc pp pp' page_info vmas e f = rw (e, f, load_page_info) refl

  -- The system has pages at the start of each area of the process and nowhere else, the areas rise
  -- by their starts, and a page above each start there are still addresses. Then load_page_info
  -- works: each area gets the pages at its start behind those it had, in spite of the slack of a page
  -- in the look-up, and nothing else of the process changes. Where the increment is the last write,
  -- the count of each page grows by the number of its occurrences among the pages of all the areas;
  -- where the assignment is the last, no count changes.
  pub load_page_info-areas :
      (proc : Process) (pp : PagePool) (areas : List Area)
      → sys_info.read_page_info proc.pid ≡ (infos_of areas, true)
      → proc.vmas ≡ vmas_of areas
      → IsRising sys_info.page_size areas
      → (pp' : PagePool) × (load_page_info order sys_info proc pp
          ≡ (record proc { vmas = filled_of areas }, pp', true))
        × ((page : Page) → count pp' page ≡ count pp page + growth order page.cookie areas)
  load_page_info-areas proc pp areas reads vmas rising = (
    counted order pp areas,
    load_steps proc pp (counted order pp areas) (infos_of areas) (filled_of areas) reads (
        ap (λ (v : List Vma). page_info_loop order sys_info (infos_of areas) v pp) vmas
        ∙ page_info_loop-areas [] areas pp (all-IsBelow areas) rising),
    count-counted order pp areas,
  )
