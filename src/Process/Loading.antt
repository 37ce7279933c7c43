-- ===== src/Process/Loading.antt =====
-- The loading of a process: the page pool counts the pages that its areas get.
use exmap.Prelude.{
  ℕ, ◌+◌, zero, suc, ◌≡◌, refl, List, [], ◌∷◌, ◌++◌, some, arith, length, Bool-cases, Option-cases,
  inl, inr, Bool, if◌then◌else◌,
}
use exmap.Page.{Page, PagePool, increment_last, count, inc_pages_count}
use exmap.Page.Counts.{occurrences, count-inc_pages_count}
use exmap.Vma.{Vma, add_pages, num_pages}
use exmap.System.{SysInfo}
use exmap.Process.{
  Process, find_vma_by_addr, add_pages_at, remove_ignorable, page_info_loop, load_page_info,
  load_pages, load, has_mm, remove_ignorable_if_nopages,
}

-- How often the areas of a list hold a page.
unfoldable pub holds : Page → List Vma → ℕ
holds page [] = 0
holds page (vma ∷ vmas) = occurrences page.cookie vma.pages + holds page vmas

pub occurrences-append :
    (c : ℕ) (xs ys : List Page) → occurrences c (xs ++ ys) ≡ occurrences c xs + occurrences c ys
unfolding occurrences
occurrences-append c [] ys = omega arith
occurrences-append c (x ∷ xs) ys = omega (arith, occurrences-append c xs ys)

holds-add_pages_at :
    (page : Page) (page_size start i : ℕ) (vmas : List Vma) (pages : List Page)
    → find_vma_by_addr page_size vmas start ≡ some i
    → holds page (add_pages_at vmas i pages) ≡ holds page vmas + occurrences page.cookie pages
unfolding find_vma_by_addr add_pages_at add_pages holds
holds-add_pages_at page page_size start i [] pages e = cc
holds-add_pages_at page page_size start zero (vma ∷ vmas) pages e =
    omega (arith, occurrences-append page.cookie vma.pages pages)
holds-add_pages_at page page_size start (suc i) (vma ∷ vmas) pages e =
    ground (arith, holds-add_pages_at page page_size start i vmas pages)

occurrences_none : (c : ℕ) (pages : List Page) → length pages ≡ 0 → occurrences c pages ≡ 0
unfolding occurrences
occurrences_none c [] e = refl
occurrences_none c (p ∷ pages) e = omega arith

-- Only an area without pages is removed.
holds-remove_ignorable :
    (page : Page) (vmas : List Vma) → holds page (remove_ignorable vmas) ≡ holds page vmas
unfolding remove_ignorable holds num_pages
holds-remove_ignorable page [] = refl
holds-remove_ignorable page (vma ∷ vmas) =
    ground (arith, holds-remove_ignorable page vmas, occurrences_none page.cookie vma.pages)

module _ (sys_info : SysInfo) (page : Page) where
  page_info_loop-holds :
      (page_info : List (ℕ × List Page)) (vmas : List Vma) (pp : PagePool)
      → count (page_info_loop increment_last sys_info page_info vmas pp).1 page + holds page vmas
        ≡ count pp page + holds page (page_info_loop increment_last sys_info page_info vmas pp).0
  unfolding page_info_loop
  page_info_loop-holds [] vmas pp = refl
  page_info_loop-holds ((start, pages) ∷ page_info) vmas pp =
      elim (Option-cases (find_vma_by_addr sys_info.page_size vmas start)) [
        | inl e ↦ rw (e, page_info_loop) (page_info_loop-holds page_info vmas pp)
        | inr (i, e) ↦
            rw (e, page_info_loop)
              (omega (
                arith,
                page_info_loop-holds page_info (add_pages_at vmas i pages)
                    (inc_pages_count increment_last pp pages),
                holds-add_pages_at page sys_info.page_size start i vmas pages e,
                count-inc_pages_count pp pages page,
              ))
      ]

  -- The pool after a call of load, by what it returns.
  abbrev Counts : PagePool → Process × PagePool × Bool → Type 0
  Counts pp r = count r.1 page ≡ count pp page + (if r.2 then holds page r.0.vmas else 0)

  load_pages-Counts :
      (proc : Process) (pp : PagePool)
      → holds page proc.vmas ≡ 0
      → Counts pp (load_pages increment_last sys_info proc pp)
  unfolding load_pages load_page_info has_mm remove_ignorable_if_nopages
  load_pages-Counts proc pp fresh = ground (
    arith,
    page_info_loop-holds (sys_info.read_page_info proc.pid).0 proc.vmas pp,
    holds-remove_ignorable page
        (page_info_loop increment_last sys_info (sys_info.read_page_info proc.pid).0 proc.vmas
          pp).0,
    fresh,
  )

  -- Where the increment is the last write and the system gives areas without pages, `load` adds
  -- to the count of a page how often the areas of the loaded process hold it, and nothing if it
  -- fails.
  pub load-Counts :
      (proc : Process) (pp : PagePool)
      → holds page (sys_info.read_vmas proc.pid).0 ≡ 0
      → Counts pp (load increment_last sys_info proc pp)
  unfolding load
  load-Counts proc pp fresh = elim (Bool-cases (sys_info.read_vmas proc.pid).1) [
    | inl e ↦ rw (e, load) (load_pages-Counts _ pp fresh)
    | inr e ↦ rw (e, load) (omega arith)
  ]
