-- ===== src/Snapshot/Counting.antt =====
-- load_procs: the page pool counts the pages of the processes that the snapshot keeps.
use exmap.Prelude.{
  ℕ, ◌+◌, ◌≡◌, ◌≢◌, refl, Bool, false, List, [], ◌∷◌, none, arith, ltb, ◌==◌, All, length,
  Bool-cases, inl, inr, if◌then◌else◌,
}
use exmap.Std.OrderedMap.{nat_key, find, assign, find-assign}
use exmap.Page.{Page, PagePool, increment_last, count}
use exmap.Page
use exmap.Vma.{Vma}
use exmap.System.{SysInfo}
use exmap.Process.{Process, new_process, has_mm}
use exmap.Process
use exmap.Process.Loading.{holds, load-Counts}
use exmap.Snapshot.{Snapshot, keep_proc, pids_loop, load_procs}

-- Each number once.
abbrev pub Distinct : List ℕ → Type 0
Distinct [] = Unit
Distinct (a ∷ l) = All (λ (b : ℕ). a ≢ b) l × Distinct l

-- How often the areas of the processes hold a page.
unfoldable pub procs_hold : Page → List (ℕ × Process) → ℕ
unfolding holds
procs_hold page [] = 0
procs_hold page ((pid, proc) ∷ procs) = holds page proc.vmas + procs_hold page procs

procs_hold-assign :
    (page : Page) (procs : List (ℕ × Process)) (pid : ℕ) (proc : Process)
    → find procs pid ≡ none
    → procs_hold page (assign procs pid proc) ≡ holds page proc.vmas + procs_hold page procs
unfolding procs_hold find assign
procs_hold-assign page [] pid proc e = refl
procs_hold-assign page ((other, p) ∷ procs) pid proc e =
    ground (arith, procs_hold-assign page procs pid proc)

no_vmas-holds : (page : Page) (vmas : List Vma) → ltb 0 (length vmas) ≡ false → holds page vmas ≡ 0
unfolding holds
no_vmas-holds page [] h = refl
no_vmas-holds page (vma ∷ vmas) h = ground arith

module _ (sys_info : SysInfo) (page : Page) where
  -- The counts of the pool are those of the processes.
  abbrev Counted : Snapshot → Type 0
  Counted s = count s.page_pool page ≡ procs_hold page s.procs

  keep_proc-Counted :
      (s : Snapshot) (pid : ℕ) (r : Process × PagePool × Bool)
      → find s.procs pid ≡ none
      → Counted s
      → count r.1 page ≡ count s.page_pool page + (if r.2 then holds page r.0.vmas else 0)
      → Counted (keep_proc s pid r)
  unfolding keep_proc has_mm
  keep_proc-Counted s pid (proc, pp, worked) absent h added =
      ground (arith, procs_hold-assign page s.procs pid proc absent, no_vmas-holds page proc.vmas)

  keep_proc-find :
      (s : Snapshot) (pid other : ℕ) (r : Process × PagePool × Bool)
      → pid ≢ other
      → find s.procs other ≡ none
      → find (keep_proc s pid r).procs other ≡ none
  unfolding keep_proc
  keep_proc-find s pid other (proc, pp, worked) ne absent =
      ground (arith, find-assign s.procs pid other proc)

  still_absent :
      (s : Snapshot) (pid : ℕ) (r : Process × PagePool × Bool) (pids : List ℕ)
      → All (λ (b : ℕ). pid ≢ b) pids
      → All (λ (b : ℕ). find s.procs b ≡ none) pids
      → All (λ (b : ℕ). find (keep_proc s pid r).procs b ≡ none) pids
  still_absent s pid r [] ne absent = ne
  still_absent s pid r (b ∷ pids) ne absent =
      (keep_proc-find s pid b r ne.0 absent.0, still_absent s pid r pids ne.1 absent.1)

  pids_loop-Counted :
      (pids : List ℕ) (s : Snapshot)
      → ((pid : ℕ) → holds page (sys_info.read_vmas pid).0 ≡ 0)
      → Distinct pids
      → All (λ (pid : ℕ). find s.procs pid ≡ none) pids
      → Counted s
      → Counted (pids_loop increment_last sys_info pids s)
  unfolding pids_loop
  pids_loop-Counted [] s fresh d absent h = h
  pids_loop-Counted (it ∷ pids) s fresh d absent h = elim (Bool-cases (it == sys_info.own_pid)) [
    | inl e ↦ rw (e, pids_loop) (pids_loop-Counted pids s fresh d.1 absent.1 h)
    | inr e ↦
        let r = Process.load increment_last sys_info (new_process it) s.page_pool in
        let added = load-Counts sys_info page (new_process it) s.page_pool (fresh it) in
        rw (e, pids_loop)
          (pids_loop-Counted pids (keep_proc s it r) fresh d.1
            (still_absent s it r pids d.0 absent.1) (keep_proc-Counted s it r absent.0 h added))
  ]

  none_found : (pids : List ℕ) → All (λ (pid : ℕ). find {V = Process} [] pid ≡ none) pids
  unfolding find
  none_found [] = tt
  none_found (pid ∷ pids) = (refl, none_found pids)

  -- Where the increment is the last write, the pids are distinct and the system gives areas
  -- without pages, after `load_procs` the page pool counts a page as often as the areas of the
  -- processes of the snapshot hold it, whatever was in the snapshot before and whichever
  -- processes fail to load.
  pub load_procs-Counted :
      (pids : List ℕ) (s : Snapshot)
      → ((pid : ℕ) → holds page (sys_info.read_vmas pid).0 ≡ 0)
      → Distinct pids
      → Counted (load_procs increment_last sys_info pids s).0
  unfolding load_procs Page.clear procs_hold count
  load_procs-Counted pids s fresh d =
      pids_loop-Counted pids (record s { procs = []; page_pool = Page.clear s.page_pool }) fresh d
        (none_found pids) refl
