-- ===== src/Examples/System.antt =====
-- Processes and snapshots.
use exmap.Prelude.{
  ℕ, ◌+◌, ◌≡◌, refl, true, false, List, [], ◌∷◌, Option, none, some, arith, if◌then◌else◌, ◌==◌,
}
use exmap.Std.OrderedMap.{assign}
use exmap.Page.Counts.{occurrences}
use exmap.Examples.Memory.{whole_double, shared_page, own_page, area}
use exmap.Range.{Range}
use exmap.Page.{Page, PagePool, increment_last, count}
use exmap.Vma.{Vma}
use exmap.Map.{MapPtr}
use exmap.Sizes.{Sizes}
use exmap.Outcome.{done}
use exmap.File.{File}
use exmap.System.{SysInfo}
use exmap.Process.{Process, new_process, find_vma_by_addr, short_cmdline}
use exmap.Process
use exmap.Process.Loading.{holds, load-Counts}
use exmap.Process.Totals.{sizes_of_range, file_sizes_of_range}
use exmap.Process.Safety.{sizes_of_range-Returns, file_sizes_of_range-Returns}
use exmap.Snapshot.{new_snapshot, load_procs, pids_of}
use exmap.Snapshot.Counting.{procs_hold, load_procs-Counted}

abbrev fresh_area : Vma
fresh_area = record area { pages = [] }

abbrev areas_of : ℕ → List Vma
areas_of pid = elim (pid == 13) [ true ↦ [] | false ↦ fresh_area ∷ [] ]

-- Two processes with one area each; the second has a stack whose guard page is left out. A third
-- has no areas, and the program itself is the fourth.
abbrev small_system : SysInfo
small_system = record {
  accessible_pids = 11 ∷ 12 ∷ 13 ∷ 14 ∷ [];
  is_sane = true;
  read_cmdline = λ pid. b'a' ∷ b' ' ∷ b'b' ∷ [];
  read_vmas = λ pid. (areas_of pid, true);
  read_page_info =
      λ pid. ((if pid == 11 then 0x1000 else 0, shared_page ∷ own_page ∷ []) ∷ [], true);
  own_pid = 14;
  page_size = 0x1000;
}

fresh_areas : (page : Page) (pid : ℕ) → holds page (small_system.read_vmas pid).0 ≡ 0
unfolding holds occurrences
fresh_areas page pid =
    elim (pid == 13) as (λ b. holds page (elim b [ true ↦ [] | false ↦ fresh_area ∷ [] ]) ≡ 0) [
      | true ↦ refl
      | false ↦ refl
    ]

stack_found : find_vma_by_addr 0x1000 (fresh_area ∷ []) 0 ≡ some 0
unfolding find_vma_by_addr
stack_found = refl

first_word : short_cmdline (b'a' ∷ b' ' ∷ b'b' ∷ []) ≡ b'a' ∷ []
unfolding short_cmdline
first_word = refl

kept_pids :
    pids_of (load_procs increment_last small_system small_system.accessible_pids (new_snapshot 0)).0
    ≡ 11 ∷ 12 ∷ []
unfolding pids_of load_procs new_snapshot assign
kept_pids = refl

load-Counts_example :
    count
      (Process.load increment_last small_system (new_process 11) (record { counts = λ c. 2 })).1
      shared_page
    ≡ 2
      + (if (Process.load increment_last small_system
            (new_process 11)
            (record { counts = λ c. 2 })).2
          then holds shared_page
              (Process.load increment_last small_system
                (new_process 11)
                (record { counts = λ c. 2 })).0.vmas
          else 0)
unfolding count
load-Counts_example =
    load-Counts small_system shared_page (new_process 11) (record { counts = λ c. 2 })
      (fresh_areas shared_page (new_process 11).pid)

load_procs-Counted_example :
    count
      (load_procs increment_last small_system (11 ∷ 12 ∷ 14 ∷ []) (new_snapshot 0)).0.page_pool
      shared_page
    ≡ procs_hold shared_page
        (load_procs increment_last small_system (11 ∷ 12 ∷ 14 ∷ []) (new_snapshot 0)).0.procs
load_procs-Counted_example =
    load_procs-Counted small_system shared_page (11 ∷ 12 ∷ 14 ∷ []) (new_snapshot 0)
      (fresh_areas shared_page) ((omega arith, (omega arith, tt)), ((omega arith, tt), (tt, tt)))

abbrev elf_ptr : MapPtr
elf_ptr = record {
  address = 5;
  object = record {
    vma = area;
    mem_range = area.range;
    elf_range = some (record { start = 0x100; end = 0x3100 });
  };
}

abbrev elf_proc : Process
elf_proc = record (new_process 11) { maps = elf_ptr ∷ [] }

abbrev elf_file : File
elf_file = record { name = b'a' ∷ []; maps = elf_ptr ∷ []; procs = 11 ∷ []; elf = none }

abbrev wanted : Range
wanted = record { start = 0x80; end = 0x900 }

abbrev ones : PagePool
ones = record { counts = λ c. 1 }

sizes_of_range-Returns_example :
    (s : Sizes whole_double) × (sizes_of_range 0x1000 whole_double ones elf_proc elf_file wanted
      ≡ done s)
sizes_of_range-Returns_example =
    sizes_of_range-Returns 0x1000 whole_double ones wanted (omega arith) elf_proc elf_file
      (omega arith, tt)

file_sizes_of_range-Returns_example :
    (s : Option (Sizes whole_double)) × (file_sizes_of_range 0x1000 whole_double ones
        (λ pid. elf_ptr ∷ [])
        elf_file
        wanted
      ≡ done s)
file_sizes_of_range-Returns_example =
    file_sizes_of_range-Returns 0x1000 whole_double ones wanted (omega arith) (λ pid. elf_ptr ∷ [])
      elf_file (omega arith, tt)
