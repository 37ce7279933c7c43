-- ===== src/Kernel/Setup.antt =====
-- kernel/exmap.c: what a write to /proc/exmap does. A page has 4096 bytes. The kernel's memory, page tables and tasks are
-- parameters.
use exmap.Prelude.{
  ℕ, zero, suc, ◌+◌, ◌-◌, ◌/◌, ◌%◌, ◌^◌, Bool, true, false, not, List, [], ◌∷◌, Option, none, some,
  ltb, leb, ◌==◌, ◌||◌, if◌then◌else◌, length,
}
use exmap.Std.Names.{Name}
use exmap.Outcome.{Outcome, done, crash, ◌>>=◌}
use exmap.Kernel.{VmaData, ExmapData}

-- The steps of a walk of the page tables, none where an entry is none or bad; with no pud, the
-- second step gives what it gets.
pub record PageTables (Pte : Type 0) : Type 0 where
  pub pgd_offset : ℕ → Option ℕ
  pub pud_offset : ℕ → ℕ → Option ℕ
  pub pmd_offset : ℕ → ℕ → Option ℕ
  pub pte_offset_map : ℕ → ℕ → Option Pte

-- struct vm_area_struct
pub record VmArea : Type 0 where
  pub vm_start : ℕ
  pub vm_end : ℕ

pub record Mm (Pte : Type 0) : Type 0 where
  pub mmap : List VmArea
  pub tables : PageTables Pte

-- A task, with its memory if it has any.
pub record Task (Pte : Type 0) : Type 0 where
  pub is_current : Bool
  pub mm : Option (Mm Pte)

-- Whether the n-th vmalloc of a setup gives memory, whether copy_from_user works, find_task_by_pid, simple_strtoul with the base
-- 0, and `__pte(0)`.
pub record Kernel (Pte : Type 0) : Type 0 where
  pub vmalloc : ℕ → Bool
  pub copies : Bool
  pub find_task : ℕ → Option (Task Pte)
  pub simple_strtoul : Name → ℕ
  pub zero_pte : Pte

module _ {Pte : Type 0} where
  abbrev pub init_local_data : ExmapData Pte
  init_local_data = record { vma_data = none; num_vmas = 0; vma_cursor = 0 }

  -- The arrays are freed, and whether there are any or none, the data is as at first.
  unfoldable pub clear_local_data : ExmapData Pte → ExmapData Pte
  clear_local_data local_data = init_local_data

  unfoldable pub walk_page_tables : PageTables Pte → ℕ → Option Pte
  walk_page_tables mm address = elim (mm.pgd_offset address) [
    | none ↦ none
    | some pgd ↦ elim (mm.pud_offset pgd address) [
      | none ↦ none
      | some pud ↦ elim (mm.pmd_offset pud address) [
        | none ↦ none
        | some pmd ↦ mm.pte_offset_map pmd address
      ]
    ]
  ]

  -- The loop of save_vma_page_info, on the number of pages left; `pageno`, an int, counts fewer than
  -- 2 ^ 31 of them.
  unfoldable pub save_pages : Kernel Pte → PageTables Pte → ℕ → ℕ → List Pte
  unfolding walk_page_tables
  save_pages kernel mm zero page_addr = []
  save_pages kernel mm (suc left) page_addr =
      elim (walk_page_tables mm page_addr) [ none ↦ kernel.zero_pte | some pte ↦ pte ]
      ∷ save_pages kernel mm left ((page_addr + 4096) % 2 ^ 64)

  unfoldable pub save_vma_page_info :
      Kernel Pte → PageTables Pte → VmArea → VmaData Pte → VmaData Pte
  unfolding save_pages
  save_vma_page_info kernel mm vma vma_data = record vma_data {
    ptes = save_pages kernel mm vma_data.num_pages vma.vm_start;
  }

  unfoldable pub store_vmalist_info :
      Kernel Pte → PageTables Pte → List VmArea → List (VmaData Pte) → List (VmaData Pte)
  unfolding save_vma_page_info
  store_vmalist_info kernel mm (vma ∷ vmas) (vma_data ∷ others) =
      save_vma_page_info kernel mm vma vma_data ∷ store_vmalist_info kernel mm vmas others
  store_vmalist_info kernel mm vmas others = others

  -- The loop that allocates space for the entries, from the n-th allocation on; the entries are
  -- not there yet. If it fails, the arrays of all the `num_vmas` areas are freed, and those that
  -- were not reached are no pointers.
  unfoldable pub alloc_areas :
      Kernel Pte → ℕ → ℕ → List VmArea → Outcome (Option (List (VmaData Pte)))
  alloc_areas kernel num_vmas n [] = done (some [])
  alloc_areas kernel num_vmas n (vma ∷ vmas) =
      let others = alloc_areas kernel num_vmas (suc n) vmas in
      if not (kernel.vmalloc n) then (if n == num_vmas then done none else crash) else (do
        rest ← others
        done (elim rest [
          | none ↦ none
          | some areas ↦ some (
              record {
                vm_start = vma.vm_start;
                start_shown = false;
                ptes = [];
                num_pages = (vma.vm_end + 2 ^ 64 - vma.vm_start) % 2 ^ 64 / 4096;
                page_cursor = 0;
              }
              ∷ areas)
        ]))

  -- Whether it worked, and the data. `num_vmas` is counted on from what it is.
  unfoldable pub alloc_vmalist_info :
      Kernel Pte → ExmapData Pte → List VmArea → Outcome (Bool × ExmapData Pte)
  unfolding clear_local_data alloc_areas
  alloc_vmalist_info kernel old vma_base =
      let local_data : ExmapData Pte = elim old.vma_data [
        | none ↦ old
        | some areas ↦ clear_local_data old
      ] in
      let num_vmas = local_data.num_vmas + length vma_base in
      if not (kernel.vmalloc 0)
      then done (false, record local_data { vma_data = none; num_vmas = num_vmas })
      else (do
        allocated ← alloc_areas kernel num_vmas 1 vma_base
        done (elim allocated [
          | none ↦ (false, clear_local_data local_data)
          | some areas ↦ (true, record local_data { vma_data = some areas; num_vmas = num_vmas })
        ]))

  -- The memory of a task other than the current one.
  unfoldable pub task_mm : Option (Task Pte) → Option (Mm Pte)
  task_mm none = none
  task_mm (some tsk) = if tsk.is_current then none else tsk.mm

  -- Once the memory is found: the areas are allocated and filled in.
  unfoldable pub fill_from_mm : Kernel Pte → ExmapData Pte → Mm Pte → Outcome (Bool × ExmapData Pte)
  unfolding alloc_vmalist_info store_vmalist_info
  fill_from_mm kernel local_data mm = do
    (worked, data') ← alloc_vmalist_info kernel local_data mm.mmap
    done (elim data'.vma_data [
      | none ↦ (false, data')
      | some areas ↦ (
        worked,
        record data' { vma_data = some (store_vmalist_info kernel mm.tables mm.mmap areas) },
      )
    ])

  unfoldable pub setup_from_pid : Kernel Pte → ExmapData Pte → ℕ → Outcome (Bool × ExmapData Pte)
  unfolding task_mm fill_from_mm
  setup_from_pid kernel local_data pid = elim (task_mm (kernel.find_task pid)) [
    | none ↦ done (false, local_data)
    | some mm ↦ fill_from_mm kernel local_data mm
  ]

  -- As a pid_t, an int given by its 32-bit pattern. Too long a text is -EINVAL, one that cannot
  -- be copied -EFAULT.
  unfoldable pub user_atoul : Kernel Pte → Name → ℕ
  user_atoul kernel ubuf =
      if ltb 15 (length ubuf)
      then 2 ^ 32 - 22
      else if not kernel.copies
      then 2 ^ 32 - 14
      else kernel.simple_strtoul ubuf % 2 ^ 32

  -- Whether the write is accepted, and the data.
  unfoldable pub procfile_write : Kernel Pte → ExmapData Pte → Name → Outcome (Bool × ExmapData Pte)
  unfolding user_atoul setup_from_pid
  procfile_write kernel local_data buffer =
      let pid = user_atoul kernel buffer in
      if pid == 0 || leb (2 ^ 31) pid
      then done (false, local_data)
      else setup_from_pid kernel local_data pid
