-- ===== src/Kernel/Written.antt =====
-- The steps of a write to /proc/exmap that sets up a process for reading.
use exmap.Prelude.{
  ℕ, suc, ◌+◌, ◌-◌, ◌/◌, ◌%◌, ◌^◌, ◌<◌, ◌≡◌, refl, ap, ◌∙◌, sym, true, false, List, [], ◌∷◌, none,
  some, leb, ◌==◌, ◌||◌, length, map, arith, All, Option-cases, inl, inr,
}
use exmap.Std.Names.{Name}
use exmap.Outcome.{done}
use exmap.Kernel.{PteMacros, VmaData, ExmapData}
use exmap.Kernel.Chunks.{IsFilled}
use exmap.Kernel.Walk.{length-save_pages}
use exmap.Kernel.Setup.{
  PageTables, VmArea, Mm, Task, Kernel, init_local_data, clear_local_data, save_pages,
  save_vma_page_info, store_vmalist_info, alloc_areas, alloc_vmalist_info, task_mm, fill_from_mm,
  setup_from_pid, user_atoul, procfile_write,
}

module _ {Pte : Type 0} (kernel : Kernel Pte) where
  -- An area with its page table entries, nothing shown of it yet.
  unfoldable pub saved_area : PageTables Pte → VmArea → VmaData Pte
  unfolding save_pages
  saved_area tables vma =
      let pages = (vma.vm_end + 2 ^ 64 - vma.vm_start) % 2 ^ 64 / 4096 in
      record {
        vm_start = vma.vm_start;
        start_shown = false;
        ptes = save_pages kernel tables pages vma.vm_start;
        num_pages = pages;
        page_cursor = 0;
      }

  -- Before the entries are saved.
  abbrev new_area : VmArea → VmaData Pte
  new_area vma = record {
    vm_start = vma.vm_start;
    start_shown = false;
    ptes = [];
    num_pages = (vma.vm_end + 2 ^ 64 - vma.vm_start) % 2 ^ 64 / 4096;
    page_cursor = 0;
  }

  alloc_areas-map :
      (num_vmas n : ℕ) (vmas : List VmArea)
      → ((i : ℕ) → kernel.vmalloc i ≡ true)
      → alloc_areas kernel num_vmas n vmas ≡ done (some (map new_area vmas))
  unfolding alloc_areas
  alloc_areas-map num_vmas n [] works = refl
  alloc_areas-map num_vmas n (vma ∷ vmas) works =
      rw (works n, alloc_areas-map num_vmas (suc n) vmas works, alloc_areas) refl

  store_vmalist_info-map :
      (tables : PageTables Pte) (vmas : List VmArea)
      → store_vmalist_info kernel tables vmas (map new_area vmas) ≡ map (saved_area tables) vmas
  unfolding store_vmalist_info save_vma_page_info saved_area
  store_vmalist_info-map tables [] = refl
  store_vmalist_info-map tables (vma ∷ vmas) =
      ap (◌∷◌ (saved_area tables vma)) (store_vmalist_info-map tables vmas)

  pub length-saved :
      (tables : PageTables Pte) (vmas : List VmArea)
      → length (map (saved_area tables) vmas) ≡ length vmas
  length-saved tables [] = refl
  length-saved tables (vma ∷ vmas) = ap suc (length-saved tables vmas)

  pub saved-IsFilled :
      (macros : PteMacros Pte) (tables : PageTables Pte) (vmas : List VmArea)
      → All (IsFilled macros) (map (saved_area tables) vmas)
  unfolding saved_area
  saved-IsFilled macros tables [] = tt
  saved-IsFilled macros tables (vma ∷ vmas) = (
    record { pages = sym (length-save_pages kernel tables _ vma.vm_start); inside = omega arith },
    saved-IsFilled macros tables vmas,
  )

  -- The data behind a write that worked.
  abbrev pub saved : ExmapData Pte → Mm Pte → ExmapData Pte
  saved old mm = record {
    vma_data = some (map (saved_area mm.tables) mm.mmap);
    num_vmas = old.num_vmas + length mm.mmap;
    vma_cursor = old.vma_cursor;
  }

  -- Whether old data is freed first.
  abbrev pub freed : ExmapData Pte → ExmapData Pte
  freed old = elim old.vma_data [ none ↦ old | some areas ↦ init_local_data ]

  pub allocated :
      (old : ExmapData Pte) (vmas : List VmArea)
      → ((i : ℕ) → kernel.vmalloc i ≡ true)
      → alloc_vmalist_info kernel old vmas
        ≡ done (
          true,
          record {
            vma_data = some (map new_area vmas);
            num_vmas = (freed old).num_vmas + length vmas;
            vma_cursor = (freed old).vma_cursor;
          },
        )
  unfolding alloc_vmalist_info clear_local_data
  allocated old vmas works =
      rw (works 0, alloc_areas-map ((freed old).num_vmas + length vmas) 1 vmas works) refl

  pub fill_from_mm-saved :
      (old : ExmapData Pte) (mm : Mm Pte)
      → ((i : ℕ) → kernel.vmalloc i ≡ true)
      → fill_from_mm kernel old mm ≡ done (true, saved (freed old) mm)
  unfolding fill_from_mm
  fill_from_mm-saved old mm works =
      rw (allocated old mm.mmap works, store_vmalist_info-map mm.tables mm.mmap, fill_from_mm) refl

  is_pid : (pid : ℕ) → 0 < pid → pid < 2 ^ 31 → (pid == 0 || leb (2 ^ 31) pid) ≡ false
  is_pid pid pos small = ground arith

  pub accepted :
      (old : ExmapData Pte) (buffer : Name)
      → 0 < user_atoul kernel buffer
      → user_atoul kernel buffer < 2 ^ 31
      → procfile_write kernel old buffer ≡ setup_from_pid kernel old (user_atoul kernel buffer)
  unfolding procfile_write
  accepted old buffer pos small =
      rw (is_pid (user_atoul kernel buffer) pos small, procfile_write) refl

  pub procfile_write_steps :
      (old : ExmapData Pte) (buffer : Name) (tsk : Task Pte) (mm : Mm Pte)
      → 0 < user_atoul kernel buffer
      → user_atoul kernel buffer < 2 ^ 31
      → kernel.find_task (user_atoul kernel buffer) ≡ some tsk
      → tsk.is_current ≡ false
      → tsk.mm ≡ some mm
      → procfile_write kernel old buffer ≡ fill_from_mm kernel old mm
  unfolding setup_from_pid task_mm
  procfile_write_steps old buffer tsk mm pos small found other has =
      accepted old buffer pos small ∙ rw (found, other, has, setup_from_pid) refl

  -- While there is no array, no area is counted. It holds from `init_local_data` on, as long as no
  -- allocation of the array fails.
  abbrev pub IsConsistent : ExmapData Pte → Type 0
  IsConsistent old = old.vma_data ≡ none → (old.num_vmas ≡ 0) × (old.vma_cursor ≡ 0)

  pub freed-init :
      (old : ExmapData Pte)
      → IsConsistent old
      → ((freed old).num_vmas ≡ 0) × ((freed old).vma_cursor ≡ 0)
  freed-init old consistent = elim (Option-cases old.vma_data) [
    | inl e ↦ rw e (consistent e)
    | inr (areas, e) ↦ rw e (refl, refl)
  ]
