-- ===== src/Process/Totals.antt =====
-- src/Exmap.cpp: the sizes of a process and of a file, over all their maps or over a range of the
-- ELF file.
use exmap.Prelude.{ℕ, List, [], ◌∷◌, Option, none, some, map}
use exmap.Double.{Double}
use exmap.Range.{Range, intersect}
use exmap.Page.{PagePool}
use exmap.Sizes.{Sizes, zero_sizes, add_sizes}
use exmap.Map.{Map, MapPtr, sizes_for_mem_range, sum_sizes, elf_to_mem_range}
use exmap.Map.Pointers.{intersect_lists}
use exmap.Outcome.{Outcome, done, ◌>>=◌, deref}
use exmap.File.{File}
use exmap.Process.{Process}

abbrev pub object_of : MapPtr → Map
object_of m = m.object

unfoldable pub restrict_maps_to_file : Process → File → List MapPtr
unfolding intersect_lists
restrict_maps_to_file proc file = intersect_lists file.maps proc.maps

module _ (page_size : ℕ) (d : Double) (pp : PagePool) where
  -- Process::sizes()
  unfoldable pub sizes : Process → Sizes d
  unfolding sum_sizes
  sizes proc = sum_sizes page_size d pp (map object_of proc.maps)

  -- Process::sizes(file)
  unfoldable pub sizes_of_file : Process → File → Sizes d
  unfolding sum_sizes restrict_maps_to_file
  sizes_of_file proc file =
      sum_sizes page_size d pp (map object_of (restrict_maps_to_file proc file))

  -- `sizes->add(subsizes)`, if the sizes are not null.
  unfoldable pub add_if : Sizes d → Option (Sizes d) → Sizes d
  unfolding add_sizes
  add_if totals none = totals
  add_if totals (some subsizes) = add_sizes d totals subsizes

  -- What follows the intersection: the part of the memory may be null, and is dereferenced.
  unfoldable pub add_subrange : Sizes d → Map → Range → Range → Outcome (Sizes d)
  unfolding elf_to_mem_range sizes_for_mem_range add_if
  add_subrange totals m own subrange = do
    mem_range ← deref (elf_to_mem_range m own subrange)
    done (add_if totals (sizes_for_mem_range page_size d pp m mem_range))

  -- The rounds of the two loops differ in the order in which they intersect.
  unfoldable pub proc_round : Range → Sizes d → Map → Outcome (Sizes d)
  unfolding add_subrange intersect
  proc_round elf_range totals m = elim m.elf_range [
    | none ↦ done totals
    | some own ↦ elim (intersect elf_range own) [
      | none ↦ done totals
      | some subrange ↦ add_subrange totals m own subrange
    ]
  ]

  unfoldable pub file_round : Range → Sizes d → Map → Outcome (Sizes d)
  unfolding add_subrange intersect
  file_round elf_range totals m = elim m.elf_range [
    | none ↦ done totals
    | some own ↦ elim (intersect own elf_range) [
      | none ↦ done totals
      | some subrange ↦ add_subrange totals m own subrange
    ]
  ]

  -- A loop over maps, by its round.
  unfoldable pub rounds :
      (Sizes d → Map → Outcome (Sizes d)) → List MapPtr → Sizes d → Outcome (Sizes d)
  rounds round [] totals = done totals
  rounds round (it ∷ maps) totals = do next ← round totals it.object; rounds round maps next

  -- Process::sizes(file, elf_range)
  unfoldable pub sizes_of_range : Process → File → Range → Outcome (Sizes d)
  unfolding rounds proc_round restrict_maps_to_file
  sizes_of_range proc file elf_range =
      rounds (proc_round elf_range) (restrict_maps_to_file proc file) (zero_sizes d)

  -- File::sizes(), which takes the page pool of the first process.
  unfoldable pub file_sizes : File → Option (Sizes d)
  unfolding sum_sizes
  file_sizes file = elim file.procs [
    | [] ↦ none
    | pid ∷ pids ↦ some (sum_sizes page_size d pp (map object_of file.maps))
  ]

  module _ (proc_maps : ℕ → List MapPtr) where
    -- The loop over the processes of a file; `proc_maps` gives the maps of a process by its pid.
    unfoldable pub procs_loop : File → Range → List ℕ → Sizes d → Outcome (Option (Sizes d))
    unfolding rounds file_round intersect_lists
    procs_loop file elf_range [] totals = done (some totals)
    procs_loop file elf_range (pid ∷ pids) totals =
        elim (intersect_lists (proc_maps pid) file.maps) [
          | [] ↦ done none
          | m ∷ maps ↦ do
            next ← rounds (file_round elf_range) (m ∷ maps) totals
            procs_loop file elf_range pids next
        ]

    -- File::sizes(elf_range)
    unfoldable pub file_sizes_of_range : File → Range → Outcome (Option (Sizes d))
    unfolding procs_loop
    file_sizes_of_range file elf_range = elim file.procs [
      | [] ↦ done none
      | pid ∷ pids ↦ procs_loop file elf_range (pid ∷ pids) (zero_sizes d)
    ]
