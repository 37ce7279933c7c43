-- ===== src/Calculator.antt =====
-- src/Exmap.cpp: MapCalculator, which turns the areas of a process into maps. This file has its
-- state, with what it shares: the file pool, the set of files of the process, and the addresses
-- that the next maps are allocated at. Every operation may write these, and returns them, with
-- the code's bool; the warnings are left out.
pub mod Walk
pub mod Grouping
pub mod Steps
pub mod Inside
pub mod Soundness
pub mod Segments
pub mod Holes
pub mod Sanity
pub mod Coverage
pub mod Shift
pub mod Checked
pub mod Accepted
pub mod Run
pub mod Filled
pub mod Complete
use exmap.Prelude.{ℕ, ◌+◌, Bool, true, false, List, [], ◌∷◌, ◌++◌, Option, none, some}
use exmap.Std.Names.{Name}
use exmap.Range.{Range}
use exmap.Elf.File.{ElfFile}
use exmap.Map.{MapPtr}
use exmap.Vma.{Vma}
use exmap.Outcome.{Outcome, done, crash, ◌>>=◌}
use exmap.File.{File, FilePool, add_map, update_file, get_or_make_file}

-- `_proc` is a pid; `proc_files` is the set `_files` of that process.
pub record Calc : Type 0 where
  pub vmas : List Vma
  pub pid : ℕ
  pub file_pool : FilePool
  pub proc_files : List Name
  pub maps : List MapPtr
  pub fname_to_vmas : List (Name × List Vma)
  pub next_address : ℕ

-- The constructor.
unfoldable pub new_calc : List Vma → FilePool → ℕ → List Name → ℕ → Calc
new_calc vmas file_pool pid proc_files next_address = record {
  vmas = vmas;
  pid = pid;
  file_pool = file_pool;
  proc_files = proc_files;
  maps = [];
  fname_to_vmas = [];
  next_address = next_address;
}

abbrev pub new_map : Calc → Vma → Range → Option Range → MapPtr
new_map c vma mem_range elf_range = record {
  address = c.next_address;
  object = record { vma = vma; mem_range = mem_range; elf_range = elf_range };
}

-- `MapPtr map(new Map(...)); _maps.push_back(map); file->add_map(map);`, for the file of a name.
unfoldable pub push_map : Calc → Name → Vma → Range → Option Range → Outcome Calc
push_map c fname vma mem_range elf_range =
    let m = new_map c vma mem_range elf_range in
    do
      pool ← update_file c.file_pool fname (λ f. add_map f m)
      done (record c {
        maps = c.maps ++ m ∷ [];
        file_pool = pool;
        next_address = c.next_address + 1;
      })
