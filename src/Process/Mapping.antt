-- ===== src/Process/Mapping.antt =====
-- src/Exmap.cpp: Process::calculate_maps.
use exmap.Prelude.{ℕ, Bool, List, Option, none, some, ◌&&◌, ltb, length}
use exmap.Std.Names.{Name}
use exmap.Elf.File.{ElfFile}
use exmap.Outcome.{Outcome, done, ◌>>=◌}
use exmap.File.{FilePool}
use exmap.Map.{MapPtr}
use exmap.Calculator.{new_calc}
use exmap.Calculator.Run.{calc_maps}
use exmap.Process.{Process}

-- The maps of the process are assigned where the calculation gets as far.
unfoldable pub assign_maps : Process → List Name → Option (List MapPtr) → Process
assign_maps proc files none = record proc { files = files }
assign_maps proc files (some maps) = record proc { files = files; maps = maps }

module _ (open_elf : Name → Option ElfFile) where
  -- The process, the file pool, the address of the next map, and whether it worked.
  unfoldable pub calculate_maps : Process → FilePool → ℕ → Outcome (Process × FilePool × ℕ × Bool)
  unfolding assign_maps new_calc calc_maps
  calculate_maps proc file_pool next_address = do
    (c, maps, worked) ←
        calc_maps open_elf (new_calc proc.vmas file_pool proc.pid proc.files next_address)
    let proc' = assign_maps proc c.proc_files maps
    done (proc', c.file_pool, c.next_address, worked && ltb 0 (length proc'.maps))
