-- ===== src/Linux/Served.antt =====
-- read_page_info together with the kernel module: a write of the pid to /proc/exmap, the reads of it,
-- and the parsing of what they give.
use exmap.Prelude.{ℕ, ◌+◌, ◌≡◌, true, List, [], ◌∷◌, some}
use exmap.Std.Names.{Name}
use exmap.Outcome.{done}
use exmap.Page.{Page}
use exmap.Kernel.{PteMacros, ExmapData}
use exmap.Kernel.Chunks.Repeated.{read_file}
use exmap.Kernel.Setup.{VmArea, Kernel, procfile_write}
use exmap.Kernel.Walk.{pages_in}
use exmap.Linux.{LinuxSystem}

-- One line for each area, and one for each page.
abbrev pub lines_of : List VmArea → ℕ
lines_of [] = 0
lines_of (vma ∷ vmas) = 1 + pages_in vma + lines_of vmas

module _ {Pte : Type 0} (macros : PteMacros Pte) (kernel : Kernel Pte) where
  -- /proc/exmap of the system is served by the kernel module: a write that is accepted succeeds,
  -- and the file has what the reads after it give, with some buffer, in fewer reads than `fuel`.
  pub record IsServed (system : LinuxSystem) (old : ExmapData Pte) (fuel buflen : ℕ) (text : Name)
      : Type 0 where
    pub takes :
        (after : ExmapData Pte)
        → procfile_write kernel old text ≡ done (true, after)
        → system.exmap_takes text ≡ true
    pub gives :
        (after : ExmapData Pte) (content : Name)
        → procfile_write kernel old text ≡ done (true, after)
        → read_file macros fuel after buflen ≡ done (some content)
        → system.exmap_gives text ≡ some content
