-- ===== src/System.antt =====
-- src/Exmap.hpp: SysInfo, the interface to the system, by what its methods return. A snapshot is
-- loaded once, and asks the system once for each process, so that a method is a function of the
-- pid. What a method writes through its arguments is part of its result.
use exmap.Prelude.{ℕ, Bool, List}
use exmap.Std.Names.{Name}
use exmap.Page.{Page}
use exmap.Vma.{Vma}

-- `pid` is `getpid`, and `page_size` is `getpagesize`, of the system's library.
pub record SysInfo : Type 0 where
  pub accessible_pids : List ℕ
  pub is_sane : Bool
  pub read_cmdline : ℕ → Name
  pub read_vmas : ℕ → List Vma × Bool
  pub read_page_info : ℕ → List (ℕ × List Page) × Bool
  pub own_pid : ℕ
  pub page_size : ℕ
