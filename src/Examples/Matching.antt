-- ===== src/Examples/Matching.antt =====
-- The pages of a process and its areas.
use exmap.Prelude.{ℕ, ◌+◌, ◌≡◌, refl, true, false, List, [], ◌∷◌, arith}
use exmap.Page.{Page, PagePool, increment_last, count}
use exmap.Vma.{Vma}
use exmap.System.{SysInfo}
use exmap.Process.{Process, load_page_info}
use exmap.Process.Matched.{
  Area, IsRising, infos_of, vmas_of, filled_of, growth, load_page_info-areas,
}

abbrev page : ℕ → Page
page n = record { cookie = n; resident = true; writable = false }

abbrev area_at : ℕ → Vma
area_at start = record {
  range = record { start = start; end = start + 0x1000 };
  offset = 0;
  fname = [];
  pages = [];
}

-- Two areas of a page each, one behind the other.
abbrev two_areas : List Area
two_areas = (area_at 0x1000, page 3 ∷ []) ∷ (area_at 0x2000, page 4 ∷ []) ∷ []

abbrev two_system : SysInfo
two_system = record {
  accessible_pids = 11 ∷ [];
  is_sane = true;
  read_cmdline = λ pid. [];
  read_vmas = λ pid. (vmas_of two_areas, true);
  read_page_info = λ pid. (infos_of two_areas, true);
  own_pid = 14;
  page_size = 0x1000;
}

abbrev two_proc : Process
two_proc = record { pid = 11; cmdline = []; files = []; vmas = vmas_of two_areas; maps = [] }

two-IsRising : IsRising 0x1000 two_areas
unfolding IsRising
two-IsRising = (omega arith, (omega arith, tt), (omega arith, tt, tt))

load_page_info-areas_example :
    (pp' : PagePool) × (load_page_info increment_last two_system two_proc
        (record { counts = λ c. 0 })
      ≡ (record two_proc { vmas = filled_of two_areas }, pp', true))
    × ((p : Page)
        → count pp' p
          ≡ count (record { counts = λ c. 0 }) p + growth increment_last p.cookie two_areas)
load_page_info-areas_example =
    load_page_info-areas increment_last two_system two_proc (record { counts = λ c. 0 }) two_areas
      refl refl two-IsRising
