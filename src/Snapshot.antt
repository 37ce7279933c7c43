-- ===== src/Snapshot.antt =====
-- src/Exmap.cpp: Snapshot, the processes of the system with the pages and files they share.
pub mod Counting
use exmap.Prelude.{
  ℕ, Bool, true, false, not, List, [], ◌∷◌, Option, none, some, ◌==◌, ◌&&◌, if◌then◌else◌, length,
  map, ltb,
}
use exmap.Std.Names.{Name}
use exmap.Std.OrderedMap.{nat_key, find, assign, map_keys, map_values}
use exmap.Elf.File.{ElfFile}
use exmap.Page.{PagePool, WriteOrder}
use exmap.Page
use exmap.File.{File, FilePool, name_to_file}
use exmap.File
use exmap.Outcome.{Outcome, done, crash, ◌>>=◌}
use exmap.System.{SysInfo}
use exmap.Process.{Process, new_process, has_mm}
use exmap.Process
use exmap.Process.Mapping.{calculate_maps}

-- `next_address` is where the next map is allocated.
pub record Snapshot : Type 0 where
  pub page_pool : PagePool
  pub file_pool : FilePool
  pub procs : List (ℕ × Process)
  pub next_address : ℕ

-- The constructor.
unfoldable pub new_snapshot : ℕ → Snapshot
new_snapshot next_address = record {
  page_pool = record { counts = λ c. 0 };
  file_pool = [];
  procs = [];
  next_address = next_address;
}

unfoldable pub procs_of : Snapshot → List Process
unfolding map_values
procs_of s = map_values s.procs

unfoldable pub pids_of : Snapshot → List ℕ
unfolding map_keys
pids_of s = map_keys s.procs

unfoldable pub num_procs : Snapshot → ℕ
num_procs s = length s.procs

unfoldable pub proc : Snapshot → ℕ → Option Process
proc s pid = find s.procs pid

unfoldable pub files_of : Snapshot → List (Option File)
unfolding File.files
files_of s = File.files s.file_pool

-- A look-up writes the pool.
unfoldable pub file : Snapshot → Name → Snapshot × Option File
unfolding name_to_file
file s fname =
    let (pool, ptr) = name_to_file s.file_pool fname in (record s { file_pool = pool }, ptr)

-- What a round of load_procs does with a process after its load.
unfoldable pub keep_proc : Snapshot → ℕ → Process × PagePool × Bool → Snapshot
unfolding has_mm
keep_proc s pid (proc, pp, worked) =
    let counted = record s { page_pool = pp } in
    if worked && has_mm proc then record counted { procs = assign s.procs pid proc } else counted

module _ (order : WriteOrder) (sys_info : SysInfo) where
  -- The loop of load_procs, which leaves out the process of the program itself.
  unfoldable pub pids_loop : List ℕ → Snapshot → Snapshot
  unfolding keep_proc Process.load new_process
  pids_loop [] s = s
  pids_loop (it ∷ pids) s = elim (it == sys_info.own_pid) [
    | true ↦ pids_loop pids s
    | false ↦
        pids_loop pids (keep_proc s it (Process.load order sys_info (new_process it) s.page_pool))
  ]

  unfoldable pub load_procs : List ℕ → Snapshot → Snapshot × Bool
  unfolding pids_loop Page.clear
  load_procs pids s =
      let cleared = record s { procs = []; page_pool = Page.clear s.page_pool } in
      let s' = pids_loop pids cleared in (s', ltb 0 (length s'.procs))

-- What a call of load ends with: it exits where the system is not in a good state.
pub data Loaded : Type 0 where
  exited : Loaded
  returned : Snapshot → Bool → Loaded

module _ (open_elf : Name → Option ElfFile) where
  -- The loop of calculate_file_mappings. It goes on where a process fails.
  unfoldable pub mappings_loop :
      List (ℕ × Process) → FilePool → ℕ → Bool → Outcome (List (ℕ × Process) × FilePool × ℕ × Bool)
  unfolding calculate_maps
  mappings_loop [] pool next all_worked = done ([], pool, next, all_worked)
  mappings_loop ((pid, it) ∷ processes) pool next all_worked = do
    (it', pool', next', worked) ← calculate_maps open_elf it pool next
    (rest, last_pool, last, all) ← mappings_loop processes pool' next' (worked && all_worked)
    done ((pid, it') ∷ rest, last_pool, last, all)

  unfoldable pub calculate_file_mappings : Snapshot → Outcome (Snapshot × Bool)
  unfolding mappings_loop
  calculate_file_mappings s = do
    (procs, pool, next, all_worked) ← mappings_loop s.procs s.file_pool s.next_address true
    done (
      record s { procs = procs; file_pool = pool; next_address = next },
      all_worked && ltb 0 (length (File.files pool)),
    )

  module _ (order : WriteOrder) (sys_info : SysInfo) where
    -- What load does once it has the list of pids.
    unfoldable pub load_all : Snapshot → Outcome Loaded
    unfolding load_procs calculate_file_mappings
    load_all s =
        let (loaded, worked) = load_procs order sys_info sys_info.accessible_pids s in
        elim worked [
          | false ↦ done (returned loaded false)
          | true ↦ do
            (mapped, all_worked) ← calculate_file_mappings loaded
            done (returned mapped all_worked)
        ]

    unfoldable pub load : Snapshot → Outcome Loaded
    unfolding load_all
    load s =
        if not sys_info.is_sane
        then done exited
        else if length sys_info.accessible_pids == 0
        then done (returned s false)
        else load_all s
