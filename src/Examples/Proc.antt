-- ===== src/Examples/Proc.antt =====
-- /proc: the kernel module, and the reading of what it shows.
use exmap.Prelude.{
  ℕ, ◌+◌, ◌-◌, ◌/◌, ◌%◌, ◌^◌, ◌≤◌, ◌<◌, ◌≡◌, refl, Bool, true, false, List, [], ◌∷◌, ◌++◌, Option,
  none, some, arith, length, ◌==◌, if◌then◌else◌, joined,
}
use exmap.Std.Names.{Name}
use exmap.Std.Digits.{hexadecimal}
use exmap.Std.TextIn.{scan_digits}
use exmap.Page.{Page}
use exmap.Outcome.{Outcome, done, crash}
use exmap.Kernel.{PteMacros, VmaData, ExmapData, procfile_read}
use exmap.Kernel.Chunks.Whole.{IsReady, unread, procfile_read-unread}
use exmap.Kernel.Chunks.Repeated.{read_file, read_file-unread}
use exmap.Kernel.Setup.{Mm, PageTables, Task, Kernel, init_local_data, procfile_write}
use exmap.Linux.{LinuxSystem, read_page_info, parse_page_line}

-- An entry is a number: the bits for present and write, and the frame or the swap slot above.
abbrev bits : PteMacros ℕ
bits = record {
  present = λ n. n % 2;
  write = λ n. n / 2 % 2 == 1;
  pfn = λ n. n / 4 % 2 ^ 64;
  pfn_valid = λ n. true;
  swp_entry = λ n. n / 2 % 2 ^ 64;
}

-- One task, of the pid 7, with two pages; the walk finds the first.
abbrev tables : PageTables ℕ
tables = record {
  pgd_offset = λ a. some a;
  pud_offset = λ e a. some e;
  pmd_offset = λ e a. some e;
  pte_offset_map = λ e a. if a == 4096 then some 15 else none;
}

abbrev memory : Mm ℕ
memory = record { mmap = (record { vm_start = 4096; vm_end = 12288 }) ∷ []; tables = tables }

abbrev task : Task ℕ
task = record { is_current = false; mm = some memory }

abbrev kernel : Kernel ℕ
kernel = record {
  vmalloc = λ n. true;
  copies = true;
  find_task = λ pid. if pid == 7 then some task else none;
  simple_strtoul = λ text. (scan_digits 10 0 text).0;
  zero_pte = 0;
}

-- The same kernel, out of memory.
abbrev full : Kernel ℕ
full = record kernel { vmalloc = λ n. false }

abbrev pid_text : Name
pid_text = b'7' ∷ b'\n' ∷ []

abbrev areas : List (VmaData ℕ)
areas =
    (record {
      vm_start = 4096;
      start_shown = false;
      ptes = 15 ∷ 0 ∷ [];
      num_pages = 2;
      page_cursor = 0;
    })
    ∷ []

abbrev ready : ExmapData ℕ
ready = record { vma_data = some areas; num_vmas = 1; vma_cursor = 0 }

ready-IsReady : IsReady bits ready
ready-IsReady = record {
  areas = areas;
  there = refl;
  count = refl;
  inside = omega arith;
  filled = (record { pages = refl; inside = omega arith }, tt);
}

-- What the module shows of them.
shown :
    unread bits ready
    ≡ b'V' ∷ b'M' ∷ b'A' ∷ b' ' ∷ b'1' ∷ b'0' ∷ b'0' ∷ b'0' ∷ b' ' ∷ b'2' ∷ b'\n' ∷ b'1' ∷ b' '
      ∷ b'1' ∷ b' ' ∷ b'3' ∷ b'\n' ∷ b'0' ∷ b' ' ∷ b'0' ∷ b' ' ∷ b'0' ∷ b'\n' ∷ []
unfolding unread joined
shown = refl

procfile_read-unread_example :
    (out : Name) × (after : ExmapData ℕ) × (procfile_read bits ready 4096 ≡ done (some out, after))
    × IsReady bits after
    × (out ++ unread bits after ≡ unread bits ready)
    × (length out < 4096)
    × (200 ≤ 4096 → out ≡ [] → unread bits ready ≡ [])
procfile_read-unread_example = procfile_read-unread bits ready 4096 ready-IsReady (omega arith)

few_bytes : length (unread bits ready) < 30
unfolding unread joined
few_bytes = omega arith

read_file-unread_example : read_file bits 30 ready 4096 ≡ done (some (unread bits ready))
read_file-unread_example = read_file-unread bits 30 ready 4096 ready-IsReady (omega arith) few_bytes

-- A read after that goes past the end of the array.
past_the_end : procfile_read bits (record ready { num_vmas = 2 }) 4096 ≡ crash
unfolding procfile_read
past_the_end = refl

-- /proc/exmap as the module serves it.
abbrev served_content : Outcome (Bool × ExmapData ℕ) → Option Name
served_content (done (true, after)) = elim (read_file bits 1000 after 4096) [
  | done text ↦ text
  | crash ↦ none
]
served_content (done (false, after)) = none
served_content crash = none

abbrev accepts : Outcome (Bool × ExmapData ℕ) → Bool
accepts (done (worked, after)) = worked
accepts crash = false

abbrev system : LinuxSystem
system = record {
  proc = none;
  file_readable = λ name. false;
  file_exists = λ name. true;
  files = λ name. none;
  exmap_takes = λ text. accepts (procfile_write kernel init_local_data text);
  exmap_gives = λ text. served_content (procfile_write kernel init_local_data text);
}

-- What is read of the task, from the write to the last read: the page that is there is resident and
-- can be written; the other has no cookie.
pages_read :
    read_page_info system 7
    ≡ done (
      (
        4096,
        (record { cookie = 2 ^ 64 - 2 ^ 31 + 3; resident = true; writable = true })
            ∷ (record { cookie = 0; resident = false; writable = false })
            ∷ [],
      )
          ∷ [],
      true,
    )
unfolding read_page_info procfile_write read_file
pages_read = refl

-- Resident pages whose frame numbers agree in the low 31 bits have one cookie.
same_cookie :
    parse_page_line (b'1' ∷ b' ' ∷ b'0' ∷ b' ' ∷ hexadecimal 5)
    ≡ parse_page_line (b'1' ∷ b' ' ∷ b'0' ∷ b' ' ∷ hexadecimal (2 ^ 31 + 5))
unfolding parse_page_line hexadecimal
same_cookie = refl
