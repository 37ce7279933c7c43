-- ===== src/Linux.antt =====
-- src/Exmap.cpp: LinuxSysInfo, which reads /proc. Its file system is a parameter. A variable that
-- operator>> leaves unwritten is read all the same, and an exception of `substr` is not caught: both
-- are a crash.
pub mod PageLine
pub mod PageInfo
pub mod Maps
pub mod MapsFile
pub mod Whole
pub mod Listed
pub mod Served
use Prim.Native.Nat.{bit_or}
use exmap.Prelude.{
  ℕ, ◌+◌, ◌-◌, ◌%◌, ◌^◌, Bool, true, false, not, List, [], ◌∷◌, ◌++◌, Option, none, some, ltb, ◌==◌,
  if◌then◌else◌, length, take, drop,
}
use exmap.Std.Names.{Name, name_eq}
use exmap.Std.OrderedMap.{find, assign, nat_key}
use exmap.Std.Digits.{decimal}
use exmap.Std.TextIn.{
  TextIn, text_in, starts_digit, scan_digits, extract, extract_word, to_signed, to_unsigned,
}
use exmap.Outcome.{Outcome, done, crash, ◌>>=◌, deref}
use exmap.Range.{Range}
use exmap.Page.{Page}
use exmap.Vma.{Vma}
use exmap.TextFile.{read_textfile}

-- What read_directory gives for /proc, file_readable and file_exists, the files that can be read,
-- whether /proc/exmap takes a text that is written to it, and what it then has to read.
pub record LinuxSystem : Type 0 where
  pub proc : Option (List Name)
  pub file_readable : Name → Bool
  pub file_exists : Name → Bool
  pub files : Name → Option Name
  pub exmap_takes : Name → Bool
  pub exmap_gives : Name → Option Name

abbrev pub proc_dir : Name
proc_dir = b'/' ∷ b'p' ∷ b'r' ∷ b'o' ∷ b'c' ∷ b'/' ∷ []

abbrev pub exmap_file : Name
exmap_file = proc_dir ++ (b'e' ∷ b'x' ∷ b'm' ∷ b'a' ∷ b'p' ∷ [])

abbrev pub anon_name : Name
anon_name = b'[' ∷ b'a' ∷ b'n' ∷ b'o' ∷ b'n' ∷ b']' ∷ []

unfoldable pub proc_map_file : ℕ → Name
unfolding decimal
proc_map_file pid = proc_dir ++ (decimal pid ++ (b'/' ∷ b'm' ∷ b'a' ∷ b'p' ∷ b's' ∷ []))

-- The loop over the names. `atoi` of a name in /proc is a pid, which is below 2 ^ 31.
unfoldable pub pid_loop : LinuxSystem → List Name → List ℕ
unfolding starts_digit scan_digits proc_map_file
pid_loop system [] = []
pid_loop system (it ∷ fnames) =
    let rest = pid_loop system fnames in
    let pid = (scan_digits 10 0 it).0 in
    if not (starts_digit 10 it)
    then rest
    else if system.file_readable (proc_map_file pid)
    then pid ∷ rest
    else rest

unfoldable pub accessible_pids : LinuxSystem → List ℕ
unfolding pid_loop
accessible_pids system = elim system.proc [ none ↦ [] | some fnames ↦ pid_loop system fnames ]

unfoldable pub sanity_check : LinuxSystem → Bool
sanity_check system = system.file_exists exmap_file

unfoldable pub read_cmdline : LinuxSystem → ℕ → Name
unfolding decimal read_textfile
read_cmdline system pid =
    elim (read_textfile system.files
      (proc_dir ++ (decimal pid ++ (b'/' ∷ b'c' ∷ b'm' ∷ b'd' ∷ b'l' ∷ b'i' ∷ b'n' ∷ b'e' ∷ [])))) [
        | none ↦ []
        | some [] ↦ []
        | some (line ∷ lines) ↦ if length lines == 0 then line else []
      ]

-- `i_resident << 31`, an int, as an unsigned long: the sign is extended.
unfoldable pub resident_bits : ℕ → ℕ
resident_bits i_resident = if i_resident % 2 == 0 then 0 else 2 ^ 64 - 2 ^ 31

-- Whether the page is resident, whether it is writable, and its cookie.
unfoldable pub parse_page_line : Name → Outcome (Bool × Bool × ℕ)
unfolding extract to_signed to_unsigned resident_bits
parse_page_line line =
    let (first, at_writable) = extract 10 (to_signed 32) (text_in line) in
    let (second, at_cookie) = extract 10 (to_signed 32) at_writable in
    let (third, at_end) = extract 16 (to_unsigned 64) at_cookie in
    do
      i_resident ← deref first
      i ← deref second
      cookie ← deref third
      done (not (i_resident == 0), not (i == 0), bit_or cookie (resident_bits i_resident))

-- `current_pagelist` points into the map, which has that address.
pub record PageReading : Type 0 where
  pub page_info : List (ℕ × List Page)
  pub current : Option ℕ
  pub sstr : TextIn

-- `current_pagelist->push_back`
unfoldable pub push_page : List (ℕ × List Page) → ℕ → Page → List (ℕ × List Page)
unfolding find assign
push_page page_info at p =
    assign page_info at (elim (find page_info at) [ none ↦ [] | some pages ↦ pages ] ++ (p ∷ []))

abbrev pub vma_word : Name
vma_word = b'V' ∷ b'M' ∷ b'A' ∷ []

-- A line that starts a new Vma. `sstr.str` leaves the bits of the stream as they are.
unfoldable pub start_vma : PageReading → Name → Outcome PageReading
unfolding extract to_unsigned assign
start_vma reading it =
    let (addr, sstr) = extract 16 (to_unsigned 64) (record reading.sstr { rest = drop 4 it }) in
    if ltb (length it) 4 then crash else (do
      start_addr ← deref addr
      done (record {
        page_info = assign reading.page_info start_addr [];
        current = some start_addr;
        sstr = sstr;
      }))

unfoldable pub add_page : PageReading → Name → Outcome PageReading
unfolding parse_page_line push_page
add_page reading it = do
  (resident, writable, cookie) ← parse_page_line it
  done (elim reading.current [
    | none ↦ reading
    | some at ↦ record reading {
      page_info =
          push_page reading.page_info at
            (record { cookie = cookie; resident = resident; writable = writable });
    }
  ])

-- The body of the loop of read_page_info.
unfoldable pub read_page_line : PageReading → Name → Outcome PageReading
unfolding name_eq start_vma add_page
read_page_line reading it =
    if ltb (length it) 3
    then done reading
    else if name_eq (take 3 it) vma_word
    then start_vma reading it
    else add_page reading it

unfoldable pub page_loop : PageReading → List Name → Outcome PageReading
unfolding read_page_line
page_loop reading [] = done reading
page_loop reading (it ∷ lines) = do next ← read_page_line reading it; page_loop next lines

unfoldable pub read_page_info : LinuxSystem → ℕ → Outcome (List (ℕ × List Page) × Bool)
unfolding decimal read_textfile page_loop
read_page_info system pid =
    let text = decimal pid ++ (b'\n' ∷ []) in
    if not (system.exmap_takes text)
    then done ([], false)
    else elim (read_textfile (λ name. system.exmap_gives text) exmap_file) [
      | none ↦ done ([], false)
      | some lines ↦ do
        reading ← page_loop (record { page_info = []; current = none; sstr = text_in [] }) lines
        done (reading.page_info, true)
    ]

-- `line[line.find('-')] = ' '`, if there is one.
unfoldable pub blank_dash : Name → Option Name
blank_dash [] = none
blank_dash (b ∷ line) =
    let rest = blank_dash line in
    if b == b'-' then some (b' ' ∷ line) else elim rest [ none ↦ none | some l ↦ some (b ∷ l) ]

-- The three words between the addresses and the name: the permissions, and twice `token`, with the
-- offset behind the first.
unfoldable pub parse_vma_fields : Name → Outcome Vma
unfolding extract extract_word to_unsigned to_signed
parse_vma_fields line =
    let (first, at_end) = extract 16 (to_unsigned 64) (text_in line) in
    let (second, at_perms) = extract 16 (to_unsigned 64) at_end in
    let (perms, at_offset) = extract_word at_perms in
    let (third, at_dev) = extract 16 (to_signed 64) at_offset in
    let (dev, at_inode) = extract_word at_dev in
    let (inode, at_name) = extract_word at_inode in
    let (name, behind) = extract_word at_name in
    do
      start ← deref first
      last ← deref second
      offset ← deref third
      done (record {
        range = record { start = start; end = last };
        offset = offset;
        fname = elim name [ none ↦ anon_name | some fname ↦ fname ];
        pages = [];
      })

-- The null pointer, for a line without a dash, is `none`.
unfoldable pub parse_vma_line : Name → Outcome (Option Vma)
unfolding blank_dash parse_vma_fields
parse_vma_line line_arg = elim (blank_dash line_arg) [
  | none ↦ done none
  | some line ↦ do vma ← parse_vma_fields line; done (some vma)
]

unfoldable pub vma_loop : List Name → Outcome (List Vma)
unfolding parse_vma_line
vma_loop [] = done []
vma_loop (it ∷ lines) = do
  vma ← parse_vma_line it
  vmas ← vma_loop lines
  done (elim vma [ none ↦ vmas | some v ↦ v ∷ vmas ])

unfoldable pub read_vmas : LinuxSystem → ℕ → Outcome (List Vma × Bool)
unfolding proc_map_file read_textfile vma_loop
read_vmas system pid = elim (read_textfile system.files (proc_map_file pid)) [
  | none ↦ done ([], false)
  | some lines ↦ do vmas ← vma_loop lines; done (vmas, true)
]
