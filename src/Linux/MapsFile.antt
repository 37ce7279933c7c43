-- ===== src/Linux/MapsFile.antt =====
-- read_vmas on a whole file /proc/<pid>/maps.
use exmap.Prelude.{
  ℕ, ◌^◌, ◌<◌, ◌≡◌, ◌⊎◌, refl, true, List, [], ◌∷◌, ◌++◌, some, ◌==◌, if◌then◌else◌, length, map,
  joined, All,
}
use exmap.Std.Names.{Name}
use exmap.Std.Digits.Scan.{sixteen-IsBase}
use exmap.Std.Digits.Extract.{Spells}
use exmap.Outcome.{done}
use exmap.Vma.{Vma}
use exmap.TextFile.{read_textfile}
use exmap.TextFile.Lines.{IsLine, readline_helper-joined}
use exmap.Linux.{LinuxSystem, anon_name, proc_map_file, parse_vma_line, vma_loop, read_vmas}
use exmap.Linux.Maps.{IsWord, IsBlank, maps_line, parse_vma_line-maps_line}

-- The texts of a line, and the numbers that three of them spell.
pub record MapsEntry : Type 0 where
  pub first : Name
  pub last : Name
  pub perms : Name
  pub at : Name
  pub dev : Name
  pub inode : Name
  pub pad : Name
  pub name : Name
  pub start : ℕ
  pub end : ℕ
  pub offset : ℕ

pub record IsEntry (e : MapsEntry) : Type 0 where
  pub first : Spells 16 sixteen-IsBase e.start e.first
  pub last : Spells 16 sixteen-IsBase e.end e.last
  pub at : Spells 16 sixteen-IsBase e.offset e.at
  pub start : e.start < 2 ^ 64
  pub end : e.end < 2 ^ 64
  pub offset : e.offset < 2 ^ 63
  pub perms : IsWord e.perms
  pub dev : IsWord e.dev
  pub inode : IsWord e.inode
  pub pad : IsBlank e.pad
  pub name : (e.name ≡ []) ⊎ IsWord e.name

unfoldable pub entry_line : MapsEntry → Name
unfolding maps_line
entry_line e =
    maps_line e.first e.last e.perms e.at e.dev e.inode (b' ' ∷ (e.pad ++ (e.name ++ (b'\n' ∷ []))))

-- The Vma of a line.
unfoldable pub entry_vma : MapsEntry → Vma
entry_vma e = record {
  range = record { start = e.start; end = e.end };
  offset = e.offset;
  fname = if length e.name == 0 then anon_name else e.name;
  pages = [];
}

parse_entry :
    (e : MapsEntry) → IsEntry e → parse_vma_line (entry_line e) ≡ done (some (entry_vma e))
unfolding entry_line entry_vma
parse_entry e h =
    parse_vma_line-maps_line e.first e.last e.perms e.at e.dev e.inode e.pad e.name e.start e.end
      e.offset h.first h.last h.at h.start h.end h.offset h.perms h.dev h.inode h.pad h.name

vma_loop-entries :
    (entries : List MapsEntry)
    → All IsEntry entries
    → vma_loop (map entry_line entries) ≡ done (map entry_vma entries)
unfolding vma_loop
vma_loop-entries [] h = refl
vma_loop-entries (e ∷ entries) h =
    rw (parse_entry e h.0, vma_loop-entries entries h.1, vma_loop) refl

read_steps :
    (system : LinuxSystem) (pid : ℕ) (lines : List Name) (vmas : List Vma)
    → system.files (proc_map_file pid) ≡ some (joined lines)
    → All IsLine lines
    → vma_loop lines ≡ done vmas
    → read_vmas system pid ≡ done (vmas, true)
unfolding read_vmas read_textfile
read_steps system pid lines vmas content ok run =
    rw (content, readline_helper-joined lines ok, run, read_vmas) refl

-- /proc/<pid>/maps has lines of the form of the kernel's: the two addresses with a dash between, the
-- permissions, the offset, the device, the inode, and a name or none behind white space. Addresses
-- and offset are in hexadecimal digits, and below 2 ^ 64 and 2 ^ 63, the others are words without
-- white space, and each line fits the buffer of 1022 bytes that is read and has no null byte. Then
-- read_vmas works, and gives the Vma of each line, in order, with its range, its offset and its
-- name, which is [anon] where there is none.
pub read_vmas-entries :
    (system : LinuxSystem) (pid : ℕ) (entries : List MapsEntry)
    → system.files (proc_map_file pid) ≡ some (joined (map entry_line entries))
    → All IsEntry entries
    → All IsLine (map entry_line entries)
    → read_vmas system pid ≡ done (map entry_vma entries, true)
read_vmas-entries system pid entries content ok fit =
    read_steps system pid (map entry_line entries) (map entry_vma entries) content fit
      (vma_loop-entries entries ok)
