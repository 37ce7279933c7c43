-- ===== src/Examples/Maps.antt =====
-- Lines of /proc/<pid>/maps.
use exmap.Prelude.{
  ℕ, Bool, not, ◌&&◌, ◌||◌, length, take, ◌<◌, ◌≡◌, refl, inl, inr, true, false, [], ◌∷◌, ◌++◌,
  none, some, arith, ◌==◌, map, joined, All,
}
use exmap.Std.Names.{Name}
use exmap.Std.Digits.Scan.{sixteen-IsBase}
use exmap.Std.Digits.Extract.{Spells}
use exmap.Std.TextIn.{scan_digits}
use exmap.Outcome.{done}
use exmap.TextFile.Lines.{IsInside, IsLine}
use exmap.Linux.{LinuxSystem, read_vmas}
use exmap.Linux.Maps.{maps_line}
use exmap.Linux.MapsFile.{MapsEntry, IsEntry, entry_line, entry_vma, read_vmas-entries}

-- 0400-0b00 r-xp 0010 08:01 12 /bin/a
abbrev first_address : Name
first_address = b'0' ∷ b'4' ∷ b'0' ∷ b'0' ∷ []

abbrev last_address : Name
last_address = b'0' ∷ b'b' ∷ b'0' ∷ b'0' ∷ []

abbrev file_offset : Name
file_offset = b'0' ∷ b'0' ∷ b'1' ∷ b'0' ∷ []

abbrev perms : Name
perms = b'r' ∷ b'-' ∷ b'x' ∷ b'p' ∷ []

abbrev dev : Name
dev = b'0' ∷ b'8' ∷ b':' ∷ b'0' ∷ b'1' ∷ []

abbrev inode : Name
inode = b'1' ∷ b'2' ∷ []

abbrev bin_a : Name
bin_a = b'/' ∷ b'b' ∷ b'i' ∷ b'n' ∷ b'/' ∷ b'a' ∷ []

first-Spells : Spells 16 sixteen-IsBase 0x400 first_address
unfolding scan_digits
first-Spells = (λ e. cc, (omega arith, (omega arith, (omega arith, (omega arith, tt)))), refl)

last-Spells : Spells 16 sixteen-IsBase 0xb00 last_address
unfolding scan_digits
last-Spells = (λ e. cc, (omega arith, (omega arith, (omega arith, (omega arith, tt)))), refl)

offset-Spells : Spells 16 sixteen-IsBase 0x10 file_offset
unfolding scan_digits
offset-Spells = (λ e. cc, (omega arith, (omega arith, (omega arith, (omega arith, tt)))), refl)

abbrev of_file : MapsEntry
of_file = record {
  first = first_address;
  last = last_address;
  perms = perms;
  at = file_offset;
  dev = dev;
  inode = inode;
  pad = b' ' ∷ [];
  name = bin_a;
  start = 0x400;
  end = 0xb00;
  offset = 0x10;
}

-- The same area without a name.
abbrev of_none : MapsEntry
of_none = record of_file { name = [] }

of_file-IsEntry : IsEntry of_file
of_file-IsEntry = record {
  first = first-Spells;
  last = last-Spells;
  at = offset-Spells;
  start = omega arith;
  end = omega arith;
  offset = omega arith;
  perms = ((refl, (refl, (refl, (refl, tt)))), λ e. cc);
  dev = ((refl, (refl, (refl, (refl, (refl, tt))))), λ e. cc);
  inode = ((refl, (refl, tt)), λ e. cc);
  pad = (refl, tt);
  name = inr ((refl, (refl, (refl, (refl, (refl, (refl, tt)))))), λ e. cc);
}

of_none-IsEntry : IsEntry of_none
of_none-IsEntry =
    let h = of_file-IsEntry in
    record {
      first = h.first;
      last = h.last;
      at = h.at;
      start = h.start;
      end = h.end;
      offset = h.offset;
      perms = h.perms;
      dev = h.dev;
      inode = h.inode;
      pad = h.pad;
      name = inl refl;
    }

abbrev system : LinuxSystem
system = record {
  proc = none;
  file_readable = λ name. true;
  file_exists = λ name. true;
  files = λ name. some (joined (map entry_line (of_file ∷ of_none ∷ [])));
  exmap_takes = λ text. false;
  exmap_gives = λ text. none;
}

all_inside : Name → Bool
all_inside [] = true
all_inside (b ∷ text) = not (b == 10 || b == 0) && all_inside text

all_inside-IsInside : (text : Name) → all_inside text ≡ true → All IsInside text
unfolding all_inside
all_inside-IsInside [] h = tt
all_inside-IsInside (b ∷ text) h =
    ((ground (arith, h), ground (arith, h)), all_inside-IsInside text (and_right _ _ h))
  where
    and_right : (x y : Bool) → (x && y) ≡ true → y ≡ true
    and_right x y e = ground (arith, e)

-- A line of so many bytes before its newline.
take-IsLine :
    (n : ℕ) (line : Name)
    → line ≡ take n line ++ (10 ∷ [])
    → all_inside (take n line) ≡ true
    → length (take n line) < 1022
    → IsLine line
take-IsLine n line e inside short =
    (take n line, e, all_inside-IsInside (take n line) inside, short)

fit : All IsLine (map entry_line (of_file ∷ of_none ∷ []))
unfolding entry_line maps_line all_inside
fit = (
  take-IsLine 36 (entry_line of_file) refl refl (omega arith),
  (take-IsLine 30 (entry_line of_none) refl refl (omega arith), tt),
)

read_vmas-entries_example : read_vmas system 7 ≡ done (map entry_vma (of_file ∷ of_none ∷ []), true)
read_vmas-entries_example =
    read_vmas-entries system 7 (of_file ∷ of_none ∷ []) refl
      (of_file-IsEntry, (of_none-IsEntry, tt)) fit
