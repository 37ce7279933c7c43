-- ===== src/File.antt =====
-- src/Exmap.cpp and src/Exmap.hpp: File, a file that processes map, and FilePool, the files by
-- their names. A file is shared and written through its pointer; as a pool holds one file to a
-- name, a pointer to it is modelled by the name, and the object stays in the pool.
-- Whether a file exists and what ELF file it holds is the file system's, and enters as `open_elf`.
pub mod Pool
use exmap.Prelude.{ℕ, Bool, true, false, List, [], ◌∷◌, ◌++◌, Option, none, some, map}
use exmap.Std.Names.{Name, name_key}
use exmap.Std.OrderedMap.{find, assign, map_values}
use exmap.Std.Sets.{set_insert}
use exmap.Elf.File.{ElfFile}
use exmap.Map.{MapPtr}
use exmap.Outcome.{Outcome, done, crash, ◌>>=◌, deref}

-- A process is pointed to by its pid.
pub record File : Type 0 where
  pub name : Name
  pub maps : List MapPtr
  pub procs : List ℕ
  pub elf : Option ElfFile

unfoldable pub add_map : File → MapPtr → File
add_map f m = record f { maps = f.maps ++ m ∷ [] }

unfoldable pub add_maps : File → List MapPtr → File
add_maps f maps = record f { maps = f.maps ++ maps }

unfoldable pub add_proc : File → ℕ → File
add_proc f pid = record f { procs = set_insert pid f.procs }

unfoldable pub is_elf : File → Bool
is_elf f = elim f.elf [ none ↦ false | some _ ↦ true ]

-- `std::map<std::string, FilePtr>`, in which a pointer may be null.
abbrev pub FilePool : Type 0
FilePool = List (Name × Option File)

unfoldable pub clear : FilePool → FilePool
clear pool = []

-- `_files[name]`: a name that is not there is entered, with a null pointer.
unfoldable pub name_to_file : FilePool → Name → FilePool × Option File
name_to_file pool name = elim (find pool name) [
  | some file ↦ (pool, file)
  | none ↦ (assign pool name none, none)
]

unfoldable pub files : FilePool → List (Option File)
unfolding map_values
files pool = map_values pool

module _ (open_elf : Name → Option ElfFile) where
  -- The constructor of File.
  unfoldable pub new_file : Name → File
  new_file name = record { name = name; maps = []; procs = []; elf = open_elf name }

  -- The pool afterwards, and the pointer that it holds for the name.
  unfoldable pub get_or_make_file : FilePool → Name → FilePool × Option File
  unfolding new_file
  get_or_make_file pool name = elim (find pool name) [
    | some file ↦ (pool, file)
    | none ↦ (assign pool name (some (new_file name)), some (new_file name))
  ]

-- A write through the pointer to the file of a name, which is undefined if that is null.
unfoldable pub update_file : FilePool → Name → (File → File) → Outcome FilePool
update_file pool name f = elim (find pool name) [
  | none ↦ crash
  | some none ↦ crash
  | some (some file) ↦ done (assign pool name (some (f file)))
]
