-- ===== src/Elf/File.antt =====
-- src/Elf.cpp: File, a loaded ELF file. Its segments are read by `load`, its sections and symbols
-- when they are first asked for. `_symbol_table_section` is the place of that section. A failed
-- load is `none`: its object is thrown away.
pub mod Lookup
pub mod Sections
use exmap.Prelude.{
  ℕ, suc, ◌+◌, ◌%◌, ◌^◌, Bool, true, false, not, ◌&&◌, ◌||◌, List, [], ◌∷◌, ◌++◌, Option, none,
  some, leb, ◌==◌, if◌then◌else◌, length, take, get_elem?,
}
use exmap.Std.Names.{Name, name_eq, byte_is}
use exmap.Std.Streams.{Stream, opened, good, clear, seekg, read}
use exmap.Outcome.{Outcome, done, crash, ◌>>=◌, deref}
use exmap.Elf.Segment.{Segment, is_load}
use exmap.Elf.Layout.{
  FileStruct, SectionStruct, file_struct32, file_struct64, init_segment, init_section,
}
use exmap.Elf.Tables.{load_table}
use exmap.Elf.Section.{
  Section, is_string_table, is_symbol_table, is_dynsym_table, find_string, load_symbols,
}

pub record ElfFile : Type 0 where
  pub fname : Name
  pub ifs : Stream
  pub filestruct : FileStruct
  pub segments : List Segment
  pub sections : List Section
  pub symbol_table_section : Option ℕ
  pub started_lazy_load_sections : Bool

abbrev pub magic : List ℕ
magic = 0x7f ∷ 0x45 ∷ 0x4c ∷ 0x46 ∷ []

-- The file struct of some size, if it can be read.
unfoldable pub read_struct : Stream → ℕ → (List ℕ → FileStruct) → Option (FileStruct × Stream)
unfolding read good
read_struct is size struct =
    let (buffer, read_on) = read is size in
    if good read_on then some (struct buffer, read_on) else none

-- The first 16 bytes are the identification, of which the fifth is the class.
unfoldable pub load_file_header : Stream → Option (FileStruct × Stream)
unfolding read clear seekg read_struct name_eq byte_is file_struct32 file_struct64
load_file_header ifs =
    let (ident_buf, read_on) = read ifs 16 in
    let begun = seekg (clear read_on) (some 0) in
    if not (name_eq (take 4 ident_buf) magic)
    then none
    else if byte_is ident_buf 4 1
    then read_struct begun 52 file_struct32
    else if byte_is ident_buf 4 2
    then read_struct begun 64 file_struct64
    else none

-- The loop of load_segments: entries of another size are only warned of.
unfoldable pub segment_loop : List (List ℕ) → List Segment
unfolding init_segment
segment_loop [] = []
segment_loop (it ∷ entries) =
    let rest = segment_loop entries in elim (init_segment it) [ none ↦ rest | some s ↦ s ∷ rest ]

-- The segments are none where load_segments returns false.
unfoldable pub load_segments : Stream → FileStruct → Outcome (Stream × List Segment)
unfolding load_table segment_loop
load_segments ifs header = do
  (read_on, entries, worked) ←
      load_table ifs header.phoff (header.phnum % 2 ^ 16) (header.phentsize % 2 ^ 16)
  (if worked then done (read_on, segment_loop entries) else done (read_on, []))

-- The file is regular and can be opened where the file system has its bytes.
unfoldable pub load : (Name → Option (List ℕ)) → Name → Outcome (Option ElfFile)
unfolding load_file_header load_segments
load files fname = elim (files fname) [
  | none ↦ done none
  | some content ↦ elim (load_file_header (opened content)) [
    | none ↦ done none
    | some (header, ifs) ↦ do
      (read_on, segments) ← load_segments ifs header
      (if length segments == 0
          then done none
          else done (
              some (record {
                fname = fname;
                ifs = read_on;
                filestruct = header;
                segments = segments;
                sections = [];
                symbol_table_section = none;
                started_lazy_load_sections = false;
              })))
  ]
]

unfoldable pub section_loop : List (List ℕ) → List Section
unfolding init_section
section_loop [] = []
section_loop (it ∷ entries) =
    let rest = section_loop entries in
    elim (init_section it) [
      | none ↦ rest
      | some s ↦ record { struct = s; name = []; symbols = [] } ∷ rest
    ]

unfoldable pub load_sections : ElfFile → Outcome (ElfFile × Bool)
unfolding load_table section_loop
load_sections elf =
    let header = elf.filestruct in
    do
      (read_on, entries, worked) ←
          load_table elf.ifs header.shoff (header.shnum % 2 ^ 16) (header.shentsize % 2 ^ 16)
      let sections = (if worked then section_loop entries else [])
      done (record elf { ifs = read_on; sections = sections }, not (length sections == 0))

-- section(int), once the sections are there: a null pointer where there is none.
unfoldable pub struct_at : List Section → ℕ → Option SectionStruct
struct_at sections i = elim (get_elem? sections i) [ none ↦ none | some s ↦ some s.struct ]

-- Whether the loop takes a section for the symbol table.
unfoldable pub takes_symbols : Option ℕ → SectionStruct → Bool
unfolding is_symbol_table is_dynsym_table
takes_symbols found s =
    is_symbol_table s && (not (is_dynsym_table s) || elim found [ none ↦ true | some i ↦ false ])

-- One section in the loop of correlate_string_sections: its name, and its symbols if it has any.
unfoldable pub correlate_one :
    List Section → SectionStruct → Stream → Section → Outcome (Stream × Section)
unfolding find_string is_symbol_table load_symbols struct_at
correlate_one all string_table ifs it =
    let (name, read_on) = find_string ifs string_table (it.struct.name % 2 ^ 32) in
    let named = record it { name = name } in
    if not (is_symbol_table it.struct) then done (read_on, named) else (do
      (last, loaded, worked) ← load_symbols read_on named (struct_at all it.struct.link)
      done (last, loaded))

-- The loop, from the i-th section on.
unfoldable pub correlate_loop :
    List Section
    → SectionStruct
    → ℕ
    → Option ℕ
    → Stream
    → List Section
    → Outcome (Stream × Option ℕ × List Section)
unfolding correlate_one takes_symbols
correlate_loop all string_table i found ifs [] = done (ifs, found, [])
correlate_loop all string_table i found ifs (it ∷ sections) = do
  (read_on, section) ← correlate_one all string_table ifs it
  (last, at, rest) ←
      correlate_loop all string_table (suc i)
        (if takes_symbols found it.struct then some i else found) read_on sections
  done (last, at, section ∷ rest)

unfoldable pub correlate_string_sections : ElfFile → Outcome (ElfFile × Bool)
unfolding struct_at is_string_table correlate_loop
correlate_string_sections elf = elim (struct_at elf.sections elf.filestruct.shstrndx) [
  | none ↦ done (elf, false)
  | some string_table ↦ if not (is_string_table string_table) then done (elf, false) else (do
    (read_on, found, sections) ←
        correlate_loop elf.sections string_table 0 elf.symbol_table_section elf.ifs elf.sections
    done (record elf { ifs = read_on; sections = sections; symbol_table_section = found }, true))
]

-- A second call returns true whatever the first did.
unfoldable pub lazy_load_sections : ElfFile → Outcome (ElfFile × Bool)
unfolding load_sections correlate_string_sections
lazy_load_sections elf = elim elf.started_lazy_load_sections [
  | true ↦ done (elf, true)
  | false ↦ do
    (loaded, worked) ← load_sections (record elf { started_lazy_load_sections = true })
    (if worked then correlate_string_sections loaded else done (loaded, false))
]

unfoldable pub num_segments : ElfFile → ℕ
num_segments elf = length elf.segments

-- The loop of loadable_segments.
unfoldable pub load_only : List Segment → List Segment
load_only [] = []
load_only (it ∷ segs) = let rest = load_only segs in if is_load it then it ∷ rest else rest

unfoldable pub loadable_segments : ElfFile → List Segment
unfolding load_only
loadable_segments elf = load_only elf.segments

unfoldable pub is_executable : ElfFile → Bool
is_executable elf = elf.filestruct.type == 2

unfoldable pub is_shared_object : ElfFile → Bool
is_shared_object elf = elf.filestruct.type == 3
