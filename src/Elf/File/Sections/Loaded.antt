-- ===== src/Elf/File/Sections/Loaded.antt =====
-- lazy_load_sections reads back the sections of a 64-bit file.
use exmap.Prelude.{
  ℕ, ◌+◌, ◌*◌, ◌%◌, ◌^◌, ◌<◌, ◌≡◌, ◌≢◌, refl, ap, ◌∙◌, Bool, true, false, List, [], ◌∷◌, ◌++◌,
  Option, none, some, arith, ◌==◌, length, map, All, joined,
}
use mathlib.Core.Path.{ap₂}
use exmap.Std.Names.{Name}
use exmap.Std.Streams.{Stream}
use exmap.Outcome.{Outcome, done}
use exmap.Elf.Segment.{Segment}
use exmap.Elf.Layout.{SectionStruct, FileStruct}
use exmap.Elf.Tables.{load_table}
use exmap.Elf.Tables.Chunks.{load_table-joined}
use exmap.Elf.Section.{Section, is_string_table}
use exmap.Elf.Section.Names.{sound}
use exmap.Elf.File.{
  ElfFile, section_loop, load_sections, struct_at, correlate_loop, correlate_string_sections,
  lazy_load_sections,
}
use exmap.Elf.File.Sections.{
  FitsSection, section_entries, unnamed, section_entries-HaveSize, length-section_entries,
  section_loop-entries, struct_at-unnamed,
}
use exmap.Elf.File.Sections.Correlated.{symbol_table, IsReadableSection, correlate_loop-unnamed}

load_sections_steps :
    (elf : ElfFile) (after : Stream) (entries : List (List ℕ)) (sections : List Section)
    → load_table elf.ifs elf.filestruct.shoff
        (elf.filestruct.shnum % 2 ^ 16)
        (elf.filestruct.shentsize % 2 ^ 16)
      ≡ done (after, entries, true)
    → section_loop entries ≡ sections
    → (length sections == 0) ≡ false
    → load_sections elf ≡ done (record elf { ifs = after; sections = sections }, true)
unfolding load_sections
load_sections_steps elf after entries sections e f some_left =
    rw (e, f, some_left, load_sections) refl

correlate_steps :
    (elf : ElfFile) (table : SectionStruct) (last : Stream) (at : Option ℕ)
    (sections : List Section)
    → struct_at elf.sections elf.filestruct.shstrndx ≡ some table
    → is_string_table table ≡ true
    → correlate_loop elf.sections table 0 elf.symbol_table_section elf.ifs elf.sections
      ≡ done (last, at, sections)
    → correlate_string_sections elf
      ≡ done (record elf { ifs = last; sections = sections; symbol_table_section = at }, true)
unfolding correlate_string_sections
correlate_steps elf table last at sections e t f = rw (e, t, f, correlate_string_sections) refl

-- The file as `load` leaves it.
abbrev pub loaded_file : Name → List ℕ → ℕ → Bool → FileStruct → List Segment → ElfFile
loaded_file fname content pos eof h segments = record {
  fname = fname;
  ifs = sound content pos eof;
  filestruct = h;
  segments = segments;
  sections = [];
  symbol_table_section = none;
  started_lazy_load_sections = false;
}

lazy_steps :
    (fname : Name) (content : List ℕ) (pos : ℕ) (eof : Bool) (h : FileStruct)
    (segments : List Segment) (loaded : ElfFile) (result : Outcome (ElfFile × Bool))
    → load_sections (record (loaded_file fname content pos eof h segments) {
      started_lazy_load_sections = true;
    })
      ≡ done (loaded, true)
    → correlate_string_sections loaded ≡ result
    → lazy_load_sections (loaded_file fname content pos eof h segments) ≡ result
unfolding lazy_load_sections
lazy_steps fname content pos eof h segments loaded result e f = rw (e, lazy_load_sections) f

some_section :
    (sections : List Section) → sections ≢ [] → (length (map unnamed sections) == 0) ≡ false
some_section [] ne = absurd (ne refl)
some_section (s ∷ sections) ne = ground arith

entries_nonempty : (sections : List Section) → sections ≢ [] → section_entries sections ≢ []
unfolding section_entries
entries_nonempty [] ne = absurd (ne refl)
entries_nonempty (s ∷ sections) ne = λ e. cc

all_fit :
    (content : List ℕ) (all : List Section) (table : SectionStruct) (sections : List Section)
    → All (IsReadableSection content all table) sections
    → All (λ (s : Section). FitsSection s.struct) sections
all_fit content all table [] h = tt
all_fit content all table (s ∷ sections) (readable, h) =
    (readable.0, all_fit content all table sections h)

-- A 64-bit file is loaded, and its header says where the headers of some sections lie in the file,
-- one behind another, how many there are (from 1 to 32767), that they are 64 bytes each, and which
-- one is the string table of the names. Each section's header fits the widths of its fields, its
-- name can be read in that string table, and it has either no symbols, where it is no symbol
-- table, or those that lie at its offset, with names in the string table that it links to. Then
-- lazy_load_sections works: the file has exactly these sections, with their names and symbols, in
-- order; the symbol table is the last one that is not dynamic or that none came before; the
-- header and the segments are as before, and the stream has not failed.
pub lazy_load_sections-entries :
    (fname : Name) (content front behind : List ℕ) (pos : ℕ) (eof : Bool) (h : FileStruct)
    (segments : List Segment) (sections : List Section) (table : SectionStruct)
    → content ≡ front ++ (joined (section_entries sections) ++ behind)
    → h.shoff ≡ length front
    → 0 < length front
    → length front < 2 ^ 63
    → h.shnum ≡ length sections
    → h.shentsize ≡ 64
    → sections ≢ []
    → length sections < 2 ^ 15
    → struct_at sections h.shstrndx ≡ some table
    → is_string_table table ≡ true
    → All (IsReadableSection content sections table) sections
    → (last : ℕ) × (at_end : Bool) × (lazy_load_sections
          (loaded_file fname content pos eof h segments)
        ≡ done (
          record {
            fname = fname;
            ifs = sound content last at_end;
            filestruct = h;
            segments = segments;
            sections = sections;
            symbol_table_section = symbol_table 0 none sections;
            started_lazy_load_sections = true;
          },
          true,
        ))
lazy_load_sections-entries fname content front behind pos eof h segments sections table lies at
      some_front near num wide ne few names t readable =
    let entries : List (List ℕ) = section_entries sections in
    let started : ElfFile = record (loaded_file fname content pos eof h segments) {
      started_lazy_load_sections = true;
    } in
    let count : length entries ≡ length sections = length-section_entries sections in
    let after : ℕ = length front + length entries * 64 in
    let cut : h.shnum % 2 ^ 16 ≡ length entries = omega (arith, num, count, few) in
    let size : h.shentsize % 2 ^ 16 ≡ 64 = omega (arith, wide) in
    let read =
      load_table-joined (sound content pos eof) front entries behind 64 refl lies some_front near
        (section_entries-HaveSize sections) (omega arith) (omega arith)
        (entries_nonempty sections ne) (omega (arith, count, few)) in
    let (last, at_end, run) =
      correlate_loop-unnamed content sections table 0 none after false sections t readable in
    (
      last,
      at_end,
      lazy_steps fname content pos eof h segments
          (record started { ifs = sound content after false; sections = map unnamed sections }) _
          (load_sections_steps started (sound content after false) entries (map unnamed sections)
            (ap
                (λ (o : ℕ).
                  load_table (sound content pos eof) o (h.shnum % 2 ^ 16) (h.shentsize % 2 ^ 16))
                at
              ∙ ap₂ (λ (n m : ℕ). load_table (sound content pos eof) (length front) n m) cut size
              ∙ read)
            (section_loop-entries sections (all_fit content sections table sections readable))
            (some_section sections ne))
          (correlate_steps _ table (sound content last at_end) _ sections
            (struct_at-unnamed sections h.shstrndx ∙ names) t run),
    )
