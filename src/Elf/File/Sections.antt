-- ===== src/Elf/File/Sections.antt =====
-- The sections of a 64-bit file, as bytes, and where their names and symbols lie.
pub mod Correlated
pub mod Loaded
use mathlib.Core.Path.{ap₂}
use exmap.Prelude.{
  ℕ, zero, suc, ◌+◌, ◌*◌, ◌%◌, ◌^◌, ◌≤◌, ◌<◌, ◌≡◌, ◌≢◌, ◌⊎◌, inl, inr, refl, ap, ◌∙◌, sym, Bool,
  true, false, not, List, [], ◌∷◌, ◌++◌, Option, none, some, arith, ◌==◌, if◌then◌else◌, length,
  map, get_elem?, All, joined,
}
use exmap.Std.Names.{Name}
use exmap.Std.Streams.{Stream}
use exmap.Outcome.{Outcome, done, ◌>>=◌}
use exmap.Elf.Layout.{
  SectionStruct, FileStruct, init_section, section_struct64, field, little_endian,
}
use exmap.Elf.Image.{le_bytes, little_endian-le_bytes}
use exmap.Elf.Tables.{load_table}
use exmap.Elf.Tables.Chunks.{HaveSize, load_table-joined}
use exmap.Elf.Section.{Section, Symbol, is_string_table, is_symbol_table, find_string, load_symbols}
use exmap.Elf.Section.Names.{sound}
use exmap.Elf.Section.Symbols.{
  NameAt, find_string-NameAt, symbol_entries, IsReadable, load_symbols-entries,
}
use exmap.Elf.File.{
  ElfFile, section_loop, load_sections, struct_at, takes_symbols, correlate_one, correlate_loop,
  correlate_string_sections, lazy_load_sections,
}

-- A section header in the order of elf.h; what the program does not read is zero.
unfoldable pub section_bytes : SectionStruct → List ℕ
section_bytes s =
    le_bytes 4 s.name
    ++ (le_bytes 4 s.type
        ++ (le_bytes 8 0
            ++ (le_bytes 8 s.addr
                ++ (le_bytes 8 s.offset
                    ++ (le_bytes 8 s.size
                        ++ (le_bytes 4 s.link ++ (le_bytes 12 0 ++ le_bytes 8 s.entsize)))))))

pub record FitsSection (s : SectionStruct) : Type 0 where
  pub name : s.name < 256 ^ 4
  pub type : s.type < 256 ^ 4
  pub addr : s.addr < 256 ^ 8
  pub offset : s.offset < 256 ^ 8
  pub size : s.size < 256 ^ 8
  pub link : s.link < 256 ^ 4
  pub entsize : s.entsize < 256 ^ 8

section_bytes-struct : (s : SectionStruct) → FitsSection s → section_struct64 (section_bytes s) ≡ s
unfolding section_bytes section_struct64 field le_bytes little_endian
section_bytes-struct s fits = λ i. record {
  size = little_endian-le_bytes 8 s.size fits.size i;
  offset = little_endian-le_bytes 8 s.offset fits.offset i;
  addr = little_endian-le_bytes 8 s.addr fits.addr i;
  name = little_endian-le_bytes 4 s.name fits.name i;
  type = little_endian-le_bytes 4 s.type fits.type i;
  entsize = little_endian-le_bytes 8 s.entsize fits.entsize i;
  link = little_endian-le_bytes 4 s.link fits.link i;
}

length-section_bytes : (s : SectionStruct) → length (section_bytes s) ≡ 64
unfolding section_bytes le_bytes
length-section_bytes s = refl

init_section-bytes : (s : SectionStruct) → FitsSection s → init_section (section_bytes s) ≡ some s
unfolding init_section
init_section-bytes s fits =
    rw (length-section_bytes s, init_section) (ap some (section_bytes-struct s fits))

-- The headers of some sections, and the sections before their names and symbols are read.
unfoldable pub section_entries : List Section → List (List ℕ)
section_entries [] = []
section_entries (s ∷ sections) = section_bytes s.struct ∷ section_entries sections

abbrev pub unnamed : Section → Section
unnamed s = record { struct = s.struct; name = []; symbols = [] }

section_entries-HaveSize : (sections : List Section) → HaveSize 64 (section_entries sections)
unfolding section_entries
section_entries-HaveSize [] = tt
section_entries-HaveSize (s ∷ sections) =
    (length-section_bytes s.struct, section_entries-HaveSize sections)

length-section_entries :
    (sections : List Section) → length (section_entries sections) ≡ length sections
unfolding section_entries
length-section_entries [] = refl
length-section_entries (s ∷ sections) = ap suc (length-section_entries sections)

section_loop-entries :
    (sections : List Section)
    → All (λ (s : Section). FitsSection s.struct) sections
    → section_loop (section_entries sections) ≡ map unnamed sections
unfolding section_loop section_entries
section_loop-entries [] h = refl
section_loop-entries (s ∷ sections) h =
    rw (init_section-bytes s.struct h.0, section_loop)
      (ap (◌∷◌ (unnamed s)) (section_loop-entries sections h.1))

struct_at-unnamed :
    (sections : List Section) (i : ℕ) → struct_at (map unnamed sections) i ≡ struct_at sections i
unfolding struct_at
struct_at-unnamed [] i = refl
struct_at-unnamed (s ∷ sections) zero = refl
struct_at-unnamed (s ∷ sections) (suc i) = struct_at-unnamed sections i

-- The symbols of a section in the bytes of a file: none if it is no symbol table, else as
-- load_symbols reads them with the names in the string table that the section links to.
pub record SymbolsAt (content : List ℕ) (sections : List Section) (s : Section) : Type 0 where
  pub string_table : SectionStruct
  pub front : List ℕ
  pub behind : List ℕ
  pub linked : struct_at sections s.struct.link ≡ some string_table
  pub has_strings : is_string_table string_table ≡ true
  pub lies : content ≡ front ++ (joined (symbol_entries s.symbols) ++ behind)
  pub at : s.struct.offset ≡ length front
  pub some_front : 0 < length front
  pub near : length front < 2 ^ 63
  pub wide : s.struct.entsize ≡ 24
  pub size : s.struct.size ≡ length s.symbols * 24
  pub nonempty : s.symbols ≢ []
  pub few : length s.symbols < 2 ^ 15
  pub readable : All (IsReadable content string_table) s.symbols

abbrev pub HasSymbols : List ℕ → List Section → Section → Type 0
HasSymbols content sections s =
    ((is_symbol_table s.struct ≡ false) × (s.symbols ≡ []))
    ⊎ ((is_symbol_table s.struct ≡ true) × SymbolsAt content sections s)
