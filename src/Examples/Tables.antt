-- ===== src/Examples/Tables.antt =====
-- The sections of an ELF file.
use exmap.Prelude.{
  ℕ, ◌≡◌, ◌<◌, Bool, inl, inr, refl, true, false, List, [], ◌∷◌, ◌++◌, none, some, arith, take,
  drop, All, joined,
}
use exmap.Outcome.{done}
use exmap.Elf.Layout.{FileStruct, SectionStruct}
use exmap.Elf.Image.{le_bytes}
use exmap.Elf.Section.{Symbol, Section, is_string_table, is_symbol_table}
use exmap.Elf.Section.Names.{sound}
use exmap.Elf.Section.Symbols.{symbol_bytes, symbol_entries, NameAt}
use exmap.Elf.File.{struct_at, takes_symbols, lazy_load_sections}
use exmap.Elf.File.Sections.{section_bytes, section_entries, FitsSection, SymbolsAt}
use exmap.Elf.File.Sections.Correlated.{symbol_table, IsReadableSection}
use exmap.Elf.File.Sections.Loaded.{loaded_file, lazy_load_sections-entries}

-- A string table, which has a null byte, "a" and "b", and a symbol table with the symbol "b".
abbrev strings : SectionStruct
strings = record { name = 1; type = 3; addr = 0; offset = 129; size = 5; link = 0; entsize = 0 }

abbrev table : SectionStruct
table = record { name = 1; type = 2; addr = 0; offset = 134; size = 24; link = 0; entsize = 24 }

abbrev symbol : Symbol
symbol = record { struct = record { name = 3; value = 9; size = 4; info = 18 }; name = b'b' ∷ [] }

abbrev sections : List Section
sections =
    (record { struct = strings; name = b'a' ∷ []; symbols = [] })
    ∷ (record { struct = table; name = b'a' ∷ []; symbols = symbol ∷ [] })
    ∷ []

abbrev behind : List ℕ
behind = 0 ∷ b'a' ∷ 0 ∷ b'b' ∷ 0 ∷ (joined (symbol_entries (symbol ∷ [])) ++ [])

abbrev content : List ℕ
content = (7 ∷ []) ++ (joined (section_entries sections) ++ behind)

abbrev header : FileStruct
header = record {
  type = 2;
  shoff = 1;
  shnum = 2;
  shentsize = 64;
  phoff = 0;
  phnum = 0;
  phentsize = 56;
  shstrndx = 0;
}

a_there : NameAt content strings 1 (b'a' ∷ [])
unfolding joined section_entries section_bytes le_bytes symbol_entries symbol_bytes
a_there = record {
  front = take 130 content;
  rest = drop 132 content;
  lies = refl;
  at = refl;
  near = omega arith;
  small = omega arith;
  nonzero = (λ e. cc, tt);
  short = omega arith;
}

b_there : NameAt content strings 3 (b'b' ∷ [])
unfolding joined section_entries section_bytes le_bytes symbol_entries symbol_bytes
b_there = record {
  front = take 132 content;
  rest = drop 134 content;
  lies = refl;
  at = refl;
  near = omega arith;
  small = omega arith;
  nonzero = (λ e. cc, tt);
  short = omega arith;
}

symbols_there :
    SymbolsAt content sections (record { struct = table; name = b'a' ∷ []; symbols = symbol ∷ [] })
unfolding joined section_entries section_bytes le_bytes symbol_entries symbol_bytes struct_at
    is_string_table
symbols_there = record {
  string_table = strings;
  front = take 134 content;
  behind = [];
  linked = refl;
  has_strings = refl;
  lies = refl;
  at = refl;
  some_front = omega arith;
  near = omega arith;
  wide = refl;
  size = refl;
  nonempty = λ e. cc;
  few = omega arith;
  readable = (
    (
      record { name = omega arith; info = omega arith; value = omega arith; size = omega arith },
      b_there,
    ),
    tt,
  );
}

fits :
    (s : SectionStruct)
    → All
        (λ (n : ℕ). n < 256)
        (s.name ∷ s.type ∷ s.addr ∷ s.offset ∷ s.size ∷ s.link ∷ s.entsize ∷ [])
    → FitsSection s
fits s (n, (t, (a, (o, (z, (l, (e, _))))))) = record {
  name = omega (arith, n);
  type = omega (arith, t);
  addr = omega (arith, a);
  offset = omega (arith, o);
  size = omega (arith, z);
  link = omega (arith, l);
  entsize = omega (arith, e);
}

sections_there : All (IsReadableSection content sections strings) sections
unfolding is_symbol_table
sections_there = (
  (
    fits strings (
      omega arith,
      (omega arith, (omega arith, (omega arith, (omega arith, (omega arith, (omega arith, tt)))))),
    ),
    a_there,
    inl (refl, refl),
  ),
  (
    (
      fits table (
        omega arith,
        (
          omega arith,
          (omega arith, (omega arith, (omega arith, (omega arith, (omega arith, tt))))),
        ),
      ),
      a_there,
      inr (refl, symbols_there),
    ),
    tt,
  ),
)

names_there : struct_at sections 0 ≡ some strings
unfolding struct_at
names_there = refl

strings_there : is_string_table strings ≡ true
unfolding is_string_table
strings_there = refl

lazy_load_sections-entries_example :
    (last : ℕ) × (at_end : Bool) × (lazy_load_sections (loaded_file [] content 64 false header [])
      ≡ done (
        record {
          fname = [];
          ifs = sound content last at_end;
          filestruct = header;
          segments = [];
          sections = sections;
          symbol_table_section = symbol_table 0 none sections;
          started_lazy_load_sections = true;
        },
        true,
      ))
lazy_load_sections-entries_example =
    lazy_load_sections-entries [] content (7 ∷ []) behind 64 false header [] sections strings refl
      refl (omega arith) (omega arith) refl refl (λ e. cc) (omega arith) names_there strings_there
      sections_there

-- The symbol table is the second section.
second : symbol_table 0 none sections ≡ some 1
unfolding symbol_table takes_symbols
second = refl
