-- ===== src/Elf/Section/Symbols.antt =====
-- load_symbols reads back the symbol table of a 64-bit file.
use mathlib.Core.Path.{ap₂}
use exmap.Prelude.{
  ℕ, suc, ◌+◌, ◌*◌, ◌/◌, ◌%◌, ◌^◌, ◌≤◌, ◌<◌, ◌≡◌, ◌≢◌, refl, ap, ◌∙◌, sym, Bool, true, false, List,
  [], ◌∷◌, ◌++◌, Option, some, arith, ◌==◌, length, All, joined,
}
use exmap.Std.Names.{Name}
use exmap.Std.Streams.{Stream}
use exmap.Outcome.{done}
use exmap.Elf.Layout.{
  SectionStruct, SymbolStruct, init_symbol, symbol_struct64, field, little_endian,
}
use exmap.Elf.Image.{le_bytes, little_endian-le_bytes}
use exmap.Elf.Tables.{load_table}
use exmap.Elf.Tables.Chunks.{HaveSize, load_table-joined}
use exmap.Elf.Section.{
  Section, Symbol, is_string_table, is_symbol_table, find_string, symbol_loop, keep_symbols,
  load_symbols,
}
use exmap.Elf.Section.Names.{sound, find_string-name, set_name_steps, symbol_loop_step}

-- A symbol in the order of elf.h; what the program does not read is zero.
unfoldable pub symbol_bytes : SymbolStruct → List ℕ
symbol_bytes s =
    le_bytes 4 s.name
    ++ (le_bytes 1 s.info ++ (le_bytes 3 0 ++ (le_bytes 8 s.value ++ le_bytes 8 s.size)))

pub record FitsSymbol (s : SymbolStruct) : Type 0 where
  pub name : s.name < 256 ^ 4
  pub info : s.info < 256 ^ 1
  pub value : s.value < 256 ^ 8
  pub size : s.size < 256 ^ 8

symbol_bytes-struct : (s : SymbolStruct) → FitsSymbol s → symbol_struct64 (symbol_bytes s) ≡ s
unfolding symbol_bytes symbol_struct64 field le_bytes little_endian
symbol_bytes-struct s fits = λ i. record {
  name = little_endian-le_bytes 4 s.name fits.name i;
  info = little_endian-le_bytes 1 s.info fits.info i;
  value = little_endian-le_bytes 8 s.value fits.value i;
  size = little_endian-le_bytes 8 s.size fits.size i;
}

length-symbol_bytes : (s : SymbolStruct) → length (symbol_bytes s) ≡ 24
unfolding symbol_bytes le_bytes
length-symbol_bytes s = refl

init_symbol-bytes : (s : SymbolStruct) → FitsSymbol s → init_symbol (symbol_bytes s) ≡ some s
unfolding init_symbol
init_symbol-bytes s fits =
    rw (length-symbol_bytes s, init_symbol) (ap some (symbol_bytes-struct s fits))

-- The name at an index of a string table, in the bytes of a file.
pub record NameAt (content : List ℕ) (table : SectionStruct) (index : ℕ) (name : Name)
    : Type 0 where
  pub front : List ℕ
  pub rest : List ℕ
  pub lies : content ≡ front ++ (name ++ (0 ∷ rest))
  pub at : (table.offset + index) % 2 ^ 32 ≡ length front
  pub near : length front < 2 ^ 31
  pub small : index < 2 ^ 31
  pub nonzero : All (λ (b : ℕ). b ≢ 0) name
  pub short : length name ≤ 1023

-- find_string reads it, and leaves a stream that has not failed.
pub find_string-NameAt :
    (content : List ℕ) (pos : ℕ) (eof : Bool) (table : SectionStruct) (index : ℕ) (name : Name)
    → is_string_table table ≡ true
    → (n : NameAt content table index name)
    → find_string (sound content pos eof) table index
      ≡ (name, sound content (length n.front + length name + 1) false)
find_string-NameAt content pos eof table index name t n =
    ap (λ (c : List ℕ). find_string (sound c pos eof) table index) n.lies
    ∙ find_string-name n.front name n.rest pos eof table index t n.small n.at n.near n.nonzero
        n.short
    ∙ ap (λ (c : List ℕ). (name, sound c (length n.front + length name + 1) false)) (sym n.lies)

-- The entries of some symbols, and what makes each readable.
unfoldable pub symbol_entries : List Symbol → List (List ℕ)
symbol_entries [] = []
symbol_entries (s ∷ symbols) = symbol_bytes s.struct ∷ symbol_entries symbols

abbrev pub IsReadable : List ℕ → SectionStruct → Symbol → Type 0
IsReadable content table s = FitsSymbol s.struct × NameAt content table s.struct.name s.name

symbol_entries-HaveSize : (symbols : List Symbol) → HaveSize 24 (symbol_entries symbols)
unfolding symbol_entries
symbol_entries-HaveSize [] = tt
symbol_entries-HaveSize (s ∷ symbols) =
    (length-symbol_bytes s.struct, symbol_entries-HaveSize symbols)

length-symbol_entries : (symbols : List Symbol) → length (symbol_entries symbols) ≡ length symbols
unfolding symbol_entries
length-symbol_entries [] = refl
length-symbol_entries (s ∷ symbols) = ap suc (length-symbol_entries symbols)

symbol_loop-entries :
    (content : List ℕ) (pos : ℕ) (eof : Bool) (table : SectionStruct) (symbols : List Symbol)
    → is_string_table table ≡ true
    → All (IsReadable content table) symbols
    → (last : ℕ) × (at_end : Bool) × (symbol_loop
          (sound content pos eof)
          (some table)
          (symbol_entries symbols)
        ≡ done (sound content last at_end, symbols))
unfolding symbol_loop symbol_entries
symbol_loop-entries content pos eof table [] t h = (pos, eof, refl)
symbol_loop-entries content pos eof table (s ∷ symbols) t ((fits, n), h) =
    let next : ℕ = length n.front + length s.name + 1 in
    let (last, at_end, run) = symbol_loop-entries content next false table symbols t h in
    let same : s.struct.name % 2 ^ 32 ≡ s.struct.name = omega (arith, n.small) in
    let named =
      set_name_steps (sound content pos eof) (sound content next false) table
        (record { struct = s.struct; name = [] }) s.name
        (ap (find_string (sound content pos eof) table) same
          ∙ find_string-NameAt content pos eof table s.struct.name s.name t n) in
    (
      last,
      at_end,
      symbol_loop_step (sound content pos eof) (sound content next false) _ (some table)
          (symbol_bytes s.struct) (symbol_entries symbols) s.struct s symbols
          (init_symbol-bytes s.struct fits) named run,
    )

-- load_symbols, by what load_table gives of `num` entries of 24 bytes.
load_symbols_steps :
    (is : Stream) (section : Section) (string_table : Option SectionStruct) (num : ℕ)
    (table : Stream × List (List ℕ) × Bool)
    → is_symbol_table section.struct ≡ true
    → section.struct.entsize ≡ 24
    → section.struct.size ≡ num * 24
    → num < 2 ^ 15
    → load_table is section.struct.offset num 24 ≡ done table
    → load_symbols is section string_table ≡ keep_symbols section string_table table
unfolding load_symbols
load_symbols_steps is section string_table num table is_table wide size few e =
    let total : section.struct.size % 2 ^ 32 ≡ num * 24 = omega (arith, size, few) in
    let whole : (num * 24 % 24 == 0) ≡ true = ground arith in
    let count : num * 24 / 24 % 2 ^ 16 ≡ num = omega (arith, few) in
    rw (is_table, wide, total, whole, count, e, load_symbols) refl

keep_symbols_steps :
    (section : Section) (string_table : Option SectionStruct) (is last : Stream)
    (entries : List (List ℕ)) (symbols : List Symbol)
    → entries ≢ []
    → symbol_loop is string_table entries ≡ done (last, symbols)
    → keep_symbols section string_table (is, entries, true)
      ≡ done (last, record section { symbols = symbols }, true)
unfolding keep_symbols
keep_symbols_steps section string_table is last [] symbols ne e = absurd (ne refl)
keep_symbols_steps section string_table is last (entry ∷ entries) symbols ne e =
    rw (e, keep_symbols) (ground arith)

entries_nonempty : (symbols : List Symbol) → symbols ≢ [] → symbol_entries symbols ≢ []
unfolding symbol_entries
entries_nonempty [] ne = absurd (ne refl)
entries_nonempty (s ∷ symbols) ne = λ e. cc

-- The entries of from 1 to 32767 symbols lie in a 64-bit file where a symbol table of 24-byte entries
-- has its offset, and each symbol's name lies at its index in a string table, with at most 1023
-- bytes; the fields fit their widths. Then load_symbols works, wherever the stream stood, if it had
-- not failed: the section has exactly these symbols, with their names, and the stream has not
-- failed.
pub load_symbols-entries :
    (content front behind : List ℕ) (pos : ℕ) (eof : Bool) (section : Section)
    (string_table : SectionStruct) (symbols : List Symbol)
    → content ≡ front ++ (joined (symbol_entries symbols) ++ behind)
    → is_symbol_table section.struct ≡ true
    → section.struct.offset ≡ length front
    → 0 < length front
    → length front < 2 ^ 63
    → section.struct.entsize ≡ 24
    → section.struct.size ≡ length symbols * 24
    → symbols ≢ []
    → length symbols < 2 ^ 15
    → is_string_table string_table ≡ true
    → All (IsReadable content string_table) symbols
    → (last : ℕ) × (at_end : Bool) × (load_symbols
          (sound content pos eof)
          section
          (some string_table)
        ≡ done (sound content last at_end, record section { symbols = symbols }, true))
load_symbols-entries content front behind pos eof section string_table symbols lies is_table at
      some_front near wide size ne few t readable =
    let entries : List (List ℕ) = symbol_entries symbols in
    let count : length entries ≡ length symbols = length-symbol_entries symbols in
    let after : ℕ = length front + length entries * 24 in
    let (last, at_end, run) =
      symbol_loop-entries content after false string_table symbols t readable in
    let table =
      load_table-joined (sound content pos eof) front entries behind 24 refl lies some_front near
        (symbol_entries-HaveSize symbols) (omega arith) (omega arith) (entries_nonempty symbols ne)
        (omega (arith, count, few)) in
    (
      last,
      at_end,
      load_symbols_steps (sound content pos eof) section (some string_table) (length symbols)
            (sound content after false, entries, true) is_table wide size few
            (ap₂ (λ (o n : ℕ). load_table (sound content pos eof) o n 24) at (sym count) ∙ table)
          ∙ keep_symbols_steps section (some string_table) (sound content after false)
              (sound content last at_end) entries symbols (entries_nonempty symbols ne) run,
    )
