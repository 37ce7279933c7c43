-- ===== src/Elf/Section.antt =====
-- src/Elf.cpp: Section and Symbol. The struct of a section or a symbol is never written again;
-- its name, and the symbols of a section, are set later from string tables in the file.
pub mod Names
pub mod Undefined
pub mod Symbols
use Prim.Native.Nat.{bit_and}
use exmap.Prelude.{
  ℕ, ◌+◌, ◌/◌, ◌%◌, ◌^◌, Bool, true, false, not, ◌&&◌, ◌||◌, List, [], ◌∷◌, ◌++◌, Option, none,
  some, ltb, leb, ◌==◌, if◌then◌else◌, length, add_word,
}
use exmap.Std.Names.{Name}
use exmap.Std.Streams.{Stream, seekg, getline}
use exmap.Outcome.{Outcome, done, crash, ◌>>=◌, deref}
use exmap.Range.{Range, overlaps}
use exmap.Elf.Layout.{SectionStruct, SymbolStruct, init_symbol}
use exmap.Elf.Tables.{load_table}

pub record Symbol : Type 0 where
  pub struct : SymbolStruct
  pub name : Name

pub record Section : Type 0 where
  pub struct : SectionStruct
  pub name : Name
  pub symbols : List Symbol

-- `_symstruct->value()` and `_symstruct->value() + _symstruct->size()`
unfoldable pub symbol_range : Symbol → Range
symbol_range symbol =
    let s = symbol.struct in record { start = s.value; end = add_word s.value s.size }

unfoldable pub is_defined : Symbol → Bool
is_defined symbol = not (symbol.struct.value == 0) && not (length symbol.name == 0)

unfoldable pub symbol_type : Symbol → ℕ
symbol_type symbol = bit_and symbol.struct.info 0xf

unfoldable pub is_func : Symbol → Bool
unfolding symbol_type
is_func symbol = symbol_type symbol == 2

unfoldable pub is_data : Symbol → Bool
unfolding symbol_type
is_data symbol = symbol_type symbol == 1

unfoldable pub is_file : Symbol → Bool
unfolding symbol_type
is_file symbol = symbol_type symbol == 4

unfoldable pub is_section : Symbol → Bool
unfolding symbol_type
is_section symbol = symbol_type symbol == 3

unfoldable pub mem_range : SectionStruct → Range
mem_range s = record { start = s.addr; end = add_word s.addr s.size }

unfoldable pub file_range : SectionStruct → Range
file_range s = record { start = s.offset; end = add_word s.offset s.size }

unfoldable pub is_null : SectionStruct → Bool
is_null s = s.type == 0

unfoldable pub is_string_table : SectionStruct → Bool
is_string_table s = s.type == 3

unfoldable pub is_dynsym_table : SectionStruct → Bool
is_dynsym_table s = s.type == 11

unfoldable pub is_symbol_table : SectionStruct → Bool
unfolding is_dynsym_table
is_symbol_table s = s.type == 2 || is_dynsym_table s

unfoldable pub is_nobits : SectionStruct → Bool
is_nobits s = s.type == 8

-- The sum is cut to an int, which may be negative.
unfoldable pub string_offset : SectionStruct → ℕ → Option ℕ
string_offset table index =
    let offset = (table.offset + index) % 2 ^ 32 in
    if ltb offset (2 ^ 31) then some offset else none

-- `index` is an int, given by its 32-bit pattern. The buffer has 1024 bytes.
unfoldable pub find_string : Stream → SectionStruct → ℕ → Name × Stream
unfolding seekg getline is_string_table string_offset
find_string is table index =
    let (line, read_on) = getline (seekg is (string_offset table index)) 1023 in
    if not (is_string_table table) || leb (2 ^ 31) index
    then ([], is)
    else (if read_on.fail then [] else line, read_on)

-- Symbol::set_name, for a string table that may be null. A name index is cut to an int.
unfoldable pub set_symbol_name : Stream → Option SectionStruct → Symbol → Outcome (Stream × Symbol)
unfolding find_string
set_symbol_name is string_table symbol = do
  table ← deref string_table
  let (name, read_on) = find_string is table (symbol.struct.name % 2 ^ 32)
  done (read_on, record symbol { name = name })

-- The loop of load_symbols. A buffer of another size is only warned of.
unfoldable pub symbol_loop :
    Stream → Option SectionStruct → List (List ℕ) → Outcome (Stream × List Symbol)
unfolding set_symbol_name init_symbol
symbol_loop is string_table [] = done (is, [])
symbol_loop is string_table (it ∷ entries) = elim (init_symbol it) [
  | none ↦ symbol_loop is string_table entries
  | some struct ↦ do
    (read_on, symbol) ← set_symbol_name is string_table (record { struct = struct; name = [] })
    (last, symbols) ← symbol_loop read_on string_table entries
    done (last, symbol ∷ symbols)
]

-- What load_symbols does with the entries, if it gets any.
unfoldable pub keep_symbols :
    Section
    → Option SectionStruct
    → Stream × List (List ℕ) × Bool
    → Outcome (Stream × Section × Bool)
unfolding symbol_loop
keep_symbols section string_table (is, entries, worked) =
    if not worked || length entries == 0 then done (is, section, false) else do
      (read_on, symbols) ← symbol_loop is string_table entries
      done (read_on, record section { symbols = symbols }, true)

-- The entry size is cut to an unsigned int, the total size to an int, and the count and the entry
-- size to shorts.
unfoldable pub load_symbols :
    Stream → Section → Option SectionStruct → Outcome (Stream × Section × Bool)
unfolding is_symbol_table load_table keep_symbols
load_symbols is section string_table =
    let s = section.struct in
    let symentry_size = s.entsize % 2 ^ 32 in
    let total_size = s.size % 2 ^ 32 in
    if not (is_symbol_table s)
    then done (is, section, false)
    else if symentry_size == 0
    then done (is, section, false)
    else if not (total_size % symentry_size == 0)
    then done (is, section, false)
    else (do
      table ← load_table is s.offset (total_size / symentry_size % 2 ^ 16) (symentry_size % 2 ^ 16)
      keep_symbols section string_table table)

-- Section::find_symbols_in_mem_range
unfoldable pub find_symbols : List Symbol → Range → List Symbol
unfolding is_defined symbol_range overlaps
find_symbols [] mrange = []
find_symbols (it ∷ symbols) mrange =
    let rest = find_symbols symbols mrange in
    if is_defined it && overlaps mrange (symbol_range it) then it ∷ rest else rest
