-- ===== src/Elf/File/Lookup.antt =====
-- src/Elf.cpp: what a File is asked for, once its sections are loaded. A method may load them, and
-- returns the file afterwards. `none` is a null pointer.
use exmap.Prelude.{
  ℕ, not, List, [], ◌∷◌, Option, none, some, ◌==◌, if◌then◌else◌, length, get_elem?,
}
use exmap.Std.Names.{Name, name_eq}
use exmap.Outcome.{Outcome, done, ◌>>=◌}
use exmap.Range.{Range}
use exmap.Elf.Section.{Section, Symbol, is_defined, find_symbols, mem_range}
use exmap.Elf.File.{ElfFile, lazy_load_sections}

-- `if (!lazy_load_sections()) return` an empty result.
unfoldable pub with_sections {ℓ} :
    {A : Type ℓ} → ElfFile → A → (ElfFile → A) → Outcome (ElfFile × A)
with_sections elf empty f = do
  (loaded, worked) ← lazy_load_sections elf
  done (loaded, if worked then f loaded else empty)

unfoldable pub table_symbols : ElfFile → List Symbol
table_symbols elf = elim elf.symbol_table_section [
  | none ↦ []
  | some i ↦ elim (get_elem? elf.sections i) [ none ↦ [] | some section ↦ section.symbols ]
]

unfoldable pub all_symbols : ElfFile → Outcome (ElfFile × List Symbol)
unfolding with_sections table_symbols
all_symbols elf = with_sections elf [] table_symbols

unfoldable pub find_symbols_in_mem_range : ElfFile → Range → Outcome (ElfFile × List Symbol)
unfolding with_sections table_symbols find_symbols
find_symbols_in_mem_range elf mrange =
    with_sections elf [] (λ loaded. find_symbols (table_symbols loaded) mrange)

unfoldable pub defined_only : List Symbol → List Symbol
unfolding is_defined
defined_only [] = []
defined_only (it ∷ syms) = let rest = defined_only syms in if is_defined it then it ∷ rest else rest

unfoldable pub defined_symbols : ElfFile → Outcome (ElfFile × List Symbol)
unfolding all_symbols defined_only
defined_symbols elf = do (loaded, syms) ← all_symbols elf; done (loaded, defined_only syms)

unfoldable pub symbol_named : Name → List Symbol → Option Symbol
unfolding name_eq
symbol_named symname [] = none
symbol_named symname (it ∷ syms) =
    let rest = symbol_named symname syms in if name_eq it.name symname then some it else rest

unfoldable pub symbol : ElfFile → Name → Outcome (ElfFile × Option Symbol)
unfolding all_symbols symbol_named
symbol elf symname = do (loaded, syms) ← all_symbols elf; done (loaded, symbol_named symname syms)

-- The section may be null.
unfoldable pub symbols_in_section : ElfFile → Option Section → Outcome (ElfFile × List Symbol)
unfolding with_sections find_symbols_in_mem_range mem_range
symbols_in_section elf none = with_sections elf [] (λ loaded. [])
symbols_in_section elf (some section) = do
  (loaded, worked) ← lazy_load_sections elf
  (if worked
      then find_symbols_in_mem_range loaded (mem_range section.struct)
      else done (loaded, []))

unfoldable pub sections_of : ElfFile → Outcome (ElfFile × List Section)
unfolding with_sections
sections_of elf = with_sections elf [] (λ loaded. loaded.sections)

unfoldable pub num_sections : ElfFile → Outcome (ElfFile × ℕ)
unfolding sections_of
num_sections elf = do (loaded, sections) ← sections_of elf; done (loaded, length sections)

unfoldable pub section_at : ElfFile → ℕ → Outcome (ElfFile × Option Section)
unfolding with_sections
section_at elf i = with_sections elf none (λ loaded. get_elem? loaded.sections i)

unfoldable pub find_named : Name → List Section → Option Section
unfolding name_eq
find_named name [] = none
find_named name (it ∷ sections) =
    let rest = find_named name sections in if name_eq it.name name then some it else rest

unfoldable pub section_named : ElfFile → Name → Outcome (ElfFile × Option Section)
unfolding with_sections find_named
section_named elf name = with_sections elf none (λ loaded. find_named name loaded.sections)

unfoldable pub with_addr : List Section → List Section
with_addr [] = []
with_addr (it ∷ sections) =
    let rest = with_addr sections in if not (it.struct.addr == 0) then it ∷ rest else rest

unfoldable pub mappable_sections : ElfFile → Outcome (ElfFile × List Section)
unfolding with_sections with_addr
mappable_sections elf = with_sections elf [] (λ loaded. with_addr loaded.sections)
