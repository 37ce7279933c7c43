-- ===== src/Examples/Binary.antt =====
-- ELF files.
use exmap.Prelude.{
  ℕ, zero, suc, ◌≡◌, ◌≢◌, refl, true, false, List, [], ◌∷◌, ◌++◌, Option, some, arith, length, All,
}
use exmap.Std.Names.{Name}
use exmap.Std.Streams.{Stream}
use exmap.Outcome.{done}
use exmap.Elf.Segment.{Segment}
use exmap.Elf.Layout.{FileStruct, SectionStruct, SymbolStruct, init_symbol}
use exmap.Elf.Section.{Symbol, is_defined, is_string_table, symbol_loop}
use exmap.Elf.Section.Names.{sound}
use exmap.Elf.Section.Undefined.{symbol_loop-long_name}
use exmap.Elf.Image.{FitsHeader, FitsSegment}
use exmap.Elf.File.{ElfFile, load}
use exmap.Elf.Loading.{image, load-image}

abbrev text_segment : Segment
text_segment = record {
  vaddr = 0x400000;
  memsz = 0x1000;
  offset = 0;
  filesz = 0x1000;
  type = 1;
  flags = 5;
  align = 0x1000;
}

abbrev header : FileStruct
header = record {
  type = 2;
  shoff = 0;
  shnum = 0;
  shentsize = 64;
  phoff = 66;
  phnum = 1;
  phentsize = 56;
  shstrndx = 0;
}

abbrev binary : Name → Option (List ℕ)
binary name = some (image header (0 ∷ 0 ∷ []) (text_segment ∷ []) (7 ∷ []))

header_fits : FitsHeader header
header_fits = record {
  type = omega arith;
  shoff = omega arith;
  shnum = omega arith;
  shentsize = omega arith;
  phoff = omega arith;
  phnum = omega arith;
  phentsize = omega arith;
  shstrndx = omega arith;
}

segment_fits : FitsSegment text_segment
segment_fits = record {
  type = omega arith;
  flags = omega arith;
  offset = omega arith;
  vaddr = omega arith;
  filesz = omega arith;
  memsz = omega arith;
  align = omega arith;
}

load-image_example :
    (elf : ElfFile) × (load binary [] ≡ done (some elf))
    × (elf.filestruct ≡ header)
    × (elf.segments ≡ text_segment ∷ [])
    × (elf.sections ≡ [])
    × (elf.started_lazy_load_sections ≡ false)
load-image_example =
    load-image binary [] header (0 ∷ 0 ∷ []) (text_segment ∷ []) (7 ∷ []) refl header_fits refl
      (omega arith) refl refl (segment_fits, tt) (λ e. cc) (omega arith)

abbrev strings : SectionStruct
strings = record { name = 0; type = 3; addr = 0; offset = 1; size = 8; link = 0; entsize = 0 }

strings_are : is_string_table strings ≡ true
unfolding is_string_table
strings_are = refl

abbrev letters : ℕ → Name
letters zero = []
letters (suc n) = b'a' ∷ letters n

letters_all : (n : ℕ) → All (λ (b : ℕ). b ≢ 0) (letters n)
letters_all zero = tt
letters_all (suc n) = (λ e. cc, letters_all n)

length-letters : (n : ℕ) → length (letters n) ≡ n
length-letters zero = refl
length-letters (suc n) = omega (arith, length-letters n)

-- A 64-bit entry of the symbol table: its name is at the index 1, its value is 9.
abbrev entry : List ℕ
entry =
    1 ∷ 0 ∷ 0 ∷ 0 ∷ 18 ∷ 0 ∷ 0 ∷ 0 ∷ 9 ∷ 0 ∷ 0 ∷ 0 ∷ 0 ∷ 0 ∷ 0 ∷ 0 ∷ 0 ∷ 0 ∷ 0 ∷ 0 ∷ 0 ∷ 0 ∷ 0 ∷ 0
    ∷ []

abbrev entry_struct : SymbolStruct
entry_struct = record { name = 1; value = 9; size = 0; info = 18 }

entry_init : init_symbol entry ≡ some entry_struct
unfolding init_symbol
entry_init = refl

symbol_loop-long_name_example :
    (last : Stream) × (symbols : List Symbol) × (symbol_loop
        (sound ((0 ∷ 1 ∷ []) ++ (letters 1024 ++ (0 ∷ []))) 0 false)
        (some strings)
        (entry ∷ entry ∷ [])
      ≡ done (last, symbols))
    × (last.fail ≡ true)
    × All (λ (symbol : Symbol). is_defined symbol ≡ false) symbols
symbol_loop-long_name_example =
    symbol_loop-long_name (0 ∷ 1 ∷ []) (letters 1024) (0 ∷ []) 0 false strings entry (entry ∷ [])
      entry_struct entry_init strings_are (omega arith) refl (omega arith) (letters_all 1024)
      (omega (arith, length-letters 1024))
