-- ===== src/Elf/Layout.antt =====
-- src/Elf.cpp and src/Elf.hpp: the structs of elf.h as the program copies them out of a buffer, in
-- both classes, on a little-endian machine. A field is wide enough for either class.
use exmap.Prelude.{
  ℕ, ◌+◌, ◌*◌, List, [], ◌∷◌, Option, none, some, ◌==◌, if◌then◌else◌, length, drop, take,
}
use exmap.Elf.Segment.{Segment}

-- A number in little-endian order.
unfoldable pub little_endian : List ℕ → ℕ
little_endian [] = 0
little_endian (b ∷ bytes) = b + 256 * little_endian bytes

-- The field of some width at an offset in a struct.
unfoldable pub field : List ℕ → ℕ → ℕ → ℕ
unfolding little_endian
field buffer offset width = little_endian (take width (drop offset buffer))

-- Elf32_Phdr and Elf64_Phdr, with their sizes.
unfoldable pub segment_struct32 : List ℕ → Segment
unfolding field
segment_struct32 buffer = record {
  vaddr = field buffer 8 4;
  memsz = field buffer 20 4;
  offset = field buffer 4 4;
  filesz = field buffer 16 4;
  type = field buffer 0 4;
  flags = field buffer 24 4;
  align = field buffer 28 4;
}

unfoldable pub segment_struct64 : List ℕ → Segment
unfolding field
segment_struct64 buffer = record {
  vaddr = field buffer 16 8;
  memsz = field buffer 40 8;
  offset = field buffer 8 8;
  filesz = field buffer 32 8;
  type = field buffer 0 4;
  flags = field buffer 4 4;
  align = field buffer 48 8;
}

-- Segment::init, by the size of the buffer; `none` is its false.
unfoldable pub init_segment : List ℕ → Option Segment
unfolding segment_struct32 segment_struct64
init_segment buffer =
    if length buffer == 32
    then some (segment_struct32 buffer)
    else if length buffer == 56
    then some (segment_struct64 buffer)
    else none

pub record SectionStruct : Type 0 where
  pub size : ℕ
  pub offset : ℕ
  pub addr : ℕ
  pub name : ℕ
  pub type : ℕ
  pub entsize : ℕ
  pub link : ℕ

unfoldable pub section_struct32 : List ℕ → SectionStruct
unfolding field
section_struct32 buffer = record {
  size = field buffer 20 4;
  offset = field buffer 16 4;
  addr = field buffer 12 4;
  name = field buffer 0 4;
  type = field buffer 4 4;
  entsize = field buffer 36 4;
  link = field buffer 24 4;
}

unfoldable pub section_struct64 : List ℕ → SectionStruct
unfolding field
section_struct64 buffer = record {
  size = field buffer 32 8;
  offset = field buffer 24 8;
  addr = field buffer 16 8;
  name = field buffer 0 4;
  type = field buffer 4 4;
  entsize = field buffer 56 8;
  link = field buffer 40 4;
}

unfoldable pub init_section : List ℕ → Option SectionStruct
unfolding section_struct32 section_struct64
init_section buffer =
    if length buffer == 40
    then some (section_struct32 buffer)
    else if length buffer == 64
    then some (section_struct64 buffer)
    else none

pub record SymbolStruct : Type 0 where
  pub size : ℕ
  pub value : ℕ
  pub name : ℕ
  pub info : ℕ

unfoldable pub symbol_struct32 : List ℕ → SymbolStruct
unfolding field
symbol_struct32 buffer = record {
  size = field buffer 8 4;
  value = field buffer 4 4;
  name = field buffer 0 4;
  info = field buffer 12 1;
}

unfoldable pub symbol_struct64 : List ℕ → SymbolStruct
unfolding field
symbol_struct64 buffer = record {
  size = field buffer 16 8;
  value = field buffer 8 8;
  name = field buffer 0 4;
  info = field buffer 4 1;
}

unfoldable pub init_symbol : List ℕ → Option SymbolStruct
unfolding symbol_struct32 symbol_struct64
init_symbol buffer =
    if length buffer == 16
    then some (symbol_struct32 buffer)
    else if length buffer == 24
    then some (symbol_struct64 buffer)
    else none

-- The fields of the file header that the program reads.
pub record FileStruct : Type 0 where
  pub type : ℕ
  pub shoff : ℕ
  pub shnum : ℕ
  pub shentsize : ℕ
  pub phoff : ℕ
  pub phnum : ℕ
  pub phentsize : ℕ
  pub shstrndx : ℕ

unfoldable pub file_struct32 : List ℕ → FileStruct
unfolding field
file_struct32 buffer = record {
  type = field buffer 16 2;
  shoff = field buffer 32 4;
  shnum = field buffer 48 2;
  shentsize = field buffer 46 2;
  phoff = field buffer 28 4;
  phnum = field buffer 44 2;
  phentsize = field buffer 42 2;
  shstrndx = field buffer 50 2;
}

unfoldable pub file_struct64 : List ℕ → FileStruct
unfolding field
file_struct64 buffer = record {
  type = field buffer 16 2;
  shoff = field buffer 40 8;
  shnum = field buffer 60 2;
  shentsize = field buffer 58 2;
  phoff = field buffer 32 8;
  phnum = field buffer 56 2;
  phentsize = field buffer 54 2;
  shstrndx = field buffer 62 2;
}
