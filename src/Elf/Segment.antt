-- ===== src/Elf/Segment.antt =====
-- src/Elf.cpp and src/Elf.hpp: Segment, an entry of the program header table. The fields are those
-- of Elf32_Phdr and Elf64_Phdr that the program reads.
use Prim.Native.Nat.{bit_and}
use exmap.Prelude.{ℕ, Bool, not, ◌==◌, add_word}
use exmap.Range.{Range}

pub record Segment : Type 0 where
  pub vaddr : ℕ
  pub memsz : ℕ
  pub offset : ℕ
  pub filesz : ℕ
  pub type : ℕ
  pub flags : ℕ
  pub align : ℕ

-- PT_LOAD, PF_X, PF_W and PF_R of elf.h.
abbrev pub pt_load : ℕ
pt_load = 1

unfoldable pub mem_range : Segment → Range
mem_range seg = record { start = seg.vaddr; end = add_word seg.vaddr seg.memsz }

unfoldable pub file_range : Segment → Range
file_range seg = record { start = seg.offset; end = add_word seg.offset seg.filesz }

unfoldable pub is_load : Segment → Bool
is_load seg = seg.type == pt_load

unfoldable pub flag_is_set : Segment → ℕ → Bool
flag_is_set seg flag = not (bit_and seg.flags flag == 0)

unfoldable pub is_readable : Segment → Bool
unfolding flag_is_set
is_readable seg = flag_is_set seg 4

unfoldable pub is_writable : Segment → Bool
unfolding flag_is_set
is_writable seg = flag_is_set seg 2

unfoldable pub is_executable : Segment → Bool
unfolding flag_is_set
is_executable seg = flag_is_set seg 1
