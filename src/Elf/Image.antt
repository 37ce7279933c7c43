-- ===== src/Elf/Image.antt =====
-- The bytes of a 64-bit ELF file with some header and segments, in the order of elf.h, which is
-- what Elf::File::load reads.
use native.Mathlib.Nat.{pow-zero, pow-suc}
use exmap.Prelude.{
  ℕ, zero, suc, ◌+◌, ◌/◌, ◌%◌, ◌^◌, ◌<◌, ◌≡◌, refl, ◌∙◌, ap, List, [], ◌∷◌, ◌++◌, some, arith,
  length, length-append, true, false, ◌≤◌, drop, take,
}
use exmap.Std.Names.{name_eq, byte_is}
use exmap.Std.Streams.{Stream, opened, good, clear, seekg, read}
use exmap.Elf.Segment.{Segment}
use exmap.Elf.Tables.Chunks.{read_full}
use exmap.Elf.File.{magic, load_file_header, read_struct}
use exmap.Elf.Layout.{
  FileStruct, little_endian, field, segment_struct64, file_struct64, init_segment,
}

-- A number in so many bytes, the lowest first.
unfoldable pub le_bytes : ℕ → ℕ → List ℕ
le_bytes zero n = []
le_bytes (suc w) n = (n % 256) ∷ le_bytes w (n / 256)

pub little_endian-le_bytes : (w n : ℕ) → n < 256 ^ w → little_endian (le_bytes w n) ≡ n
unfolding little_endian le_bytes
little_endian-le_bytes zero n h = omega (arith, pow-zero 256)
little_endian-le_bytes (suc w) n h =
    omega (arith, little_endian-le_bytes w (n / 256) (omega (arith, pow-suc 256 w)))

unfoldable pub segment_bytes : Segment → List ℕ
segment_bytes s =
    le_bytes 4 s.type
    ++ (le_bytes 4 s.flags
        ++ (le_bytes 8 s.offset
            ++ (le_bytes 8 s.vaddr
                ++ (le_bytes 8 0
                    ++ (le_bytes 8 s.filesz ++ (le_bytes 8 s.memsz ++ le_bytes 8 s.align))))))

-- Each field of a segment is as wide as elf.h has it.
pub record FitsSegment (s : Segment) : Type 0 where
  pub type : s.type < 256 ^ 4
  pub flags : s.flags < 256 ^ 4
  pub offset : s.offset < 256 ^ 8
  pub vaddr : s.vaddr < 256 ^ 8
  pub filesz : s.filesz < 256 ^ 8
  pub memsz : s.memsz < 256 ^ 8
  pub align : s.align < 256 ^ 8

segment_bytes-struct : (s : Segment) → FitsSegment s → segment_struct64 (segment_bytes s) ≡ s
unfolding segment_bytes segment_struct64 field le_bytes little_endian
segment_bytes-struct s fits = λ i. record {
  vaddr = little_endian-le_bytes 8 s.vaddr fits.vaddr i;
  memsz = little_endian-le_bytes 8 s.memsz fits.memsz i;
  offset = little_endian-le_bytes 8 s.offset fits.offset i;
  filesz = little_endian-le_bytes 8 s.filesz fits.filesz i;
  type = little_endian-le_bytes 4 s.type fits.type i;
  flags = little_endian-le_bytes 4 s.flags fits.flags i;
  align = little_endian-le_bytes 8 s.align fits.align i;
}

pub length-segment_bytes : (s : Segment) → length (segment_bytes s) ≡ 56
unfolding segment_bytes le_bytes
length-segment_bytes s = refl

pub init_segment-bytes : (s : Segment) → FitsSegment s → init_segment (segment_bytes s) ≡ some s
unfolding init_segment
init_segment-bytes s fits =
    rw (length-segment_bytes s, init_segment) (ap some (segment_bytes-struct s fits))

-- The header of the class 64; what the program does not read is zero.
unfoldable pub header_bytes : FileStruct → List ℕ
header_bytes h =
    magic
    ++ (2 ∷ le_bytes 11 0
        ++ (le_bytes 2 h.type
            ++ (le_bytes 14 0
                ++ (le_bytes 8 h.phoff
                    ++ (le_bytes 8 h.shoff
                        ++ (le_bytes 6 0
                            ++ (le_bytes 2 h.phentsize
                                ++ (le_bytes 2 h.phnum
                                    ++ (le_bytes 2 h.shentsize
                                        ++ (le_bytes 2 h.shnum ++ le_bytes 2 h.shstrndx))))))))))

pub record FitsHeader (h : FileStruct) : Type 0 where
  pub type : h.type < 256 ^ 2
  pub shoff : h.shoff < 256 ^ 8
  pub shnum : h.shnum < 256 ^ 2
  pub shentsize : h.shentsize < 256 ^ 2
  pub phoff : h.phoff < 256 ^ 8
  pub phnum : h.phnum < 256 ^ 2
  pub phentsize : h.phentsize < 256 ^ 2
  pub shstrndx : h.shstrndx < 256 ^ 2

header_bytes-struct :
    (h : FileStruct) (tail : List ℕ)
    → FitsHeader h
    → file_struct64 (take 64 (header_bytes h ++ tail)) ≡ h
unfolding header_bytes file_struct64 field le_bytes little_endian
header_bytes-struct h tail fits = λ i. record {
  type = little_endian-le_bytes 2 h.type fits.type i;
  shoff = little_endian-le_bytes 8 h.shoff fits.shoff i;
  shnum = little_endian-le_bytes 2 h.shnum fits.shnum i;
  shentsize = little_endian-le_bytes 2 h.shentsize fits.shentsize i;
  phoff = little_endian-le_bytes 8 h.phoff fits.phoff i;
  phnum = little_endian-le_bytes 2 h.phnum fits.phnum i;
  phentsize = little_endian-le_bytes 2 h.phentsize fits.phentsize i;
  shstrndx = little_endian-le_bytes 2 h.shstrndx fits.shstrndx i;
}

pub length-header_bytes : (h : FileStruct) → length (header_bytes h) ≡ 64
unfolding header_bytes le_bytes
length-header_bytes h = refl

ident_magic :
    (h : FileStruct) (tail : List ℕ)
    → (name_eq (take 4 (take 16 (header_bytes h ++ tail))) magic ≡ true)
      × (byte_is (take 16 (header_bytes h ++ tail)) 4 1 ≡ false)
      × (byte_is (take 16 (header_bytes h ++ tail)) 4 2 ≡ true)
unfolding header_bytes le_bytes name_eq byte_is
ident_magic h tail = (refl, refl, refl)

load_file_header_64 :
    (content ident : List ℕ) (after : Stream)
    → read (opened content) 16 ≡ (ident, after)
    → name_eq (take 4 ident) magic ≡ true
    → byte_is ident 4 1 ≡ false
    → byte_is ident 4 2 ≡ true
    → load_file_header (opened content)
      ≡ read_struct (seekg (clear after) (some 0)) 64 file_struct64
unfolding load_file_header
load_file_header_64 content ident after e m c k = rw (e, m, c, k, load_file_header) refl

read_struct_full :
    (is : Stream) (size : ℕ) (struct : List ℕ → FileStruct)
    → good is ≡ true
    → size ≤ length (drop is.pos is.content)
    → read_struct is size struct
      ≡ some (struct (take size (drop is.pos is.content)), record is { pos = is.pos + size })
unfolding read_struct good
read_struct_full is size struct g h = rw (read_full is size g h, read_struct) (ground (arith, g))

-- The header is read back.
pub load_file_header-image :
    (h : FileStruct) (tail : List ℕ)
    → FitsHeader h
    → load_file_header (opened (header_bytes h ++ tail))
      ≡ some (h, record { content = header_bytes h ++ tail; pos = 64; eof = false; fail = false })
unfolding clear seekg good
load_file_header-image h tail fits =
    let start : Stream = opened (header_bytes h ++ tail) in
    let long : 64 ≤ length (header_bytes h ++ tail) =
      omega (arith, length-append (header_bytes h) tail, length-header_bytes h) in
    let (m, c, k) = ident_magic h tail in
    load_file_header_64 _ _ _ (read_full start 16 refl (omega arith)) m c k
    ∙ read_struct_full start 64 file_struct64 refl long
    ∙ ap (λ (s : FileStruct). some (s, record start { pos = 64 })) (header_bytes-struct h tail fits)
