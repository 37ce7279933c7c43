-- ===== src/Elf/Loading.antt =====
-- Elf::File::load reads back the header and the segments of a 64-bit file.
use mathlib.Core.List.{append_assoc}
use mathlib.Core.Path.{ap₂}
use exmap.Prelude.{
  ℕ, ◌+◌, ◌*◌, ◌%◌, ◌^◌, ◌<◌, ◌≡◌, ◌≢◌, refl, ◌∙◌, ap, sym, true, false, List, [], ◌∷◌, ◌++◌,
  Option, none, some, arith, ◌==◌, length, length-append, map, All, joined,
}
use exmap.Std.Names.{Name}
use exmap.Std.Streams.{Stream, opened}
use exmap.Outcome.{done}
use exmap.Elf.Segment.{Segment}
use exmap.Elf.Layout.{FileStruct}
use exmap.Elf.Tables.{load_table}
use exmap.Elf.Tables.Chunks.{HaveSize, load_table-joined}
use exmap.Elf.File.{ElfFile, load, load_file_header, load_segments, segment_loop}
use exmap.Elf.Image.{
  segment_bytes, length-segment_bytes, init_segment-bytes, FitsSegment, header_bytes,
  length-header_bytes, FitsHeader, load_file_header-image,
}

-- A file: the header, some padding, the program header table and anything behind it.
unfoldable pub image : FileStruct → List ℕ → List Segment → List ℕ → List ℕ
image h padding segs rest = header_bytes h ++ (padding ++ (joined (map segment_bytes segs) ++ rest))

segment_loop-bytes :
    (segs : List Segment) → All FitsSegment segs → segment_loop (map segment_bytes segs) ≡ segs
unfolding segment_loop
segment_loop-bytes [] h = refl
segment_loop-bytes (s ∷ segs) h =
    rw (init_segment-bytes s h.0, segment_loop) (ap (◌∷◌ s) (segment_loop-bytes segs h.1))

segment_bytes-HaveSize : (segs : List Segment) → HaveSize 56 (map segment_bytes segs)
segment_bytes-HaveSize [] = tt
segment_bytes-HaveSize (s ∷ segs) = (length-segment_bytes s, segment_bytes-HaveSize segs)

length-map : (segs : List Segment) → length (map segment_bytes segs) ≡ length segs
length-map [] = refl
length-map (s ∷ segs) = omega (arith, length-map segs)

map-nonempty : (segs : List Segment) → segs ≢ [] → map segment_bytes segs ≢ []
map-nonempty [] h = absurd (h refl)
map-nonempty (s ∷ segs) h = λ e. cc

some_left : (segs : List Segment) → segs ≢ [] → (length segs == 0) ≡ false
some_left [] h = absurd (h refl)
some_left (s ∷ segs) h = ground arith

-- load, by what its two steps give.
load_steps :
    (files : Name → Option (List ℕ)) (fname : Name) (content : List ℕ) (h : FileStruct)
    (ifs after : Stream) (segs : List Segment)
    → segs ≢ []
    → files fname ≡ some content
    → load_file_header (opened content) ≡ some (h, ifs)
    → load_segments ifs h ≡ done (after, segs)
    → load files fname
      ≡ done (
          some (record {
            fname = fname;
            ifs = after;
            filestruct = h;
            segments = segs;
            sections = [];
            symbol_table_section = none;
            started_lazy_load_sections = false;
          }))
unfolding load
load_steps files fname content h ifs after segs ne e f g =
    rw (e, f, g, some_left segs ne, load) refl

load_segments_step :
    (ifs after : Stream) (h : FileStruct) (entries : List (List ℕ))
    → load_table ifs h.phoff (h.phnum % 2 ^ 16) (h.phentsize % 2 ^ 16) ≡ done (after, entries, true)
    → load_segments ifs h ≡ done (after, segment_loop entries)
unfolding load_segments
load_segments_step ifs after h entries e = rw (e, load_segments) refl

-- The header table is read, whatever bytes lie around it.
load_segments-image :
    (h : FileStruct) (front : List ℕ) (segs : List Segment) (rest : List ℕ) (pos : ℕ)
    → length front ≡ h.phoff
    → 0 < h.phoff
    → h.phoff < 2 ^ 63
    → h.phnum ≡ length segs
    → h.phentsize ≡ 56
    → All FitsSegment segs
    → segs ≢ []
    → length segs < 2 ^ 15
    → load_segments
        (record {
          content = front ++ (joined (map segment_bytes segs) ++ rest);
          pos = pos;
          eof = false;
          fail = false;
        })
        h
      ≡ done (
        record {
          content = front ++ (joined (map segment_bytes segs) ++ rest);
          pos = h.phoff + length segs * 56;
          eof = false;
          fail = false;
        },
        segs,
      )
load_segments-image h front segs rest pos lies some_front small num wide fits ne few =
    let is : Stream = record {
      content = front ++ (joined (map segment_bytes segs) ++ rest);
      pos = pos;
      eof = false;
      fail = false;
    } in
    let entries : List (List ℕ) = map segment_bytes segs in
    let count : length entries ≡ length segs = length-map segs in
    let cut : h.phnum % 2 ^ 16 ≡ length entries = omega (arith, num, count, few) in
    let size : h.phentsize % 2 ^ 16 ≡ 56 = rw wide refl in
    let table =
      load_table-joined is front entries rest 56 refl refl (omega (arith, lies, some_front))
        (omega (arith, lies, small)) (segment_bytes-HaveSize segs) (omega arith) (omega arith)
        (map-nonempty segs ne) (omega (arith, count, few)) in
    let after : Stream = record is { pos = length front + length entries * 56 } in
    load_segments_step is after h entries
      (rw (cut, size) (ap (λ (p : ℕ). load_table is p (length entries) 56) (sym lies) ∙ table))
    ∙ ap₂ (λ (p : ℕ) (l : List Segment). done (record is { pos = p }, l))
        (omega (arith, lies, count)) (segment_loop-bytes segs fits)

-- A 64-bit file: its header, the program header table of it, and whatever bytes lie between them
-- and behind. If the header's fields say where the table is, how many entries it has (from 1 to
-- 32767) and that they are 56 bytes each, and every field fits its width in the file, then `load`
-- ends with the file loaded: its header and its segments are those, no section is there, and the
-- sections are still to be loaded.
pub load-image :
    (files : Name → Option (List ℕ)) (fname : Name) (h : FileStruct) (padding : List ℕ)
    (segs : List Segment) (rest : List ℕ)
    → files fname ≡ some (image h padding segs rest)
    → FitsHeader h
    → h.phoff ≡ 64 + length padding
    → h.phoff < 2 ^ 63
    → h.phnum ≡ length segs
    → h.phentsize ≡ 56
    → All FitsSegment segs
    → segs ≢ []
    → length segs < 2 ^ 15
    → (elf : ElfFile) × (load files fname ≡ done (some elf))
      × (elf.filestruct ≡ h)
      × (elf.segments ≡ segs)
      × (elf.sections ≡ [])
      × (elf.started_lazy_load_sections ≡ false)
unfolding image
load-image files fname h padding segs rest lies header lies_at small num wide fits ne few =
    let front : List ℕ = header_bytes h ++ padding in
    let table : List ℕ = joined (map segment_bytes segs) ++ rest in
    let assoc : front ++ table ≡ image h padding segs rest =
      append_assoc (header_bytes h) padding table in
    let front_size : length front ≡ h.phoff =
      omega (arith, length-append (header_bytes h) padding, length-header_bytes h, lies_at) in
    (
      _,
      load_steps files fname (front ++ table) h _ _ segs ne (lies ∙ ap some (sym assoc))
          (ap (λ (c : List ℕ). load_file_header (opened c)) assoc
            ∙ load_file_header-image h (padding ++ table) header
            ∙ ap
                (λ (c : List ℕ).
                  some (h, record { content = c; pos = 64; eof = false; fail = false }))
                (sym assoc))
          (load_segments-image h front segs rest 64 front_size (omega (arith, lies_at)) small num
            wide fits ne few),
      refl,
      refl,
      refl,
      refl,
    )
