-- ===== src/Calculator/Shift.antt =====
-- How calc_map_for_seg relates the addresses of an ELF segment, of memory and of the file.
use exmap.Prelude.{ℕ, ◌≤◌, ◌<◌, ◌≡◌, some, arith, IsWord, add_word, sub_word}
use exmap.Range.{Range, size, add, subtract}
use exmap.Range.Basic.{IsWellFormed, contains_range_iff}
use exmap.Elf.Segment.{Segment, mem_range}
use exmap.Vma.{Vma}
use exmap.Map.{elf_to_mem_range}
use exmap.Calculator.Segments.{seg_offset, working_range}

-- The byte of the file that an area maps at an address of memory is the byte that the segment
-- maps at the address shifted back by `seg_offset`, for every word as address.
pub seg_offset_file :
    (seg : Segment) (vma : Vma) (addr : ℕ)
    → IsWord addr
    → IsWord seg.vaddr
    → IsWord seg.offset
    → IsWord vma.range.start
    → IsWord vma.offset
    → add_word vma.offset (sub_word addr vma.range.start)
      ≡ add_word seg.offset (sub_word (sub_word addr (seg_offset seg vma)) seg.vaddr)
unfolding seg_offset
seg_offset_file seg vma addr ha hv ho hs hf = omega arith

module _ (seg : Segment) (vma : Vma) (offset : ℕ) (w : Range) (word : IsWord offset)
    (wf_seg : IsWellFormed (mem_range seg)) (wf_shifted : IsWellFormed (add (mem_range seg) offset))
    (wf_vma : IsWellFormed vma.range) (works : working_range seg offset vma ≡ some w) where
  -- Where a segment and its shift into memory do not wrap around, the memory range of a new map is
  -- a non-empty part of the area and of the shifted segment. Its ELF range is a part of the
  -- segment, of the same size.
  pub working_range_lem :
      (vma.range.start ≤ w.start)
      × (w.start < w.end)
      × (w.end ≤ vma.range.end)
      × ((mem_range seg).start ≤ (subtract w offset).start)
      × ((subtract w offset).end ≤ (mem_range seg).end)
      × (size (subtract w offset) ≡ size w)
  unfolding working_range subtract size add
  working_range_lem = ground arith

  -- The map made of the two ranges carries an ELF range within its own to the memory range that
  -- is `offset` higher, within the memory range of the map.
  pub elf_to_mem_range_lem :
      (r : Range)
      → (subtract w offset).start ≤ r.start
      → r.start < r.end
      → r.end ≤ (subtract w offset).end
      → (elf_to_mem_range
            (record { vma = vma; mem_range = w; elf_range = some (subtract w offset) })
            (subtract w offset)
            r
          ≡ some (add r offset))
        × (w.start ≤ (add r offset).start)
        × ((add r offset).end ≤ w.end)
        × (size (add r offset) ≡ size r)
  unfolding elf_to_mem_range subtract add size
  elf_to_mem_range_lem r h l e =
      let b = working_range_lem in
      let inside = (contains_range_iff (subtract w offset) r l).1 (h, e) in
      (
        rw (inside, elf_to_mem_range) (ground (arith, b, word, wf_seg, wf_vma)),
        ground (arith, b, word, wf_seg, wf_vma),
        ground (arith, b, word, wf_seg, wf_vma),
        ground (arith, b, word, wf_seg, wf_vma),
      )
