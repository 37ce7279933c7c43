-- ===== src/Calculator/Steps.antt =====
-- The equations of the methods of the calculation: one for each branch, with what it goes on with.
use exmap.Prelude.{
  ℕ, ◌≡◌, refl, true, false, List, [], ◌∷◌, Option, none, some, ◌==◌, length, not, if◌then◌else◌,
}
use exmap.Std.Names.{Name, name_eq, name_key}
use exmap.Range.{Range, subtract}
use exmap.Elf.Segment.{Segment}
use exmap.Elf.File.{ElfFile, loadable_segments}
use exmap.Vma.{Vma, is_file_backed}
use exmap.Outcome.{done, crash, ◌>>=◌, deref}
use exmap.File.{File, get_or_make_file}
use exmap.Calculator.{Calc, push_map}
use exmap.Calculator.Walk.{vmas_of}
use exmap.Calculator.Segments.{
  seg_offset, working_range, seg_loop, drop_anon, calc_map_for_seg, segs_loop,
  calc_maps_for_elf_file, nonelf_loop, calc_maps_for_nonelf_file, calc_by_kind, calc_maps_for_file,
}
use exmap.Calculator.Run.{names_loop}

-- The shift that a round of calc_map_for_seg goes on with.
abbrev pub shift : Segment → Vma → ℕ → ℕ
shift seg vma seg_to_mem = if is_file_backed vma then seg_offset seg vma else seg_to_mem

pub seg_loop_nil :
    (fname : Name) (seg : Segment) (n : ℕ) (c : Calc) → seg_loop fname seg [] n c ≡ done c
unfolding seg_loop
seg_loop_nil fname seg n c = refl

pub seg_loop_skip :
    (fname : Name) (seg : Segment) (vma : Vma) (filevmas : List Vma) (n : ℕ) (c : Calc)
    → working_range seg (shift seg vma n) vma ≡ none
    → seg_loop fname seg (vma ∷ filevmas) n c ≡ seg_loop fname seg filevmas (shift seg vma n) c
unfolding seg_loop
seg_loop_skip fname seg vma filevmas n c e = rw (e, seg_loop) refl

pub seg_loop_push :
    (fname : Name) (seg : Segment) (vma : Vma) (filevmas : List Vma) (n : ℕ) (c : Calc) (w : Range)
    → working_range seg (shift seg vma n) vma ≡ some w
    → seg_loop fname seg (vma ∷ filevmas) n c ≡ (
        push_map c fname vma w (some (subtract w (shift seg vma n))) >>= λ c'.
        elim (is_file_backed vma) [
          | false ↦ done c'
          | true ↦ seg_loop fname seg filevmas (shift seg vma n) c'
        ])
unfolding seg_loop
seg_loop_push fname seg vma filevmas n c w e = rw (e, seg_loop) refl

pub calc_map_for_seg_backed :
    (fname : Name) (seg : Segment) (front : Vma) (filevmas : List Vma) (c : Calc)
    → is_file_backed front ≡ true
    → calc_map_for_seg fname seg (front ∷ filevmas) c ≡ (
        seg_loop fname seg (front ∷ filevmas) 0 c >>= λ c'.
        if length c'.maps == 0
        then done (c', front ∷ filevmas, false)
        else done (c', drop_anon filevmas, true))
unfolding calc_map_for_seg
calc_map_for_seg_backed fname seg front filevmas c e = rw (e, calc_map_for_seg) refl

pub calc_map_for_seg_anon :
    (fname : Name) (seg : Segment) (front : Vma) (filevmas : List Vma) (c : Calc)
    → is_file_backed front ≡ false
    → calc_map_for_seg fname seg (front ∷ filevmas) c ≡ done (c, front ∷ filevmas, false)
unfolding calc_map_for_seg
calc_map_for_seg_anon fname seg front filevmas c e = rw (e, calc_map_for_seg) refl

pub calc_map_for_seg_nil :
    (fname : Name) (seg : Segment) (c : Calc) → calc_map_for_seg fname seg [] c ≡ crash
unfolding calc_map_for_seg
calc_map_for_seg_nil fname seg c = refl

pub segs_loop_nil :
    (fname : Name) (filevmas : List Vma) (c : Calc) → segs_loop fname [] filevmas c ≡ done (c, true)
unfolding segs_loop
segs_loop_nil fname filevmas c = refl

pub segs_loop_cons :
    (fname : Name) (seg : Segment) (segs : List Segment) (filevmas : List Vma) (c : Calc)
    → segs_loop fname (seg ∷ segs) filevmas c ≡ (
        calc_map_for_seg fname seg filevmas c >>= λ r. elim r.2 [
          | true ↦ segs_loop fname segs r.1 r.0
          | false ↦ done (r.0, false)
        ])
unfolding segs_loop
segs_loop_cons fname seg segs filevmas c = refl

pub nonelf_loop_nil : (fname : Name) (c : Calc) → nonelf_loop fname [] c ≡ done c
unfolding nonelf_loop
nonelf_loop_nil fname c = refl

pub nonelf_loop_skip :
    (fname : Name) (vma : Vma) (vmas : List Vma) (c : Calc)
    → name_eq vma.fname fname ≡ false
    → nonelf_loop fname (vma ∷ vmas) c ≡ nonelf_loop fname vmas c
unfolding nonelf_loop
nonelf_loop_skip fname vma vmas c e = rw (e, nonelf_loop) refl

pub nonelf_loop_push :
    (fname : Name) (vma : Vma) (vmas : List Vma) (c : Calc)
    → name_eq vma.fname fname ≡ true
    → nonelf_loop fname (vma ∷ vmas) c
      ≡ (push_map c fname vma vma.range none >>= nonelf_loop fname vmas)
unfolding nonelf_loop
nonelf_loop_push fname vma vmas c e = rw (e, nonelf_loop) refl

pub calc_maps_for_elf_file_lem :
    (fname : Name) (elf : ElfFile) (c : Calc)
    → calc_maps_for_elf_file fname elf c ≡ (
        if length (loadable_segments elf) == 0
        then done (c, false)
        else if length (vmas_of c.fname_to_vmas fname) == 0
        then done (c, false)
        else segs_loop fname (loadable_segments elf) (vmas_of c.fname_to_vmas fname) c)
unfolding calc_maps_for_elf_file
calc_maps_for_elf_file_lem fname elf c = refl

pub calc_maps_for_nonelf_file_lem :
    (fname : Name) (c : Calc)
    → calc_maps_for_nonelf_file fname c ≡ (
        if length (vmas_of c.fname_to_vmas fname) == 0
        then done (c, false)
        else (nonelf_loop fname (vmas_of c.fname_to_vmas fname) c >>= λ c'. done (c', true)))
unfolding calc_maps_for_nonelf_file
calc_maps_for_nonelf_file_lem fname c = refl

pub calc_by_kind_lem :
    (fname : Name) (file : File) (c : Calc)
    → calc_by_kind fname file c ≡ elim file.elf [
      | some elf ↦ calc_maps_for_elf_file fname elf c
      | none ↦ calc_maps_for_nonelf_file fname c
    ]
unfolding calc_by_kind
calc_by_kind_lem fname file c = refl

pub calc_maps_for_file_lem :
    (open_elf : Name → Option ElfFile) (fname : Name) (c : Calc)
    → calc_maps_for_file open_elf fname c ≡ (
        deref (get_or_make_file open_elf c.file_pool fname).1 >>= λ file.
        calc_by_kind fname file
          (record c { file_pool = (get_or_make_file open_elf c.file_pool fname).0 })
        >>= λ r.
            if not r.1
            then done (r.0, false)
            else done (r.0, not (length r.0.maps == length c.maps)))
unfolding calc_maps_for_file
calc_maps_for_file_lem open_elf fname c = refl

pub names_loop_nil :
    (open_elf : Name → Option ElfFile) (c : Calc) → names_loop open_elf [] c ≡ done (c, true)
unfolding names_loop
names_loop_nil open_elf c = refl

pub names_loop_cons :
    (open_elf : Name → Option ElfFile) (fname : Name) (fnames : List Name) (c : Calc)
    → names_loop open_elf (fname ∷ fnames) c ≡ (
        calc_maps_for_file open_elf fname c >>= λ r. elim r.1 [
          | true ↦ names_loop open_elf fnames r.0
          | false ↦ done (r.0, false)
        ])
unfolding names_loop
names_loop_cons open_elf fname fnames c = refl
