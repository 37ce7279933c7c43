-- ===== src/Calculator/Soundness.antt =====
-- The calculation for the files keeps the invariant that every map lies within the areas.
use exmap.Prelude.{
  Bool, true, false, List, [], ◌∷◌, Option, none, some, Bool-cases, inl, inr, ◌==◌, length, not,
  if◌then◌else◌,
}
use exmap.Std.Names.{Name, name_eq}
use exmap.Elf.Segment.{Segment}
use exmap.Elf.File.{ElfFile, loadable_segments}
use exmap.Vma.{Vma}
use exmap.Outcome.{done, Ensures, bind-Ensures, if-Ensures, any-Ensures, ◌>>=◌, deref}
use exmap.File.{File, get_or_make_file}
use exmap.File.Pool.{get_or_make_file_lem}
use exmap.Calculator.{Calc}
use exmap.Calculator.Walk.{vmas_of}
use exmap.Calculator.Segments.{
  segs_loop, calc_maps_for_elf_file, nonelf_loop, calc_maps_for_nonelf_file, calc_by_kind,
  calc_maps_for_file,
}
use exmap.Calculator.Steps.{
  segs_loop_nil, segs_loop_cons, nonelf_loop_nil, nonelf_loop_skip, nonelf_loop_push,
  calc_maps_for_elf_file_lem, calc_maps_for_nonelf_file_lem, calc_by_kind_lem,
  calc_maps_for_file_lem, names_loop_nil, names_loop_cons,
}
use exmap.Calculator.Inside.{
  IsSound, AreInside, IsSoundRest, push_map-IsSound, calc_map_for_seg-IsSoundRest,
}
use exmap.Calculator.Run.{names_loop}

module _ (vmas : List Vma) where
  -- The invariant of what a method returns with its bool.
  abbrev pub IsSoundResult : Calc × Bool → Type 0
  IsSoundResult r = IsSound vmas r.0

  segs_loop-IsSoundResult :
      (fname : Name) (segs : List Segment) (filevmas : List Vma) (c : Calc)
      → IsSound vmas c
      → AreInside vmas filevmas
      → Ensures IsSoundResult (segs_loop fname segs filevmas c)
  segs_loop-IsSoundResult fname [] filevmas c h i = rw (segs_loop_nil fname filevmas c) h
  segs_loop-IsSoundResult fname (seg ∷ segs) filevmas c h i =
      rw (segs_loop_cons fname seg segs filevmas c) (
        bind-Ensures (IsSoundRest vmas) IsSoundResult _ _
          (calc_map_for_seg-IsSoundRest vmas fname seg filevmas c h i)
          (λ r sound.
            elim r.2
              as (λ b.
                Ensures IsSoundResult
                  (elim b [ true ↦ segs_loop fname segs r.1 r.0 | false ↦ done (r.0, false) ])) [
                    | true ↦ segs_loop-IsSoundResult fname segs r.1 r.0 sound.0 sound.1
                    | false ↦ sound.0
                  ]))

  nonelf_loop-IsSound :
      (fname : Name) (filevmas : List Vma) (c : Calc)
      → IsSound vmas c
      → AreInside vmas filevmas
      → Ensures (IsSound vmas) (nonelf_loop fname filevmas c)
  nonelf_loop-IsSound fname [] c h i = rw (nonelf_loop_nil fname c) h
  nonelf_loop-IsSound fname (vma ∷ filevmas) c h i = elim (Bool-cases (name_eq vma.fname fname)) [
    | inl e ↦ rw (nonelf_loop_push fname vma filevmas c e) (
        bind-Ensures (IsSound vmas) (IsSound vmas) _ _
          (push_map-IsSound vmas c fname vma vma.range none h i.0)
          (λ c' sound. nonelf_loop-IsSound fname filevmas c' sound i.1))
    | inr e ↦
        rw (nonelf_loop_skip fname vma filevmas c e) (nonelf_loop-IsSound fname filevmas c h i.1)
  ]

  calc_maps_for_elf_file-IsSoundResult :
      (fname : Name) (elf : ElfFile) (c : Calc)
      → IsSound vmas c
      → Ensures IsSoundResult (calc_maps_for_elf_file fname elf c)
  calc_maps_for_elf_file-IsSoundResult fname elf c h = rw (calc_maps_for_elf_file_lem fname elf c) (
      let segs = loadable_segments elf in
      let files = vmas_of c.fname_to_vmas fname in
      let worked = segs_loop fname segs files c in
      if-Ensures IsSoundResult (length segs == 0) (done (c, false))
        (if length files == 0 then done (c, false) else worked) h
        (if-Ensures IsSoundResult (length files == 0) (done (c, false)) worked h
          (segs_loop-IsSoundResult fname segs files c h (h.3 fname))))

  calc_maps_for_nonelf_file-IsSoundResult :
      (fname : Name) (c : Calc)
      → IsSound vmas c
      → Ensures IsSoundResult (calc_maps_for_nonelf_file fname c)
  calc_maps_for_nonelf_file-IsSoundResult fname c h = rw (calc_maps_for_nonelf_file_lem fname c) (
      let files = vmas_of c.fname_to_vmas fname in
      if-Ensures IsSoundResult (length files == 0) (done (c, false))
        (nonelf_loop fname files c >>= λ c'. done (c', true)) h
        (bind-Ensures (IsSound vmas) IsSoundResult (nonelf_loop fname files c)
          (λ c'. done (c', true)) (nonelf_loop-IsSound fname files c h (h.3 fname))
          (λ c' sound. sound)))

  calc_by_kind-IsSoundResult :
      (fname : Name) (file : File) (c : Calc)
      → IsSound vmas c
      → Ensures IsSoundResult (calc_by_kind fname file c)
  calc_by_kind-IsSoundResult fname file c h =
      rw (calc_by_kind_lem fname file c)
        (elim (file.elf)
          as (λ o. Ensures IsSoundResult (elim o [
            | some elf ↦ calc_maps_for_elf_file fname elf c
            | none ↦ calc_maps_for_nonelf_file fname c
          ])) [
            | some elf ↦ calc_maps_for_elf_file-IsSoundResult fname elf c h
            | none ↦ calc_maps_for_nonelf_file-IsSoundResult fname c h
          ])

  module _ (open_elf : Name → Option ElfFile) where
    calc_maps_for_file-IsSoundResult :
        (fname : Name) (c : Calc)
        → IsSound vmas c
        → Ensures IsSoundResult (calc_maps_for_file open_elf fname c)
    calc_maps_for_file-IsSoundResult fname c h =
        let (f, _, _, _, no_nulls, _, _) = get_or_make_file_lem open_elf c.file_pool fname h.1 in
        rw (calc_maps_for_file_lem open_elf fname c) (
          let made = get_or_make_file open_elf c.file_pool fname in
          let held : Calc = record c { file_pool = made.0 } in
          let after = λ (r : Calc × Bool).
            if not r.1
            then done (r.0, false)
            else done (r.0, not (length r.0.maps == length c.maps)) in
          bind-Ensures {0, 0, 0} (λ (file : File). Unit) IsSoundResult (deref made.1)
            (λ file. calc_by_kind fname file held >>= after) (any-Ensures (deref made.1))
            (λ file u.
              bind-Ensures IsSoundResult IsSoundResult (calc_by_kind fname file held) after
                (calc_by_kind-IsSoundResult fname file held (h.0, no_nulls, h.2, h.3))
                (λ r sound.
                  if-Ensures IsSoundResult (not r.1) (done (r.0, false))
                    (done (r.0, not (length r.0.maps == length c.maps))) sound sound)))

    pub names_loop-IsSoundResult :
        (fnames : List Name) (c : Calc)
        → IsSound vmas c
        → Ensures IsSoundResult (names_loop open_elf fnames c)
    names_loop-IsSoundResult [] c h = rw (names_loop_nil open_elf c) h
    names_loop-IsSoundResult (fname ∷ fnames) c h = rw (names_loop_cons open_elf fname fnames c) (
        bind-Ensures IsSoundResult IsSoundResult _ _ (calc_maps_for_file-IsSoundResult fname c h)
          (λ r sound.
            elim r.1
              as (λ b.
                Ensures IsSoundResult
                  (elim b [ true ↦ names_loop open_elf fnames r.0 | false ↦ done (r.0, false) ])) [
                    | true ↦ names_loop-IsSoundResult fnames r.0 sound
                    | false ↦ sound
                  ]))
