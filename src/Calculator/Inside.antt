-- ===== src/Calculator/Inside.antt =====
-- The steps of the calculation keep its invariant: every map lies within the areas.
use mathlib.Core.List.{map-append}
use exmap.Prelude.{
  ℕ, ◌≡◌, Bool, true, false, List, [], ◌∷◌, Option, none, some, arith, All, All-append, Bool-cases,
  Option-cases, inl, inr, ◌==◌, length, if◌then◌else◌,
}
use exmap.Std.Names.{Name, name_key}
use exmap.Std.OrderedMap.{find}
use exmap.Range.{Range, contains, subtract, intersect}
use exmap.Range.Cover.{covers}
use exmap.Elf.Segment.{Segment}
use exmap.Vma.{Vma, is_file_backed}
use exmap.Outcome.{done, Ensures, bind-Ensures, Outcome-cases}
use exmap.File.{File, FilePool, add_map, update_file}
use exmap.File.Pool.{NoNulls, assign-NoNulls}
use exmap.Calculator.{Calc, new_map, push_map}
use exmap.Calculator.Walk.{vmas_of}
use exmap.Calculator.Segments.{working_range, seg_loop, drop_anon, calc_map_for_seg}
use exmap.Calculator.Steps.{
  seg_loop_nil, seg_loop_skip, seg_loop_push, calc_map_for_seg_backed, calc_map_for_seg_anon,
  calc_map_for_seg_nil, shift,
}
use exmap.Calculator.Coverage.{ranges, areas}

update_file-NoNulls :
    (pool : FilePool) (name : Name) (f : File → File)
    → NoNulls pool
    → Ensures NoNulls (update_file pool name f)
unfolding update_file
update_file-NoNulls pool name f h = elim (Option-cases (find pool name)) [
  | inl e ↦ rw (e, update_file) tt
  | inr (none, e) ↦ rw (e, update_file) tt
  | inr (some file, e) ↦ rw (e, update_file) (assign-NoNulls pool name (f file) h)
]

-- A map takes no address that is not in its area.
working_range-contains :
    (seg : Segment) (offset : ℕ) (vma : Vma) (w : Range)
    → working_range seg offset vma ≡ some w
    → (v : ℕ) → contains w v ≡ true
    → contains vma.range v ≡ true
unfolding working_range intersect contains
working_range-contains seg offset vma w e v h = ground arith

module _ (vmas : List Vma) where
  -- All addresses of a range are addresses of areas.
  abbrev pub IsInside : Range → Type 0
  IsInside r = (v : ℕ) → contains r v ≡ true → covers (areas vmas) v ≡ true

  abbrev pub AreInside : List Vma → Type 0
  AreInside files = All (λ (vma : Vma). IsInside vma.range) files

  abbrev pub IsSound : Calc → Type 0
  IsSound c =
      (c.vmas ≡ vmas)
      × NoNulls c.file_pool
      × All IsInside (ranges c.maps)
      × ((name : Name) → AreInside (vmas_of c.fname_to_vmas name))

  pub push_map-IsSound :
      (c : Calc) (fname : Name) (vma : Vma) (r : Range) (e : Option Range)
      → IsSound c
      → IsInside r
      → Ensures IsSound (push_map c fname vma r e)
  unfolding push_map
  push_map-IsSound c fname vma r e h i =
      let g = λ (f : File). add_map f (new_map c vma r e) in
      elim (Outcome-cases (update_file c.file_pool fname g)) [
        | inl eq ↦ rw (eq, push_map) tt
        | inr (pool, eq) ↦
            rw (eq, push_map)
              (
                h.0,
                rw eq at (update_file-NoNulls c.file_pool fname g h.1),
                rw map-append (All-append IsInside (ranges c.maps) (r ∷ []) h.2 (i, tt)),
                h.3,
              )
      ]

  seg_loop-IsSound :
      (fname : Name) (seg : Segment) (filevmas : List Vma) (n : ℕ) (c : Calc)
      → IsSound c
      → AreInside filevmas
      → Ensures IsSound (seg_loop fname seg filevmas n c)
  seg_loop-IsSound fname seg [] n c h i = rw (seg_loop_nil fname seg n c) h
  seg_loop-IsSound fname seg (vma ∷ filevmas) n c h i =
      let offset = shift seg vma n in
      elim (Option-cases (working_range seg offset vma)) [
        | inl e ↦
            rw (seg_loop_skip fname seg vma filevmas n c e)
              (seg_loop-IsSound fname seg filevmas offset c h i.1)
        | inr (w, e) ↦
            let inside : IsInside w =
              λ v k. i.0 v (working_range-contains seg offset vma w e v k) in
            rw (seg_loop_push fname seg vma filevmas n c w e) (
              bind-Ensures IsSound IsSound _ _
                (push_map-IsSound c fname vma w (some (subtract w offset)) h inside)
                (λ c' sound.
                  elim (is_file_backed vma)
                    as (λ b.
                      Ensures IsSound (elim b [
                        | false ↦ done c'
                        | true ↦ seg_loop fname seg filevmas offset c'
                      ])) [
                        | false ↦ sound
                        | true ↦ seg_loop-IsSound fname seg filevmas offset c' sound i.1
                      ]))
      ]

  drop_anon-AreInside : (files : List Vma) → AreInside files → AreInside (drop_anon files)
  unfolding drop_anon
  drop_anon-AreInside [] i = tt
  drop_anon-AreInside (vma ∷ files) i = elim (Bool-cases (is_file_backed vma)) [
    | inl e ↦ rw (e, drop_anon) i
    | inr e ↦ rw (e, drop_anon) (drop_anon-AreInside files i.1)
  ]

  abbrev pub IsSoundRest : Calc × List Vma × Bool → Type 0
  IsSoundRest r = IsSound r.0 × AreInside r.1

  pub calc_map_for_seg-IsSoundRest :
      (fname : Name) (seg : Segment) (filevmas : List Vma) (c : Calc)
      → IsSound c
      → AreInside filevmas
      → Ensures IsSoundRest (calc_map_for_seg fname seg filevmas c)
  calc_map_for_seg-IsSoundRest fname seg [] c h i = rw (calc_map_for_seg_nil fname seg c) tt
  calc_map_for_seg-IsSoundRest fname seg (front ∷ filevmas) c h i =
      elim (Bool-cases (is_file_backed front)) [
        | inl e ↦ rw (calc_map_for_seg_backed fname seg front filevmas c e) (
            bind-Ensures IsSound IsSoundRest _ _
              (seg_loop-IsSound fname seg (front ∷ filevmas) 0 c h i)
              (λ c' sound.
                elim (length c'.maps == 0)
                  as (λ b. Ensures IsSoundRest (
                    if b
                    then done (c', front ∷ filevmas, false)
                    else done (c', drop_anon filevmas, true))) [
                      | true ↦ (sound, i)
                      | false ↦ (sound, drop_anon-AreInside filevmas i.1)
                    ]))
        | inr e ↦ rw (calc_map_for_seg_anon fname seg front filevmas c e) (h, i)
      ]
