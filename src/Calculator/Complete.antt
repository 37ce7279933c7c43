-- ===== src/Calculator/Complete.antt =====
-- calc_maps as a whole: the maps that it assigns are those of the areas.
use exmap.Prelude.{ℕ, ◌≡◌, refl, ◌∙◌, Bool, true, false, List, [], ◌∷◌, Option, none, some, All}
use exmap.Std.Names.{Name}
use exmap.Std.OrderedMap.{find, map_keys}
use exmap.Std.Sort.{Ascending}
use exmap.Range.Basic.{IsWellFormed}
use exmap.Range.Cover.{covers}
use exmap.Elf.File.{ElfFile}
use exmap.Vma.{Vma}
use exmap.Outcome.{Outcome, done, Ensures, bind-Ensures, any-Ensures, ◌>>=◌}
use exmap.Map.{MapPtr}
use exmap.File.{FilePool}
use exmap.File.Pool.{NoNulls}
use exmap.Calculator.{Calc, new_calc}
use exmap.Calculator.Walk.{vmas_of, walk_vma_files}
use exmap.Calculator.Grouping.{areas_with, walk_vma_files_lem}
use exmap.Calculator.Holes.{add_holes}
use exmap.Calculator.Sanity.{sanity_check}
use exmap.Calculator.Coverage.{ranges, areas, add_holes-ranges}
use exmap.Calculator.Inside.{IsSound, AreInside}
use exmap.Calculator.Soundness.{IsSoundResult, names_loop-IsSoundResult}
use exmap.Calculator.Run.{sort_maps, names_loop, finish_maps, calc_maps}
use exmap.Calculator.Filled.{
  start_of, covers-sort_maps, areas_with-AreInside, own-AreInside, All-front, filled, ascending,
}

names_of : Calc → List Name
names_of c = map_keys c.fname_to_vmas

module _ (open_elf : Name → Option ElfFile) where
  -- calc_maps from the walked state on.
  calc_maps_lem :
      (c w : Calc)
      → walk_vma_files open_elf c ≡ done w
      → calc_maps open_elf c ≡ (
          names_loop open_elf (names_of w) w >>= λ r. elim r.1 [
            | true ↦ finish_maps open_elf r.0
            | false ↦ done (r.0, none, false)
          ])
  unfolding calc_maps names_of
  calc_maps_lem c w e = rw (e, calc_maps) refl

  finish_maps_lem :
      (c b : Calc)
      → add_holes open_elf c ≡ done (b, true)
      → finish_maps open_elf c ≡ (
          sanity_check b.vmas (sort_maps b.maps) >>= λ sane.
          done (b, some (sort_maps b.maps), sane))
  unfolding finish_maps
  finish_maps_lem c b e = rw (e, finish_maps) refl

  module _ (vmas : List Vma) (wf : All IsWellFormed (areas vmas)) where
    -- What the calculator and the maps are at the end, if maps are assigned and those of the
    -- calculator are well formed.
    abbrev Covering : Calc × Option (List MapPtr) × Bool → Type 0
    Covering (c, none, ok) = Unit
    Covering (c, some maps, ok) =
        Ascending start_of 0 maps
        × (All IsWellFormed (ranges c.maps)
            → (v : ℕ) → covers (ranges maps) v ≡ covers (areas vmas) v)

    finish_maps-Covering : (c : Calc) → IsSound vmas c → Ensures Covering (finish_maps open_elf c)
    finish_maps-Covering c h =
        let (b, eq, shape) = add_holes-ranges open_elf c h.1 in
        rw (finish_maps_lem c b eq) (
          bind-Ensures {0, 0, 0} (λ (s : Bool). Unit) Covering
            (sanity_check b.vmas (sort_maps b.maps))
            (λ sane. done (b, some (sort_maps b.maps), sane)) (any-Ensures _)
            (λ sane u. (
              ascending b.maps,
              λ wm v.
                  covers-sort_maps b.maps v
                  ∙ rw shape (
                      rw (h.0) (
                        filled vmas (ranges c.maps) v h.2
                          (All-front IsWellFormed _ _ (rw shape at wm)) wf)),
            )))

    names-Covering :
        (c w : Calc)
        → walk_vma_files open_elf c ≡ done w
        → IsSound vmas w
        → Ensures Covering (calc_maps open_elf c)
    names-Covering c w e h =
        let next : Calc × Bool → Outcome (Calc × Option (List MapPtr) × Bool) =
          λ r. elim r.1 [ true ↦ finish_maps open_elf r.0 | false ↦ done (r.0, none, false) ] in
        rw (calc_maps_lem c w e) (
          bind-Ensures (IsSoundResult vmas) Covering (names_loop open_elf (names_of w) w) next
            (names_loop-IsSoundResult vmas open_elf (names_of w) w h)
            (λ r sound.
              elim r.1
                as (λ b.
                  Ensures Covering (elim b [
                    | true ↦ finish_maps open_elf r.0
                    | false ↦ done (r.0, none, false)
                  ])) [ true ↦ finish_maps-Covering r.0 sound | false ↦ tt ]))

    module _ (pool : FilePool) (pid : ℕ) (proc_files : List Name) (next_address : ℕ)
        (no_nulls : NoNulls pool) where
      start : Calc
      start = new_calc vmas pool pid proc_files next_address

      walked-IsSound : (w : Calc) × (walk_vma_files open_elf start ≡ done w) × IsSound vmas w
      unfolding start new_calc vmas_of find
      walked-IsSound =
          let (w, eq, sound, maps, same, no_name, names) =
            walk_vma_files_lem open_elf start no_nulls in
          (w, eq, (same, sound, rw maps tt, listed w no_name names))
        where
          listed :
              (w : Calc)
              → vmas_of w.fname_to_vmas [] ≡ []
              → ((b : ℕ) (name : Name)
                  → vmas_of w.fname_to_vmas (b ∷ name) ≡ areas_with (b ∷ name) false vmas)
              → (name : Name) → AreInside vmas (vmas_of w.fname_to_vmas name)
          listed w e f [] = rw e tt
          listed w e f (b ∷ name) =
              rw (f b name) (
                areas_with-AreInside vmas (b ∷ name) false vmas
                  (own-AreInside vmas vmas (λ v k. k)))

      -- Where `calc_maps`, from a pool without null pointers and areas that are well formed,
      -- assigns maps, and the memory ranges of the maps of the calculator are then well formed,
      -- the assigned maps are in the order of their starts, and an address is in one of them
      -- exactly when it lies in an area of the process.
      pub calc_maps-covers :
          (c : Calc) (maps : List MapPtr) (ok : Bool)
          → calc_maps open_elf (new_calc vmas pool pid proc_files next_address)
            ≡ done (c, some maps, ok)
          → All IsWellFormed (ranges c.maps)
          → Ascending start_of 0 maps × ((v : ℕ) → covers (ranges maps) v ≡ covers (areas vmas) v)
      unfolding start
      calc_maps-covers c maps ok e wm =
          let (w, eq, sound) = walked-IsSound in
          let (sorted, cover) = rw e at (names-Covering start w eq sound) in (sorted, cover wm)
