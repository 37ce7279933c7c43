-- ===== src/Calculator/Coverage.antt =====
-- add_holes: after it the maps cover the areas, and nothing that they did not cover before twice.
use exmap.Prelude.{
  ℕ, ◌+◌, ◌≡◌, refl, ◌∙◌, sym, true, not, ◌&&◌, ◌||◌, List, [], ◌∷◌, ◌++◌, Option, none, some,
  arith, All, map,
}
use mathlib.Core.List.{map-append, append_assoc, append-nil}
use exmap.Std.Names.{Name, name_key}
use exmap.Std.OrderedMap.{find}
use exmap.Range.{Range}
use exmap.Range.Basic.{IsWellFormed}
use exmap.Range.Lists.{invert_list}
use exmap.Range.Cover.{covers}
use exmap.Range.Invert.{invert_list-covers}
use exmap.Elf.File.{ElfFile}
use exmap.Vma.{Vma}
use exmap.Outcome.{done}
use exmap.Map.{MapPtr}
use exmap.File.{File, add_map, get_or_make_file}
use exmap.File.Pool.{NoNulls, get_or_make_file_lem, update_file_lem}
use exmap.Calculator.{Calc, push_map, new_map}
use exmap.Calculator.Holes.{range_of, hole_loop, vma_loop, add_holes}

abbrev pub ranges : List MapPtr → List Range
ranges maps = map range_of maps

-- The file that a name has in the pool.
abbrev pub Held : Calc → Name → Type 0
Held c name = (f : File) × (find c.file_pool name ≡ some (some f))

push_map_lem :
    (c : Calc) (fname : Name) (vma : Vma) (r : Range) (e : Option Range)
    → NoNulls c.file_pool
    → Held c fname
    → (c' : Calc) × (push_map c fname vma r e ≡ done c')
      × NoNulls c'.file_pool
      × Held c' fname
      × (c'.maps ≡ c.maps ++ new_map c vma r e ∷ [])
unfolding push_map
push_map_lem c fname vma r e h (f, held) =
    let (pool, eq, there, sound) =
      update_file_lem c.file_pool fname (λ f. add_map f (new_map c vma r e)) f h held in
    (
      record c {
        maps = c.maps ++ new_map c vma r e ∷ [];
        file_pool = pool;
        next_address = c.next_address + 1;
      },
      rw (eq, push_map) refl,
      sound,
      (add_map f (new_map c vma r e), there),
      refl,
    )

hole_loop_lem :
    (vma : Vma) (holes : List Range) (c : Calc)
    → NoNulls c.file_pool
    → Held c vma.fname
    → (c' : Calc) × (hole_loop vma holes c ≡ done c')
      × NoNulls c'.file_pool
      × (ranges c'.maps ≡ ranges c.maps ++ holes)
unfolding hole_loop
hole_loop_lem vma [] c h held = (c, refl, h, sym (append-nil _))
hole_loop_lem vma (hole ∷ holes) c h held =
    let (b, eq, sound, there, pushed) = push_map_lem c vma.fname vma hole none h held in
    let (c', eq', sound', all) = hole_loop_lem vma holes b sound there in
    (
      c',
      rw (eq, eq') refl,
      sound',
      all ∙ rw (pushed, map-append) (append_assoc (ranges c.maps) (hole ∷ []) holes),
    )

pub covers-append : (k l : List Range) (v : ℕ) → covers (k ++ l) v ≡ (covers k v || covers l v)
unfolding covers
covers-append [] l v = refl
covers-append (r ∷ k) l v = ground (arith, covers-append k l v)

-- The areas, as ranges.
abbrev pub areas : List Vma → List Range
areas vmas = map (λ (vma : Vma). vma.range) vmas

-- The holes of all areas, by the ranges of the maps that were there.
pub all_holes : List Range → List Vma → List Range
all_holes old [] = []
all_holes old (vma ∷ vmas) = invert_list vma.range old ++ all_holes old vmas

pub all_holes-covers :
    (old : List Range) (vmas : List Vma) (v : ℕ)
    → All IsWellFormed old
    → All IsWellFormed (areas vmas)
    → covers (all_holes old vmas) v ≡ (covers (areas vmas) v && not (covers old v))
unfolding all_holes covers
all_holes-covers old [] v wo wv = refl
all_holes-covers old (vma ∷ vmas) v wo wv = ground (
  arith,
  covers-append (invert_list vma.range old) (all_holes old vmas) v,
  invert_list-covers vma.range old wv.0 wo v,
  all_holes-covers old vmas v wo wv.1,
)

module _ (open_elf : Name → Option ElfFile) where
  vma_loop_lem :
      (old : List Range) (vmas : List Vma) (c : Calc)
      → NoNulls c.file_pool
      → (c' : Calc) × (vma_loop open_elf old vmas c ≡ done c')
        × NoNulls c'.file_pool
        × (ranges c'.maps ≡ ranges c.maps ++ all_holes old vmas)
  unfolding vma_loop all_holes
  vma_loop_lem old [] c h = (c, refl, h, sym (append-nil _))
  vma_loop_lem old (vma ∷ vmas) c h =
      let (f, _, _, held, sound, _, _) = get_or_make_file_lem open_elf c.file_pool vma.fname h in
      let pool = (get_or_make_file open_elf c.file_pool vma.fname).0 in
      let holes = invert_list vma.range old in
      let (b, eq, sound', pushed) =
        hole_loop_lem vma holes (record c { file_pool = pool }) sound (f, held) in
      let (c', eq', sound'', all) = vma_loop_lem old vmas b sound' in
      (
        c',
        rw (eq, eq') refl,
        sound'',
        all ∙ rw pushed (append_assoc (ranges c.maps) holes (all_holes old vmas)),
      )

  pub add_holes-ranges :
      (c : Calc)
      → NoNulls c.file_pool
      → (c' : Calc) × (add_holes open_elf c ≡ done (c', true))
        × (ranges c'.maps ≡ ranges c.maps ++ all_holes (ranges c.maps) c.vmas)
  unfolding add_holes
  add_holes-ranges c h =
      let (c', eq, sound, all) = vma_loop_lem (ranges c.maps) c.vmas c h in (c', rw eq refl, all)
