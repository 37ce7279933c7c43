-- ===== src/Calculator/Grouping.antt =====
-- walk_vma_files: it ends, and groups the areas by the files that are mapped there.
use mathlib.Core.List.{append_assoc, append-nil}
use exmap.Prelude.{
  ℕ, ◌≡◌, refl, ◌∙◌, ap, sym, Bool, true, false, List, [], ◌∷◌, ◌++◌, Option, arith, if◌then◌else◌,
  Bool-cases, inl, inr,
}
use exmap.Std.Names.{Name, name_eq, name_eq_iff, name_key}
use exmap.Std.OrderedMap.{same, find-assign}
use exmap.Elf.File.{ElfFile}
use exmap.Vma.{Vma, is_file_backed}
use exmap.Outcome.{done}
use exmap.File.{add_proc, get_or_make_file}
use exmap.File.Pool.{NoNulls, get_or_make_file_lem, update_file_lem}
use exmap.Calculator.{Calc}
use exmap.Calculator.Walk.{
  vmas_of, push_vma, last_name, associate, walk_file, walk_loop, walk_vma_files, name_insert,
}

-- The areas of a file: those with its name, and those without a file that follow one of them,
-- up to the next area with a file. `inside` says whether the area before is one.
unfoldable pub areas_with : Name → Bool → List Vma → List Vma
areas_with name inside [] = []
areas_with name inside (vma ∷ vmas) =
    let now = (if is_file_backed vma then name_eq vma.fname name else inside) in
    let rest = areas_with name now vmas in if now then vma ∷ rest else rest

same-name_eq : (a b : Name) → same a b ≡ name_eq a b
same-name_eq a b = ground (arith, name_eq_iff a b, name_key.same_iff a b)

-- Adding an area to a name changes the areas of that name only.
push_vma-hit :
    (m : List (Name × List Vma)) (a b : Name) (vma : Vma)
    → name_eq a b ≡ true
    → vmas_of (push_vma m a vma) b ≡ vmas_of m b ++ vma ∷ []
unfolding vmas_of push_vma
push_vma-hit m a b vma h =
    rw (find-assign m a b (vmas_of m a ++ vma ∷ []), same-name_eq a b, h, vmas_of)
      (ap (λ (k : Name). vmas_of m k ++ vma ∷ []) ((name_eq_iff a b).0 h))

push_vma-miss :
    (m : List (Name × List Vma)) (a b : Name) (vma : Vma)
    → name_eq a b ≡ false
    → vmas_of (push_vma m a vma) b ≡ vmas_of m b
unfolding vmas_of push_vma
push_vma-miss m a b vma h =
    rw (find-assign m a b (vmas_of m a ++ vma ∷ []), same-name_eq a b, h, vmas_of) refl

associate-hit :
    (m : List (Name × List Vma)) (a : Name) (b : ℕ) (name : Name) (vma : Vma)
    → name_eq a (b ∷ name) ≡ true
    → vmas_of (associate m a vma) (b ∷ name) ≡ vmas_of m (b ∷ name) ++ vma ∷ []
unfolding associate name_eq
associate-hit m [] b name vma h = cc
associate-hit m (x ∷ a) b name vma h = push_vma-hit m (x ∷ a) (b ∷ name) vma h

associate-miss :
    (m : List (Name × List Vma)) (a b : Name) (vma : Vma)
    → name_eq a b ≡ false
    → vmas_of (associate m a vma) b ≡ vmas_of m b
unfolding associate
associate-miss m [] b vma h = refl
associate-miss m (x ∷ a) b vma h = push_vma-miss m (x ∷ a) b vma h

associate-no_name :
    (m : List (Name × List Vma)) (a : Name) (vma : Vma)
    → vmas_of (associate m a vma) [] ≡ vmas_of m []
unfolding associate name_eq
associate-no_name m [] vma = refl
associate-no_name m (x ∷ a) vma = push_vma-miss m (x ∷ a) [] vma refl

now_lem :
    (b : ℕ) (name last : Name) (vma : Vma)
    → (if is_file_backed vma then name_eq vma.fname (b ∷ name) else name_eq last (b ∷ name))
      ≡ name_eq (last_name last vma) (b ∷ name)
unfolding last_name
now_lem b name last vma = elim (Bool-cases (is_file_backed vma)) [
  | inl e ↦ rw (e, last_name) refl
  | inr e ↦ rw (e, last_name) refl
]

module _ (open_elf : Name → Option ElfFile) where
  walk_file_lem :
      (c : Calc) (vma : Vma)
      → NoNulls c.file_pool
      → (c' : Calc) × (walk_file open_elf c vma ≡ done c')
        × NoNulls c'.file_pool
        × (c'.maps ≡ c.maps)
        × (c'.vmas ≡ c.vmas)
        × (c'.fname_to_vmas ≡ c.fname_to_vmas)
  unfolding walk_file
  walk_file_lem c vma h =
      let (f, _, _, held, sound, _, _) = get_or_make_file_lem open_elf c.file_pool vma.fname h in
      let (pool, eq, _, sound') =
        update_file_lem (get_or_make_file open_elf c.file_pool vma.fname).0 vma.fname
          (λ f. add_proc f c.pid) f sound held in
      (
        record c { file_pool = pool; proc_files = name_insert vma.fname c.proc_files },
        rw (eq, walk_file) refl,
        sound',
        refl,
        refl,
        refl,
      )

  -- What a walk over areas ends with.
  abbrev Walked : List Vma → Name → Calc → Calc → Type 0
  Walked vmas last c c' =
      NoNulls c'.file_pool
      × (c'.maps ≡ c.maps)
      × (c'.vmas ≡ c.vmas)
      × (vmas_of c'.fname_to_vmas [] ≡ vmas_of c.fname_to_vmas [])
      × ((b : ℕ) (name : Name)
          → vmas_of c'.fname_to_vmas (b ∷ name)
            ≡ vmas_of c.fname_to_vmas (b ∷ name)
              ++ areas_with (b ∷ name) (name_eq last (b ∷ name)) vmas)

  grouped :
      (b : ℕ) (name last : Name) (vma : Vma) (vmas : List Vma) (m : List (Name × List Vma))
      → vmas_of (associate m (last_name last vma) vma) (b ∷ name)
          ++ areas_with (b ∷ name) (name_eq (last_name last vma) (b ∷ name)) vmas
        ≡ vmas_of m (b ∷ name) ++ areas_with (b ∷ name) (name_eq last (b ∷ name)) (vma ∷ vmas)
  unfolding areas_with
  grouped b name last vma vmas m =
      let a = last_name last vma in
      let now = now_lem b name last vma in
      elim (Bool-cases (name_eq a (b ∷ name))) [
        | inl e ↦
            rw (now, e, associate-hit m a b name vma e)
              (append_assoc (vmas_of m (b ∷ name)) (vma ∷ []) (areas_with (b ∷ name) true vmas))
        | inr e ↦ rw (now, e, associate-miss m a (b ∷ name) vma e) refl
      ]

  walk_loop_lem :
      (vmas : List Vma) (last : Name) (c : Calc)
      → NoNulls c.file_pool
      → (c' : Calc) × (walk_loop open_elf vmas last c ≡ done c') × Walked vmas last c c'
  unfolding walk_loop areas_with
  walk_loop_lem [] last c h = (c, refl, (h, refl, refl, refl, λ b name. sym (append-nil _)))
  walk_loop_lem (vma ∷ vmas) last c h =
      let (b, eq, sound, maps, areas, names) = walk_file_lem c vma h in
      let a = last_name last vma in
      let (c', eq', (sound', maps', areas', no_name, all)) =
        walk_loop_lem vmas a (record b { fname_to_vmas = associate b.fname_to_vmas a vma }) sound in
      (
        c',
        rw (eq, walk_loop) eq',
        (
          sound',
          maps' ∙ maps,
          areas' ∙ areas,
          no_name ∙ rw names (associate-no_name c.fname_to_vmas a vma),
          λ x name. all x name ∙ rw names (grouped x name last vma vmas c.fname_to_vmas),
        ),
      )

  -- From a pool without null pointers `walk_vma_files` comes to an end, with a pool without null
  -- pointers and the same areas and maps, and nothing new for the empty name. Each other name then
  -- has, behind the areas
  -- it had before, in their order, the areas of that file and those without a file that follow
  -- them.
  pub walk_vma_files_lem :
      (c : Calc)
      → NoNulls c.file_pool
      → (c' : Calc) × (walk_vma_files open_elf c ≡ done c')
        × NoNulls c'.file_pool
        × (c'.maps ≡ c.maps)
        × (c'.vmas ≡ c.vmas)
        × (vmas_of c'.fname_to_vmas [] ≡ vmas_of c.fname_to_vmas [])
        × ((b : ℕ) (name : Name)
            → vmas_of c'.fname_to_vmas (b ∷ name)
              ≡ vmas_of c.fname_to_vmas (b ∷ name) ++ areas_with (b ∷ name) false c.vmas)
  unfolding walk_vma_files name_eq
  walk_vma_files_lem c h =
      let (c', eq, (sound, maps, areas, no_name, all)) = walk_loop_lem c.vmas [] c h in
      (c', eq, sound, maps, areas, no_name, all)
