-- ===== src/Calculator/Walk.antt =====
-- walk_vma_files: which areas belong to which file name.
use exmap.Prelude.{List, [], ◌∷◌, ◌++◌, Option, none, some, if◌then◌else◌}
use exmap.Std.Names.{Name, name_less, name_key}
use exmap.Std.OrderedMap.{find, assign}
use exmap.Elf.File.{ElfFile}
use exmap.Vma.{Vma, is_file_backed}
use exmap.Outcome.{Outcome, done, ◌>>=◌}
use exmap.File.{add_proc, update_file, get_or_make_file}
use exmap.Calculator.{Calc}

-- The set of the files of a process, by their names.
unfoldable pub name_insert : Name → List Name → List Name
name_insert a [] = a ∷ []
name_insert a (b ∷ s) =
    if name_less b a then b ∷ name_insert a s else if name_less a b then a ∷ b ∷ s else b ∷ s

-- `_fname_to_vmas[fname]`, with an empty list where there is none.
unfoldable pub vmas_of : List (Name × List Vma) → Name → List Vma
vmas_of m fname = elim (find m fname) [ none ↦ [] | some vmas ↦ vmas ]

-- `_fname_to_vmas[fname].push_back(vma)`
unfoldable pub push_vma : List (Name × List Vma) → Name → Vma → List (Name × List Vma)
unfolding vmas_of
push_vma m fname vma = assign m fname (vmas_of m fname ++ vma ∷ [])

-- An area without a file goes with the last name that has one.
unfoldable pub last_name : Name → Vma → Name
last_name last_file_backed vma = if is_file_backed vma then vma.fname else last_file_backed

unfoldable pub associate : List (Name × List Vma) → Name → Vma → List (Name × List Vma)
unfolding push_vma
associate m [] vma = m
associate m (b ∷ name) vma = push_vma m (b ∷ name) vma

module _ (open_elf : Name → Option ElfFile) where
  -- One round of the loop, but for the association.
  unfoldable pub walk_file : Calc → Vma → Outcome Calc
  unfolding name_insert
  walk_file c vma = do
    pool ←
        update_file (get_or_make_file open_elf c.file_pool vma.fname).0 vma.fname
          (λ f. add_proc f c.pid)
    done (record c { file_pool = pool; proc_files = name_insert vma.fname c.proc_files })

  unfoldable pub walk_loop : List Vma → Name → Calc → Outcome Calc
  unfolding walk_file last_name associate
  walk_loop [] last_file_backed c = done c
  walk_loop (vma ∷ vmas) last_file_backed c =
      let last = last_name last_file_backed vma in
      do
        c' ← walk_file c vma
        walk_loop vmas last (record c' { fname_to_vmas = associate c'.fname_to_vmas last vma })

  unfoldable pub walk_vma_files : Calc → Outcome Calc
  unfolding walk_loop
  walk_vma_files c = walk_loop c.vmas [] c
