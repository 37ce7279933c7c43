-- ===== src/File/Pool.antt =====
-- The file pool as a map from names to files, and the null pointers that a look-up leaves in it.
use exmap.Prelude.{
  ◌≡◌, ◌≢◌, ◌⊎◌, refl, ◌∙◌, Option, none, some, [], arith, Option-cases, inl, inr, Bool-cases,
}
use exmap.Std.Names.{Name, name_key}
use exmap.Std.OrderedMap.{find, assign, same, find-assign, find-assign_self}
use exmap.Elf.File.{ElfFile}
use exmap.Outcome.{done}
use exmap.File.{File, FilePool, new_file, get_or_make_file, update_file}

-- No name has a null pointer.
abbrev pub NoNulls : FilePool → Type 0
NoNulls pool = (name : Name) → find pool name ≢ some none

pub assign-NoNulls :
    (pool : FilePool) (name : Name) (f : File) → NoNulls pool → NoNulls (assign pool name (some f))
assign-NoNulls pool name f h other e = elim (Bool-cases (same name other)) [
  | inl t ↦ cc (rw (find-assign pool name other (some f), t) at e)
  | inr t ↦ h other (rw (find-assign pool name other (some f), t) at e)
]

get_or_make_file_held :
    (open_elf : Name → Option ElfFile) (pool : FilePool) (name : Name) (p : Option File)
    → find pool name ≡ some p
    → get_or_make_file open_elf pool name ≡ (pool, p)
unfolding get_or_make_file
get_or_make_file_held open_elf pool name p e = rw (e, get_or_make_file)

get_or_make_file_new :
    (open_elf : Name → Option ElfFile) (pool : FilePool) (name : Name)
    → find pool name ≡ none
    → get_or_make_file open_elf pool name
      ≡ (assign pool name (some (new_file open_elf name)), some (new_file open_elf name))
unfolding get_or_make_file
get_or_make_file_new open_elf pool name e = rw (e, get_or_make_file)

module _ (open_elf : Name → Option ElfFile) (pool : FilePool) (name : Name) where
  -- What a call of get_or_make_file gives.
  abbrev Gives : FilePool × Option File → Type 0
  Gives r =
      (f : File) × (r.1 ≡ some f)
      × (((find pool name ≡ some (some f)) × (r.0 ≡ pool))
          ⊎ ((find pool name ≡ none)
              × (f ≡ record { name = name; maps = []; procs = []; elf = open_elf name })))
      × (find r.0 name ≡ some (some f))
      × NoNulls r.0
      × ((other : Name) → name ≢ other → find r.0 other ≡ find pool other)
      × (get_or_make_file open_elf r.0 name ≡ r)

  made : find pool name ≡ none → NoNulls pool → Gives (get_or_make_file open_elf pool name)
  unfolding new_file
  made e h =
      let f = new_file open_elf name in
      let held = find-assign_self pool name (some f) in
      rw (get_or_make_file_new open_elf pool name e) (
        f,
        refl,
        inr (e, refl),
        held,
        assign-NoNulls pool name f h,
        λ other ne.
            find-assign pool name other (some f) ∙ ground (arith, name_key.same_iff name other, ne),
        get_or_make_file_held open_elf (assign pool name (some f)) name (some f) held,
      )

  found :
      (p : Option File)
      → find pool name ≡ some p
      → NoNulls pool
      → Gives (get_or_make_file open_elf pool name)
  found none e h = absurd (h name e)
  found (some f) e h =
      let same_pool = get_or_make_file_held open_elf pool name (some f) e in
      rw same_pool (f, refl, inl (e, refl), e, h, λ other ne. refl, same_pool)

  -- In a pool without null pointers `get_or_make_file` returns a file, which the pool then holds
  -- for the name. Either it is the file that the pool had for the name, and the pool is as before, or
  -- the pool had none, and the file is a new one of that name, without maps and processes, with the
  -- ELF file that there is by that name. The pool still has no null pointer, every other name keeps what it had, and a
  -- second call returns the same pool and file.
  pub get_or_make_file_lem : NoNulls pool → Gives (get_or_make_file open_elf pool name)
  get_or_make_file_lem h = elim (Option-cases (find pool name)) [
    | inl e ↦ made e h
    | inr (p, e) ↦ found p e h
  ]

-- A write through the pointer to a file that the pool holds.
pub update_file_lem :
    (pool : FilePool) (name : Name) (g : File → File) (f : File)
    → NoNulls pool
    → find pool name ≡ some (some f)
    → (q : FilePool) × (update_file pool name g ≡ done q)
      × (find q name ≡ some (some (g f)))
      × NoNulls q
unfolding update_file
update_file_lem pool name g f h e = (
  assign pool name (some (g f)),
  rw (e, update_file) refl,
  find-assign_self pool name _,
  assign-NoNulls pool name (g f) h,
)
