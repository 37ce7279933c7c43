-- ===== src/Process/Safety.antt =====
-- The sizes over a range of an ELF file: no null range is dereferenced.
use exmap.Prelude.{
  ℕ, ◌<◌, ◌≡◌, refl, true, List, [], ◌∷◌, Option, none, some, arith, ltb, ◌==◌, All, Bool-cases,
  Option-cases, List-cases, inl, inr,
}
use exmap.Std.Sort.{by_key, sort-All}
use exmap.Double.{Double}
use exmap.Range.{Range, intersect, contains_range}
use exmap.Page.{PagePool}
use exmap.Sizes.{Sizes, zero_sizes}
use exmap.Map.{Map, MapPtr, elf_to_mem_range}
use exmap.Map.Pointers.{address_of, intersect_loop, intersect_lists}
use exmap.Outcome.{Outcome, done}
use exmap.File.{File}
use exmap.Process.{Process}
use exmap.Process.Totals.{
  restrict_maps_to_file, add_subrange, proc_round, file_round, rounds, sizes_of_range, procs_loop,
  file_sizes_of_range,
}

-- The ELF range of a map, if it has one, is not empty.
abbrev pub HasElf : Option Range → Type 0
HasElf none = Unit
HasElf (some own) = own.start < own.end

abbrev pub IsMapped : MapPtr → Type 0
IsMapped m = HasElf m.object.elf_range

intersect_loop-All :
    (P : MapPtr → Type 0) (a b : List MapPtr) → All P b → All P (intersect_loop a b)
unfolding intersect_loop
intersect_loop-All P [] b h = tt
intersect_loop-All P (x ∷ a) [] h = tt
intersect_loop-All P (x ∷ a) (y ∷ b) h = elim (Bool-cases (address_of x == address_of y)) [
  | inl e ↦ rw (e, intersect_loop) (h.0, intersect_loop-All P a b h.1)
  | inr e ↦ elim (Bool-cases (ltb (address_of x) (address_of y))) [
    | inl l ↦ rw (e, l, intersect_loop) (intersect_loop-All P a (y ∷ b) h)
    | inr l ↦ rw (e, l, intersect_loop) (intersect_loop-All P (x ∷ a) b h.1)
  ]
]

intersect_lists-All :
    (P : MapPtr → Type 0) (a b : List MapPtr) → All P b → All P (intersect_lists a b)
unfolding intersect_lists
intersect_lists-All P a b h = intersect_loop-All P _ _ (sort-All (by_key address_of) P b h)

-- The intersection of two ranges that are not empty is contained in either.
contains_range-intersect :
    (r s t : Range)
    → r.start < r.end
    → s.start < s.end
    → intersect r s ≡ some t
    → (contains_range r t ≡ true) × (contains_range s t ≡ true)
unfolding contains_range intersect
contains_range-intersect r s t hr hs e = ground arith

module _ (page_size : ℕ) (d : Double) (pp : PagePool) (elf_range : Range)
    (wide : elf_range.start < elf_range.end) where
  -- The outcome is a value.
  abbrev Returns {ℓ} : {A : Type ℓ} → Outcome A → Type ℓ
  Returns {A = A} o = (a : A) × (o ≡ done a)

  add_subrange-Returns :
      (totals : Sizes d) (m : Map) (own subrange : Range)
      → contains_range own subrange ≡ true
      → Returns (add_subrange page_size d pp totals m own subrange)
  unfolding add_subrange elf_to_mem_range
  add_subrange-Returns totals m own subrange e = rw (e, add_subrange) (_, refl)

  proc_round-Returns :
      (totals : Sizes d) (m : Map)
      → HasElf m.elf_range
      → Returns (proc_round page_size d pp elf_range totals m)
  unfolding proc_round
  proc_round-Returns totals m h = elim (Option-cases m.elf_range) [
    | inl e ↦ rw (e, proc_round) (totals, refl)
    | inr (own, e) ↦ elim (Option-cases (intersect elf_range own)) [
      | inl f ↦ rw (e, f, proc_round) (totals, refl)
      | inr (t, f) ↦
          rw (e, f, proc_round)
            (add_subrange-Returns totals m own t
              (contains_range-intersect elf_range own t wide (rw e at h) f).1)
    ]
  ]

  file_round-Returns :
      (totals : Sizes d) (m : Map)
      → HasElf m.elf_range
      → Returns (file_round page_size d pp elf_range totals m)
  unfolding file_round
  file_round-Returns totals m h = elim (Option-cases m.elf_range) [
    | inl e ↦ rw (e, file_round) (totals, refl)
    | inr (own, e) ↦ elim (Option-cases (intersect own elf_range)) [
      | inl f ↦ rw (e, f, file_round) (totals, refl)
      | inr (t, f) ↦
          rw (e, f, file_round)
            (add_subrange-Returns totals m own t
              (contains_range-intersect own elf_range t (rw e at h) wide f).0)
    ]
  ]

  rounds-Returns :
      (round : Sizes d → Map → Outcome (Sizes d))
      → ((totals : Sizes d) (m : Map) → HasElf m.elf_range → Returns (round totals m))
      → (maps : List MapPtr) (totals : Sizes d) → All IsMapped maps
      → Returns (rounds page_size d pp round maps totals)
  unfolding rounds
  rounds-Returns round works [] totals h = (totals, refl)
  rounds-Returns round works (it ∷ maps) totals h =
      let (next, e) = works totals it.object h.0 in
      rw (e, rounds) (rounds-Returns round works maps next h.1)

  -- For an ELF range that is not empty, and a process whose maps have ELF ranges that are not
  -- empty or have none, the sizes of the process over the range of a file are computed: the
  -- part of the memory, which may be null and is dereferenced, never is.
  pub sizes_of_range-Returns :
      (proc : Process) (file : File)
      → All IsMapped proc.maps
      → Returns (sizes_of_range page_size d pp proc file elf_range)
  unfolding sizes_of_range restrict_maps_to_file
  sizes_of_range-Returns proc file h =
      rounds-Returns (proc_round page_size d pp elf_range) proc_round-Returns
        (restrict_maps_to_file proc file) (zero_sizes d)
        (intersect_lists-All IsMapped file.maps proc.maps h)

  module _ (proc_maps : ℕ → List MapPtr) where
    procs_loop-Returns :
        (file : File) (pids : List ℕ) (totals : Sizes d)
        → All IsMapped file.maps
        → Returns (procs_loop page_size d pp proc_maps file elf_range pids totals)
    unfolding procs_loop
    procs_loop-Returns file [] totals h = (some totals, refl)
    procs_loop-Returns file (pid ∷ pids) totals h =
        let common = intersect_lists (proc_maps pid) file.maps in
        elim (List-cases common) [
          | inl e ↦ rw (e, procs_loop) (none, refl)
          | inr (m, maps, e) ↦
              let all = rw e at (intersect_lists-All IsMapped (proc_maps pid) file.maps h) in
              let (next, f) =
                rounds-Returns (file_round page_size d pp elf_range) file_round-Returns (m ∷ maps)
                  totals all in
              rw (e, procs_loop) (rw f (procs_loop-Returns file pids next h))
        ]

    -- So are the sizes of a file over the range, under the same conditions on the range and on
    -- the maps of the file.
    pub file_sizes_of_range-Returns :
        (file : File)
        → All IsMapped file.maps
        → Returns (file_sizes_of_range page_size d pp proc_maps file elf_range)
    unfolding file_sizes_of_range
    file_sizes_of_range-Returns file h = elim (List-cases file.procs) [
      | inl e ↦ rw (e, file_sizes_of_range) (none, refl)
      | inr (pid, pids, e) ↦
          rw (e, file_sizes_of_range) (procs_loop-Returns file (pid ∷ pids) (zero_sizes d) h)
    ]
