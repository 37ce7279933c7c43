-- ===== src/Calculator/Checked.antt =====
-- What sanity_check accepts.
use exmap.Prelude.{
  ℕ, ◌≤◌, ◌<◌, ◌≡◌, ◌≢◌, refl, ◌∙◌, true, false, List, [], ◌∷◌, ◌++◌, Option, none, some, arith,
  ◌⊎◌, inl, inr,
}
use exmap.Range.{contains_range}
use exmap.Range.Basic.{contains_range_iff}
use exmap.Vma.{Vma}
use exmap.Outcome.{done, crash}
use exmap.Map.{MapPtr}
use exmap.Calculator.Holes.{range_of}
use exmap.Calculator.Sanity.{leaves_gap, maps_loop, vma_round, too_few, sanity_check}

-- Non-empty maps that fill the addresses from `lo` to `hi`, each where the one before ends.
abbrev pub Tiles : ℕ → ℕ → List MapPtr → Type 0
Tiles lo hi [] = lo ≡ hi
Tiles lo hi (m ∷ maps) =
    ((range_of m).start ≡ lo)
    × ((range_of m).start < (range_of m).end)
    × Tiles (range_of m).end hi maps

-- The maps of each area in turn.
abbrev pub TilesAll : List Vma → List (List MapPtr) → Type 0
TilesAll [] [] = Unit
TilesAll [] (maps ∷ groups) = ⊥
TilesAll (vma ∷ vmas) [] = ⊥
TilesAll (vma ∷ vmas) (maps ∷ groups) =
    (vma.range.start < vma.range.end)
    × Tiles vma.range.start vma.range.end maps
    × TilesAll vmas groups

abbrev pub joined : List (List MapPtr) → List MapPtr
joined [] = []
joined (maps ∷ groups) = maps ++ joined groups

Tiles-le : (lo hi : ℕ) (maps : List MapPtr) → Tiles lo hi maps → lo ≤ hi
Tiles-le lo hi [] t = omega arith
Tiles-le lo hi (m ∷ maps) t = omega (arith, Tiles-le (range_of m).end hi maps t.2)

maps_loop_stop :
    (vma : Vma) (lastmap : Option MapPtr) (m : MapPtr) (behind : List MapPtr)
    → (range_of m).end ≡ vma.range.end
    → maps_loop vma lastmap m behind ≡ done (some (m, behind))
unfolding maps_loop
maps_loop_stop vma lastmap m [] e = ground arith
maps_loop_stop vma lastmap m (next ∷ behind) e = ground arith

maps_loop_next :
    (vma : Vma) (lastmap : Option MapPtr) (m next : MapPtr) (rest : List MapPtr)
    → (range_of m).end < vma.range.end
    → contains_range vma.range (range_of m) ≡ true
    → leaves_gap lastmap next ≡ false
    → maps_loop vma lastmap m (next ∷ rest) ≡ maps_loop vma (some next) next rest
unfolding maps_loop
maps_loop_next vma lastmap m next rest l c g = ground arith

-- Within an area, the loop runs over tiles to the last of them.
maps_loop-Tiles :
    (vma : Vma) (lastmap : Option MapPtr) (m : MapPtr) (maps behind : List MapPtr)
    → (lastmap ≡ none) ⊎ (lastmap ≡ some m)
    → vma.range.start ≤ (range_of m).start
    → (range_of m).start < (range_of m).end
    → Tiles (range_of m).end vma.range.end maps
    → (last : MapPtr) × (maps_loop vma lastmap m (maps ++ behind) ≡ done (some (last, behind)))
      × ((range_of last).end ≡ vma.range.end)
unfolding leaves_gap
maps_loop-Tiles vma lastmap m [] behind g s h t = (m, maps_loop_stop vma lastmap m behind t, t)
maps_loop-Tiles vma lastmap m (next ∷ maps) behind g s h t =
    let hi = Tiles-le (range_of next).end vma.range.end maps t.2 in
    let inside = (contains_range_iff vma.range (range_of m) h).1 (s, omega arith) in
    let (last, eq, e) =
      maps_loop-Tiles vma (some next) next maps behind (inr refl) (omega arith) t.1 t.2 in
    (
      last,
      maps_loop_next vma lastmap m next (maps ++ behind) (omega arith) inside (ground (arith, g, t))
          ∙ eq,
      e,
    )

vma_round-Tiles :
    (vma : Vma) (maps behind : List MapPtr)
    → vma.range.start < vma.range.end
    → Tiles vma.range.start vma.range.end maps
    → vma_round vma (maps ++ behind) ≡ done (some behind)
unfolding vma_round
vma_round-Tiles vma [] behind h t = absurd (omega arith)
vma_round-Tiles vma (m ∷ maps) behind h t =
    let (last, eq, e) = maps_loop-Tiles vma none m maps behind (inl refl) (omega arith) t.1 t.2 in
    rw (eq, vma_round) (ground arith)

joined-nonempty :
    (vma : Vma) (vmas : List Vma) (groups : List (List MapPtr))
    → TilesAll (vma ∷ vmas) groups
    → joined groups ≢ []
joined-nonempty vma vmas [] t = absurd t
joined-nonempty vma vmas ([] ∷ groups) t = absurd (omega arith)
joined-nonempty vma vmas ((m ∷ maps) ∷ groups) t = λ e. cc

too_few_nil : (maps : List MapPtr) → too_few [] maps ≡ false
unfolding too_few
too_few_nil [] = refl
too_few_nil (m ∷ maps) = refl

too_few_cons :
    (vma : Vma) (vmas : List Vma) (maps : List MapPtr)
    → maps ≢ []
    → too_few (vma ∷ vmas) maps ≡ false
unfolding too_few
too_few_cons vma vmas [] h = absurd (h refl)
too_few_cons vma vmas (m ∷ maps) h = refl

too_few-joined :
    (vmas : List Vma) (groups : List (List MapPtr))
    → TilesAll vmas groups
    → too_few vmas (joined groups) ≡ false
too_few-joined [] groups t = too_few_nil (joined groups)
too_few-joined (vma ∷ vmas) groups t =
    too_few_cons vma vmas (joined groups) (joined-nonempty vma vmas groups t)

-- `sanity_check` accepts, and does not crash, where every area is filled by non-empty maps, each
-- of which begins where the one before it ends, and there are no others.
pub sanity_check-Tiles :
    (vmas : List Vma) (groups : List (List MapPtr))
    → TilesAll vmas groups
    → sanity_check vmas (joined groups) ≡ done true
unfolding sanity_check
sanity_check-Tiles [] [] t = refl
sanity_check-Tiles [] (maps ∷ groups) t = absurd t
sanity_check-Tiles (vma ∷ vmas) [] t = absurd t
sanity_check-Tiles (vma ∷ vmas) (maps ∷ groups) t =
    rw (vma_round-Tiles vma maps (joined groups) t.0 t.1)
      (rw (too_few-joined vmas groups t.2) (sanity_check-Tiles vmas groups t.2))

-- The check does not compare the first map of an area with the second: it accepts two maps with
-- any gap or overlap between them, as long as the first begins with the area and lies within it
-- and the second ends with the area.
pub sanity_check_gap :
    (vma : Vma) (first second : MapPtr)
    → (range_of first).start ≡ vma.range.start
    → (range_of first).start < (range_of first).end
    → (range_of first).end < vma.range.end
    → (range_of second).end ≡ vma.range.end
    → sanity_check (vma ∷ []) (first ∷ second ∷ []) ≡ done true
unfolding sanity_check vma_round leaves_gap too_few
sanity_check_gap vma first second s h l e =
    let inside = (contains_range_iff vma.range (range_of first) h).1 (omega arith, omega arith) in
    rw
      (
        maps_loop_next vma none first second [] l inside refl,
        maps_loop_stop vma (some second) second [] e,
      )
      (ground arith)

-- The check reads past the end of the maps, and crashes, where there are areas and no maps, and
-- where the only map begins with the first area, lies within it and ends before it does.
pub sanity_check_short :
    (vma : Vma) (vmas : List Vma) (m : MapPtr)
    → (range_of m).start ≡ vma.range.start
    → (range_of m).start < (range_of m).end
    → (range_of m).end < vma.range.end
    → (sanity_check (vma ∷ vmas) [] ≡ crash) × (sanity_check (vma ∷ vmas) (m ∷ []) ≡ crash)
unfolding sanity_check vma_round maps_loop
sanity_check_short vma vmas m s h l =
    let inside = (contains_range_iff vma.range (range_of m) h).1 (omega arith, omega arith) in
    (refl, ground (arith, inside))
