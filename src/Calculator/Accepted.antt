-- ===== src/Calculator/Accepted.antt =====
-- What follows of maps that sanity_check accepts.
use exmap.Prelude.{
  ◌≡◌, refl, ◌∙◌, ap, true, List, [], ◌∷◌, ◌++◌, Option, none, some, arith, inl, inr, ◌⊎◌, ◌≢◌,
}
use exmap.Vma.{Vma}
use exmap.Outcome.{Outcome, done, crash}
use exmap.Map.{MapPtr}
use exmap.Calculator.Holes.{range_of}
use exmap.Calculator.Sanity.{maps_loop, vma_round, sanity_check}
use exmap.Calculator.Checked.{joined}

-- The last of the maps from one on.
abbrev pub last_of : MapPtr → List MapPtr → MapPtr
last_of m [] = m
last_of m (next ∷ rest) = last_of next rest

maps_loop_nil :
    (vma : Vma) (lastmap : Option MapPtr) (m last : MapPtr) (behind : List MapPtr)
    → maps_loop vma lastmap m [] ≡ done (some (last, behind))
    → (m ≡ last) × ([] ≡ behind)
unfolding maps_loop
maps_loop_nil vma lastmap m last behind e = ground arith

maps_loop_cons :
    (vma : Vma) (lastmap : Option MapPtr) (m next : MapPtr) (rest : List MapPtr) (last : MapPtr)
    (behind : List MapPtr)
    → maps_loop vma lastmap m (next ∷ rest) ≡ done (some (last, behind))
    → ((m ≡ last) × (next ∷ rest ≡ behind))
      ⊎ (maps_loop vma (some next) next rest ≡ done (some (last, behind)))
unfolding maps_loop
maps_loop_cons vma lastmap m next rest last behind e = ground arith

-- The maps that the inner loop runs over, up to the one it stops at.
maps_loop_found :
    (vma : Vma) (lastmap : Option MapPtr) (m : MapPtr) (rest : List MapPtr) (last : MapPtr)
    (behind : List MapPtr)
    → maps_loop vma lastmap m rest ≡ done (some (last, behind))
    → (run : List MapPtr) × (rest ≡ run ++ behind) × (last_of m run ≡ last)
maps_loop_found vma lastmap m [] last behind e =
    let (same, none_left) = maps_loop_nil vma lastmap m last behind e in ([], none_left, same)
maps_loop_found vma lastmap m (next ∷ rest) last behind e =
    elim (maps_loop_cons vma lastmap m next rest last behind e) [
      | inl (same, left) ↦ ([], left, same)
      | inr f ↦
          let (run, eq, end) = maps_loop_found vma (some next) next rest last behind f in
          (next ∷ run, ap (◌∷◌ next) eq, end)
    ]

-- What a round accepts, by what its inner loop finds.
vma_round_ended :
    (vma : Vma) (m : MapPtr) (rest behind : List MapPtr)
    (found : Outcome (Option (MapPtr × List MapPtr)))
    → maps_loop vma none m rest ≡ found
    → vma_round vma (m ∷ rest) ≡ done (some behind)
    → ((range_of m).start ≡ vma.range.start)
      × (last : MapPtr) × (found ≡ done (some (last, behind)))
      × ((range_of last).end ≡ vma.range.end)
unfolding vma_round
vma_round_ended vma m rest behind crash f e = ground (arith, f, e)
vma_round_ended vma m rest behind (done none) f e = ground (arith, f, e)
vma_round_ended vma m rest behind (done (some (last, b))) f e =
    let facts : ((range_of m).start ≡ vma.range.start)
        × ((range_of last).end ≡ vma.range.end)
        × (b ≡ behind) =
      ground (arith, f, e) in
    (facts.0, last, ap (λ (t : List MapPtr). done (some (last, t))) (facts.2), facts.1)

sanity_check_round :
    (vma : Vma) (vmas : List Vma) (maps : List MapPtr) (found : Outcome (Option (List MapPtr)))
    → vma_round vma maps ≡ found
    → sanity_check (vma ∷ vmas) maps ≡ done true
    → (behind : List MapPtr) × (found ≡ done (some behind)) × (sanity_check vmas behind ≡ done true)
unfolding sanity_check
sanity_check_round vma vmas maps crash f e = ground (arith, f, e)
sanity_check_round vma vmas maps (done none) f e = ground (arith, f, e)
sanity_check_round vma vmas maps (done (some behind)) f e = (behind, refl, ground (arith, f, e))

-- Maps of which the first begins and the last ends with the area.
abbrev pub Spans : Vma → List MapPtr → Type 0
Spans vma [] = ⊥
Spans vma (m ∷ run) =
    ((range_of m).start ≡ vma.range.start) × ((range_of (last_of m run)).end ≡ vma.range.end)

abbrev pub SpansAll : List Vma → List (List MapPtr) → Type 0
SpansAll [] [] = Unit
SpansAll [] (maps ∷ groups) = ⊥
SpansAll (vma ∷ vmas) [] = ⊥
SpansAll (vma ∷ vmas) (maps ∷ groups) = Spans vma maps × SpansAll vmas groups

vma_round_nil : (vma : Vma) (behind : List MapPtr) → vma_round vma [] ≢ done (some behind)
unfolding vma_round
vma_round_nil vma behind = λ e. cc

-- A round takes maps that span the area from the front.
vma_round-Spans :
    (vma : Vma) (maps behind : List MapPtr)
    → vma_round vma maps ≡ done (some behind)
    → (run : List MapPtr) × (maps ≡ run ++ behind) × Spans vma run
vma_round-Spans vma [] behind e = absurd (vma_round_nil vma behind e)
vma_round-Spans vma (m ∷ rest) behind e =
    let (starts, last, found, ends) = vma_round_ended vma m rest behind _ refl e in
    let (run, eq, same) = maps_loop_found vma none m rest last behind found in
    (m ∷ run, ap (◌∷◌ m) eq, (starts, ap (λ (t : MapPtr). (range_of t).end) same ∙ ends))

-- Maps that `sanity_check` accepts are groups, one for each area in turn, of which the first map
-- begins with the area and the last ends with it. No map is left.
pub sanity_check-SpansAll :
    (vmas : List Vma) (maps : List MapPtr)
    → sanity_check vmas maps ≡ done true
    → (groups : List (List MapPtr)) × (maps ≡ joined groups) × SpansAll vmas groups
unfolding sanity_check
sanity_check-SpansAll [] [] e = ([], refl, tt)
sanity_check-SpansAll [] (m ∷ maps) e = absurd (impossible e)
  where
    impossible : sanity_check [] (m ∷ maps) ≢ done true
    impossible f = cc
sanity_check-SpansAll (vma ∷ vmas) maps e =
    let (behind, found, ok) = sanity_check_round vma vmas maps _ refl e in
    let (run, eq, spans) = vma_round-Spans vma maps behind found in
    let (groups, rest, all) = sanity_check-SpansAll vmas behind ok in
    (run ∷ groups, eq ∙ ap (◌++◌ run) rest, (spans, all))
