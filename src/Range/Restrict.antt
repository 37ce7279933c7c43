-- ===== src/Range/Restrict.antt =====
-- restrict: what a list of ranges covers within a range.
use exmap.Prelude.{
  max, ℕ, ◌+◌, ◌≤◌, ◌<◌, ◌≡◌, ◌∙◌, ap, false, ◌&&◌, none, some, List, [], ◌∷◌, arith, All,
  Option-cases, inl, inr,
}
use exmap.Range.{Range, contains}
use exmap.Range.Basic.{IsWellFormed}
use exmap.Range.Lists.{merge_list, restrict_one, restrict_loop, restrict}
use exmap.Range.Cover.{covers, Separated, Blocks, Blocks-mono, Separated-All}
use exmap.Range.Merge.{merge_list-covers, merge_list-Separated}

module _ (r it : Range) (wr : IsWellFormed r) (wi : IsWellFormed it) where
  restrict_one-contains :
      {s : Range} (v : ℕ)
      → restrict_one r it ≡ some s
      → contains s v ≡ (contains r v && contains it v)
  unfolding restrict_one contains
  restrict_one-contains v e = ground arith

  restrict_one-none : (v : ℕ) → restrict_one r it ≡ none → (contains r v && contains it v) ≡ false
  unfolding restrict_one contains
  restrict_one-none v e = ground arith

  restrict_one_bounds :
      {s : Range}
      → restrict_one r it ≡ some s
      → (r.start ≤ s.start)
        × (it.start ≤ s.start)
        × (s.start < s.end)
        × (s.end ≤ r.end)
        × (s.end ≤ it.end)
  unfolding restrict_one
  restrict_one_bounds e = ground arith

restrict_loop-covers :
    (r : Range) (l : List Range) (v : ℕ)
    → IsWellFormed r
    → All IsWellFormed l
    → covers (restrict_loop r l) v ≡ (contains r v && covers l v)
unfolding restrict_loop covers
restrict_loop-covers r [] v wr wl = ground arith
restrict_loop-covers r (it ∷ l) v wr wl = elim (Option-cases (restrict_one r it)) [
  | inl e ↦
      rw (e, restrict_loop)
        (ground (arith, restrict_one-none r it wr wl.0 v e, restrict_loop-covers r l v wr wl.1))
  | inr (s, e) ↦
      rw (e, restrict_loop)
        (ground (arith, restrict_one-contains r it wr wl.0 v e, restrict_loop-covers r l v wr wl.1))
]

restrict_loop-Blocks :
    (n : ℕ) (r : Range) (l : List Range)
    → IsWellFormed r
    → Separated n l
    → Blocks (max n r.start) r.end (restrict_loop r l)
unfolding restrict_loop
restrict_loop-Blocks n r [] wr s = tt
restrict_loop-Blocks n r (it ∷ l) wr s =
    let rest = restrict_loop-Blocks (it.end + 1) r l wr s.2 in
    elim (Option-cases (restrict_one r it)) [
      | inl e ↦
          rw (e, restrict_loop)
            (Blocks-mono _ (max (it.end + 1) r.start) r.end (restrict_loop r l) (omega arith) rest)
      | inr (t, e) ↦
          let b = restrict_one_bounds r it wr s.1 e in
          rw (e, restrict_loop)
            (
              omega arith,
              b.2,
              b.3,
              Blocks-mono _ (max (it.end + 1) r.start) r.end (restrict_loop r l) (omega arith) rest,
            )
    ]

module _ (r : Range) (l : List Range) (wr : IsWellFormed r) (wl : All IsWellFormed l) where
  merged : All IsWellFormed (merge_list l)
  merged = Separated-All 0 (merge_list l) (merge_list-Separated l wl)

  -- An address is in a range of `restrict r l` exactly when it is in `r` and in a range of `l`,
  -- where `r` and the ranges of `l` are well formed.
  pub restrict-covers : (v : ℕ) → covers (restrict r l) v ≡ (contains r v && covers l v)
  unfolding restrict
  restrict-covers v =
      restrict_loop-covers r (merge_list l) v wr merged
      ∙ ap (◌&&◌ (contains r v)) (merge_list-covers l v wl)

  -- `restrict r l` returns non-empty ranges within `r`, with gaps between them.
  pub restrict-Blocks : Blocks r.start r.end (restrict r l)
  unfolding restrict
  restrict-Blocks =
      Blocks-mono r.start (max 0 r.start) r.end (restrict_loop r (merge_list l)) (omega arith)
        (restrict_loop-Blocks 0 r (merge_list l) wr (merge_list-Separated l wl))
