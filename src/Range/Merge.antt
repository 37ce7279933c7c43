-- ===== src/Range/Merge.antt =====
-- merge_list: the result covers the same addresses by ranges with gaps between them, and such a
-- list is its own result.
use exmap.Prelude.{
  ℕ, ◌+◌, ◌≤◌, ◌<◌, ◌≡◌, refl, ◌∙◌, ◌||◌, none, some, List, [], ◌∷◌, arith, All, Option-cases, inl,
  inr,
}
use exmap.Std.Sort.{sort, sort_insert, Ascending, sort-Ascending, sort-All}
use exmap.Range.{Range, contains, merge, less}
use exmap.Range.Basic.{IsWellFormed}
use exmap.Range.Lists.{merge_loop, merge_sorted, merge_list}
use exmap.Range.Cover.{covers, covers-sort, Separated}

module _ (r s : Range) (wr : IsWellFormed r) (ws : IsWellFormed s) where
  pub contains-merge :
      {m : Range} (v : ℕ) → merge r s ≡ some m → contains m v ≡ (contains r v || contains s v)
  unfolding merge
  contains-merge v e = ground arith

  pub merge-IsWellFormed : {m : Range} → merge r s ≡ some m → IsWellFormed m
  unfolding merge
  merge-IsWellFormed e = ground arith

  merge_start : {m : Range} → r.start ≤ s.start → merge r s ≡ some m → m.start ≡ r.start
  unfolding merge
  merge_start h e = ground arith

  merge_apart : r.start ≤ s.start → merge r s ≡ none → r.end < s.start
  unfolding merge
  merge_apart h e = ground arith

abbrev start_of : Range → ℕ
start_of r = r.start

Ascending-below :
    (m n : ℕ) (l : List Range) → m ≤ n → Ascending start_of n l → Ascending start_of m l
Ascending-below m n [] h a = tt
Ascending-below m n (x ∷ l) h a = (omega arith, a.1)

merge_loop-covers :
    (c : Range) (l : List Range) (v : ℕ)
    → IsWellFormed c
    → All IsWellFormed l
    → covers (merge_loop c l) v ≡ covers (c ∷ l) v
unfolding merge_loop covers
merge_loop-covers c [] v wc wl = refl
merge_loop-covers c (x ∷ l) v wc wl = elim (Option-cases (merge c x)) [
  | inl e ↦ rw (e, merge_loop) (ground (arith, merge_loop-covers x l v wl.0 wl.1))
  | inr (m, e) ↦
      rw (e, merge_loop)
        (ground (
          arith,
          contains-merge c x wc wl.0 v e,
          merge_loop-covers m l v (merge-IsWellFormed c x wc wl.0 e) wl.1,
        ))
]

merge_loop-Separated :
    (n : ℕ) (c : Range) (l : List Range)
    → n ≤ c.start
    → IsWellFormed c
    → All IsWellFormed l
    → Ascending start_of c.start l
    → Separated n (merge_loop c l)
unfolding merge_loop
merge_loop-Separated n c [] h wc wl a = (h, wc, tt)
merge_loop-Separated n c (x ∷ l) h wc wl a = elim (Option-cases (merge c x)) [
  | inl e ↦
      rw (e, merge_loop)
        (
          h,
          wc,
          merge_loop-Separated (c.end + 1) x l (omega (arith, merge_apart c x wc wl.0 a.0 e)) wl.0
              wl.1 a.1,
        )
  | inr (m, e) ↦
      rw (e, merge_loop)
        (merge_loop-Separated n m l (omega (arith, merge_start c x wc wl.0 a.0 e))
          (merge-IsWellFormed c x wc wl.0 e) wl.1
          (Ascending-below m.start x.start l (omega (arith, merge_start c x wc wl.0 a.0 e)) a.1))
]

merge_sorted-covers :
    (l : List Range) (v : ℕ) → All IsWellFormed l → covers (merge_sorted l) v ≡ covers l v
unfolding merge_sorted
merge_sorted-covers [] v w = refl
merge_sorted-covers (c ∷ l) v w = merge_loop-covers c l v w.0 w.1

merge_sorted-Separated :
    (l : List Range) → All IsWellFormed l → Ascending start_of 0 l → Separated 0 (merge_sorted l)
unfolding merge_sorted
merge_sorted-Separated [] w a = tt
merge_sorted-Separated (c ∷ l) w a = merge_loop-Separated 0 c l (omega arith) w.0 w.1 a.1

-- An address is in a range of `merge_list l` exactly when it is in a range of `l`, where the
-- ranges of `l` are well formed.
pub merge_list-covers :
    (l : List Range) (v : ℕ) → All IsWellFormed l → covers (merge_list l) v ≡ covers l v
unfolding merge_list
merge_list-covers l v w =
    merge_sorted-covers (sort less l) v (sort-All less IsWellFormed l w) ∙ covers-sort l v

-- `merge_list` of well-formed ranges returns well-formed ranges, each ending before the next one
-- starts, with at least one address between.
pub merge_list-Separated : (l : List Range) → All IsWellFormed l → Separated 0 (merge_list l)
unfolding merge_list less
merge_list-Separated l w =
    merge_sorted-Separated (sort less l) (sort-All less IsWellFormed l w)
      (sort-Ascending start_of l)

sort_of_Separated : (n : ℕ) (l : List Range) → Separated n l → sort less l ≡ l
unfolding sort less sort_insert
sort_of_Separated n [] s = refl
sort_of_Separated n (r ∷ l) s = rw (sort_of_Separated (r.end + 1) l s.2) (front l s)
  where
    front : (l : List Range) → Separated n (r ∷ l) → sort_insert less r l ≡ r ∷ l
    front [] s = refl
    front (x ∷ l) s = ground arith

merge_loop_of_Separated :
    (n : ℕ) (c : Range) (l : List Range) → Separated n (c ∷ l) → merge_loop c l ≡ c ∷ l
unfolding merge_loop merge
merge_loop_of_Separated n c [] s = refl
merge_loop_of_Separated n c (x ∷ l) s = ground (arith, merge_loop_of_Separated (c.end + 1) x l s.2)

-- A list of well-formed ranges with gaps between them is its own `merge_list`, so that merging
-- twice is merging once.
pub merge_list_of_Separated : (l : List Range) → Separated 0 l → merge_list l ≡ l
unfolding merge_list
merge_list_of_Separated l s = rw (sort_of_Separated 0 l s) (sorted l s)
  where
    sorted : (l : List Range) → Separated 0 l → merge_sorted l ≡ l
    sorted [] s = refl
    sorted (c ∷ l) s = merge_loop_of_Separated 0 c l s
