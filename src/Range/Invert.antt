-- ===== src/Range/Invert.antt =====
-- invert_list: what a list of ranges leaves uncovered within a range.
use exmap.Prelude.{
  ℕ, ◌+◌, ◌-◌, ◌≤◌, ◌<◌, ◌≡◌, refl, not, ◌&&◌, List, [], ◌∷◌, arith, All, word_mod, leb, ltb,
}
use mathlib.Core.Path.{ap₂}
use exmap.Range.{Range, contains, size}
use exmap.Range.Basic.{IsWellFormed}
use exmap.Range.Lists.{restrict, invert_loop, invert_list}
use exmap.Range.Cover.{covers, Blocks, Blocks-mono, Blocks-below, Blocks-All}
use exmap.Range.Restrict.{restrict-covers, restrict-Blocks}

invert_loop-covers :
    (val end : ℕ) (l : List Range) (v : ℕ)
    → Blocks val end l
    → covers (invert_loop val end l) v ≡ (leb val v && ltb v end && not (covers l v))
unfolding invert_loop covers
invert_loop-covers val end [] v b = ground arith
invert_loop-covers val end (r ∷ l) v b = ground (
  arith,
  invert_loop-covers r.end end l v (Blocks-mono r.end (r.end + 1) end l (omega arith) b.3),
  Blocks-below (r.end + 1) end l v b.3,
)

invert_loop-Blocks :
    (n val end : ℕ) (l : List Range)
    → n ≤ val
    → Blocks val end l
    → Blocks n end (invert_loop val end l)
unfolding invert_loop
invert_loop-Blocks n val end [] h b = ground arith
invert_loop-Blocks n val end (r ∷ l) h b =
    let after = Blocks-mono r.end (r.end + 1) end l (omega arith) b.3 in
    ground (
      arith,
      invert_loop-Blocks (r.start + 1) r.end end l (omega arith) after,
      invert_loop-Blocks n r.end end l (omega arith) after,
    )

-- The addresses in a list of ranges, counted.
unfoldable pub total_size : List Range → ℕ
unfolding size
total_size [] = 0
total_size (r ∷ l) = size r + total_size l

invert_loop-total_size :
    (val end : ℕ) (l : List Range)
    → val ≤ end
    → end < word_mod
    → Blocks val end l
    → total_size (invert_loop val end l) + total_size l ≡ end - val
unfolding invert_loop total_size
invert_loop-total_size val end [] h w b = ground arith
invert_loop-total_size val end (r ∷ l) h w b = ground (
  arith,
  invert_loop-total_size r.end end l b.2 w (Blocks-mono r.end (r.end + 1) end l (omega arith) b.3),
)

-- Two lists of blocks that cover the same addresses are one list.
pub Blocks-eq_of_covers :
    (m n hi ki : ℕ) (k l : List Range)
    → Blocks m hi k
    → Blocks n ki l
    → ((v : ℕ) → covers k v ≡ covers l v)
    → k ≡ l
unfolding covers
Blocks-eq_of_covers m n hi ki [] [] bk bl h = refl
Blocks-eq_of_covers m n hi ki [] (s ∷ l) bk bl h = ground (arith, h s.start)
Blocks-eq_of_covers m n hi ki (r ∷ k) [] bk bl h = ground (arith, h r.start)
Blocks-eq_of_covers m n hi ki (r ∷ k) (s ∷ l) bk bl h =
    ap₂ ◌∷◌ (ground (arith, starts, ends))
      (Blocks-eq_of_covers (r.end + 1) (s.end + 1) hi ki k l bk.3 bl.3 tails)
  where
    starts : r.start ≡ s.start
    starts = ground (
      arith,
      h r.start,
      h s.start,
      Blocks-below (r.end + 1) hi k s.start bk.3,
      Blocks-below (s.end + 1) ki l r.start bl.3,
    )

    ends : r.end ≡ s.end
    ends = ground (
      arith,
      starts,
      h r.end,
      h s.end,
      Blocks-below (r.end + 1) hi k r.end bk.3,
      Blocks-below (s.end + 1) ki l s.end bl.3,
    )

    tails : (v : ℕ) → covers k v ≡ covers l v
    tails v = ground (
      arith,
      starts,
      ends,
      h v,
      Blocks-below (r.end + 1) hi k v bk.3,
      Blocks-below (s.end + 1) ki l v bl.3,
    )

module _ (r : Range) (l : List Range) (wr : IsWellFormed r) (wl : All IsWellFormed l) where
  -- An address is in a range of `invert_list r l` exactly when it is in `r` and in no range of
  -- `l`, where `r` and the ranges of `l` are well formed.
  pub invert_list-covers : (v : ℕ) → covers (invert_list r l) v ≡ (contains r v && not (covers l v))
  unfolding invert_list contains
  invert_list-covers v = ground (
    arith,
    invert_loop-covers r.start r.end (restrict r l) v (restrict-Blocks r l wr wl),
    restrict-covers r l wr wl v,
  )

  -- `invert_list r l` returns non-empty ranges within `r`, with gaps between them.
  pub invert_list-Blocks : Blocks r.start r.end (invert_list r l)
  unfolding invert_list
  invert_list-Blocks =
      invert_loop-Blocks r.start r.start r.end (restrict r l) (omega arith)
        (restrict-Blocks r l wr wl)

  -- What `restrict r l` and `invert_list r l` cover adds up to the size of `r`.
  pub invert_list-total_size : total_size (invert_list r l) + total_size (restrict r l) ≡ size r
  unfolding invert_list size
  invert_list-total_size = ground (
    arith,
    invert_loop-total_size r.start r.end (restrict r l) wr.0 wr.1 (restrict-Blocks r l wr wl),
  )

-- Inverting twice within `r` is restricting to `r`, range for range.
pub invert_list-invert_list :
    (r : Range) (l : List Range)
    → IsWellFormed r
    → All IsWellFormed l
    → invert_list r (invert_list r l) ≡ restrict r l
invert_list-invert_list r l wr wl =
    Blocks-eq_of_covers r.start r.start r.end r.end _ _
      (invert_list-Blocks r (invert_list r l) wr wi) (restrict-Blocks r l wr wl) same
  where
    wi : All IsWellFormed (invert_list r l)
    wi = Blocks-All r.start r.end _ wr.1 (invert_list-Blocks r l wr wl)

    same : (v : ℕ) → covers (invert_list r (invert_list r l)) v ≡ covers (restrict r l) v
    same v = ground (
      arith,
      invert_list-covers r (invert_list r l) wr wi v,
      invert_list-covers r l wr wl v,
      restrict-covers r l wr wl v,
    )
