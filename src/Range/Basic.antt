-- ===== src/Range/Basic.antt =====
-- What the operations on one range or two promise, against membership of addresses.
use exmap.Prelude.{ℕ, ◌≤◌, ◌<◌, ◌≡◌, ◌↔◌, true, some, arith, word_mod}
use exmap.Range.{Range, size, contains, overlaps, intersect, contains_range, add, subtract}

-- An address lies in a half-open range.
abbrev pub In : ℕ → Range → Type 0
In v r = (r.start ≤ v) × (v < r.end)

-- The end is not before the start, and both are words.
abbrev pub IsWellFormed : Range → Type 0
IsWellFormed r = (r.start ≤ r.end) × (r.end < word_mod)

pub contains_iff : (r : Range) (v : ℕ) → (contains r v ≡ true) ↔ In v r
unfolding contains
contains_iff r v = ground arith

pub overlaps_iff :
    (r s : Range)
    → r.start < r.end
    → s.start < s.end
    → (overlaps r s ≡ true) ↔ ((r.start < s.end) × (s.start < r.end))
unfolding overlaps
overlaps_iff r s hr hs = ground arith

pub subtract-add : (r : Range) (v : ℕ) → IsWellFormed r → v < word_mod → subtract (add r v) v ≡ r
unfolding subtract
subtract-add r v w h = ground arith

pub size-add : (r : Range) (v : ℕ) → IsWellFormed r → v < word_mod → size (add r v) ≡ size r
unfolding size add
size-add r v w h = ground arith

pub contains_range_iff :
    (r s : Range)
    → s.start < s.end
    → (contains_range r s ≡ true) ↔ ((r.start ≤ s.start) × (s.end ≤ r.end))
unfolding contains_range
contains_range_iff r s h = ground arith

-- A range that another contains is their intersection.
pub intersect_of_contains :
    (r s : Range) → s.start < s.end → r.start ≤ s.start → s.end ≤ r.end → intersect r s ≡ some s
unfolding intersect
intersect_of_contains r s h l e = ground arith
