-- ===== src/Range.antt =====
-- src/Range.hpp and src/Range.cpp: half-open ranges of addresses, start <= x < end.
-- A RangePtr is a range that is never written again, so it is modelled by its value; a null
-- RangePtr is `none`. The operations are here; lists of ranges are in `Range.Lists`.
pub mod Basic
pub mod Lists
pub mod Cover
pub mod Merge
pub mod Restrict
pub mod Invert
pub mod Overlap
use exmap.Prelude.{
  ℕ, ◌+◌, Bool, true, false, ◌&&◌, ◌||◌, not, Option, none, some, ltb, leb, ◌==◌, if◌then◌else◌,
  add_word, sub_word, neg_word,
}

pub record Range : Type 0 where
  pub start : ℕ
  pub end : ℕ

unfoldable pub size : Range → ℕ
size r = sub_word r.end r.start

unfoldable pub equals : Range → Range → Bool
equals r s = r.start == s.start && r.end == s.end

-- operator<: by start only.
unfoldable pub less : Range → Range → Bool
less r s = ltb r.start s.start

-- contains(unsigned long v)
unfoldable pub contains : Range → ℕ → Bool
contains r v = leb r.start v && ltb v r.end

unfoldable pub overlaps : Range → Range → Bool
unfolding contains
overlaps r s = contains r s.start || contains s r.start || (leb s.start r.start && ltb r.end s.end)

unfoldable pub intersect : Range → Range → Option Range
unfolding overlaps
intersect r s =
    if not (overlaps r s)
    then none
    else some (record {
      start = if ltb s.start r.start then r.start else s.start;
      end = if ltb s.end r.end then s.end else r.end;
    })

-- contains(const Range &r)
unfoldable pub contains_range : Range → Range → Bool
unfolding intersect equals
contains_range r s = elim (intersect r s) [ none ↦ false | some is ↦ equals is s ]

unfoldable pub add : Range → ℕ → Range
add r v = record { start = add_word r.start v; end = add_word r.end v }

unfoldable pub subtract : Range → ℕ → Range
unfolding add
subtract r v = add r (neg_word v)

unfoldable pub truncate_below : Range → ℕ → Range
truncate_below r v = record {
  start = if ltb r.start v then v else r.start;
  end = if ltb r.end v then v else r.end;
}

unfoldable pub truncate_above : Range → ℕ → Range
truncate_above r v = record {
  start = if ltb v r.start then v else r.start;
  end = if ltb v r.end then v else r.end;
}

unfoldable pub merge : Range → Range → Option Range
unfolding overlaps
merge r s =
    if r.end == s.start
    then some (record { start = r.start; end = s.end })
    else if r.start == s.end
    then some (record { start = s.start; end = r.end })
    else if overlaps r s
    then some (record {
      start = if ltb r.start s.start then r.start else s.start;
      end = if ltb s.end r.end then r.end else s.end;
    })
    else none
