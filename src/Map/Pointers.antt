-- ===== src/Map/Pointers.antt =====
-- src/Exmap.cpp: Map::intersect_lists, the common pointers of two lists of maps. `list::sort` of
-- pointers compares their addresses.
use exmap.Prelude.{
  ℕ, ◌+◌, ◌<◌, ◌≡◌, refl, ◌∙◌, min, true, false, List, [], ◌∷◌, arith, ltb, ◌==◌, if◌then◌else◌,
}
use exmap.Std.Sort.{sort, sort_insert, by_key, Ascending, sort-Ascending}
use exmap.Map.{MapPtr}

abbrev pub address_of : MapPtr → ℕ
address_of m = m.address

unfoldable pub intersect_loop : List MapPtr → List MapPtr → List MapPtr
intersect_loop [] b = []
intersect_loop (x ∷ a) [] = []
intersect_loop (x ∷ a) (y ∷ b) = elim (address_of x == address_of y) [
  | true ↦ y ∷ intersect_loop a b
  | false ↦ elim (ltb (address_of x) (address_of y)) [
    | true ↦ intersect_loop a (y ∷ b)
    | false ↦ intersect_loop (x ∷ a) b
  ]
]

unfoldable pub intersect_lists : List MapPtr → List MapPtr → List MapPtr
unfolding intersect_loop sort
intersect_lists a_arg b_arg =
    intersect_loop (sort (by_key address_of) a_arg) (sort (by_key address_of) b_arg)

-- How often a pointer stands in a list.
unfoldable pub occurrences : ℕ → List MapPtr → ℕ
occurrences k [] = 0
occurrences k (m ∷ maps) = (if address_of m == k then 1 else 0) + occurrences k maps

occurrences_below :
    (k n : ℕ) (l : List MapPtr) → Ascending address_of n l → k < n → occurrences k l ≡ 0
unfolding occurrences
occurrences_below k n [] a h = refl
occurrences_below k n (m ∷ l) a h = ground (arith, occurrences_below k (address_of m) l a.1)

intersect_loop-occurrences :
    (k m n : ℕ) (a b : List MapPtr)
    → Ascending address_of m a
    → Ascending address_of n b
    → occurrences k (intersect_loop a b) ≡ min (occurrences k a) (occurrences k b)
unfolding intersect_loop occurrences
intersect_loop-occurrences k m n [] b sa sb = omega arith
intersect_loop-occurrences k m n (x ∷ a) [] sa sb = omega arith
intersect_loop-occurrences k m n (x ∷ a) (y ∷ b) sa sb = ground (
  arith,
  intersect_loop-occurrences k (address_of x) (address_of y) a b sa.1 sb.1,
  intersect_loop-occurrences k (address_of x) n a (y ∷ b) sa.1 sb,
  intersect_loop-occurrences k m (address_of y) (x ∷ a) b sa sb.1,
  occurrences_below k (address_of x) a sa.1,
  occurrences_below k (address_of y) b sb.1,
)

occurrences-sort_insert :
    (k : ℕ) (x : MapPtr) (l : List MapPtr)
    → occurrences k (sort_insert (by_key address_of) x l) ≡ occurrences k (x ∷ l)
unfolding occurrences sort_insert
occurrences-sort_insert k x [] = refl
occurrences-sort_insert k x (y ∷ l) = ground (arith, occurrences-sort_insert k x l)

occurrences-sort :
    (k : ℕ) (l : List MapPtr) → occurrences k (sort (by_key address_of) l) ≡ occurrences k l
unfolding occurrences sort
occurrences-sort k [] = refl
occurrences-sort k (x ∷ l) =
    ground (arith, occurrences-sort_insert k x (sort (by_key address_of) l), occurrences-sort k l)

-- A pointer stands in `intersect_lists a b` as often as in that of `a` and `b` where it stands
-- less often.
pub intersect_lists-occurrences :
    (k : ℕ) (a b : List MapPtr)
    → occurrences k (intersect_lists a b) ≡ min (occurrences k a) (occurrences k b)
unfolding intersect_lists
intersect_lists-occurrences k a b =
    intersect_loop-occurrences k 0 0 (sort (by_key address_of) a) (sort (by_key address_of) b)
      (sort-Ascending address_of a) (sort-Ascending address_of b)
    ∙ ground (arith, occurrences-sort k a, occurrences-sort k b)
