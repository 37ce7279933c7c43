-- ===== src/Range/Overlap.antt =====
-- any_overlap: the check of neighbours in a sorted copy finds every pair of ranges that overlap.
use mathlib.Core.List.{Pairwise, Mem}
use mathlib.Core.List.Perm
use mathlib.Core.List.{mem-cons, not-mem-nil, mem-cons_self, Pairwise-cons}
use mathlib.Core.Logic.Or
use native.Mathlib.Bridge.{le_prop}
use exmap.Prelude.{ℕ, ◌≤◌, ◌<◌, ◌≡◌, refl, ◌↔◌, false, List, [], ◌∷◌, arith, All}
use exmap.Std.Sort.{sort, Ascending, sort-Ascending, sort-All, sort-perm}
use exmap.Range.{Range, overlaps, less}
use exmap.Range.Lists.{overlap_loop, overlap_sorted, any_overlap}

abbrev IsNonEmpty : Range → Type 0
IsNonEmpty r = r.start < r.end

abbrev start_of : Range → ℕ
start_of r = r.start

-- No two ranges, at different places of the list, have an address in common.
abbrev pub Disjoint : Range → Range → Type 0
Disjoint r s = (v : ℕ) → r.start ≤ v → v < r.end → s.start ≤ v → v < s.end → ⊥

Disjoint-symm : {r s : Range} → Disjoint r s → Disjoint s r
Disjoint-symm d v a b c e = d v c e a b

Disjoint-prop : (r s : Range) → IsProp (Disjoint r s)
Disjoint-prop r s = hlevel

-- Each range ends before the next one starts.
abbrev Chain : ℕ → List Range → Type 0
Chain n [] = Unit
Chain n (r ∷ l) = (n ≤ r.start) × Chain r.end l

overlap_loop→Chain :
    (last : Range) (l : List Range)
    → IsNonEmpty last
    → All IsNonEmpty l
    → Ascending start_of last.start l
    → overlap_loop last l ≡ false
    → Chain last.end l
unfolding overlap_loop overlaps
overlap_loop→Chain last [] h w a e = tt
overlap_loop→Chain last (x ∷ l) h w a e = ground (arith, overlap_loop→Chain x l w.0 w.1 a.1)

Chain→overlap_loop :
    (last : Range) (l : List Range)
    → IsNonEmpty last
    → All IsNonEmpty l
    → Chain last.end l
    → overlap_loop last l ≡ false
unfolding overlap_loop overlaps
Chain→overlap_loop last [] h w c = refl
Chain→overlap_loop last (x ∷ l) h w c = ground (arith, Chain→overlap_loop x l w.0 w.1 c.1)

Chain-mem :
    (n : ℕ) (x : Range) (l : List Range) → All IsNonEmpty l → Chain n l → Mem x l → n ≤ x.start
Chain-mem n x [] w c m = absurd (not-mem-nil m)
Chain-mem n x (r ∷ l) w c m =
    Or.elim le_prop (mem-cons.0 m) (λ e. rw e c.0)
      λ later. omega (arith, Chain-mem r.end x l w.1 c.1 later)

Chain→Disjoint : (n : ℕ) (l : List Range) → All IsNonEmpty l → Chain n l → Pairwise Disjoint l
Chain→Disjoint n [] w c = Pairwise.nil
Chain→Disjoint n (r ∷ l) w c =
    Pairwise.cons (λ x m v a b d e. omega (arith, Chain-mem r.end x l w.1 c.1 m))
      (Chain→Disjoint r.end l w.1 c.1)

Disjoint→Chain :
    (n : ℕ) (l : List Range)
    → All IsNonEmpty l
    → Ascending start_of n l
    → Pairwise Disjoint l
    → Chain n l
Disjoint→Chain n [] w a d = tt
Disjoint→Chain n (r ∷ []) w a d = (a.0, tt)
Disjoint→Chain n (r ∷ x ∷ l) w a d =
    let (first, later) = Pairwise-cons.0 d in
    let rest = Disjoint→Chain x.start (x ∷ l) w.1 (omega arith, a.1.1) later in
    (a.0, (apart (first x mem-cons_self), rest.1))
  where
    apart : Disjoint r x → r.end ≤ x.start
    apart d = grind (arith, d x.start)

overlap_sorted_iff :
    (l : List Range)
    → All IsNonEmpty l
    → Ascending start_of 0 l
    → (overlap_sorted l ≡ false) ↔ Pairwise Disjoint l
unfolding overlap_sorted
overlap_sorted_iff [] w a = (λ e. Pairwise.nil, λ d. refl)
overlap_sorted_iff (r ∷ l) w a = (
  λ e. Chain→Disjoint 0 (r ∷ l) w (a.0, overlap_loop→Chain r l w.0 w.1 a.1 e),
  λ d. Chain→overlap_loop r l w.0 w.1 (Disjoint→Chain 0 (r ∷ l) w a d).1,
)

any_overlap_nil : any_overlap [] ≡ false
unfolding any_overlap
any_overlap_nil = refl

any_overlap_one : (r : Range) → any_overlap (r ∷ []) ≡ false
unfolding any_overlap
any_overlap_one r = refl

any_overlap_long :
    (r s : Range) (l : List Range)
    → any_overlap (r ∷ s ∷ l) ≡ overlap_sorted (sort less (r ∷ s ∷ l))
unfolding any_overlap
any_overlap_long r s l = ground arith

-- For non-empty ranges `any_overlap` is false exactly when no two ranges of the list, at
-- different places, have an address in common.
pub any_overlap_iff :
    (l : List Range) → All IsNonEmpty l → (any_overlap l ≡ false) ↔ Pairwise Disjoint l
unfolding less
any_overlap_iff [] w = (λ e. Pairwise.nil, λ d. any_overlap_nil)
any_overlap_iff (r ∷ []) w =
    (λ e. Pairwise.cons (λ x m. absurd (not-mem-nil m)) Pairwise.nil, λ d. any_overlap_one r)
any_overlap_iff (r ∷ s ∷ l) w =
    let all = r ∷ s ∷ l in
    let here =
      overlap_sorted_iff (sort less all) (sort-All less IsNonEmpty all w)
        (sort-Ascending start_of all) in
    let p = sort-perm less all in
    rw (any_overlap_long r s l) (
      λ e. Perm.pairwise Disjoint-prop (λ a b. Disjoint-symm) p (here.0 e),
      λ d. here.1 (Perm.pairwise Disjoint-prop (λ a b. Disjoint-symm) (Perm.symm p) d),
    )
