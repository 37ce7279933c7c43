-- ===== src/Map/Exact.antt =====
-- The sizes of a range as exact sums of bytes: the doubles that hold whole numbers of bytes lose
-- nothing up to 2 ^ 53.
use mathlib.Core.List.{Perm, Permᴰ}
use mathlib.Core.Path.{ap₂}
use mathlib.Core.Logic.{∥∥₁_elim}
use native.Mathlib.Nat.{ℕ_set}
use exmap.Prelude.{
  ℕ, ◌+◌, ◌%◌, ◌^◌, ◌≤◌, ◌<◌, ◌≡◌, refl, ap, ◌∙◌, Bool, false, not, ◌&&◌, List, [], ◌∷◌, arith,
  ◌==◌, if◌then◌else◌, All, Bool-cases, inl, inr,
}
use exmap.Double.{Double}
use exmap.Page.{Page, PagePool, count, is_mapped, is_resident, is_writable}
use exmap.Vma.{PartialPageInfo}
use exmap.Vma.Overlaps.{total_bytes}
use exmap.Sizes.{
  Measure, effective_resident, effective_mapped, writable, vm, sole_mapped, mapped, resident, Sizes,
  increase,
}
use exmap.Map.{add_page, add_all_pages}

-- The measures that are whole numbers of bytes: all but the two effective ones.
abbrev pub IsExact : Measure → Type 0
IsExact effective_resident = ⊥
IsExact effective_mapped = ⊥
IsExact _ = Unit

-- Which pages a measure counts. A page that the pool has not counted is in none.
unfoldable pub selects : PagePool → Measure → Page → Bool
selects pp effective_resident page = false
selects pp effective_mapped page = false
selects pp vm page = not (count pp page == 0)
selects pp mapped page = not (count pp page == 0) && is_mapped page
selects pp sole_mapped page = not (count pp page == 0) && is_mapped page && count pp page == 1
selects pp resident page = not (count pp page == 0) && is_mapped page && is_resident page
selects pp writable page =
    not (count pp page == 0) && is_mapped page && is_resident page && is_writable page

-- The bytes in the pages that a test selects.
unfoldable pub bytes_where : (Page → Bool) → List PartialPageInfo → ℕ
bytes_where p [] = 0
bytes_where p (it ∷ info) = (if p it.page then it.bytes else 0) + bytes_where p info

pub bytes_where-le :
    (p : Page → Bool) (info : List PartialPageInfo) → bytes_where p info ≤ total_bytes info
unfolding bytes_where total_bytes
bytes_where-le p [] = omega arith
bytes_where-le p (it ∷ info) = ground (arith, bytes_where-le p info)

module _ (d : Double) where
  add_page_lem :
      (pp : PagePool) (s : Sizes d) (it : PartialPageInfo) (k : Measure)
      → IsExact k
      → add_page d pp s it k
        ≡ (if selects pp k it.page then d.add (s k) (d.of_int (it.bytes % 2 ^ 32)) else s k)
  unfolding add_page selects increase
  add_page_lem pp s it effective_resident e = absurd e
  add_page_lem pp s it effective_mapped e = absurd e
  add_page_lem pp s it writable e = ground arith
  add_page_lem pp s it _ e = ground arith

  pub add_all_pages_lem :
      (pp : PagePool) (s : Sizes d) (info : List PartialPageInfo) (k : Measure) (a : ℕ)
      → IsExact k
      → s k ≡ d.of_word a
      → All (λ it. it.bytes < 2 ^ 31) info
      → a + total_bytes info ≤ 2 ^ 53
      → add_all_pages d pp s info k ≡ d.of_word (a + bytes_where (selects pp k) info)
  unfolding add_all_pages bytes_where total_bytes
  add_all_pages_lem pp s [] k a x e small fits = e ∙ ap d.of_word (omega arith)
  add_all_pages_lem pp s (it ∷ info) k a x e small fits =
      let b : ℕ = (if selects pp k it.page then it.bytes else 0) in
      let le : b ≤ it.bytes = ground arith in
      let regroup : a + b + bytes_where (selects pp k) info
          ≡ a + (b + bytes_where (selects pp k) info) =
        omega arith in
      add_all_pages_lem pp (add_page d pp s it) info k (a + b) x step small.1 (omega arith)
      ∙ ap d.of_word regroup
    where
      low : it.bytes % 2 ^ 32 ≡ it.bytes
      low = omega (arith, small.0)

      step : add_page d pp s it k ≡ d.of_word (a + (if selects pp k it.page then it.bytes else 0))
      step = elim (Bool-cases (selects pp k it.page)) [
        | inl t ↦
            add_page_lem pp s it k x
            ∙ rw (t, low, e, d.of_int-eq it.bytes small.0) (d.add-of_word a it.bytes (omega arith))
        | inr t ↦ add_page_lem pp s it k x ∙ rw t (e ∙ ap d.of_word (omega arith))
      ]

bytes_where-same :
    (p : Page → Bool) {xs ys : List PartialPageInfo}
    → Permᴰ xs ys
    → bytes_where p xs ≡ bytes_where p ys
unfolding bytes_where
bytes_where-same p Permᴰ.nil = refl
bytes_where-same p (Permᴰ.cons {a = x} {b = y} e q) =
    ap₂ ◌+◌ (ap (λ (t : PartialPageInfo). if p t.page then t.bytes else 0) e) (bytes_where-same p q)
bytes_where-same p (Permᴰ.swap {a = x} {b = y} {a' = x'} {b' = y'} {l = l} e f) =
    rw (e, f) (omega arith)
bytes_where-same p (Permᴰ.trans q r) = bytes_where-same p q ∙ bytes_where-same p r

pub bytes_where-perm :
    (p : Page → Bool) {xs ys : List PartialPageInfo}
    → Perm xs ys
    → bytes_where p xs ≡ bytes_where p ys
bytes_where-perm p q = ∥∥₁_elim q (ℕ_set _ _) (bytes_where-same p)
