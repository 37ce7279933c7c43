-- ===== src/Kernel/Chunks.antt =====
-- What one read shows of an area.
pub mod Areas
pub mod Whole
pub mod Repeated
use mathlib.Core.List.{append_assoc, append-nil}
use exmap.Prelude.{
  ℕ, zero, suc, ◌+◌, ◌-◌, ◌≤◌, ◌<◌, ◌≡◌, ◌⊎◌, inl, inr, refl, sym, ap, ◌∙◌, Bool, true, false, not,
  ◌&&◌, List, [], ◌∷◌, ◌++◌, some, ◌==◌, if◌then◌else◌, length, length-append, length-drop, drop,
  take, map, arith, Bool-cases, All, joined,
}
use exmap.Std.Names.{Name}
use exmap.Outcome.{Outcome, done, ◌>>=◌}
use exmap.Kernel.{
  PteMacros, VmaData, ExmapData, page_line, vma_line, fitted, show_vma_start, show_pages, show_area,
  show_areas, exmap_show_next,
}
use exmap.Kernel.Reading.{
  length-fitted, length-vma_line, not_empty, page_lines, unread_area, unread_areas, PagesShown,
  show_pages_lem,
}

module _ {Pte : Type 0} (macros : PteMacros Pte) where
  -- The array of an area is as long as it says, and the cursor is inside.
  pub record IsFilled (v : VmaData Pte) : Type 0 where
    pub pages : v.num_pages ≡ length v.ptes
    pub inside : v.page_cursor ≤ length v.ptes

  shift_suc : (n m : ℕ) → suc (n + m) ≡ suc n + m
  shift_suc n m = omega arith

  drop_nil : (n : ℕ) → drop {A = Pte} n [] ≡ []
  drop_nil zero = refl
  drop_nil (suc n) = refl

  pub drop-drop : (n m : ℕ) (ptes : List Pte) → drop m (drop n ptes) ≡ drop (n + m) ptes
  drop-drop zero m ptes = ap (λ (k : ℕ). drop k ptes) (omega arith)
  drop-drop (suc n) m [] = drop_nil m ∙ sym (drop_nil (suc n + m))
  drop-drop (suc n) m (pte ∷ ptes) =
      drop-drop n m ptes ∙ ap (λ (k : ℕ). drop k (pte ∷ ptes)) (shift_suc n m)

  drop_all : (n : ℕ) (ptes : List Pte) → n ≡ length ptes → page_lines macros (drop n ptes) ≡ []
  unfolding page_lines joined
  drop_all n [] e = rw (drop_nil n) refl
  drop_all zero (pte ∷ ptes) e = absurd (omega (arith, e))
  drop_all (suc n) (pte ∷ ptes) e = drop_all n ptes (omega (arith, e))

  -- What the body of the outer loop ends with.
  pub record AreaShown (v : VmaData Pte) (buflen : ℕ) (out : Name) (after : VmaData Pte)
      (all : Bool) : Type 0 where
    pub text : out ++ unread_area macros after ≡ unread_area macros v
    pub filled : IsFilled after
    pub complete : all ≡ true → unread_area macros after ≡ []
    pub fits : 0 < buflen → length out < buflen
    pub progress : 200 ≤ buflen → all ≡ false → 0 < length out

  -- An area behind so many more pages.
  abbrev behind : VmaData Pte → ℕ → VmaData Pte
  behind v shown = record v { start_shown = true; page_cursor = v.page_cursor + shown }

  -- The pages of an area, behind the line that is shown first, if it is.
  PagesShown-AreaShown :
      (v : VmaData Pte) (buflen : ℕ) (start out : Name) (shown : ℕ) (all : Bool)
      → IsFilled v
      → start ++ page_lines macros (drop v.page_cursor v.ptes) ≡ unread_area macros v
      → (0 < buflen → length start < buflen)
      → (start ≡ []) ⊎ (0 < length start)
      → PagesShown macros (drop v.page_cursor v.ptes) (buflen - length start) out shown all
      → AreaShown v buflen (start ++ out) (behind v shown) all
  unfolding unread_area
  PagesShown-AreaShown v buflen start out shown all ok begins short some_start so =
      let size = length-drop v.page_cursor v.ptes in
      let both = length-append start out in
      record {
        text =
            append_assoc start out _
            ∙ ap (λ (t : Name). start ++ t) (rw (← drop-drop v.page_cursor shown v.ptes) so.text)
            ∙ begins;
        filled = record { pages = ok.pages; inside = omega (arith, so.count, size, ok.inside) };
        complete = λ t. drop_all _ v.ptes (omega (arith, so.complete t, size, ok.inside));
        fits = λ pos. omega (arith, short pos, so.fits (omega (arith, short pos)), both);
        progress = λ wide f. elim some_start [
          | inl e ↦
              omega (arith, both, ap length e, so.progress (omega (arith, ap length e, wide)) f)
          | inr h ↦ omega (arith, both, h)
        ];
      }

  show_area_started :
      (v : VmaData Pte) (buflen : ℕ) (out : Name) (shown : ℕ) (all : Bool)
      → IsFilled v
      → v.start_shown ≡ true
      → show_pages macros
          (length (drop v.page_cursor v.ptes))
          (drop v.page_cursor v.ptes)
          (buflen - 0)
        ≡ done (out, shown, all)
      → show_area macros v buflen ≡ done (out, behind v shown, all)
  unfolding show_area
  show_area_started v buflen out shown all ok e run =
      let left : v.num_pages - v.page_cursor ≡ length (drop v.page_cursor v.ptes) =
        omega (arith, length-drop v.page_cursor v.ptes, ok.pages) in
      rw (e, left, run, show_area) refl

  show_area_new :
      (v : VmaData Pte) (buflen : ℕ) (line out : Name) (shown : ℕ) (all : Bool)
      → IsFilled v
      → v.start_shown ≡ false
      → fitted (vma_line macros v) buflen ≡ line
      → (length line == 0) ≡ false
      → show_pages macros
          (length (drop v.page_cursor v.ptes))
          (drop v.page_cursor v.ptes)
          (buflen - length line)
        ≡ done (out, shown, all)
      → show_area macros v buflen ≡ done (line ++ out, behind v shown, all)
  unfolding show_area show_vma_start
  show_area_new v buflen line out shown all ok e fit some_line run =
      let left : v.num_pages - v.page_cursor ≡ length (drop v.page_cursor v.ptes) =
        omega (arith, length-drop v.page_cursor v.ptes, ok.pages) in
      rw (e, fit, some_line, left, run) refl

  show_area_full :
      (v : VmaData Pte) (buflen : ℕ)
      → v.start_shown ≡ false
      → fitted (vma_line macros v) buflen ≡ []
      → show_area macros v buflen ≡ done ([], v, false)
  unfolding show_area show_vma_start
  show_area_full v buflen e fit = rw (e, fit) refl

  pub show_area_lem :
      (v : VmaData Pte) (buflen : ℕ)
      → IsFilled v
      → (out : Name) × (after : VmaData Pte) × (all : Bool) × (show_area macros v buflen
          ≡ done (out, after, all))
        × AreaShown v buflen out after all
  unfolding unread_area
  show_area_lem v buflen ok = elim (Bool-cases v.start_shown) [
    | inl e ↦
        let (out, shown, all, run, so) =
          show_pages_lem macros (drop v.page_cursor v.ptes) (buflen - 0) in
        (
          out,
          behind v shown,
          all,
          show_area_started v buflen out shown all ok e run,
          PagesShown-AreaShown v buflen [] out shown all ok (rw e refl) (λ h. h) (inl refl) so,
        )
    | inr e ↦ elim (length-fitted (vma_line macros v) buflen) [
      | inl (fit, h) ↦ (
        [],
        v,
        false,
        show_area_full v buflen e fit,
        record {
          text = refl;
          filled = ok;
          complete = λ h. cc;
          fits = λ h. h;
          progress = λ wide f. absurd (omega (arith, (length-vma_line macros v).1, h, wide));
        },
      )
      | inr (fit, h) ↦
          let line : Name = vma_line macros v in
          let (out, shown, all, run, so) =
            show_pages_lem macros (drop v.page_cursor v.ptes) (buflen - length line) in
          (
            line ++ out,
            behind v shown,
            all,
            show_area_new v buflen line out shown all ok e fit
                (not_empty line (length-vma_line macros v).0) run,
            PagesShown-AreaShown v buflen line out shown all ok (rw e refl) (λ pos. h)
                (inr (length-vma_line macros v).0) so,
          )
    ]
  ]
