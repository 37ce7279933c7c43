-- ===== src/Kernel/Reading.antt =====
-- One read of /proc/exmap: it shows the next lines of what is left, and moves the cursors past
-- them.
use mathlib.Core.List.{append_assoc}
use exmap.Prelude.{
  ℕ, zero, suc, ◌+◌, ◌-◌, ◌≤◌, ◌<◌, ◌≡◌, ◌⊎◌, inl, inr, refl, ap, ◌∙◌, Bool, true, false, List, [],
  ◌∷◌, ◌++◌, if_both, ltb, ◌/◌, ◌%◌, ◌==◌, if◌then◌else◌, length, length-append, drop, map, arith,
  joined,
}
use exmap.Std.Names.{Name}
use exmap.Std.Digits.{digit, digits, decimal, hexadecimal}
use exmap.Outcome.{done}
use exmap.Kernel.{
  PteMacros, VmaData, cookie, page_line, vma_line, fitted, show_one_page, show_pages,
}

length-digits : (fuel base n : ℕ) → length (digits fuel base n) ≤ fuel
unfolding digits
length-digits zero base n = omega arith
length-digits (suc fuel) base n =
    if_both (λ (text : Name). length text ≤ suc fuel) (ltb n base) (digit n ∷ [])
      (digits fuel base (n / base) ++ (digit (n % base) ∷ [])) (omega arith)
      (omega (
        arith,
        length-append (digits fuel base (n / base)) (digit (n % base) ∷ []),
        length-digits fuel base (n / base),
      ))

length-decimal : (n : ℕ) → length (decimal n) ≤ 65
unfolding decimal
length-decimal n = length-digits 65 10 n

length-hexadecimal : (n : ℕ) → length (hexadecimal n) ≤ 65
unfolding hexadecimal
length-hexadecimal n = length-digits 65 16 n

-- Numbers with a byte behind each.
length-fields :
    (a b : ℕ) (x y : Name) → length (x ++ (a ∷ (y ++ (b ∷ [])))) ≡ length x + length y + 2
length-fields a b x y =
    omega (arith, length-append x (a ∷ (y ++ (b ∷ []))), length-append y (b ∷ []))

pub not_empty : (line : Name) → 0 < length line → (length line == 0) ≡ false
not_empty line h = ground arith

pub length-fitted :
    (line : Name) (buflen : ℕ)
    → ((fitted line buflen ≡ []) × (buflen ≤ length line))
      ⊎ ((fitted line buflen ≡ line) × (length line < buflen))
unfolding fitted
length-fitted line buflen = ground arith

module _ {Pte : Type 0} (macros : PteMacros Pte) where
  pub length-page_line :
      (pte : Pte) → (0 < length (page_line macros pte)) × (length (page_line macros pte) < 200)
  unfolding page_line
  length-page_line pte =
      let p : Name = decimal (macros.present pte) in
      let w : Name = decimal (if macros.write pte then 1 else 0) in
      let c : Name = hexadecimal (cookie macros pte) in
      omega (
        arith,
        length-append p (b' ' ∷ (w ++ (b' ' ∷ (c ++ (b'\n' ∷ []))))),
        length-fields b' ' b'\n' w c,
        length-decimal (macros.present pte),
        length-decimal (if macros.write pte then 1 else 0),
        length-hexadecimal (cookie macros pte),
      )

  pub length-vma_line :
      (v : VmaData Pte) → (0 < length (vma_line macros v)) × (length (vma_line macros v) < 200)
  unfolding vma_line
  length-vma_line v = omega (
    arith,
    length-fields b' ' b'\n' (hexadecimal v.vm_start) (decimal v.num_pages),
    length-decimal v.num_pages,
    length-hexadecimal v.vm_start,
  )

  -- The lines of some entries.
  unfoldable pub page_lines : List Pte → Name
  unfolding page_line
  page_lines ptes = joined (map (page_line macros) ptes)

  -- What is left to show of an area, and of several.
  unfoldable pub unread_area : VmaData Pte → Name
  unfolding page_lines vma_line
  unread_area v =
      (if v.start_shown then [] else vma_line macros v) ++ page_lines (drop v.page_cursor v.ptes)

  unfoldable pub unread_areas : List (VmaData Pte) → Name
  unfolding unread_area
  unread_areas areas = joined (map unread_area areas)

  -- What the inner loop ends with.
  pub record PagesShown (ptes : List Pte) (buflen : ℕ) (out : Name) (shown : ℕ) (all : Bool)
      : Type 0 where
    pub text : out ++ page_lines (drop shown ptes) ≡ page_lines ptes
    pub count : shown ≤ length ptes
    pub complete : all ≡ true → shown ≡ length ptes
    pub fits : 0 < buflen → length out < buflen
    pub progress : 200 ≤ buflen → all ≡ false → 0 < length out

  show_pages_stop :
      (left : ℕ) (pte : Pte) (ptes : List Pte) (buflen : ℕ)
      → fitted (page_line macros pte) buflen ≡ []
      → show_pages macros (suc left) (pte ∷ ptes) buflen ≡ done ([], 0, false)
  unfolding show_pages show_one_page
  show_pages_stop left pte ptes buflen e = rw (e, show_pages) refl

  show_pages_step :
      (left : ℕ) (pte : Pte) (ptes : List Pte) (buflen : ℕ) (line out : Name) (shown : ℕ)
      (all : Bool)
      → fitted (page_line macros pte) buflen ≡ line
      → (length line == 0) ≡ false
      → show_pages macros left ptes (buflen - length line) ≡ done (out, shown, all)
      → show_pages macros (suc left) (pte ∷ ptes) buflen ≡ done (line ++ out, suc shown, all)
  unfolding show_pages show_one_page
  show_pages_step left pte ptes buflen line out shown all e some_line run =
      rw (e, some_line, run, show_pages) refl

  PagesShown-step :
      (pte : Pte) (ptes : List Pte) (buflen : ℕ) (out : Name) (shown : ℕ) (all : Bool)
      → length (page_line macros pte) < buflen
      → PagesShown ptes (buflen - length (page_line macros pte)) out shown all
      → PagesShown (pte ∷ ptes) buflen (page_line macros pte ++ out) (suc shown) all
  unfolding page_lines joined
  PagesShown-step pte ptes buflen out shown all h so =
      let line : Name = page_line macros pte in
      record {
        text = append_assoc line out _ ∙ ap (λ (t : Name). line ++ t) so.text;
        count = omega (arith, so.count);
        complete = λ t. ap suc (so.complete t);
        fits = λ pos. omega (arith, so.fits (omega (arith, h)), length-append line out, h);
        progress = λ wide f. omega (arith, (length-page_line pte).0, length-append line out);
      }

  pub show_pages_lem :
      (ptes : List Pte) (buflen : ℕ)
      → (out : Name) × (shown : ℕ) × (all : Bool) × (show_pages macros (length ptes) ptes buflen
          ≡ done (out, shown, all))
        × PagesShown ptes buflen out shown all
  unfolding page_lines joined show_pages
  show_pages_lem [] buflen = (
    [],
    0,
    true,
    refl,
    record {
      text = refl;
      count = omega arith;
      complete = λ h. refl;
      fits = λ h. h;
      progress = λ h e. cc;
    },
  )
  show_pages_lem (pte ∷ ptes) buflen = elim (length-fitted (page_line macros pte) buflen) [
    | inl (e, h) ↦ (
      [],
      0,
      false,
      show_pages_stop (length ptes) pte ptes buflen e,
      record {
        text = refl;
        count = omega arith;
        complete = λ h. cc;
        fits = λ h. h;
        progress = λ wide f. absurd (omega (arith, (length-page_line pte).1, h, wide));
      },
    )
    | inr (e, h) ↦
        let (out, shown, all, run, so) =
          show_pages_lem ptes (buflen - length (page_line macros pte)) in
        (
          _,
          suc shown,
          all,
          show_pages_step (length ptes) pte ptes buflen (page_line macros pte) out shown all e
              (not_empty _ (length-page_line pte).0) run,
          PagesShown-step pte ptes buflen out shown all h so,
        )
  ]
