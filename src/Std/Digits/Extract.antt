-- ===== src/Std/Digits/Extract.antt =====
-- What operator>> reads of a printed number, and of one with leading zeros.
use mathlib.Core.List.{append-nil}
use exmap.Prelude.{
  ℕ, ◌+◌, ◌*◌, ◌^◌, ◌<◌, ◌≡◌, ◌≢◌, sym, refl, ◌∙◌, ap, Bool, true, false, [], ◌∷◌, ◌++◌, some,
  arith, List-cases, inl, inr, ltb_iff, All,
}
use exmap.Std.Names.{Name}
use exmap.Std.TextIn.{
  text_in, skip_space, digit_value, scan_digits, starts_digit, sign, prefix, extract_here, extract,
}
use exmap.Std.Digits.{digits}
use exmap.Std.Digits.Scan.{
  IsDigit, IsGap, IsBase, digits-IsDigit, digits_nonempty, scan_digits-digits, scan_digits_stop,
}

module _ (base : ℕ) (b : IsBase base) where
  pub digits-shape :
      (n : ℕ)
      → (c : ℕ) × (more : Name) × (digits 65 base n ≡ c ∷ more)
        × IsDigit base c
        × All (IsDigit base) more
  digits-shape n = elim (List-cases (digits 65 base n)) [
    | inl e ↦ absurd (digits_nonempty base b 64 n e)
    | inr (c, more, e) ↦
        let all = rw e at (digits-IsDigit base b 65 n) in (c, more, e, all.0, all.1)
  ]

  gap-value : (sep : ℕ) → IsGap sep → digit_value base sep ≡ base
  unfolding digit_value
  gap-value sep h = ground arith

  no_sign : (c : ℕ) (text : Name) → IsDigit base c → sign (c ∷ text) ≡ (false, c ∷ text)
  unfolding sign digit_value
  no_sign c text h = ground arith

  no_prefix :
      (c : ℕ) (more : Name) (sep : ℕ) (tail : Name)
      → All (IsDigit base) more
      → IsGap sep
      → prefix base (c ∷ (more ++ (sep ∷ tail))) ≡ c ∷ (more ++ (sep ∷ tail))
  unfolding prefix digit_value
  no_prefix c [] sep tail h gap = ground arith
  no_prefix c (d ∷ more) sep tail h gap = let digit_d = h.0 in ground arith

  is_digit : (c : ℕ) (text : Name) → IsDigit base c → starts_digit base (c ∷ text) ≡ true
  unfolding starts_digit
  is_digit c text h = (ltb_iff _ base).1 h

  -- A text of digits, leading zeros included, that is a number.
  abbrev pub Spells : ℕ → Name → Type 0
  Spells n text = (text ≢ []) × All (IsDigit base) text × ((scan_digits base 0 text).0 ≡ n)

  scan_step :
      (m c : ℕ) (text : Name)
      → IsDigit base c
      → scan_digits base m (c ∷ text) ≡ scan_digits base (m * base + digit_value base c) text
  unfolding scan_digits
  scan_step m c text h = rw ((ltb_iff _ base).1 h, scan_digits) refl

  -- The digits are scanned up to a gap.
  scan_digits-append :
      (m : ℕ) (text : Name) (sep : ℕ) (tail : Name)
      → All (IsDigit base) text
      → IsGap sep
      → scan_digits base m (text ++ (sep ∷ tail)) ≡ ((scan_digits base m text).0, sep ∷ tail)
  unfolding scan_digits
  scan_digits-append m [] sep tail h gap = scan_digits_stop base b m sep tail (gap-value sep gap)
  scan_digits-append m (c ∷ text) sep tail h gap =
      scan_step m c (text ++ (sep ∷ tail)) h.0
      ∙ scan_digits-append (m * base + digit_value base c) text sep tail h.1 gap
      ∙ ap (λ (r : ℕ × Name). (r.0, sep ∷ tail)) (sym (scan_step m c text h.0))

  -- A printed number is spelled by its digits.
  pub digits-Spells : (n : ℕ) → n < 2 ^ 64 → Spells n (digits 65 base n)
  unfolding scan_digits
  digits-Spells n small = (
    digits_nonempty base b 64 n,
    digits-IsDigit base b 65 n,
    ap (λ (t : Name). (scan_digits base 0 t).0) (sym (append-nil (digits 65 base n)))
        ∙ ap (λ (r : ℕ × Name). r.0) (scan_digits-digits base b 64 n [] small),
  )

  extract_here-Spells :
      (convert : Bool → ℕ → ℕ × Bool) (text : Name) (n v sep : ℕ) (tail : Name)
      → Spells n text
      → convert false n ≡ (v, false)
      → IsGap sep
      → extract_here base convert (text ++ (sep ∷ tail)) ≡ (some v, text_in (sep ∷ tail))
  unfolding extract_here
  extract_here-Spells convert [] n v sep tail spells e gap = absurd (spells.0 refl)
  extract_here-Spells convert (c ∷ more) n v sep tail (ne, (digit_c, digit_more), is_n) e gap =
      let scanned : scan_digits base 0 (c ∷ (more ++ (sep ∷ tail))) ≡ (n, sep ∷ tail) =
        scan_digits-append 0 (c ∷ more) sep tail (digit_c, digit_more) gap
        ∙ ap (λ (k : ℕ). (k, sep ∷ tail)) is_n in
      rw
        (
          no_sign c (more ++ (sep ∷ tail)) digit_c,
          no_prefix c more sep tail digit_more gap,
          scanned,
          e,
          is_digit c (more ++ (sep ∷ tail)) digit_c,
          extract_here,
        )
        (ground arith)

  not_space : (c : ℕ) (text : Name) → IsDigit base c → skip_space (c ∷ text) ≡ c ∷ text
  unfolding skip_space digit_value
  not_space c text h = ground arith

  skip_space-Spells :
      (text : Name) (n : ℕ) (tail : Name) → Spells n text → skip_space (text ++ tail) ≡ text ++ tail
  skip_space-Spells [] n tail spells = absurd (spells.0 refl)
  skip_space-Spells (c ∷ text) n tail (ne, h, e) = not_space c (text ++ tail) h.0

  -- A number at the front of a text is read, up to a space or a newline.
  pub extract-Spells :
      (convert : Bool → ℕ → ℕ × Bool) (text : Name) (n v sep : ℕ) (tail : Name)
      → Spells n text
      → convert false n ≡ (v, false)
      → IsGap sep
      → extract base convert (text_in (text ++ (sep ∷ tail))) ≡ (some v, text_in (sep ∷ tail))
  unfolding extract
  extract-Spells convert text n v sep tail spells e gap =
      rw (skip_space-Spells text n (sep ∷ tail) spells)
        (extract_here-Spells convert text n v sep tail spells e gap)

  -- Likewise behind a space.
  pub extract-Spells_next :
      (convert : Bool → ℕ → ℕ × Bool) (text : Name) (n v sep : ℕ) (tail : Name)
      → Spells n text
      → convert false n ≡ (v, false)
      → IsGap sep
      → extract base convert (text_in (b' ' ∷ (text ++ (sep ∷ tail))))
        ≡ (some v, text_in (sep ∷ tail))
  unfolding extract skip_space
  extract-Spells_next convert text n v sep tail spells e gap =
      rw (skip_space-Spells text n (sep ∷ tail) spells)
        (extract_here-Spells convert text n v sep tail spells e gap)

  pub extract-front :
      (convert : Bool → ℕ → ℕ × Bool) (n v sep : ℕ) (tail : Name)
      → n < 2 ^ 64
      → convert false n ≡ (v, false)
      → IsGap sep
      → extract base convert (text_in (digits 65 base n ++ (sep ∷ tail)))
        ≡ (some v, text_in (sep ∷ tail))
  extract-front convert n v sep tail small =
      extract-Spells convert (digits 65 base n) n v sep tail (digits-Spells n small)

  pub extract-next :
      (convert : Bool → ℕ → ℕ × Bool) (n v sep : ℕ) (tail : Name)
      → n < 2 ^ 64
      → convert false n ≡ (v, false)
      → IsGap sep
      → extract base convert (text_in (b' ' ∷ (digits 65 base n ++ (sep ∷ tail))))
        ≡ (some v, text_in (sep ∷ tail))
  extract-next convert n v sep tail small =
      extract-Spells_next convert (digits 65 base n) n v sep tail (digits-Spells n small)
