-- ===== src/Std/Digits/Scan.antt =====
-- A printed number is scanned back.
use mathlib.Core.List.{append_assoc}
use exmap.Prelude.{
  ℕ, zero, suc, ◌+◌, ◌*◌, ◌/◌, ◌%◌, ◌^◌, ◌<◌, ◌≤◌, ◌≡◌, ◌≢◌, ◌⊎◌, ◌∙◌, ap, [], ◌∷◌, ◌++◌, arith,
  ltb, Bool-cases, inl, inr, ltb_iff, All, All-append,
}
use native.Mathlib.Nat.{pow-zero, pow-suc}
use exmap.Std.Names.{Name}
use exmap.Std.TextIn.{digit_value, scan_digits}
use exmap.Std.Digits.{digit, digits}

abbrev pub IsDigit : ℕ → ℕ → Type 0
IsDigit base b = digit_value base b < base

-- What stands behind a number.
abbrev pub IsGap : ℕ → Type 0
IsGap b = (b ≡ 32) ⊎ (b ≡ 10)

-- What a base needs.
pub record IsBase (base : ℕ) : Type 0 where
  pub at_least : 2 ≤ base
  pub value : (d : ℕ) → d < base → digit_value base (digit d) ≡ d
  pub divide : (n : ℕ) → (n / base) * base + n % base ≡ n
  pub small : (n : ℕ) → n % base < base
  pub shrink : (n : ℕ) → n / base ≤ n / 2

pub ten-IsBase : IsBase 10
unfolding digit_value digit
ten-IsBase = record {
  at_least = omega arith;
  value = λ d h. ground arith;
  divide = λ n. omega arith;
  small = λ n. omega arith;
  shrink = λ n. omega arith;
}

pub sixteen-IsBase : IsBase 16
unfolding digit_value digit
sixteen-IsBase = record {
  at_least = omega arith;
  value = λ d h. ground arith;
  divide = λ n. omega arith;
  small = λ n. omega arith;
  shrink = λ n. omega arith;
}

snoc-nonempty : (xs : Name) (x : ℕ) → xs ++ (x ∷ []) ≢ []
snoc-nonempty [] x h = cc
snoc-nonempty (y ∷ xs) x h = cc

module _ (base : ℕ) (b : IsBase base) where
  pub digit-IsDigit : (d : ℕ) → d < base → IsDigit base (digit d)
  digit-IsDigit d h = omega (arith, b.value d h)

  pub digits-IsDigit : (fuel n : ℕ) → All (IsDigit base) (digits fuel base n)
  unfolding digits
  digits-IsDigit zero n = tt
  digits-IsDigit (suc fuel) n = elim (Bool-cases (ltb n base)) [
    | inl e ↦ rw (e, digits) (digit-IsDigit n (ground arith), tt)
    | inr e ↦
        rw (e, digits)
          (All-append (IsDigit base) (digits fuel base (n / base)) _
            (digits-IsDigit fuel (n / base)) (digit-IsDigit (n % base) (b.small n), tt))
  ]

  pub digits_nonempty : (fuel n : ℕ) → digits (suc fuel) base n ≢ []
  unfolding digits
  digits_nonempty fuel n = elim (Bool-cases (ltb n base)) [
    | inl e ↦ rw e (λ h. cc)
    | inr e ↦ rw e (λ h. snoc-nonempty (digits fuel base (n / base)) _ h)
  ]

  scan_digit :
      (n d : ℕ) (tail : Name)
      → d < base
      → scan_digits base n (digit d ∷ tail) ≡ scan_digits base (n * base + d) tail
  unfolding scan_digits
  scan_digit n d tail h = rw (b.value d h, scan_digits) (ground arith)

  scan_short :
      (fuel n : ℕ) (tail : Name)
      → n < base
      → scan_digits base 0 (digits (suc fuel) base n ++ tail) ≡ scan_digits base n tail
  unfolding digits
  scan_short fuel n tail h =
      rw ((ltb_iff n base).1 h)
        (rw (scan_digit 0 n tail h) (ap (λ (m : ℕ). scan_digits base m tail) (omega arith)))

  -- The digits of a number read it, whatever is behind them.
  pub scan_digits-digits :
      (fuel n : ℕ) (tail : Name)
      → n < 2 ^ fuel
      → scan_digits base 0 (digits (suc fuel) base n ++ tail) ≡ scan_digits base n tail
  unfolding digits
  scan_digits-digits zero n tail h = scan_short zero n tail (omega (arith, b.at_least, pow-zero 2))
  scan_digits-digits (suc fuel) n tail h = elim (Bool-cases (ltb n base)) [
    | inl e ↦ scan_short (suc fuel) n tail ((ltb_iff n base).0 e)
    | inr e ↦
        let last : ℕ = n % base in
        rw (e, append_assoc (digits (suc fuel) base (n / base)) (digit last ∷ []) tail)
          (scan_digits-digits fuel (n / base) (digit last ∷ tail)
              (omega (arith, b.shrink n, pow-suc 2 fuel))
            ∙ scan_digit (n / base) last tail (b.small n)
            ∙ ap (λ (m : ℕ). scan_digits base m tail) (b.divide n))
  ]

  pub scan_digits_stop :
      (n sep : ℕ) (tail : Name)
      → digit_value base sep ≡ base
      → scan_digits base n (sep ∷ tail) ≡ (n, sep ∷ tail)
  unfolding scan_digits
  scan_digits_stop n sep tail h = ground (arith, h)
