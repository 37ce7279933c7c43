-- ===== src/Double.antt =====
-- The type `double` with the operations that the program uses, as an interface: the sizes are
-- sums of doubles. The laws say that whole numbers up to 2 ^ 53 are kept exactly.
use exmap.Prelude.{ℕ, ◌+◌, ◌^◌, ◌≤◌, ◌<◌, ◌≡◌, Bool, ◌==◌}

pub record Double : Type 1 where
  pub Val : Type 0
  -- The conversions from an unsigned long, and from an int given by its 32-bit pattern.
  pub of_word : ℕ → Val
  pub of_int : ℕ → Val
  pub add : Val → Val → Val
  pub div : Val → Val → Val
  pub eq : Val → Val → Bool
  pub of_int-eq : (n : ℕ) → n < 2 ^ 31 → of_int n ≡ of_word n
  pub add-of_word : (a b : ℕ) → a + b ≤ 2 ^ 53 → add (of_word a) (of_word b) ≡ of_word (a + b)
  pub eq-of_word : (a b : ℕ) → a ≤ 2 ^ 53 → b ≤ 2 ^ 53 → eq (of_word a) (of_word b) ≡ (a == b)
