-- ===== src/Prelude/Words.antt =====
-- `unsigned long`, a 64-bit word as a native number below 2 ^ 64, with its wrap-around written out.
use Prim.Native.Nat.{ℕ, ◌+◌, ◌-◌, ◌%◌, ◌^◌, ◌<◌}

abbrev pub word_mod : ℕ
word_mod = 2 ^ 64

abbrev pub IsWord : ℕ → Type 0
IsWord w = w < word_mod

-- a + b, a - b and -a on `unsigned long`.
abbrev pub add_word : ℕ → ℕ → ℕ
add_word a b = (a + b) % word_mod

abbrev pub sub_word : ℕ → ℕ → ℕ
sub_word a b = (a + word_mod - b) % word_mod

abbrev pub neg_word : ℕ → ℕ
neg_word a = (word_mod - a) % word_mod
