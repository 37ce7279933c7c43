-- ===== src/Std/Sets.antt =====
-- std::set of numbers, which stand for pids or addresses: ascending, each once.
use exmap.Prelude.{ℕ, List, [], ◌∷◌, ltb, ◌==◌, if◌then◌else◌}

unfoldable pub set_insert : ℕ → List ℕ → List ℕ
set_insert a [] = a ∷ []
set_insert a (b ∷ s) = if ltb b a then b ∷ set_insert a s else if a == b then b ∷ s else a ∷ b ∷ s
