-- ===== src/Examples/Text.antt =====
-- Strings.
use exmap.Prelude.{◌≡◌, refl, [], ◌∷◌, length, ltb, if◌then◌else◌}
use exmap.Std.Names.{Name}
use exmap.Strings.{chomp, trim}
use exmap.Strings.Trimming.{stripped, trim_lem}

abbrev padded : Name
padded = b' ' ∷ b'a' ∷ b' ' ∷ b'b' ∷ b' ' ∷ []

trimmed : trim padded (b' ' ∷ []) ≡ b'a' ∷ b' ' ∷ b'b' ∷ []
unfolding trim
trimmed = refl

-- A single character is trimmed away.
trimmed_away : trim (b'a' ∷ []) (b' ' ∷ []) ≡ []
unfolding trim
trimmed_away = refl

chomped : chomp (b'a' ∷ 10 ∷ []) ≡ b'a' ∷ []
unfolding chomp
chomped = refl

trim_lem_example :
    trim padded (b' ' ∷ [])
    ≡ (if ltb 1 (length (stripped (b' ' ∷ []) padded)) then stripped (b' ' ∷ []) padded else [])
trim_lem_example = trim_lem padded (b' ' ∷ [])
