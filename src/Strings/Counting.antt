-- ===== src/Strings/Counting.antt =====
-- count_occurences, by its loop over the places, against the occurrences in the string.
use exmap.Prelude.{ℕ, zero, suc, ◌+◌, ◌≡◌, refl, ◌∙◌, [], ◌∷◌, arith, ◌==◌, if◌then◌else◌, length}
use exmap.Std.Names.{Name, byte_is}
use exmap.Strings.{count_loop, count_occurences}

unfoldable pub occurrences : ℕ → Name → ℕ
occurrences c [] = 0
occurrences c (b ∷ s) = (if b == c then 1 else 0) + occurrences c s

-- A loop that starts behind the first byte is a loop over the rest.
count_loop_cons :
    (b : ℕ) (s : Name) (c rounds pos count : ℕ)
    → count_loop (b ∷ s) c rounds (suc pos) count ≡ count_loop s c rounds pos count
unfolding count_loop byte_is
count_loop_cons b s c zero pos count = refl
count_loop_cons b s c (suc rounds) pos count =
    count_loop_cons b s c rounds (suc pos) (if byte_is s pos c then count + 1 else count)

count_loop_lem :
    (s : Name) (c count : ℕ) → count_loop s c (length s) 0 count ≡ count + occurrences c s
unfolding count_loop byte_is occurrences
count_loop_lem [] c count = omega arith
count_loop_lem (b ∷ s) c count =
    count_loop_cons b s c (length s) 0 (if b == c then count + 1 else count)
    ∙ count_loop_lem s c (if b == c then count + 1 else count)
    ∙ ground arith

-- `count_occurences` is the number of occurrences of the byte in the string.
pub count_occurences_lem : (s : Name) (c : ℕ) → count_occurences s c ≡ occurrences c s
unfolding count_occurences
count_occurences_lem s c = count_loop_lem s c 0 ∙ omega arith
