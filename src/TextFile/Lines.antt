-- ===== src/TextFile/Lines.antt =====
-- Lines that were written one behind another are read back.
use mathlib.Core.List.{append_assoc}
use exmap.Prelude.{
  ℕ, ◌-◌, ◌<◌, ◌≡◌, ◌≢◌, refl, ◌∙◌, ap, List, [], ◌∷◌, ◌++◌, map, arith, length, All, joined,
}
use exmap.Std.Names.{Name}
use exmap.TextFile.{c_string, with_byte, fgets_all, readline_helper}

-- A byte inside a line.
abbrev pub IsInside : ℕ → Type 0
IsInside b = (b ≢ 10) × (b ≢ 0)

-- The line that a text makes with a newline, if it fits the buffer.
abbrev pub IsLine : Name → Type 0
IsLine line = (text : Name) × (line ≡ text ++ (10 ∷ [])) × All IsInside text × (length text < 1022)

fgets_step :
    (b left : ℕ) (content : Name)
    → b ≢ 10
    → 1 < left
    → fgets_all 1022 left (b ∷ content) ≡ with_byte b (fgets_all 1022 (left - 1) content)
unfolding fgets_all
fgets_step b left content h more = ground arith

fgets_line :
    (left : ℕ) (text content : Name)
    → All IsInside text
    → length text < left
    → fgets_all 1022 left (text ++ (10 ∷ content))
      ≡ (text ++ (10 ∷ [])) ∷ fgets_all 1022 1022 content
unfolding fgets_all with_byte
fgets_line left [] content h short = refl
fgets_line left (b ∷ text) content h short =
    fgets_step b left (text ++ (10 ∷ content)) h.0.0 (omega (arith, short))
    ∙ ap (with_byte b) (fgets_line (left - 1) text content h.1 (omega (arith, short)))

c_string_line : (text : Name) → All IsInside text → c_string (text ++ (10 ∷ [])) ≡ text ++ (10 ∷ [])
unfolding c_string
c_string_line [] h = refl
c_string_line (b ∷ text) h = let ne = h.0 in grind (arith, c_string_line text h.1)

read_line :
    (line content : Name)
    → IsLine line
    → readline_helper (line ++ content) ≡ line ∷ readline_helper content
unfolding readline_helper
read_line line content (text, e, inside, short) =
    rw (e, append_assoc text (10 ∷ []) content, fgets_line 1022 text content inside short)
      (ap (λ (l : Name). l ∷ map c_string (fgets_all 1022 1022 content))
        (c_string_line text inside))

pub readline_helper-joined :
    (lines : List Name) → All IsLine lines → readline_helper (joined lines) ≡ lines
unfolding readline_helper fgets_all joined
readline_helper-joined [] h = refl
readline_helper-joined (line ∷ lines) h =
    read_line line (joined lines) h.0 ∙ ap (◌∷◌ line) (readline_helper-joined lines h.1)
