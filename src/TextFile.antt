-- ===== src/TextFile.antt =====
-- src/jutil/jutil.cpp: read_textfile. A file is the list of its bytes; the file system is a
-- function of the name.
pub mod Lines
use exmap.Prelude.{
  ℕ, zero, suc, ◌-◌, Bool, true, false, List, [], ◌∷◌, Option, none, some, ◌==◌, ◌||◌, leb,
  if◌then◌else◌, map,
}
use exmap.Std.Names.{Name}

-- A string made of a buffer ends at the first null byte.
unfoldable pub c_string : Name → Name
c_string [] = []
c_string (b ∷ buf) = let rest = c_string buf in if b == 0 then [] else b ∷ rest

unfoldable pub with_byte : ℕ → List Name → List Name
with_byte b [] = (b ∷ []) ∷ []
with_byte b (buf ∷ bufs) = (b ∷ buf) ∷ bufs

-- The buffers that fgets fills one after another: each ends behind a newline, or when `left`
-- bytes, `limit` of them at first, are in it.
unfoldable pub fgets_all : ℕ → ℕ → Name → List Name
unfolding with_byte
fgets_all limit left [] = []
fgets_all limit left (b ∷ content) =
    let ends = b == 10 || leb left 1 in
    let rest = fgets_all limit (if ends then limit else left - 1) content in
    if ends then (b ∷ []) ∷ rest else with_byte b rest

-- fgets stores one byte less than it is given, LINE_MAXLEN.
unfoldable pub readline_helper : Name → List Name
unfolding fgets_all c_string
readline_helper content = map c_string (fgets_all 1022 1022 content)

unfoldable pub read_textfile : (Name → Option Name) → Name → Option (List Name)
unfolding readline_helper
read_textfile files name = elim (files name) [
  | none ↦ none
  | some content ↦ some (readline_helper content)
]
