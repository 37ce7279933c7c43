-- ===== src/Strings.antt =====
-- src/jutil/jutil.cpp: the helpers on strings. A string is
-- changed in place; the functions return what it is afterwards. The searches of std::string that
-- they use are here too, with npos as `none`.
pub mod Trimming
pub mod Counting
use exmap.Prelude.{
  ℕ, zero, suc, ◌+◌, ◌-◌, Bool, true, false, not, List, [], ◌∷◌, Option, none, some, ltb, leb, ◌==◌,
  ◌||◌, if◌then◌else◌, length, drop, take, get_elem?,
}
use exmap.Std.Names.{Name, byte_is}

abbrev pub is_in : Name → ℕ → Bool
is_in [] b = false
is_in (c ∷ chars) b = c == b || is_in chars b

unfoldable pub find_first_not_of : Name → Name → Option ℕ
find_first_not_of chars [] = none
find_first_not_of chars (b ∷ line) =
    let rest = find_first_not_of chars line in
    elim (is_in chars b) [
      | false ↦ some 0
      | true ↦ elim rest [ none ↦ none | some i ↦ some (suc i) ]
    ]

unfoldable pub find_last_not_of : Name → Name → Option ℕ
find_last_not_of chars [] = none
find_last_not_of chars (b ∷ line) = elim (find_last_not_of chars line) [
  | some i ↦ some (suc i)
  | none ↦ elim (is_in chars b) [ false ↦ some 0 | true ↦ none ]
]

unfoldable pub substr : Name → ℕ → ℕ → Name
substr line start n = take n (drop start line)

unfoldable pub chomp : Name → Name
unfolding byte_is
chomp line =
    let len = length line in
    if ltb len 1 then line else if byte_is line (len - 1) 10 then take (len - 1) line else line

unfoldable pub trim : Name → Name → Name
unfolding find_first_not_of find_last_not_of substr
trim line trimchars = elim (find_first_not_of trimchars line) [
  | none ↦ []
  | some start ↦ elim (find_last_not_of trimchars line) [
    | none ↦ []
    | some finish ↦ if leb finish start then [] else substr line start (finish - start + 1)
  ]
]

-- The loop of count_occurences, on the rounds that are left.
unfoldable pub count_loop : Name → ℕ → ℕ → ℕ → ℕ → ℕ
unfolding byte_is
count_loop s c zero pos count = count
count_loop s c (suc rounds) pos count =
    count_loop s c rounds (suc pos) (if byte_is s pos c then count + 1 else count)

unfoldable pub count_occurences : Name → ℕ → ℕ
unfolding count_loop
count_occurences s c = count_loop s c (length s) 0 0
