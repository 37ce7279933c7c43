-- ===== src/Strings/Trimming.antt =====
-- trim against the string without its outer trim characters.
use exmap.Prelude.{
  ℕ, suc, ◌+◌, ◌-◌, ◌≤◌, ◌<◌, ◌≡◌, refl, ◌∙◌, ap, true, false, [], ◌∷◌, none, some, arith, ltb,
  if◌then◌else◌, length, drop, take, length-take, length-drop, Bool-cases, Option-cases, inl, inr,
  ◌⊎◌,
}
use exmap.Std.Names.{Name}
use exmap.Strings.{is_in, find_first_not_of, find_last_not_of, substr, trim}

-- Without the trim characters at the front, and at the back.
unfoldable pub drop_front : Name → Name → Name
drop_front chars [] = []
drop_front chars (b ∷ line) =
    let rest = drop_front chars line in elim (is_in chars b) [ true ↦ rest | false ↦ b ∷ line ]

unfoldable pub drop_back : Name → Name → Name
drop_back chars [] = []
drop_back chars (b ∷ line) = elim (drop_back chars line) [
  | [] ↦ elim (is_in chars b) [ true ↦ [] | false ↦ b ∷ [] ]
  | c ∷ rest ↦ b ∷ c ∷ rest
]

unfoldable pub stripped : Name → Name → Name
unfolding drop_back drop_front
stripped chars line = drop_back chars (drop_front chars line)

drop_back-none :
    (chars line : Name) → find_last_not_of chars line ≡ none → drop_back chars line ≡ []
unfolding drop_back find_last_not_of
drop_back-none chars [] e = refl
drop_back-none chars (b ∷ line) e = ground (arith, drop_back-none chars line)

drop_back_cons :
    (chars : Name) (b c : ℕ) (line rest : Name)
    → drop_back chars line ≡ c ∷ rest
    → drop_back chars (b ∷ line) ≡ b ∷ c ∷ rest
unfolding drop_back
drop_back_cons chars b c line rest e = rw (e, drop_back) refl

drop_back_last :
    (chars : Name) (b : ℕ) (line : Name)
    → drop_back chars line ≡ []
    → is_in chars b ≡ false
    → drop_back chars (b ∷ line) ≡ b ∷ []
unfolding drop_back
drop_back_last chars b line e f = rw (e, f, drop_back) refl

-- The last place of a string that is not trimmed, by that of its tail.
find_last_cons :
    (chars : Name) (b : ℕ) (line : Name) (i : ℕ)
    → find_last_not_of chars (b ∷ line) ≡ some i
    → ((j : ℕ) × (find_last_not_of chars line ≡ some j) × (i ≡ suc j))
      ⊎ ((find_last_not_of chars line ≡ none) × (is_in chars b ≡ false) × (i ≡ 0))
unfolding find_last_not_of
find_last_cons chars b line i e = elim (Option-cases (find_last_not_of chars line)) [
  | inl f ↦ inr (f, ground (arith, f), ground (arith, f))
  | inr (j, f) ↦ inl (j, f, ground (arith, f))
]

drop_back-some :
    (chars line : Name) (i : ℕ)
    → find_last_not_of chars line ≡ some i
    → drop_back chars line ≡ take (suc i) line
unfolding find_last_not_of
drop_back-some chars [] i e = cc
drop_back-some chars (b ∷ []) i e = elim (find_last_cons chars b [] i e) [
  | inl (j, f, g) ↦ cc
  | inr (f, g, h) ↦ drop_back_last chars b [] (drop_back-none chars [] f) g ∙ rw h refl
]
drop_back-some chars (b ∷ c ∷ line) i e = elim (find_last_cons chars b (c ∷ line) i e) [
  | inl (j, f, g) ↦
      drop_back_cons chars b c (c ∷ line) (take j line) (drop_back-some chars (c ∷ line) j f)
      ∙ rw g refl
  | inr (f, g, h) ↦
      drop_back_last chars b (c ∷ line) (drop_back-none chars (c ∷ line) f) g ∙ rw h refl
]

find_last-lt : (chars line : Name) (j : ℕ) → find_last_not_of chars line ≡ some j → j < length line
unfolding find_last_not_of
find_last-lt chars [] j e = cc
find_last-lt chars (b ∷ line) j e = elim (find_last_cons chars b line j e) [
  | inl (k, f, g) ↦ omega (arith, g, find_last-lt chars line k f)
  | inr (f, g, h) ↦ omega (arith, h)
]

find_last_some :
    (chars : Name) (b : ℕ) (line : Name)
    → is_in chars b ≡ false
    → (j : ℕ) × (find_last_not_of chars (b ∷ line) ≡ some j)
unfolding find_last_not_of
find_last_some chars b line h = elim (Option-cases (find_last_not_of chars line)) [
  | inl f ↦ rw (f, h, find_last_not_of) (0, refl)
  | inr (j, f) ↦ rw (f, find_last_not_of) (suc j, refl)
]

-- Where trim cut_lem: nowhere, or from the first place that is not trimmed to the last.
abbrev Cut : Name → Name → Type 0
Cut chars line =
    ((find_first_not_of chars line ≡ none) × (stripped chars line ≡ []))
    ⊎ ((i j : ℕ) × (find_first_not_of chars line ≡ some i)
        × (find_last_not_of chars line ≡ some j)
        × (i ≤ j)
        × (j < length line)
        × (stripped chars line ≡ substr line i (j - i + 1)))

keep_first-Cut : (chars : Name) (b : ℕ) (line : Name) → is_in chars b ≡ false → Cut chars (b ∷ line)
unfolding find_first_not_of drop_front stripped substr
keep_first-Cut chars b line h =
    let (j, e) = find_last_some chars b line h in
    let from_start : suc j ≡ j - 0 + 1 = omega arith in
    inr (
      0,
      j,
      rw (h, find_first_not_of) refl,
      e,
      omega arith,
      find_last-lt chars (b ∷ line) j e,
      rw (h, drop_front)
          (drop_back-some chars (b ∷ line) j e ∙ ap (λ (n : ℕ). take n (b ∷ line)) from_start),
    )

trim_first-Cut :
    (chars : Name) (b : ℕ) (line : Name)
    → is_in chars b ≡ true
    → Cut chars line
    → Cut chars (b ∷ line)
unfolding find_first_not_of find_last_not_of drop_front stripped substr
trim_first-Cut chars b line h (inl (e, f)) =
    inl (rw (h, e, find_first_not_of) refl, rw (h, drop_front) f)
trim_first-Cut chars b line h (inr (i, j, e, f, le, lt, g)) =
    let shifted : j - i + 1 ≡ suc j - suc i + 1 = omega arith in
    inr (
      suc i,
      suc j,
      rw (h, e, find_first_not_of) refl,
      rw (f, find_last_not_of) refl,
      omega arith,
      omega arith,
      rw (h, drop_front) (g ∙ ap (λ (n : ℕ). take n (drop i line)) shifted),
    )

cut_lem : (chars line : Name) → Cut chars line
unfolding find_first_not_of stripped drop_front drop_back
cut_lem chars [] = inl (refl, refl)
cut_lem chars (b ∷ line) = elim (Bool-cases (is_in chars b)) [
  | inl h ↦ trim_first-Cut chars b line h (cut_lem chars line)
  | inr h ↦ keep_first-Cut chars b line h
]

-- `trim` returns the string without the trim characters at its front and at its back if that has
-- at least two characters, and the empty string otherwise.
pub trim_lem :
    (line trimchars : Name)
    → trim line trimchars
      ≡ (if ltb 1 (length (stripped trimchars line)) then stripped trimchars line else [])
unfolding trim substr
trim_lem line trimchars = elim (cut_lem trimchars line) [
  | inl (e, f) ↦ rw (e, f, trim) refl
  | inr (i, j, e, f, le, lt, g) ↦
      let n =
        ap length g ∙ length-take (j - i + 1) (drop i line) (omega (arith, length-drop i line)) in
      rw (e, f, n, trim) (rw g (ground arith))
]
