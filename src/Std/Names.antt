-- ===== src/Std/Names.antt =====
-- std::string as the bytes of a name, with its lexicographic operator< and its operator==.
use exmap.Prelude.{
  ℕ, ◌≡◌, refl, ◌↔◌, Bool, true, false, not, ◌&&◌, ◌||◌, List, [], ◌∷◌, none, some, get_elem?,
  arith, ltb, ◌==◌,
}
use exmap.Std.OrderedMap.{Key}

abbrev pub Name : Type 0
Name = List ℕ

-- The byte at a position, as `s[i]` reads it.
unfoldable pub byte_is : Name → ℕ → ℕ → Bool
byte_is name i b = elim (get_elem? name i) [ none ↦ false | some c ↦ c == b ]

unfoldable pub name_less : Name → Name → Bool
name_less [] [] = false
name_less [] (b ∷ bs) = true
name_less (a ∷ as') [] = false
name_less (a ∷ as') (b ∷ bs) = ltb a b || (a == b && name_less as' bs)

unfoldable pub name_eq : Name → Name → Bool
name_eq [] [] = true
name_eq [] (b ∷ bs) = false
name_eq (a ∷ as') [] = false
name_eq (a ∷ as') (b ∷ bs) = a == b && name_eq as' bs

pub name_eq_iff : (a b : Name) → (name_eq a b ≡ true) ↔ (a ≡ b)
unfolding name_eq
name_eq_iff [] [] = (λ h. refl, λ h. refl)
name_eq_iff [] (b ∷ bs) = (λ h. cc, λ h. cc)
name_eq_iff (a ∷ as') [] = (λ h. cc, λ h. cc)
name_eq_iff (a ∷ as') (b ∷ bs) = ground (arith, name_eq_iff as' bs)

pub name_same_iff : (a b : Name) → (not (name_less a b || name_less b a) ≡ true) ↔ (a ≡ b)
unfolding name_less
name_same_iff [] [] = (λ h. refl, λ h. refl)
name_same_iff [] (b ∷ bs) = (λ h. cc, λ h. cc)
name_same_iff (a ∷ as') [] = (λ h. cc, λ h. cc)
name_same_iff (a ∷ as') (b ∷ bs) = ground (arith, name_same_iff as' bs)

instance abbrev pub name_key : Key Name
name_key = record { less = name_less; same_iff = name_same_iff }
