-- ===== src/Std/OrderedMap.antt =====
-- std::map: pairs in the order of their keys, each key once. Two keys are the same where neither
-- is less than the other. map_keys and map_values are from src/jutil/jutil.hpp.
use exmap.Prelude.{
  ℕ, ◌≡◌, refl, ◌↔◌, Bool, true, not, ◌||◌, List, [], ◌∷◌, Option, none, some, arith, ltb,
  if◌then◌else◌,
}

-- operator< of a type of keys.
pub record Key {ℓ} (K : Type ℓ) : Type ℓ where
  pub less : K → K → Bool
  pub same_iff : (a b : K) → (not (less a b || less b a) ≡ true) ↔ (a ≡ b)

pub nat_same_iff : (a b : ℕ) → (not (ltb a b || ltb b a) ≡ true) ↔ (a ≡ b)
nat_same_iff a b = ground arith

instance abbrev pub nat_key : Key ℕ
nat_key = record { less = ltb; same_iff = nat_same_iff }

module _ {ℓ} {K : Type ℓ} ⦃k : Key K⦄ where
  abbrev pub same : K → K → Bool
  same a b = not (k.less a b || k.less b a)

  module _ {κ} {V : Type κ} where
    unfoldable pub find : List (K × V) → K → Option V
    find [] a = none
    find ((b, v) ∷ m) a = if same b a then some v else find m a

    -- m[a] = v
    unfoldable pub assign : List (K × V) → K → V → List (K × V)
    assign [] a v = (a, v) ∷ []
    assign ((b, w) ∷ m) a v =
        if k.less b a
        then (b, w) ∷ assign m a v
        else if k.less a b
        then (a, v) ∷ (b, w) ∷ m
        else (a, v) ∷ m

    -- An assignment changes what is found at its key, and nothing else.
    pub find-assign :
        (m : List (K × V)) (a b : K) (v : V)
        → find (assign m a v) b ≡ (if same a b then some v else find m b)
    unfolding find assign
    find-assign [] a b v = refl
    find-assign ((c, w) ∷ m) a b v = ground (
      arith,
      find-assign m a b v,
      k.same_iff a b,
      k.same_iff c a,
      k.same_iff a c,
      k.same_iff c b,
      k.same_iff a a,
    )

    pub find-assign_self : (m : List (K × V)) (a : K) (v : V) → find (assign m a v) a ≡ some v
    find-assign_self m a v = rw (find-assign m a a v) (rw ((k.same_iff a a).1 refl))

module _ {ℓ κ} {K : Type ℓ} {V : Type κ} where
  unfoldable pub map_keys : List (K × V) → List K
  map_keys [] = []
  map_keys ((k, v) ∷ m) = k ∷ map_keys m

  unfoldable pub map_values : List (K × V) → List V
  map_values [] = []
  map_values ((k, v) ∷ m) = v ∷ map_values m
