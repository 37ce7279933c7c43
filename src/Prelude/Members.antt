-- ===== src/Prelude/Members.antt =====
-- `All` read by membership, and carried along a rearrangement.
use mathlib.Core.List.{
  List, [], ◌∷◌, Mem, Perm, mem-cons, mem-cons_self, mem-cons_of_mem, not-mem-nil,
}
use mathlib.Core.List.Perm
use mathlib.Core.Logic.Or
use mathlib.Core.Path.{sym, subst}
use exmap.Prelude.Lists.{All}

module _ {ℓ κ} {A : Type ℓ} (P : A → Type κ) where
  pub All-of_mem : (xs : List A) → ((x : A) → Mem x xs → P x) → All P xs
  All-of_mem [] h = tt
  All-of_mem (x ∷ xs) h = (h x mem-cons_self, All-of_mem xs (λ y m. h y (mem-cons_of_mem x m)))

  pub All-mem : ((x : A) → IsProp (P x)) → (xs : List A) → All P xs → (x : A) → Mem x xs → P x
  All-mem prop [] h x m = absurd (not-mem-nil m)
  All-mem prop (y ∷ xs) h x m =
      Or.elim (prop x) (mem-cons.0 m) (λ e. subst P (sym e) (h.0))
        (λ later. All-mem prop xs h.1 x later)

  pub All-perm : ((x : A) → IsProp (P x)) → {xs ys : List A} → Perm xs ys → All P ys → All P xs
  All-perm prop {xs} {ys} p h = All-of_mem xs (λ x m. All-mem prop ys h x ((Perm.mem_iff p).0 m))
