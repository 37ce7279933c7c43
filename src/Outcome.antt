-- ===== src/Outcome.antt =====
-- The outcome of C++ code that may dereference a null pointer or the end of a list: `crash` is
-- that undefined behaviour, and no warning or return value comes of it.
use exmap.Prelude.{Bool, true, false, if◌then◌else◌, ◌≡◌, refl, ◌⊎◌, inl, inr, Option, none, some}

pub data Outcome {ℓ} (A : Type ℓ) : Type ℓ where
  done : A → Outcome A
  crash : Outcome A

infixl 5 ◌>>=◌
abbrev pub ◌>>=◌ {ℓ κ} : {A : Type ℓ} {B : Type κ} → Outcome A → (A → Outcome B) → Outcome B
done a >>= f = f a
crash >>= f = crash

-- The object behind a pointer.
abbrev pub deref {ℓ} : {A : Type ℓ} → Option A → Outcome A
deref none = crash
deref (some a) = done a

-- What holds of the value, if the outcome is one.
abbrev pub Ensures {ℓ κ} : {A : Type ℓ} → (A → Type κ) → Outcome A → Type κ
Ensures P (done a) = P a
Ensures P crash = Unit

pub Outcome-cases {ℓ} : {A : Type ℓ} (o : Outcome A) → (o ≡ crash) ⊎ ((a : A) × (o ≡ done a))
Outcome-cases (done a) = inr (a, refl)
Outcome-cases crash = inl refl

-- A property of the outcome carries over a bind.
pub bind-Ensures {ℓ κ ι} :
    {A : Type ℓ} {B : Type ℓ} (P : A → Type κ) (Q : B → Type ι) (o : Outcome A) (f : A → Outcome B)
    → Ensures P o
    → ((a : A) → P a → Ensures Q (f a))
    → Ensures Q (o >>= f)
bind-Ensures P Q (done a) f h g = g a h
bind-Ensures P Q crash f h g = tt

-- A test of which both results have a property.
pub if-Ensures {ℓ κ} :
    {A : Type ℓ} (P : A → Type κ) (b : Bool) (o p : Outcome A)
    → Ensures P o
    → Ensures P p
    → Ensures P (if b then o else p)
if-Ensures P true o p h k = h
if-Ensures P false o p h k = k

pub any-Ensures {ℓ} : {A : Type ℓ} (o : Outcome A) → Ensures {ℓ, 0} (λ (a : A). Unit) o
any-Ensures (done a) = tt
any-Ensures crash = tt
