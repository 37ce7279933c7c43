-- ===== src/Elf/Paging.antt =====
-- src/Elf.cpp: page_align_down and page_align_up. `getpagesize` is the system's: the page size is
-- a parameter, a power of two below 2 ^ 31.
use Prim.Native.Nat.{bit_and, bit_and-bitwise, digits}
use native.Mathlib.Nat.{pow-zero, pow-suc}
use exmap.Prelude.{
  ℕ, zero, suc, ◌+◌, ◌-◌, ◌*◌, ◌/◌, ◌%◌, ◌^◌, ◌≤◌, ◌<◌, ◌≡◌, refl, ap, ◌∙◌, min, IsWord, arith,
  neg_word, add_word, sub_word,
}

-- `page_size() - 1` is an int. Its complement, carried over to an unsigned long, is the negative
-- of the page size.
unfoldable pub page_align_down : ℕ → ℕ → ℕ
page_align_down page_size addr = bit_and addr (neg_word page_size)

unfoldable pub page_align_up : ℕ → ℕ → ℕ
unfolding page_align_down
page_align_up page_size addr = page_align_down page_size (sub_word (add_word addr page_size) 1)

-- The digits of the conjunction, from the lowest, n of them at most.
and_fuel : ℕ → ℕ → ℕ → ℕ
and_fuel n a m = digits (λ b. zero) min n a m

and_fuel_zero : (n m : ℕ) → and_fuel n 0 m ≡ 0
unfolding and_fuel
and_fuel_zero zero m = refl
and_fuel_zero (suc n) m = refl

and_fuel_step :
    (n a m : ℕ)
    → and_fuel (suc n) (suc a) m ≡ and_fuel n (suc a / 2) (m / 2) * 2 + min (suc a % 2) (m % 2)
unfolding and_fuel
and_fuel_step n a m = refl

pub pow_two_pos : (k : ℕ) → 0 < 2 ^ k
pow_two_pos zero = omega (arith, pow-zero 2)
pow_two_pos (suc k) = omega (arith, pow-suc 2 k, pow_two_pos k)

pub pow_two_mono : (k w : ℕ) → k ≤ w → 2 ^ k ≤ 2 ^ w
pow_two_mono zero w h = omega (arith, pow-zero 2, pow_two_pos w)
pow_two_mono (suc k) zero h = absurd (omega arith)
pow_two_mono (suc k) (suc w) h =
    omega (arith, pow-suc 2 k, pow-suc 2 w, pow_two_mono k w (omega arith))

mod_double : (a p : ℕ) → 0 < p → a % (p * 2) ≡ a / 2 % p * 2 + a % 2
mod_double a p h = grind arith

-- The mask of w digits whose k lowest are clear.
abbrev mask : ℕ → ℕ → ℕ
mask w k = 2 ^ w - 2 ^ k

mask_ones : (w : ℕ) → (mask (suc w) 0 / 2 ≡ mask w 0) × (mask (suc w) 0 % 2 ≡ 1)
mask_ones w = omega (arith, pow-suc 2 w, pow-zero 2, pow_two_pos w)

mask_double : (w k : ℕ) → (mask (suc w) (suc k) / 2 ≡ mask w k) × (mask (suc w) (suc k) % 2 ≡ 0)
mask_double w k = omega (arith, pow-suc 2 w, pow-suc 2 k)

-- The conjunction with that mask clears the k lowest digits.
and_fuel-mask : (n a w k : ℕ) → a ≤ n → a < 2 ^ w → k ≤ w → and_fuel n a (mask w k) ≡ a - a % 2 ^ k
and_fuel-mask n zero w k h l e = omega (arith, and_fuel_zero n (mask w k))
and_fuel-mask zero (suc a) w k h l e = absurd (omega arith)
and_fuel-mask (suc n) (suc a) zero k h l e = absurd (omega (arith, pow-zero 2))
and_fuel-mask (suc n) (suc a) (suc w) zero h l e =
    rw (and_fuel_step n a (mask (suc w) 0), (mask_ones w).0, (mask_ones w).1)
      (omega (
        arith,
        pow-zero 2,
        and_fuel-mask n (suc a / 2) w zero (omega arith) (omega (arith, pow-suc 2 w)) (omega arith),
      ))
and_fuel-mask (suc n) (suc a) (suc w) (suc k) h l e =
    rw (and_fuel_step n a (mask (suc w) (suc k)), (mask_double w k).0, (mask_double w k).1)
      (omega (
        arith,
        pow-suc 2 k,
        mod_double (suc a) (2 ^ k) (pow_two_pos k),
        ap (λ (t : ℕ). suc a % t) (pow-suc 2 k),
        and_fuel-mask n (suc a / 2) w k (omega arith) (omega (arith, pow-suc 2 w)) (omega arith),
      ))

-- The page size is a power of two.
abbrev pub IsPageSize : ℕ → Type 0
IsPageSize page_size = (k : ℕ) × (k < 31) × (page_size ≡ 2 ^ k)

pub IsPageSize-pos : (page_size : ℕ) → IsPageSize page_size → 0 < page_size
IsPageSize-pos page_size (k, h, e) = rw e (pow_two_pos k)

pub IsPageSize-lt : (page_size : ℕ) → IsPageSize page_size → page_size < 2 ^ 31
IsPageSize-lt page_size (k, h, e) = rw e (omega (arith, pow_two_mono k 30 (omega arith)))

-- On a word, `page_align_down` subtracts the offset in the page, where the page size is a power
-- of two.
pub page_align_down_lem :
    (page_size addr : ℕ)
    → IsPageSize page_size
    → IsWord addr
    → page_align_down page_size addr ≡ addr - addr % page_size
unfolding page_align_down and_fuel
page_align_down_lem page_size addr (k, h, e) w = rw e (
    bit_and-bitwise addr (neg_word (2 ^ k))
    ∙ ap (and_fuel addr addr) masked
    ∙ and_fuel-mask addr addr 64 k (omega arith) w (omega arith))
  where
    masked : neg_word (2 ^ k) ≡ mask 64 k
    masked = omega (arith, pow_two_pos k, pow_two_mono k 30 (omega arith))
