-- ===== src/Std/Digits.antt =====
-- %d, %u and %lx of printf, and operator<<, on numbers below 2 ^ 64; what operator>> reads of them.
pub mod Scan
pub mod Extract
use exmap.Prelude.{ℕ, zero, suc, ◌+◌, ◌-◌, ◌/◌, ◌%◌, List, [], ◌∷◌, ◌++◌, ltb, if◌then◌else◌}
use exmap.Std.Names.{Name}

unfoldable pub digit : ℕ → ℕ
digit d = if ltb d 10 then b'0' + d else b'a' + d - 10

-- On fuel: each round divides by the base, so that 65 are enough for 64 bits.
unfoldable pub digits : ℕ → ℕ → ℕ → Name
unfolding digit
digits zero base n = []
digits (suc fuel) base n =
    let rest = digits fuel base (n / base) in
    if ltb n base then digit n ∷ [] else rest ++ (digit (n % base) ∷ [])

unfoldable pub decimal : ℕ → Name
unfolding digits
decimal n = digits 65 10 n

unfoldable pub hexadecimal : ℕ → Name
unfolding digits
hexadecimal n = digits 65 16 n
