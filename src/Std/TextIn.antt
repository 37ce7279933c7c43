-- ===== src/Std/TextIn.antt =====
-- std::stringstream read with operator>>: the text that is left and the two bits, as libstdc++ sets
-- them. A number is read in the base of the stream; a value that is not written is `none`.
use exmap.Prelude.{
  ℕ, ◌+◌, ◌-◌, ◌*◌, ◌%◌, ◌^◌, Bool, true, false, ◌&&◌, ◌||◌, [], ◌∷◌, Option, none, some, ltb, leb,
  ◌==◌, if◌then◌else◌, length,
}
use exmap.Std.Names.{Name}

pub record TextIn : Type 0 where
  pub rest : Name
  pub eof : Bool
  pub fail : Bool

-- A new stream, or one to which `str` gives a text, which leaves the bits as they are.
abbrev pub text_in : Name → TextIn
text_in text = record { rest = text; eof = false; fail = false }

abbrev pub is_space : ℕ → Bool
is_space b = b == 32 || (leb 9 b && leb b 13)

unfoldable pub skip_space : Name → Name
skip_space [] = []
skip_space (b ∷ text) = let rest = skip_space text in if is_space b then rest else b ∷ text

-- A digit of the base, 10 or 16; `base` where the byte is none.
unfoldable pub digit_value : ℕ → ℕ → ℕ
digit_value base b =
    if leb b'0' b && leb b b'9'
    then b - b'0'
    else if base == 10
    then base
    else if leb b'a' b && leb b b'f'
    then b - b'a' + 10
    else if leb b'A' b && leb b b'F'
    then b - b'A' + 10
    else base

-- The digits at the front of a text, behind a number, and what follows them.
unfoldable pub scan_digits : ℕ → ℕ → Name → ℕ × Name
unfolding digit_value
scan_digits base n [] = (n, [])
scan_digits base n (b ∷ text) =
    let rest = scan_digits base (n * base + digit_value base b) text in
    if ltb (digit_value base b) base then rest else (n, b ∷ text)

unfoldable pub starts_digit : ℕ → Name → Bool
unfolding digit_value
starts_digit base [] = false
starts_digit base (b ∷ text) = ltb (digit_value base b) base

-- Whether there is a minus sign, and what is behind a sign.
unfoldable pub sign : Name → Bool × Name
sign [] = (false, [])
sign (b ∷ text) =
    if b == b'-' then (true, text) else if b == b'+' then (false, text) else (false, b ∷ text)

-- A hexadecimal number may begin with 0x.
unfoldable pub prefix : ℕ → Name → Name
prefix base (zero_digit ∷ x ∷ text) =
    if base == 16 && (zero_digit == b'0' && (x == b'x' || x == b'X'))
    then text
    else zero_digit ∷ x ∷ text
prefix base text = text

-- The bit pattern of a number that was read, and whether it was out of range.
unfoldable pub to_signed : ℕ → Bool → ℕ → ℕ × Bool
to_signed w minus n =
    let half = 2 ^ (w - 1) in
    if minus
    then (if leb n half then (2 ^ w - n) % 2 ^ w else half, ltb half n)
    else (if ltb n half then n else half - 1, leb half n)

unfoldable pub to_unsigned : ℕ → Bool → ℕ → ℕ × Bool
to_unsigned w minus n =
    if leb (2 ^ w) n then (2 ^ w - 1, true) else (if minus then (2 ^ w - n) % 2 ^ w else n, false)

-- What is read behind the white space.
unfoldable pub extract_here : ℕ → (Bool → ℕ → ℕ × Bool) → Name → Option ℕ × TextIn
unfolding sign prefix starts_digit scan_digits
extract_here base convert [] = (none, record { rest = []; eof = true; fail = true })
extract_here base convert (b ∷ text) =
    let (minus, unsigned) = sign (b ∷ text) in
    let digits = prefix base unsigned in
    let (n, rest) = scan_digits base 0 digits in
    let (value, out_of_range) = convert minus n in
    if starts_digit base digits
    then (some value, record { rest = rest; eof = length rest == 0; fail = out_of_range })
    else (some 0, record { rest = digits; eof = length digits == 0; fail = true })

unfoldable pub extract : ℕ → (Bool → ℕ → ℕ × Bool) → TextIn → Option ℕ × TextIn
unfolding skip_space extract_here
extract base convert in' =
    if in'.eof || in'.fail
    then (none, record in' { fail = true })
    else extract_here base convert (skip_space in'.rest)

-- A word ends at white space.
unfoldable pub scan_word : Name → Name × Name
scan_word [] = ([], [])
scan_word (b ∷ text) =
    let rest = scan_word text in if is_space b then ([], b ∷ text) else (b ∷ rest.0, rest.1)

unfoldable pub extract_word : TextIn → Option Name × TextIn
unfolding skip_space scan_word
extract_word in' =
    let text = skip_space in'.rest in
    let (word, rest) = scan_word text in
    if in'.eof || in'.fail
    then (none, record in' { fail = true })
    else if length text == 0
    then (none, record { rest = []; eof = true; fail = true })
    else (some word, record { rest = rest; eof = length rest == 0; fail = false })
