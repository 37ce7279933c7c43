-- ===== src/Std/Streams.antt =====
-- std::ifstream, opened for reading in binary order: the bytes of the file, the place of the next
-- one, and the two bits that the program meets, eofbit and failbit, as C++11 sets them.
use exmap.Prelude.{
  ℕ, zero, suc, ◌+◌, Bool, true, false, not, ◌&&◌, List, [], ◌∷◌, Option, none, some, leb, ◌==◌,
  if◌then◌else◌, length, drop, take,
}

pub record Stream : Type 0 where
  pub content : List ℕ
  pub pos : ℕ
  pub eof : Bool
  pub fail : Bool

abbrev pub opened : List ℕ → Stream
opened content = record { content = content; pos = 0; eof = false; fail = false }

unfoldable pub good : Stream → Bool
good is = not is.eof && not is.fail

unfoldable pub clear : Stream → Stream
clear is = record is { eof = false; fail = false }

-- `seekg` from the beginning; a negative offset, `none`, cannot be sought. It clears eofbit first.
unfoldable pub seekg : Stream → Option ℕ → Stream
seekg is none = record is { eof = false; fail = true }
seekg is (some offset) =
    if is.fail then record is { eof = false } else record is { eof = false; pos = offset }

-- `read`: what is stored in the buffer.
unfoldable pub read : Stream → ℕ → List ℕ × Stream
unfolding good
read is n =
    let rest = drop is.pos is.content in
    if not (good is)
    then ([], record is { fail = true })
    else if leb n (length rest)
    then (take n rest, record is { pos = is.pos + n })
    else (rest, record is { pos = is.pos + length rest; eof = true; fail = true })

-- Why getline stops.
pub data LineEnd : Type 0 where
  at_end at_delim too_long : LineEnd

-- The bytes before a null byte, `limit` of them at most.
unfoldable pub scan_line : ℕ → List ℕ → List ℕ × LineEnd
scan_line limit [] = ([], at_end)
scan_line zero (b ∷ bs) = ([], if b == 0 then at_delim else too_long)
scan_line (suc limit) (b ∷ bs) =
    let rest = scan_line limit bs in if b == 0 then ([], at_delim) else (b ∷ rest.0, rest.1)

unfoldable pub end_line : Stream → List ℕ × LineEnd → Stream
end_line is (line, at_delim) = record is { pos = is.pos + length line + 1 }
end_line is (line, too_long) = record is { pos = is.pos + length line; fail = true }
end_line is (line, at_end) = record is {
  pos = is.pos + length line;
  eof = true;
  fail = length line == 0;
}

-- `getline` with a null byte as the delimiter, into a buffer of `limit + 1` bytes.
unfoldable pub getline : Stream → ℕ → List ℕ × Stream
unfolding good scan_line end_line
getline is limit =
    let scanned = scan_line limit (drop is.pos is.content) in
    if not (good is) then ([], record is { fail = true }) else (scanned.0, end_line is scanned)
