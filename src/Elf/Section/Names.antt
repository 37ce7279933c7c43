-- ===== src/Elf/Section/Names.antt =====
-- The names of symbols and sections, as find_string reads them out of a string table.
use exmap.Prelude.{
  ℕ, zero, suc, ◌+◌, ◌%◌, ◌^◌, ◌≤◌, ◌<◌, ◌≡◌, ◌≢◌, refl, ap, ◌∙◌, Bool, true, false, List, [], ◌∷◌,
  ◌++◌, Option, some, arith, leb, if◌then◌else◌, length, drop, take, All, drop-append,
}
use exmap.Std.Names.{Name}
use exmap.Std.Streams.{
  Stream, LineEnd, at_delim, too_long, good, seekg, scan_line, end_line, getline,
}
use exmap.Outcome.{done}
use exmap.Elf.Layout.{SectionStruct, SymbolStruct, init_symbol}
use exmap.Elf.Section.{
  Symbol, is_string_table, string_offset, find_string, set_symbol_name, symbol_loop,
}

scan_line-append :
    (limit : ℕ) (name rest : Name)
    → All (λ (b : ℕ). b ≢ 0) name
    → length name ≤ limit
    → scan_line limit (name ++ (0 ∷ rest)) ≡ (name, at_delim)
unfolding scan_line
scan_line-append zero [] rest h short = refl
scan_line-append zero (b ∷ name) rest h short = absurd (omega (arith, short))
scan_line-append (suc limit) [] rest h short = refl
scan_line-append (suc limit) (b ∷ name) rest h short =
    let ne = h.0 in
    rw (scan_line-append limit name rest h.1 (omega (arith, short)), scan_line) (ground (arith, ne))

scan_line-long :
    (limit : ℕ) (name rest : Name)
    → All (λ (b : ℕ). b ≢ 0) name
    → limit < length name
    → scan_line limit (name ++ rest) ≡ (take limit name, too_long)
unfolding scan_line
scan_line-long limit [] rest h long = absurd (omega (arith, long))
scan_line-long zero (b ∷ name) rest h long = let ne = h.0 in ground (arith, ne)
scan_line-long (suc limit) (b ∷ name) rest h long =
    let ne = h.0 in
    rw (scan_line-long limit name rest h.1 (omega (arith, long)), scan_line) (ground (arith, ne))

-- A stream of a file, in which nothing failed, and one that failed.
abbrev pub sound : List ℕ → ℕ → Bool → Stream
sound content pos eof = record { content = content; pos = pos; eof = eof; fail = false }

in_int : (index : ℕ) → index < 2 ^ 31 → leb (2 ^ 31) index ≡ false
in_int index small = ground arith

abbrev pub found : Name × Stream → Name × Stream
found (line, after) = ((if after.fail then [] else line), after)

find_string-getline :
    (is : Stream) (table : SectionStruct) (index : ℕ)
    → is_string_table table ≡ true
    → index < 2 ^ 31
    → find_string is table index ≡ found (getline (seekg is (string_offset table index)) 1023)
unfolding find_string
find_string-getline is table index t small = rw (t, in_int index small, find_string) refl

getline-scan_line :
    (content : List ℕ) (pos offset : ℕ) (eof : Bool) (limit : ℕ)
    → getline (seekg (sound content pos eof) (some offset)) limit ≡ (
      (scan_line limit (drop offset content)).0,
      end_line (sound content offset false) (scan_line limit (drop offset content)),
    )
unfolding getline seekg good
getline-scan_line content pos offset eof limit = refl

-- find_string, by what getline scans.
find_steps :
    (content : List ℕ) (pos : ℕ) (eof : Bool) (table : SectionStruct) (index offset : ℕ)
    (scanned : Name × LineEnd)
    → is_string_table table ≡ true
    → index < 2 ^ 31
    → string_offset table index ≡ some offset
    → scan_line 1023 (drop offset content) ≡ scanned
    → find_string (sound content pos eof) table index
      ≡ found (scanned.0, end_line (sound content offset false) scanned)
find_steps content pos eof table index offset scanned t small at e =
    find_string-getline (sound content pos eof) table index t small
    ∙ ap (λ (o : Option ℕ). found (getline (seekg (sound content pos eof) o) 1023)) at
    ∙ ap found (getline-scan_line content pos offset eof 1023)
    ∙ ap (λ (r : Name × LineEnd). found (r.0, end_line (sound content offset false) r)) e

seeked :
    (table : SectionStruct) (index : ℕ)
    → (table.offset + index) % 2 ^ 32 < 2 ^ 31
    → string_offset table index ≡ some ((table.offset + index) % 2 ^ 32)
unfolding string_offset
seeked table index h = ground arith

-- The name that lies at an index of a string table is found, if it has at most 1023 bytes: all the
-- bytes up to a null byte, wherever the stream stood before, if it had not failed. The stream then
-- stands behind the null byte.
pub find_string-name :
    (front name rest : List ℕ) (pos : ℕ) (eof : Bool) (table : SectionStruct) (index : ℕ)
    → is_string_table table ≡ true
    → index < 2 ^ 31
    → (table.offset + index) % 2 ^ 32 ≡ length front
    → length front < 2 ^ 31
    → All (λ (b : ℕ). b ≢ 0) name
    → length name ≤ 1023
    → let content = front ++ (name ++ (0 ∷ rest)) in
      find_string (sound content pos eof) table index
      ≡ (name, sound content (length front + length name + 1) false)
unfolding end_line
find_string-name front name rest pos eof table index t small at far nonzero short =
    find_steps (front ++ (name ++ (0 ∷ rest))) pos eof table index (length front) (name, at_delim) t
      small (seeked table index (omega (arith, at, far)) ∙ ap some at)
      (rw (drop-append front (name ++ (0 ∷ rest))) (scan_line-append 1023 name rest nonzero short))

-- A name of more bytes is not found, and the stream fails.
pub find_string-long :
    (front name rest : List ℕ) (pos : ℕ) (eof : Bool) (table : SectionStruct) (index : ℕ)
    → is_string_table table ≡ true
    → index < 2 ^ 31
    → (table.offset + index) % 2 ^ 32 ≡ length front
    → length front < 2 ^ 31
    → All (λ (b : ℕ). b ≢ 0) name
    → 1023 < length name
    → (after : Stream) × (find_string (sound (front ++ (name ++ rest)) pos eof) table index
        ≡ ([], after))
      × (after.fail ≡ true)
unfolding end_line
find_string-long front name rest pos eof table index t small at far nonzero long = (
  _,
  find_steps (front ++ (name ++ rest)) pos eof table index (length front) (take 1023 name, too_long)
      t small (seeked table index (omega (arith, at, far)) ∙ ap some at)
      (rw (drop-append front (name ++ rest)) (scan_line-long 1023 name rest nonzero long)),
  refl,
)

-- The name of a symbol, by what find_string gives.
pub set_name_steps :
    (is after : Stream) (table : SectionStruct) (symbol : Symbol) (name : Name)
    → find_string is table (symbol.struct.name % 2 ^ 32) ≡ (name, after)
    → set_symbol_name is (some table) symbol ≡ done (after, record symbol { name = name })
unfolding set_symbol_name
set_name_steps is after table symbol name e = rw (e, set_symbol_name) refl

pub symbol_loop_step :
    (is after last : Stream) (string_table : Option SectionStruct) (it : List ℕ)
    (entries : List (List ℕ)) (struct : SymbolStruct) (symbol : Symbol) (symbols : List Symbol)
    → init_symbol it ≡ some struct
    → set_symbol_name is string_table (record { struct = struct; name = [] }) ≡ done (after, symbol)
    → symbol_loop after string_table entries ≡ done (last, symbols)
    → symbol_loop is string_table (it ∷ entries) ≡ done (last, symbol ∷ symbols)
unfolding symbol_loop
symbol_loop_step is after last string_table it entries struct symbol symbols e f g =
    rw (e, f, g, symbol_loop) refl
