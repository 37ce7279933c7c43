-- ===== src/Elf/Section/Undefined.antt =====
-- A name that is too long leaves its symbol and all later ones undefined.
use exmap.Prelude.{
  ℕ, ◌+◌, ◌%◌, ◌^◌, ◌<◌, ◌≡◌, ◌≢◌, refl, ap, ◌∙◌, Bool, true, false, not, ◌||◌, List, [], ◌∷◌, ◌++◌,
  Option, none, some, arith, leb, length, All, Option-cases, Bool-cases, inl, inr,
}
use exmap.Std.Streams.{Stream, good, seekg, getline}
use exmap.Outcome.{done}
use exmap.Elf.Layout.{SectionStruct, SymbolStruct, init_symbol}
use exmap.Elf.Section.{Symbol, is_defined, is_string_table, string_offset, find_string, symbol_loop}
use exmap.Elf.Section.Names.{sound, find_string-long, set_name_steps, symbol_loop_step}

seekg-failed : (is : Stream) (offset : Option ℕ) → is.fail ≡ true → (seekg is offset).fail ≡ true
unfolding seekg
seekg-failed is none h = refl
seekg-failed is (some offset) h = rw (h, seekg) refl

getline-failed :
    (is : Stream) (limit : ℕ) → is.fail ≡ true → getline is limit ≡ ([], record is { fail = true })
unfolding getline good
getline-failed is limit h = ground (arith, h)

-- In a stream that failed nothing is found, and it stays failed.
find_string-failed :
    (is : Stream) (table : SectionStruct) (index : ℕ)
    → is.fail ≡ true
    → (after : Stream) × (find_string is table index ≡ ([], after)) × (after.fail ≡ true)
unfolding find_string
find_string-failed is table index h =
    let sought : Stream = seekg is (string_offset table index) in
    let read : getline sought 1023 ≡ ([], record sought { fail = true }) =
      getline-failed sought 1023 (seekg-failed is (string_offset table index) h) in
    elim (Bool-cases (not (is_string_table table) || leb (2 ^ 31) index)) [
      | inl e ↦ (is, rw (e, find_string) refl, h)
      | inr e ↦ (record sought { fail = true }, rw (e, read, find_string) refl, refl)
    ]

-- The loop, by what its first round gives.
symbol_loop_skip :
    (is : Stream) (string_table : Option SectionStruct) (it : List ℕ) (entries : List (List ℕ))
    → init_symbol it ≡ none
    → symbol_loop is string_table (it ∷ entries) ≡ symbol_loop is string_table entries
unfolding symbol_loop
symbol_loop_skip is string_table it entries e = rw (e, symbol_loop) refl

abbrev IsUndefined : Symbol → Type 0
IsUndefined symbol = is_defined symbol ≡ false

unnamed-IsUndefined : (struct : SymbolStruct) → IsUndefined (record { struct = struct; name = [] })
unfolding is_defined
unnamed-IsUndefined struct = ground arith

-- Once the stream failed, no symbol is defined.
symbol_loop-failed :
    (is : Stream) (table : SectionStruct) (entries : List (List ℕ))
    → is.fail ≡ true
    → (last : Stream) × (symbols : List Symbol) × (symbol_loop is (some table) entries
        ≡ done (last, symbols))
      × (last.fail ≡ true)
      × All IsUndefined symbols
unfolding symbol_loop
symbol_loop-failed is table [] h = (is, [], refl, h, tt)
symbol_loop-failed is table (it ∷ entries) h = elim (Option-cases (init_symbol it)) [
  | inl e ↦
      let (last, symbols, run, failed, none_defined) = symbol_loop-failed is table entries h in
      (last, symbols, symbol_loop_skip is (some table) it entries e ∙ run, failed, none_defined)
  | inr (struct, e) ↦
      let (after, empty, failed) = find_string-failed is table (struct.name % 2 ^ 32) h in
      let (last, symbols, run, still, none_defined) =
        symbol_loop-failed after table entries failed in
      let named = set_name_steps is after table (record { struct = struct; name = [] }) [] empty in
      (
        last,
        (record { struct = struct; name = [] }) ∷ symbols,
        symbol_loop_step is after last (some table) it entries struct _ symbols e named run,
        still,
        (unnamed-IsUndefined struct, none_defined),
      )
]

-- The stream of the file has not failed, and the name of the first of some symbols is one of 1024
-- bytes or more in the string table. Then the loop ends, with the stream failed, and not one of the
-- symbols is defined, that one or any behind it, whatever their values and names are.
pub symbol_loop-long_name :
    (front name rest : List ℕ) (pos : ℕ) (eof : Bool) (table : SectionStruct) (it : List ℕ)
    (entries : List (List ℕ)) (struct : SymbolStruct)
    → init_symbol it ≡ some struct
    → is_string_table table ≡ true
    → struct.name < 2 ^ 31
    → (table.offset + struct.name) % 2 ^ 32 ≡ length front
    → length front < 2 ^ 31
    → All (λ (b : ℕ). b ≢ 0) name
    → 1023 < length name
    → (last : Stream) × (symbols : List Symbol) × (symbol_loop
          (sound (front ++ (name ++ rest)) pos eof)
          (some table)
          (it ∷ entries)
        ≡ done (last, symbols))
      × (last.fail ≡ true)
      × All (λ (symbol : Symbol). is_defined symbol ≡ false) symbols
symbol_loop-long_name front name rest pos eof table it entries struct is_symbol t small at far
      nonzero long =
    let is : Stream = sound (front ++ (name ++ rest)) pos eof in
    let same : struct.name % 2 ^ 32 ≡ struct.name = omega (arith, small) in
    let (after, empty, failed) =
      find_string-long front name rest pos eof table struct.name t small at far nonzero long in
    let (last, symbols, run, still, none_defined) = symbol_loop-failed after table entries failed in
    let named =
      set_name_steps is after table (record { struct = struct; name = [] }) []
        (ap (find_string is table) same ∙ empty) in
    (
      last,
      (record { struct = struct; name = [] }) ∷ symbols,
      symbol_loop_step is after last (some table) it entries struct _ symbols is_symbol named run,
      still,
      (unnamed-IsUndefined struct, none_defined),
    )
