-- ===== src/Elf/File/Sections/Correlated.antt =====
-- lazy_load_sections reads back the sections of a 64-bit file, with their names and symbols.
use exmap.Prelude.{
  ℕ, suc, ◌+◌, ◌%◌, ◌^◌, ◌≡◌, inl, inr, refl, ap, ◌∙◌, sym, Bool, true, false, List, [], ◌∷◌,
  Option, some, arith, if◌then◌else◌, length, map, All,
}
use exmap.Std.Names.{Name}
use exmap.Std.Streams.{Stream}
use exmap.Outcome.{done}
use exmap.Elf.Layout.{SectionStruct}
use exmap.Elf.Section.{Section, Symbol, is_string_table, is_symbol_table, find_string, load_symbols}
use exmap.Elf.Section.Names.{sound}
use exmap.Elf.Section.Symbols.{NameAt, find_string-NameAt, load_symbols-entries}
use exmap.Elf.File.{struct_at, takes_symbols, correlate_one, correlate_loop}
use exmap.Elf.File.Sections.{FitsSection, unnamed, struct_at-unnamed, HasSymbols}

-- The body of the loop, by what its calls give.
correlate_plain :
    (all : List Section) (table : SectionStruct) (ifs after : Stream) (it : Section) (name : Name)
    → find_string ifs table (it.struct.name % 2 ^ 32) ≡ (name, after)
    → is_symbol_table it.struct ≡ false
    → correlate_one all table ifs it ≡ done (after, record it { name = name })
unfolding correlate_one
correlate_plain all table ifs after it name e plain = rw (e, plain, correlate_one) refl

correlate_table :
    (all : List Section) (table : SectionStruct) (ifs after last : Stream) (it loaded : Section)
    (name : Name) (strings : Option SectionStruct)
    → find_string ifs table (it.struct.name % 2 ^ 32) ≡ (name, after)
    → is_symbol_table it.struct ≡ true
    → struct_at all it.struct.link ≡ strings
    → load_symbols after (record it { name = name }) strings ≡ done (last, loaded, true)
    → correlate_one all table ifs it ≡ done (last, loaded)
unfolding correlate_one
correlate_table all table ifs after last it loaded name strings e is_table linked run =
    rw (e, linked, run, is_table, correlate_one) refl

-- One section is read whole.
correlate_one-unnamed :
    (content : List ℕ) (pos : ℕ) (eof : Bool) (sections : List Section) (table : SectionStruct)
    (s : Section)
    → is_string_table table ≡ true
    → NameAt content table s.struct.name s.name
    → HasSymbols content sections s
    → (last : ℕ) × (at_end : Bool) × (correlate_one
          (map unnamed sections)
          table
          (sound content pos eof)
          (unnamed s)
        ≡ done (sound content last at_end, s))
correlate_one-unnamed content pos eof sections table s t named (inl (plain, none_left)) =
    let next : ℕ = length named.front + length s.name + 1 in
    let same : s.struct.name % 2 ^ 32 ≡ s.struct.name = omega (arith, named.small) in
    (
      next,
      false,
      correlate_plain (map unnamed sections) table (sound content pos eof)
            (sound content next false) (unnamed s) s.name
            (ap (find_string (sound content pos eof) table) same
              ∙ find_string-NameAt content pos eof table s.struct.name s.name t named)
            plain
          ∙ ap (λ (l : List Symbol). done (sound content next false, record s { symbols = l }))
              (sym none_left),
    )
correlate_one-unnamed content pos eof sections table s t named (inr (is_table, symbols)) =
    let next : ℕ = length named.front + length s.name + 1 in
    let same : s.struct.name % 2 ^ 32 ≡ s.struct.name = omega (arith, named.small) in
    let (last, at_end, run) =
      load_symbols-entries content symbols.front symbols.behind next false
        (record (unnamed s) { name = s.name }) symbols.string_table s.symbols symbols.lies is_table
        symbols.at symbols.some_front symbols.near symbols.wide symbols.size symbols.nonempty
        symbols.few symbols.has_strings symbols.readable in
    (
      last,
      at_end,
      correlate_table (map unnamed sections) table (sound content pos eof)
          (sound content next false) _ (unnamed s) s s.name (some symbols.string_table)
          (ap (find_string (sound content pos eof) table) same
            ∙ find_string-NameAt content pos eof table s.struct.name s.name t named)
          is_table (struct_at-unnamed sections s.struct.link ∙ symbols.linked) run,
    )

-- The place of the symbol table: the last section of symbols that is not dynamic or that no other
-- came before.
unfoldable pub symbol_table : ℕ → Option ℕ → List Section → Option ℕ
symbol_table i found [] = found
symbol_table i found (s ∷ sections) =
    symbol_table (suc i) (if takes_symbols found s.struct then some i else found) sections

-- What is to be known of each section: its header fits, and its name and symbols can be read.
abbrev pub IsReadableSection : List ℕ → List Section → SectionStruct → Section → Type 0
IsReadableSection content sections table s =
    FitsSection s.struct × NameAt content table s.struct.name s.name × HasSymbols content sections s

correlate_loop_step :
    (all : List Section) (table : SectionStruct) (i : ℕ) (found at : Option ℕ)
    (ifs after last : Stream) (it s : Section) (rest read : List Section)
    → correlate_one all table ifs it ≡ done (after, s)
    → correlate_loop all table
        (suc i)
        (if takes_symbols found it.struct then some i else found)
        after
        rest
      ≡ done (last, at, read)
    → correlate_loop all table i found ifs (it ∷ rest) ≡ done (last, at, s ∷ read)
unfolding correlate_loop
correlate_loop_step all table i found at ifs after last it s rest read e f =
    rw (e, f, correlate_loop) refl

pub correlate_loop-unnamed :
    (content : List ℕ) (all : List Section) (table : SectionStruct) (i : ℕ) (found : Option ℕ)
    (pos : ℕ) (eof : Bool) (sections : List Section)
    → is_string_table table ≡ true
    → All (IsReadableSection content all table) sections
    → (last : ℕ) × (at_end : Bool) × (correlate_loop
          (map unnamed all)
          table
          i
          found
          (sound content pos eof)
          (map unnamed sections)
        ≡ done (sound content last at_end, symbol_table i found sections, sections))
unfolding correlate_loop symbol_table
correlate_loop-unnamed content all table i found pos eof [] t h = (pos, eof, refl)
correlate_loop-unnamed content all table i found pos eof (s ∷ sections) t
      ((fits, named, symbols), h) =
    let (next, stops, one) = correlate_one-unnamed content pos eof all table s t named symbols in
    let (last, at_end, run) =
      correlate_loop-unnamed content all table (suc i)
        (if takes_symbols found s.struct then some i else found) next stops sections t h in
    (
      last,
      at_end,
      correlate_loop_step (map unnamed all) table i found _ (sound content pos eof)
          (sound content next stops) (sound content last at_end) (unnamed s) s
          (map unnamed sections) sections one run,
    )
