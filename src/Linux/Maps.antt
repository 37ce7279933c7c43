-- ===== src/Linux/Maps.antt =====
-- parse_vma_line on the lines of /proc/<pid>/maps.
use mathlib.Core.List.{append-nil, cons-ne-nil}
use exmap.Prelude.{
  ℕ, ◌^◌, ◌<◌, ◌≡◌, ◌≢◌, ◌⊎◌, refl, ap, ◌∙◌, sym, true, false, [], ◌∷◌, ◌++◌, Option, none, some,
  ◌==◌, if◌then◌else◌, arith, inl, inr, length, All, All-append,
}
use exmap.Std.Names.{Name}
use exmap.Std.Digits.Scan.{IsDigit, sixteen-IsBase}
use exmap.Std.Digits.Extract.{Spells, extract-Spells, extract-Spells_next}
use exmap.Std.TextIn.{
  TextIn, text_in, is_space, skip_space, scan_word, digit_value, extract, extract_word, to_signed,
  to_unsigned,
}
use exmap.Outcome.{done}
use exmap.Vma.{Vma}
use exmap.Linux.{anon_name, blank_dash, parse_vma_fields, parse_vma_line}
use exmap.Linux.PageLine.{to_unsigned-fits}

-- A word without white space, and white space alone.
abbrev pub IsWord : Name → Type 0
IsWord word = All (λ (b : ℕ). is_space b ≡ false) word × (word ≢ [])

abbrev pub IsBlank : Name → Type 0
IsBlank text = All (λ (b : ℕ). is_space b ≡ true) text

skip_blank : (pad text : Name) → IsBlank pad → skip_space (pad ++ text) ≡ skip_space text
unfolding skip_space
skip_blank [] text h = refl
skip_blank (b ∷ pad) text h = rw (h.0, skip_space) (skip_blank pad text h.1)

scan_word-append :
    (word : Name) (sep : ℕ) (tail : Name)
    → All (λ (b : ℕ). is_space b ≡ false) word
    → is_space sep ≡ true
    → scan_word (word ++ (sep ∷ tail)) ≡ (word, sep ∷ tail)
unfolding scan_word
scan_word-append [] sep tail h gap = rw (gap, scan_word) refl
scan_word-append (b ∷ word) sep tail h gap =
    rw (h.0, scan_word-append word sep tail h.1 gap, scan_word) refl

-- What extract_word gives, by the text behind the white space.
word_steps :
    (text : Name) (b sep : ℕ) (word tail : Name)
    → skip_space text ≡ b ∷ (word ++ (sep ∷ tail))
    → scan_word (b ∷ (word ++ (sep ∷ tail))) ≡ (b ∷ word, sep ∷ tail)
    → extract_word (text_in text) ≡ (some (b ∷ word), text_in (sep ∷ tail))
unfolding extract_word
word_steps text b sep word tail e f = rw (e, f, extract_word) (ground arith)

extract_word-append :
    (pad word : Name) (sep : ℕ) (tail : Name)
    → IsBlank pad
    → IsWord word
    → is_space sep ≡ true
    → extract_word (text_in (pad ++ (word ++ (sep ∷ tail)))) ≡ (some word, text_in (sep ∷ tail))
unfolding skip_space
extract_word-append pad [] sep tail blank (h, ne) gap = absurd (ne refl)
extract_word-append pad (b ∷ word) sep tail blank (h, ne) gap =
    word_steps _ b sep word tail (skip_blank pad _ blank ∙ rw (h.0, skip_space) refl)
      (scan_word-append (b ∷ word) sep tail h gap)

extract_word-blank :
    (pad : Name) → IsBlank pad → (rest : TextIn) × (extract_word (text_in pad) ≡ (none, rest))
unfolding extract_word
extract_word-blank pad blank =
    (record { rest = []; eof = true; fail = true }, rw (skipped, extract_word) refl)
  where
    skipped : skip_space pad ≡ []
    skipped = ap skip_space (sym (append-nil pad)) ∙ skip_blank pad [] blank

blank_dash-append :
    (text rest : Name)
    → All (IsDigit 16) text
    → blank_dash (text ++ (b'-' ∷ rest)) ≡ some (text ++ (b' ' ∷ rest))
unfolding blank_dash digit_value
blank_dash-append [] rest h = refl
blank_dash-append (b ∷ text) rest h =
    rw (no_dash b h.0, blank_dash-append text rest h.1, blank_dash) refl
  where
    no_dash : (b : ℕ) → IsDigit 16 b → (b == b'-') ≡ false
    no_dash b h = ground arith

-- A line of /proc/<pid>/maps: the two addresses, the permissions, the offset, the device and the
-- inode, and what is behind it.
unfoldable pub maps_line : Name → Name → Name → Name → Name → Name → Name → Name
maps_line start last perms offset dev inode behind =
    start
    ++ (b'-'
        ∷ (last
            ++ (b' '
                ∷ (perms ++ (b' ' ∷ (offset ++ (b' ' ∷ (dev ++ (b' ' ∷ (inode ++ behind))))))))))

to_signed-fits_long : (n : ℕ) → n < 2 ^ 63 → to_signed 64 false n ≡ (n, false)
unfolding to_signed
to_signed-fits_long n h = ground arith

-- parse_vma_fields, by what its extractions give.
field_steps :
    (line : Name) (start last offset : ℕ) (perms dev inode : Option Name) (name : Option Name)
    (s1 s2 s3 s4 s5 s6 s7 : TextIn)
    → extract 16 (to_unsigned 64) (text_in line) ≡ (some start, s1)
    → extract 16 (to_unsigned 64) s1 ≡ (some last, s2)
    → extract_word s2 ≡ (perms, s3)
    → extract 16 (to_signed 64) s3 ≡ (some offset, s4)
    → extract_word s4 ≡ (dev, s5)
    → extract_word s5 ≡ (inode, s6)
    → extract_word s6 ≡ (name, s7)
    → parse_vma_fields line
      ≡ done (record {
        range = record { start = start; end = last };
        offset = offset;
        fname = elim name [ none ↦ anon_name | some fname ↦ fname ];
        pages = [];
      })
unfolding parse_vma_fields
field_steps line start last offset perms dev inode name s1 s2 s3 s4 s5 s6 s7 e1 e2 e3 e4 e5 e6 e7 =
    rw (e1, e2, e3, e4, e5, e6, e7, parse_vma_fields) refl

vma_steps :
    (line blanked : Name) (vma : Vma)
    → blank_dash line ≡ some blanked
    → parse_vma_fields blanked ≡ done vma
    → parse_vma_line line ≡ done (some vma)
unfolding parse_vma_line
vma_steps line blanked vma e f = rw (e, f, parse_vma_line) refl

-- The name behind the inode, which may be none.
name_behind :
    (pad name : Name)
    → IsBlank pad
    → (name ≡ []) ⊎ IsWord name
    → (rest : TextIn) × (found : Option Name) × (extract_word
          (text_in (b' ' ∷ (pad ++ (name ++ (b'\n' ∷ [])))))
        ≡ (found, rest))
      × (elim found [ none ↦ anon_name | some fname ↦ fname ]
          ≡ (if length name == 0 then anon_name else name))
name_behind pad [] blank word =
    let all : IsBlank (b' ' ∷ (pad ++ (b'\n' ∷ []))) =
      (refl, All-append (λ (b : ℕ). is_space b ≡ true) pad (b'\n' ∷ []) blank (refl, tt)) in
    let (rest, e) = extract_word-blank (b' ' ∷ (pad ++ (b'\n' ∷ []))) all in (rest, none, e, refl)
name_behind pad (b ∷ name) blank (inl e) = absurd (cons-ne-nil b name e)
name_behind pad (b ∷ name) blank (inr word) = (
  text_in (b'\n' ∷ []),
  some (b ∷ name),
  extract_word-append (b' ' ∷ pad) (b ∷ name) b'\n' [] (refl, blank) word refl,
  ground arith,
)

-- A line of /proc/<pid>/maps: two addresses and an offset in hexadecimal digits, which are below
-- 2 ^ 64 and 2 ^ 63, words without white space for the permissions, the device and the inode, and
-- behind a space and any more white space a name without any, or none. It is parsed as the Vma with
-- that range, that offset and that name, or [anon] where there is no name; it has no pages yet.
pub parse_vma_line-maps_line :
    (a b perms c dev inode pad name : Name) (start last offset : ℕ)
    → Spells 16 sixteen-IsBase start a
    → Spells 16 sixteen-IsBase last b
    → Spells 16 sixteen-IsBase offset c
    → start < 2 ^ 64
    → last < 2 ^ 64
    → offset < 2 ^ 63
    → IsWord perms
    → IsWord dev
    → IsWord inode
    → IsBlank pad
    → (name ≡ []) ⊎ IsWord name
    → parse_vma_line (maps_line a b perms c dev inode (b' ' ∷ (pad ++ (name ++ (b'\n' ∷ [])))))
      ≡ done (
          some (record {
            range = record { start = start; end = last };
            offset = offset;
            fname = if length name == 0 then anon_name else name;
            pages = [];
          }))
unfolding maps_line
parse_vma_line-maps_line a b perms c dev inode pad name start last offset is_a is_b is_c fits_a
      fits_b fits_c word_p word_d word_i blank word_n =
    let behind : Name = b' ' ∷ (pad ++ (name ++ (b'\n' ∷ []))) in
    let at_dev : Name = dev ++ (b' ' ∷ (inode ++ behind)) in
    let at_perms : Name = perms ++ (b' ' ∷ (c ++ (b' ' ∷ at_dev))) in
    let (rest, found, e, same) = name_behind pad name blank word_n in
    vma_steps _ (a ++ (b' ' ∷ (b ++ (b' ' ∷ at_perms)))) _
      (blank_dash-append a (b ++ (b' ' ∷ at_perms)) is_a.1)
      (field_steps _ start last offset (some perms) (some dev) (some inode) found _ _ _ _ _ _ rest
        (extract-Spells 16 sixteen-IsBase (to_unsigned 64) a start start b' ' _ is_a
          (to_unsigned-fits start fits_a) (inl refl))
        (extract-Spells_next 16 sixteen-IsBase (to_unsigned 64) b last last b' ' _ is_b
          (to_unsigned-fits last fits_b) (inl refl))
        (extract_word-append (b' ' ∷ []) perms b' ' _ (refl, tt) word_p refl)
        (extract-Spells_next 16 sixteen-IsBase (to_signed 64) c offset offset b' ' _ is_c
          (to_signed-fits_long offset fits_c) (inl refl))
        (extract_word-append (b' ' ∷ []) dev b' ' _ (refl, tt) word_d refl)
        (extract_word-append (b' ' ∷ []) inode b' ' _ (refl, tt) word_i refl) e)
    ∙ ap
        (λ (fname : Name). done (
          some (record {
            range = record { start = start; end = last };
            offset = offset;
            fname = fname;
            pages = [];
          })))
        same
