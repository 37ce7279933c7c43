-- ===== src/Linux/PageLine.antt =====
-- The lines that the kernel module shows are parsed.
use Prim.Native.Nat.{bit_or}
use exmap.Prelude.{
  ℕ, ◌^◌, ◌<◌, ◌≡◌, refl, ap, ◌∙◌, Bool, false, not, [], ◌∷◌, ◌++◌, some, ◌==◌, if◌then◌else◌,
  arith, inl, inr,
}
use exmap.Std.Names.{Name}
use exmap.Std.Digits.{decimal, hexadecimal}
use exmap.Std.Digits.Scan.{ten-IsBase, sixteen-IsBase}
use exmap.Std.Digits.Extract.{extract-front, extract-next}
use exmap.Std.TextIn.{TextIn, text_in, extract, to_signed, to_unsigned}
use exmap.Std.OrderedMap.{assign, nat_key}
use exmap.Outcome.{done}
use exmap.Page.{Page}
use exmap.Kernel.{PteMacros, VmaData, cookie, page_line, vma_line}
use exmap.Linux.{resident_bits, parse_page_line, PageReading, start_vma}

pub to_signed-fits : (n : ℕ) → n < 2 ^ 31 → to_signed 32 false n ≡ (n, false)
unfolding to_signed
to_signed-fits n h = ground arith

pub to_unsigned-fits : (n : ℕ) → n < 2 ^ 64 → to_unsigned 64 false n ≡ (n, false)
unfolding to_unsigned
to_unsigned-fits n h = ground arith

-- parse_page_line, by what its extractions give.
parse_steps :
    (line : Name) (p w c : ℕ) (s1 s2 s3 : TextIn)
    → extract 10 (to_signed 32) (text_in line) ≡ (some p, s1)
    → extract 10 (to_signed 32) s1 ≡ (some w, s2)
    → extract 16 (to_unsigned 64) s2 ≡ (some c, s3)
    → parse_page_line line ≡ done (not (p == 0), not (w == 0), bit_or c (resident_bits p))
unfolding parse_page_line
parse_steps line p w c s1 s2 s3 e f g = rw (e, f, g, parse_page_line) refl

parse_numbers :
    (p w c : ℕ)
    → p < 2 ^ 31
    → w < 2 ^ 31
    → c < 2 ^ 64
    → parse_page_line
        (decimal p ++ (b' ' ∷ (decimal w ++ (b' ' ∷ (hexadecimal c ++ (b'\n' ∷ []))))))
      ≡ done (not (p == 0), not (w == 0), bit_or c (resident_bits p))
unfolding decimal hexadecimal
parse_numbers p w c small_p small_w small_c =
    parse_steps _ p w c _ _ _
      (extract-front 10 ten-IsBase (to_signed 32) p p b' ' _ (omega (arith, small_p))
        (to_signed-fits p small_p) (inl refl))
      (extract-next 10 ten-IsBase (to_signed 32) w w b' ' _ (omega (arith, small_w))
        (to_signed-fits w small_w) (inl refl))
      (extract-next 16 sixteen-IsBase (to_unsigned 64) c c b'\n' [] small_c
        (to_unsigned-fits c small_c) (inr refl))

start_steps :
    (reading : PageReading) (a b c d : ℕ) (text : Name) (start : ℕ) (sstr : TextIn)
    → reading.sstr.eof ≡ false
    → reading.sstr.fail ≡ false
    → extract 16 (to_unsigned 64) (text_in text) ≡ (some start, sstr)
    → start_vma reading (a ∷ b ∷ c ∷ d ∷ text)
      ≡ done (record {
        page_info = assign reading.page_info start [];
        current = some start;
        sstr = sstr;
      })
unfolding start_vma
start_steps reading a b c d text start sstr no_eof no_fail e =
    rw (no_eof, no_fail, e, start_vma) (ground arith)

hex_front :
    (n : ℕ) (tail : Name)
    → n < 2 ^ 64
    → extract 16 (to_unsigned 64) (text_in (hexadecimal n ++ (b' ' ∷ tail)))
      ≡ (some n, text_in (b' ' ∷ tail))
unfolding hexadecimal
hex_front n tail small =
    extract-front 16 sixteen-IsBase (to_unsigned 64) n n b' ' tail small (to_unsigned-fits n small)
      (inl refl)

module _ {Pte : Type 0} (macros : PteMacros Pte) where
  -- An int and an unsigned long hold what is printed.
  pub record FitsPte (pte : Pte) : Type 0 where
    pub present : macros.present pte < 2 ^ 31
    pub cookie : cookie macros pte < 2 ^ 64

  -- The page of an entry.
  unfoldable pub page_of : Pte → Page
  page_of pte = record {
    cookie = bit_or (cookie macros pte) (resident_bits (macros.present pte));
    resident = not (macros.present pte == 0);
    writable = macros.write pte;
  }

  write_digit : (b : Bool) → ((if b then 1 else 0) < 2 ^ 31) × (not ((if b then 1 else 0) == 0) ≡ b)
  write_digit b = ground arith

  -- The line that the kernel module shows of a page table entry, if its numbers fit, is parsed as
  -- the page of that entry: resident if it is present, writable if it can be written, and with the
  -- frame number or the swap entry as its cookie, in which the bits from 31 on are set too if the
  -- number printed for present is odd.
  pub parse_page_line-page_line :
      (pte : Pte)
      → FitsPte pte
      → let page = page_of pte in
        parse_page_line (page_line macros pte) ≡ done (page.resident, page.writable, page.cookie)
  unfolding page_line page_of
  parse_page_line-page_line pte fits =
      let (small, same) = write_digit (macros.write pte) in
      parse_numbers (macros.present pte) (if macros.write pte then 1 else 0) (cookie macros pte)
        fits.present small fits.cookie
      ∙ ap
          (λ (w : Bool). done (
            not (macros.present pte == 0),
            w,
            bit_or (cookie macros pte) (resident_bits (macros.present pte)),
          ))
          same

  -- The line of an area starts a Vma there.
  pub start_vma-vma_line :
      (v : VmaData Pte) (reading : PageReading)
      → v.vm_start < 2 ^ 64
      → reading.sstr.eof ≡ false
      → reading.sstr.fail ≡ false
      → (sstr : TextIn) × (sstr.eof ≡ false)
        × (sstr.fail ≡ false)
        × (start_vma reading (vma_line macros v)
            ≡ done (record {
              page_info = assign reading.page_info v.vm_start [];
              current = some v.vm_start;
              sstr = sstr;
            }))
  unfolding vma_line
  start_vma-vma_line v reading small no_eof no_fail =
      let tail : Name = decimal v.num_pages ++ (b'\n' ∷ []) in
      (
        text_in (b' ' ∷ tail),
        refl,
        refl,
        start_steps reading b'V' b'M' b'A' b' ' (hexadecimal v.vm_start ++ (b' ' ∷ tail)) v.vm_start
            _ no_eof no_fail (hex_front v.vm_start tail small),
      )
