-- ===== src/Linux/Whole.antt =====
-- read_page_info, from the text of the kernel module on.
use mathlib.Core.List.{append_assoc}
use exmap.Prelude.{
  ℕ, ◌<◌, ◌≡◌, refl, ap, ◌∙◌, sym, true, false, List, [], ◌∷◌, ◌++◌, none, some, if◌then◌else◌,
  arith, length, length-append, map, All, All-append, joined,
}
use exmap.Std.Names.{Name}
use exmap.Std.Digits.{digits, decimal, hexadecimal}
use exmap.Std.Digits.Scan.{IsDigit, IsBase, ten-IsBase, sixteen-IsBase, digits-IsDigit}
use exmap.Std.TextIn.{text_in, digit_value}
use exmap.Outcome.{done}
use exmap.Page.{Page}
use exmap.TextFile.{read_textfile}
use exmap.TextFile.Lines.{IsInside, IsLine, readline_helper-joined}
use exmap.Kernel.{PteMacros, VmaData, cookie, page_line, vma_line}
use exmap.Kernel.Reading.{page_lines, unread_area, unread_areas, length-page_line, length-vma_line}
use exmap.Linux.{LinuxSystem, PageReading, page_loop, read_page_info}
use exmap.Linux.PageInfo.{area_lines, FitsArea, pages_by_start, page_loop-area_lines}

digits-IsInside : (base : ℕ) → IsBase base → (n : ℕ) → All IsInside (digits 65 base n)
unfolding digit_value
digits-IsInside base b n = go (digits 65 base n) (digits-IsDigit base b 65 n)
  where
    byte : (c : ℕ) → IsDigit base c → IsInside c
    byte c h = ground arith

    go : (text : Name) → All (IsDigit base) text → All IsInside text
    go [] h = tt
    go (c ∷ text) h = (byte c h.0, go text h.1)

decimal-IsInside : (n : ℕ) → All IsInside (decimal n)
unfolding decimal
decimal-IsInside n = digits-IsInside 10 ten-IsBase n

hexadecimal-IsInside : (n : ℕ) → All IsInside (hexadecimal n)
unfolding hexadecimal
hexadecimal-IsInside n = digits-IsInside 16 sixteen-IsBase n

-- Bytes before a newline, in a buffer that holds them.
IsLine-text :
    (text line : Name)
    → line ≡ text ++ (10 ∷ [])
    → All IsInside text
    → length line < 200
    → IsLine line
IsLine-text text line e inside short =
    (text, e, inside, omega (arith, ap length e, length-append text (10 ∷ []), short))

fields-IsInside : (x y : Name) → All IsInside x → All IsInside y → All IsInside (x ++ (b' ' ∷ y))
fields-IsInside x y hx hy = All-append IsInside x (b' ' ∷ y) hx ((λ e. cc, λ e. cc), hy)

module _ {Pte : Type 0} (macros : PteMacros Pte) where
  page_line-IsLine : (pte : Pte) → IsLine (page_line macros pte)
  unfolding page_line
  page_line-IsLine pte =
      let p : Name = decimal (macros.present pte) in
      let w : Name = decimal (if macros.write pte then 1 else 0) in
      let c : Name = hexadecimal (cookie macros pte) in
      IsLine-text (p ++ (b' ' ∷ (w ++ (b' ' ∷ c)))) (page_line macros pte)
        (sym (
          append_assoc p (b' ' ∷ (w ++ (b' ' ∷ c))) (10 ∷ [])
          ∙ ap (λ (t : Name). p ++ (b' ' ∷ t)) (append_assoc w (b' ' ∷ c) (10 ∷ []))))
        (fields-IsInside p (w ++ (b' ' ∷ c)) (decimal-IsInside (macros.present pte)) (
          fields-IsInside w c (decimal-IsInside (if macros.write pte then 1 else 0))
            (hexadecimal-IsInside (cookie macros pte))))
        (length-page_line macros pte).1

  vma_line-IsLine : (v : VmaData Pte) → IsLine (vma_line macros v)
  unfolding vma_line
  vma_line-IsLine v =
      let a : Name = hexadecimal v.vm_start in
      let n : Name = decimal v.num_pages in
      let word : Name = b'V' ∷ b'M' ∷ b'A' ∷ [] in
      IsLine-text (word ++ (b' ' ∷ (a ++ (b' ' ∷ n)))) (vma_line macros v)
        (ap (λ (t : Name). word ++ (b' ' ∷ t)) (sym (append_assoc a (b' ' ∷ n) (10 ∷ []))))
        (fields-IsInside word (a ++ (b' ' ∷ n))
          ((λ e. cc, λ e. cc), ((λ e. cc, λ e. cc), ((λ e. cc, λ e. cc), tt)))
          (fields-IsInside a n (hexadecimal-IsInside v.vm_start) (decimal-IsInside v.num_pages)))
        (length-vma_line macros v).1

  page_lines-IsLine : (ptes : List Pte) → All IsLine (map (page_line macros) ptes)
  page_lines-IsLine [] = tt
  page_lines-IsLine (pte ∷ ptes) = (page_line-IsLine pte, page_lines-IsLine ptes)

  area_lines-IsLine : (areas : List (VmaData Pte)) → All IsLine (area_lines macros areas)
  unfolding area_lines
  area_lines-IsLine [] = tt
  area_lines-IsLine (v ∷ areas) = (
    vma_line-IsLine v,
    All-append IsLine (map (page_line macros) v.ptes) (area_lines macros areas)
        (page_lines-IsLine v.ptes) (area_lines-IsLine areas),
  )

  -- Nothing of an area was shown yet.
  abbrev pub IsUnread : VmaData Pte → Type 0
  IsUnread v = (v.start_shown ≡ false) × (v.page_cursor ≡ 0)

  joined-append : (xs ys : List Name) → joined (xs ++ ys) ≡ joined xs ++ joined ys
  unfolding joined
  joined-append [] ys = refl
  joined-append (x ∷ xs) ys =
      ap (λ (t : Name). x ++ t) (joined-append xs ys) ∙ sym (append_assoc x (joined xs) (joined ys))

  unread-area_lines :
      (areas : List (VmaData Pte))
      → All IsUnread areas
      → unread_areas macros areas ≡ joined (area_lines macros areas)
  unfolding unread_areas unread_area page_lines area_lines joined
  unread-area_lines [] h = refl
  unread-area_lines (v ∷ areas) ((new, first), h) =
      let line : Name = vma_line macros v in
      let pages : Name = joined (map (page_line macros) v.ptes) in
      rw (new, first)
        (append_assoc line pages (unread_areas macros areas)
          ∙ ap (λ (t : Name). line ++ (pages ++ t)) (unread-area_lines areas h)
          ∙ ap (λ (t : Name). line ++ t)
              (sym (joined-append (map (page_line macros) v.ptes) (area_lines macros areas))))

  read_steps :
      (system : LinuxSystem) (pid : ℕ) (lines : List Name) (after : PageReading)
      → system.exmap_takes (decimal pid ++ (b'\n' ∷ [])) ≡ true
      → system.exmap_gives (decimal pid ++ (b'\n' ∷ [])) ≡ some (joined lines)
      → All IsLine lines
      → page_loop (record { page_info = []; current = none; sstr = text_in [] }) lines ≡ done after
      → read_page_info system pid ≡ done (after.page_info, true)
  unfolding read_page_info read_textfile
  read_steps system pid lines after takes gives ok run =
      rw (takes, gives, readline_helper-joined lines ok, run, read_page_info) refl

  -- /proc/exmap takes the pid, and then gives the text of some areas of which nothing was shown
  -- before, whose addresses and entries fit the numbers they are printed with. Then read_page_info
  -- works, and its map has at the address of each area the pages of its entries, in order: resident
  -- if present, writable if they can be written, and with the frame number or swap entry as the
  -- cookie, in which the bits from 31 on are set if the number printed for present is odd. Of areas
  -- at the same address, the last one counts.
  pub read_page_info-unread :
      (system : LinuxSystem) (pid : ℕ) (areas : List (VmaData Pte))
      → system.exmap_takes (decimal pid ++ (b'\n' ∷ [])) ≡ true
      → system.exmap_gives (decimal pid ++ (b'\n' ∷ [])) ≡ some (unread_areas macros areas)
      → All IsUnread areas
      → All (FitsArea macros) areas
      → read_page_info system pid ≡ done (pages_by_start macros areas [], true)
  read_page_info-unread system pid areas takes gives unread fits =
      let (after, run, info) =
        page_loop-area_lines macros areas
          (record { page_info = []; current = none; sstr = text_in [] }) fits refl refl in
      read_steps system pid (area_lines macros areas) after takes
        (gives ∙ ap some (unread-area_lines areas unread)) (area_lines-IsLine areas) run
      ∙ ap (λ (m : List (ℕ × List Page)). done (m, true)) info
