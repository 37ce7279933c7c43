-- ===== src/Linux/PageInfo.antt =====
-- read_page_info reads back what the kernel module shows of a process.
use mathlib.Core.List.{append_assoc, append-nil}
use exmap.Prelude.{
  ℕ, ◌^◌, ◌<◌, ◌≤◌, ◌≡◌, ◌≢◌, refl, ap, ◌∙◌, sym, false, List, [], ◌∷◌, ◌++◌, some, ltb,
  if◌then◌else◌, arith, length, length-append, take, map, All,
}
use exmap.Std.Names.{Name, name_eq}
use exmap.Std.OrderedMap.{assign, find-assign_self, nat_key}
use exmap.Std.Digits.{decimal, hexadecimal}
use exmap.Std.Digits.Scan.{IsDigit, ten-IsBase}
use exmap.Std.Digits.Extract.{digits-shape}
use exmap.Std.TextIn.{TextIn, digit_value}
use exmap.Outcome.{done}
use exmap.Page.{Page}
use exmap.Kernel.{PteMacros, VmaData, cookie, page_line, vma_line}
use exmap.Linux.{PageReading, push_page, vma_word, start_vma, add_page, read_page_line, page_loop}
use exmap.Linux.PageLine.{FitsPte, page_of, parse_page_line-page_line, start_vma-vma_line}

assign_twice :
    (m : List (ℕ × List Page)) (a : ℕ) (v w : List Page) → assign (assign m a v) a w ≡ assign m a w
unfolding assign
assign_twice [] a v w = ground arith
assign_twice ((b, x) ∷ m) a v w = ground (arith, assign_twice m a v w)

push_page-assign :
    (m : List (ℕ × List Page)) (a : ℕ) (pages : List Page) (p : Page)
    → push_page (assign m a pages) a p ≡ assign m a (pages ++ (p ∷ []))
unfolding push_page
push_page-assign m a pages p = rw (find-assign_self m a pages, assign_twice m a pages) refl

decimal-shape : (n : ℕ) → (c : ℕ) × (more : Name) × (decimal n ≡ c ∷ more) × (c ≢ b'V')
unfolding decimal digit_value
decimal-shape n =
    let (c, more, shape, digit_c, digits_more) = digits-shape 10 ten-IsBase n in
    (c, more, shape, not_v c digit_c)
  where
    not_v : (c : ℕ) → IsDigit 10 c → c ≢ b'V'
    not_v c h = ground arith

two_more : (a b : ℕ) (x w rest : Name) → 2 ≤ length (x ++ (a ∷ (w ++ (b ∷ rest))))
two_more a b x w rest =
    omega (arith, length-append x (a ∷ (w ++ (b ∷ rest))), length-append w (b ∷ rest))

not_short : (c : ℕ) (text : Name) → 2 ≤ length text → ltb (length (c ∷ text)) 3 ≡ false
not_short c text long = ground (arith, long)

not_vma : (c : ℕ) (text : Name) → c ≢ b'V' → name_eq (take 3 (c ∷ text)) vma_word ≡ false
unfolding name_eq
not_vma c text ne = ground arith

vma_line_step :
    (reading : PageReading) (c : ℕ) (text : Name)
    → read_page_line reading (b'V' ∷ b'M' ∷ b'A' ∷ c ∷ text)
      ≡ start_vma reading (b'V' ∷ b'M' ∷ b'A' ∷ c ∷ text)
unfolding read_page_line name_eq
vma_line_step reading c text =
    rw (not_short b'V' (b'M' ∷ b'A' ∷ c ∷ text) (omega arith), read_page_line) refl

module _ {Pte : Type 0} (macros : PteMacros Pte) where
  -- A line of a page is not taken for the line of an area.
  page_line-shape :
      (pte : Pte)
      → (c : ℕ) × (text : Name) × (page_line macros pte ≡ c ∷ text) × (c ≢ b'V') × (2 ≤ length text)
  unfolding page_line
  page_line-shape pte =
      let w : Name = decimal (if macros.write pte then 1 else 0) in
      let rest : Name = hexadecimal (cookie macros pte) ++ (b'\n' ∷ []) in
      let (c, more, shape, ne) = decimal-shape (macros.present pte) in
      (
        c,
        more ++ (b' ' ∷ (w ++ (b' ' ∷ rest))),
        ap (λ (t : Name). t ++ (b' ' ∷ (w ++ (b' ' ∷ rest)))) shape,
        ne,
        two_more b' ' b' ' more w rest,
      )

  read_line_step :
      (reading : PageReading) (line : Name) (c : ℕ) (text : Name)
      → line ≡ c ∷ text
      → c ≢ b'V'
      → 2 ≤ length text
      → read_page_line reading line ≡ add_page reading line
  unfolding read_page_line
  read_line_step reading line c text e ne long =
      rw (e, not_vma c text ne, not_short c text long, read_page_line) refl

  -- The state of the loop, with an area to put pages into.
  abbrev inside : List (ℕ × List Page) → ℕ → List Page → TextIn → PageReading
  inside m at pages sstr = record { page_info = assign m at pages; current = some at; sstr = sstr }

  add_page_step :
      (m : List (ℕ × List Page)) (at : ℕ) (pages : List Page) (sstr : TextIn) (pte : Pte)
      → FitsPte macros pte
      → add_page (inside m at pages sstr) (page_line macros pte)
        ≡ done (inside m at (pages ++ (page_of macros pte ∷ [])) sstr)
  unfolding add_page
  add_page_step m at pages sstr pte fits =
      rw (parse_page_line-page_line macros pte fits, add_page)
        (ap
          (λ (info : List (ℕ × List Page)).
            done (record { page_info = info; current = some at; sstr = sstr }))
          (push_page-assign m at pages (page_of macros pte)))

  page_loop_step :
      (reading next : PageReading) (line : Name) (lines : List Name)
      → read_page_line reading line ≡ done next
      → page_loop reading (line ∷ lines) ≡ page_loop next lines
  unfolding page_loop
  page_loop_step reading next line lines e = rw (e, page_loop) refl

  -- The lines of some entries, read behind pages that are there.
  page_loop-pages :
      (m : List (ℕ × List Page)) (at : ℕ) (pages : List Page) (sstr : TextIn) (ptes : List Pte)
      (rest : List Name)
      → All (FitsPte macros) ptes
      → page_loop (inside m at pages sstr) (map (page_line macros) ptes ++ rest)
        ≡ page_loop (inside m at (pages ++ map (page_of macros) ptes) sstr) rest
  page_loop-pages m at pages sstr [] rest fits =
      ap (λ (p : List Page). page_loop (inside m at p sstr) rest) (sym (append-nil pages))
  page_loop-pages m at pages sstr (pte ∷ ptes) rest fits =
      let (c, text, shape, ne, long) = page_line-shape pte in
      page_loop_step (inside m at pages sstr)
        (inside m at (pages ++ (page_of macros pte ∷ [])) sstr) (page_line macros pte)
        (map (page_line macros) ptes ++ rest)
        (read_line_step _ (page_line macros pte) c text shape ne long
          ∙ add_page_step m at pages sstr pte fits.0)
      ∙ page_loop-pages m at (pages ++ (page_of macros pte ∷ [])) sstr ptes rest fits.1
      ∙ ap (λ (p : List Page). page_loop (inside m at p sstr) rest)
          (append_assoc pages (page_of macros pte ∷ []) (map (page_of macros) ptes))

  -- The lines of areas of which nothing is shown yet.
  unfoldable pub area_lines : List (VmaData Pte) → List Name
  area_lines [] = []
  area_lines (v ∷ areas) = vma_line macros v ∷ (map (page_line macros) v.ptes ++ area_lines areas)

  pub record FitsArea (v : VmaData Pte) : Type 0 where
    pub start : v.vm_start < 2 ^ 64
    pub ptes : All (FitsPte macros) v.ptes

  -- The map that has the pages of each area at its address.
  unfoldable pub pages_by_start : List (VmaData Pte) → List (ℕ × List Page) → List (ℕ × List Page)
  pages_by_start [] m = m
  pages_by_start (v ∷ areas) m =
      pages_by_start areas (assign m v.vm_start (map (page_of macros) v.ptes))

  read_vma_step :
      (reading : PageReading) (v : VmaData Pte)
      → read_page_line reading (vma_line macros v) ≡ start_vma reading (vma_line macros v)
  unfolding vma_line
  read_vma_step reading v =
      vma_line_step reading b' '
        (hexadecimal v.vm_start ++ (b' ' ∷ (decimal v.num_pages ++ (b'\n' ∷ []))))

  pub page_loop-area_lines :
      (areas : List (VmaData Pte)) (reading : PageReading)
      → All FitsArea areas
      → reading.sstr.eof ≡ false
      → reading.sstr.fail ≡ false
      → (after : PageReading) × (page_loop reading (area_lines areas) ≡ done after)
        × (after.page_info ≡ pages_by_start areas reading.page_info)
  unfolding area_lines pages_by_start page_loop
  page_loop-area_lines [] reading fits no_eof no_fail = (reading, refl, refl)
  page_loop-area_lines (v ∷ areas) reading (fits_v, fits) no_eof no_fail =
      let (sstr, still, sound, started) =
        start_vma-vma_line macros v reading fits_v.start no_eof no_fail in
      let filled : PageReading =
        inside reading.page_info v.vm_start (map (page_of macros) v.ptes) sstr in
      let (after, run, info) = page_loop-area_lines areas filled fits still sound in
      (
        after,
        page_loop_step reading _ (vma_line macros v)
              (map (page_line macros) v.ptes ++ area_lines areas)
              (read_vma_step reading v ∙ started)
            ∙ page_loop-pages reading.page_info v.vm_start [] sstr v.ptes (area_lines areas)
                fits_v.ptes
            ∙ run,
        info,
      )
