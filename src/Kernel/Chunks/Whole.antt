-- ===== src/Kernel/Chunks/Whole.antt =====
-- Reads of /proc/exmap, one after another, show the whole text once.
use exmap.Prelude.{
  ℕ, zero, suc, ◌+◌, ◌-◌, ◌≤◌, ◌<◌, ◌≡◌, inl, inr, refl, sym, ap, ◌∙◌, List, [], ◌∷◌, ◌++◌, none,
  some, length, length-append, length-drop, length-take, drop, take, arith, All, All-append, joined,
}
use exmap.Std.Names.{Name}
use exmap.Outcome.{done}
use exmap.Kernel.{PteMacros, VmaData, ExmapData, show_areas, exmap_show_next, procfile_read}
use exmap.Kernel.Reading.{unread_areas}
use exmap.Kernel.Chunks.{IsFilled}
use exmap.Kernel.Chunks.Areas.{AreasShown, show_areas_lem}

module _ {Pte : Type 0} (macros : PteMacros Pte) where
  -- A process was set up for reading: the counts agree with the arrays.
  pub record IsReady (local_data : ExmapData Pte) : Type 0 where
    pub areas : List (VmaData Pte)
    pub there : local_data.vma_data ≡ some areas
    pub count : local_data.num_vmas ≡ length areas
    pub inside : local_data.vma_cursor ≤ length areas
    pub filled : All (IsFilled macros) areas

  -- The text from the cursors on.
  unfoldable pub unread : ExmapData Pte → Name
  unfolding unread_areas
  unread local_data = elim local_data.vma_data [
    | none ↦ []
    | some areas ↦ unread_areas macros (drop local_data.vma_cursor areas)
  ]

  All-drop :
      (n : ℕ) (areas : List (VmaData Pte))
      → All (IsFilled macros) areas
      → All (IsFilled macros) (drop n areas)
  All-drop zero areas h = h
  All-drop (suc n) [] h = h
  All-drop (suc n) (v ∷ areas) h = All-drop n areas h.1

  All-take :
      (n : ℕ) (areas : List (VmaData Pte))
      → All (IsFilled macros) areas
      → All (IsFilled macros) (take n areas)
  All-take zero areas h = tt
  All-take (suc n) [] h = tt
  All-take (suc n) (v ∷ areas) h = (h.0, All-take n areas h.1)

  drop_past :
      (n m : ℕ) (areas after : List (VmaData Pte))
      → n ≤ length areas
      → drop (n + m) (take n areas ++ after) ≡ drop m after
  drop_past zero m areas after h = ap (λ (k : ℕ). drop k after) (omega arith)
  drop_past (suc n) m [] after h = absurd (omega (arith, h))
  drop_past (suc n) m (v ∷ areas) after h =
      ap (λ (k : ℕ). drop k (v ∷ (take n areas ++ after))) (shift n m)
      ∙ drop_past n m areas after (omega (arith, h))
    where
      shift : (a b : ℕ) → suc a + b ≡ suc (a + b)
      shift a b = omega arith

  -- The data behind a read.
  abbrev moved : ExmapData Pte → List (VmaData Pte) → List (VmaData Pte) → ℕ → ExmapData Pte
  moved local_data areas after ended = record local_data {
    vma_data = some (take local_data.vma_cursor areas ++ after);
    vma_cursor = local_data.vma_cursor + ended;
  }

  read_step :
      (local_data : ExmapData Pte) (areas after : List (VmaData Pte)) (buflen : ℕ) (out : Name)
      (ended : ℕ)
      → local_data.vma_data ≡ some areas
      → local_data.num_vmas ≡ length areas
      → show_areas macros
          (length (drop local_data.vma_cursor areas))
          (drop local_data.vma_cursor areas)
          buflen
        ≡ done (out, after, ended)
      → procfile_read macros local_data buflen ≡ done (some out, moved local_data areas after ended)
  unfolding procfile_read exmap_show_next
  read_step local_data areas after buflen out ended there count run =
      let left : local_data.num_vmas - local_data.vma_cursor
          ≡ length (drop local_data.vma_cursor areas) =
        omega (arith, length-drop local_data.vma_cursor areas, count) in
      rw (there, left, run, procfile_read) refl

  moved-IsReady :
      (local_data : ExmapData Pte) (ready : IsReady local_data) (buflen : ℕ) (out : Name)
      (after : List (VmaData Pte)) (ended : ℕ)
      → AreasShown macros (drop local_data.vma_cursor ready.areas) buflen out after ended
      → IsReady (moved local_data ready.areas after ended)
  moved-IsReady local_data ready buflen out after ended so =
      let cursor : ℕ = local_data.vma_cursor in
      let sizes = length-append (take cursor ready.areas) after in
      let front = length-take cursor ready.areas ready.inside in
      let back = length-drop cursor ready.areas in
      record {
        areas = take cursor ready.areas ++ after;
        there = refl;
        count = omega (arith, ready.count, sizes, front, back, so.size, ready.inside);
        inside = omega (arith, sizes, front, back, so.size, so.count, ready.inside);
        filled =
            All-append (IsFilled macros) (take cursor ready.areas) after
              (All-take cursor ready.areas ready.filled) so.filled;
      }

  unread-there :
      (local_data : ExmapData Pte) (areas : List (VmaData Pte))
      → local_data.vma_data ≡ some areas
      → unread local_data ≡ unread_areas macros (drop local_data.vma_cursor areas)
  unfolding unread
  unread-there local_data areas e = rw e refl

  moved-unread :
      (local_data : ExmapData Pte) (ready : IsReady local_data) (buflen : ℕ) (out : Name)
      (after : List (VmaData Pte)) (ended : ℕ)
      → AreasShown macros (drop local_data.vma_cursor ready.areas) buflen out after ended
      → out ++ unread (moved local_data ready.areas after ended) ≡ unread local_data
  unfolding unread
  moved-unread local_data ready buflen out after ended so =
      rw (ready.there, drop_past local_data.vma_cursor ended ready.areas after ready.inside) so.text

  drop_whole : (n : ℕ) (areas : List (VmaData Pte)) → n ≡ length areas → drop n areas ≡ []
  drop_whole zero [] e = refl
  drop_whole zero (v ∷ areas) e = absurd (omega (arith, e))
  drop_whole (suc n) [] e = refl
  drop_whole (suc n) (v ∷ areas) e = drop_whole n areas (omega (arith, e))

  -- A wide buffer left empty: nothing was left to show.
  read_nothing :
      (areas after : List (VmaData Pte)) (buflen : ℕ) (out : Name) (ended : ℕ)
      → AreasShown macros areas buflen out after ended
      → 200 ≤ buflen
      → out ≡ []
      → unread_areas macros areas ≡ []
  unfolding unread_areas joined
  read_nothing areas after buflen out ended so wide e = elim (so.progress wide) [
    | inl h ↦ absurd (omega (arith, h, ap length e))
    | inr h ↦
        sym so.text
        ∙ ap (λ (t : Name). t ++ unread_areas macros (drop ended after)) e
        ∙ ap (unread_areas macros) (drop_whole ended after (omega (arith, h, so.size)))
  ]

  -- Once a process is set up, a read into a buffer of any length from 1 on works. What it stores,
  -- followed by what is then left to show, is what was left to show before, and fits the buffer
  -- with a null byte; the data is ready for the next read. A buffer of 200 bytes or more is never
  -- left empty while there is something to show.
  pub procfile_read-unread :
      (local_data : ExmapData Pte) (buflen : ℕ)
      → IsReady local_data
      → 0 < buflen
      → (out : Name) × (after : ExmapData Pte) × (procfile_read macros local_data buflen
          ≡ done (some out, after))
        × IsReady after
        × (out ++ unread after ≡ unread local_data)
        × (length out < buflen)
        × (200 ≤ buflen → out ≡ [] → unread local_data ≡ [])
  procfile_read-unread local_data buflen ready some_room =
      let (out, after, ended, run, so) =
        show_areas_lem macros (drop local_data.vma_cursor ready.areas) buflen
          (All-drop local_data.vma_cursor ready.areas ready.filled) in
      (
        out,
        moved local_data ready.areas after ended,
        read_step local_data ready.areas after buflen out ended ready.there ready.count run,
        moved-IsReady local_data ready buflen out after ended so,
        moved-unread local_data ready buflen out after ended so,
        so.fits some_room,
        λ wide e.
            unread-there local_data ready.areas ready.there
            ∙ read_nothing (drop local_data.vma_cursor ready.areas) after buflen out ended so wide
                e,
      )
