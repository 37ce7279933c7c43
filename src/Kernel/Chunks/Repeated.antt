-- ===== src/Kernel/Chunks/Repeated.antt =====
-- Reads of /proc/exmap until one gives nothing.
use exmap.Prelude.{
  ℕ, zero, suc, ◌≤◌, ◌<◌, ◌≡◌, inl, inr, refl, sym, ap, ◌∙◌, [], ◌∷◌, ◌++◌, Option, none, some,
  ◌==◌, if◌then◌else◌, length, length-append, arith, List-cases,
}
use exmap.Std.Names.{Name}
use exmap.Outcome.{Outcome, done, ◌>>=◌}
use exmap.Kernel.{PteMacros, ExmapData, procfile_read}
use exmap.Kernel.Chunks.Whole.{IsReady, unread, procfile_read-unread}

module _ {Pte : Type 0} (macros : PteMacros Pte) where
  -- The reads of a file with a buffer, until one of them gives nothing. On fuel: without any left,
  -- the text is not whole.
  unfoldable pub read_file : ℕ → ExmapData Pte → ℕ → Outcome (Option Name)
  unfolding procfile_read
  read_file zero local_data buflen = done none
  read_file (suc fuel) local_data buflen = do
    (out, after) ← procfile_read macros local_data buflen
    let rest = read_file fuel after buflen
    (elim out [
      | none ↦ done none
      | some text ↦ if length text == 0 then done (some []) else (do
        more ← rest
        done (elim more [ none ↦ none | some others ↦ some (text ++ others) ]))
    ])

  read_file_stop :
      (fuel : ℕ) (local_data after : ExmapData Pte) (buflen : ℕ)
      → procfile_read macros local_data buflen ≡ done (some [], after)
      → read_file (suc fuel) local_data buflen ≡ done (some [])
  unfolding read_file
  read_file_stop fuel local_data after buflen e = rw (e, read_file) refl

  read_file_step :
      (fuel : ℕ) (local_data after : ExmapData Pte) (buflen : ℕ) (b : ℕ) (text rest : Name)
      → procfile_read macros local_data buflen ≡ done (some (b ∷ text), after)
      → read_file fuel after buflen ≡ done (some rest)
      → read_file (suc fuel) local_data buflen ≡ done (some ((b ∷ text) ++ rest))
  unfolding read_file
  read_file_step fuel local_data after buflen b text rest e f = rw (e, f, read_file) (ground arith)

  -- Once a process is set up, reads with a buffer of 200 bytes or more come to an end, and give
  -- together all the text that was left to show, each byte once: one read more than there are bytes
  -- is enough.
  pub read_file-unread :
      (fuel : ℕ) (local_data : ExmapData Pte) (buflen : ℕ)
      → IsReady macros local_data
      → 200 ≤ buflen
      → length (unread macros local_data) < fuel
      → read_file fuel local_data buflen ≡ done (some (unread macros local_data))
  read_file-unread zero local_data buflen ready wide h = absurd (omega (arith, h))
  read_file-unread (suc fuel) local_data buflen ready wide h =
      let (out, after, run, next, text, fits, progress) =
        procfile_read-unread macros local_data buflen ready (omega (arith, wide)) in
      elim (List-cases out) [
        | inl e ↦
            read_file_stop fuel local_data after buflen
              (run ∙ ap (λ (t : Name). done (some t, after)) e)
            ∙ ap (λ (t : Name). done (some t)) (sym (progress wide e))
        | inr (b, more, e) ↦
            let sizes = length-append out (unread macros after) in
            let shorter : length (unread macros after) < fuel =
              omega (arith, h, sizes, ap length text, ap length e) in
            read_file_step fuel local_data after buflen b more (unread macros after)
              (run ∙ ap (λ (t : Name). done (some t, after)) e)
              (read_file-unread fuel after buflen next wide shorter)
            ∙ ap (λ (t : Name). done (some (t ++ unread macros after))) (sym e)
            ∙ ap (λ (t : Name). done (some t)) text
      ]
