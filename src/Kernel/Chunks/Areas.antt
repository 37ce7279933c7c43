-- ===== src/Kernel/Chunks/Areas.antt =====
-- What one read shows of all the areas.
use mathlib.Core.List.{append_assoc, append-nil}
use exmap.Prelude.{
  ℕ, suc, ◌-◌, ◌≤◌, ◌<◌, ◌≡◌, ◌⊎◌, inl, inr, refl, sym, ap, ◌∙◌, Bool, true, false, List, [], ◌∷◌,
  ◌++◌, ◌==◌, length, length-append, drop, arith, Bool-cases, ==_iff, All, joined,
}
use exmap.Std.Names.{Name}
use exmap.Outcome.{done}
use exmap.Kernel.{PteMacros, VmaData, show_area, show_areas}
use exmap.Kernel.Reading.{unread_area, unread_areas}
use exmap.Kernel.Chunks.{IsFilled, AreaShown, show_area_lem}

module _ {Pte : Type 0} (macros : PteMacros Pte) where
  -- What the outer loop ends with.
  pub record AreasShown (areas : List (VmaData Pte)) (buflen : ℕ) (out : Name)
      (after : List (VmaData Pte)) (ended : ℕ) : Type 0 where
    pub text : out ++ unread_areas macros (drop ended after) ≡ unread_areas macros areas
    pub filled : All (IsFilled macros) after
    pub size : length after ≡ length areas
    pub count : ended ≤ length areas
    pub fits : 0 < buflen → length out < buflen
    pub progress : 200 ≤ buflen → (0 < length out) ⊎ (ended ≡ length areas)

  -- The outer loop stops in an area.
  AreasShown-stop :
      (v after : VmaData Pte) (areas : List (VmaData Pte)) (buflen : ℕ) (out : Name)
      → All (IsFilled macros) areas
      → AreaShown macros v buflen out after false
      → AreasShown (v ∷ areas) buflen out (after ∷ areas) 0
  unfolding unread_areas joined
  AreasShown-stop v after areas buflen out ok so = record {
    text =
        sym (append_assoc out _ (unread_areas macros areas))
        ∙ ap (λ (t : Name). t ++ unread_areas macros areas) so.text;
    filled = (so.filled, ok);
    size = refl;
    count = omega arith;
    fits = so.fits;
    progress = λ wide. inl (so.progress wide refl);
  }

  -- The outer loop goes on behind an area.
  shown_whole :
      (v after : VmaData Pte) (buflen : ℕ) (out : Name)
      → AreaShown macros v buflen out after true
      → out ≡ unread_area macros v
  shown_whole v after buflen out so =
      sym (append-nil out) ∙ ap (λ (t : Name). out ++ t) (sym (so.complete refl)) ∙ so.text

  AreasShown-step :
      (v after : VmaData Pte) (areas others : List (VmaData Pte)) (buflen : ℕ) (out more : Name)
      (ended : ℕ)
      → AreaShown macros v buflen out after true
      → AreasShown areas (buflen - length out) more others ended
      → AreasShown (v ∷ areas) buflen (out ++ more) (after ∷ others) (suc ended)
  unfolding unread_areas joined
  AreasShown-step v after areas others buflen out more ended so rest =
      let both = length-append out more in
      record {
        text =
            append_assoc out more _
            ∙ ap (λ (t : Name). out ++ t) rest.text
            ∙ ap (λ (t : Name). t ++ unread_areas macros areas) (shown_whole v after buflen out so);
        filled = (so.filled, rest.filled);
        size = ap suc rest.size;
        count = omega (arith, rest.count);
        fits = λ pos. omega (arith, so.fits pos, both, rest.fits (omega (arith, so.fits pos)));
        progress = λ wide. elim (Bool-cases (length out == 0)) [
          | inl e ↦ elim (rest.progress (omega (arith, wide, (==_iff (length out) 0).0 e))) [
            | inl h ↦ inl (omega (arith, both, h))
            | inr h ↦ inr (ap suc h)
          ]
          | inr e ↦ inl (ground (arith, both))
        ];
      }

  show_areas_stop :
      (left : ℕ) (v after : VmaData Pte) (areas : List (VmaData Pte)) (buflen : ℕ) (out : Name)
      → show_area macros v buflen ≡ done (out, after, false)
      → show_areas macros (suc left) (v ∷ areas) buflen ≡ done (out, after ∷ areas, 0)
  unfolding show_areas
  show_areas_stop left v after areas buflen out e = rw (e, show_areas) refl

  show_areas_step :
      (left : ℕ) (v after : VmaData Pte) (areas others : List (VmaData Pte)) (buflen : ℕ)
      (out more : Name) (ended : ℕ)
      → show_area macros v buflen ≡ done (out, after, true)
      → show_areas macros left areas (buflen - length out) ≡ done (more, others, ended)
      → show_areas macros (suc left) (v ∷ areas) buflen
        ≡ done (out ++ more, after ∷ others, suc ended)
  unfolding show_areas
  show_areas_step left v after areas others buflen out more ended e f = rw (e, f, show_areas) refl

  abbrev pub Shows : List (VmaData Pte) → ℕ → Type 0
  Shows areas buflen =
      (out : Name) × (after : List (VmaData Pte)) × (ended : ℕ) × (show_areas macros (length areas)
          areas buflen
        ≡ done (out, after, ended))
      × AreasShown areas buflen out after ended

  -- An area in front of areas whose reads are known.
  Shows-area :
      (v after : VmaData Pte) (areas : List (VmaData Pte)) (buflen : ℕ) (out : Name) (all : Bool)
      → All (IsFilled macros) areas
      → ((left : ℕ) → Shows areas left)
      → show_area macros v buflen ≡ done (out, after, all)
      → AreaShown macros v buflen out after all
      → Shows (v ∷ areas) buflen
  Shows-area v after areas buflen out false ok others run so = (
    out,
    after ∷ areas,
    0,
    show_areas_stop (length areas) v after areas buflen out run,
    AreasShown-stop v after areas buflen out ok so,
  )
  Shows-area v after areas buflen out true ok others run so =
      let (more, rest, ended, run_more, shown) = others (buflen - length out) in
      (
        out ++ more,
        after ∷ rest,
        suc ended,
        show_areas_step (length areas) v after areas rest buflen out more ended run run_more,
        AreasShown-step v after areas rest buflen out more ended so shown,
      )

  pub show_areas_lem :
      (areas : List (VmaData Pte)) (buflen : ℕ) → All (IsFilled macros) areas → Shows areas buflen
  unfolding show_areas unread_areas joined
  show_areas_lem [] buflen ok = (
    [],
    [],
    0,
    refl,
    record {
      text = refl;
      filled = tt;
      size = refl;
      count = omega arith;
      fits = λ h. h;
      progress = λ w. inr refl;
    },
  )
  show_areas_lem (v ∷ areas) buflen ok =
      let (out, after, all, run, so) = show_area_lem macros v buflen ok.0 in
      Shows-area v after areas buflen out all ok.1 (λ left. show_areas_lem areas left ok.1) run so
