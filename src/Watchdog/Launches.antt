-- ===== src/Watchdog/Launches.antt =====
-- pipeline_watchdog.py: the resumes that the watchdog launches, and the state file that it writes.
use herdr_routines.Prelude.{
  ℕ, suc, ◌+◌, String, ◌≡◌, refl, sym, ap, ◌∙◌, ◌⊎◌, inl, inr, true, false, List, [], ◌∷◌, ◌++◌,
  map, subst, arith,
}
use herdr_routines.Pipeline.State.{Doc}
use herdr_routines.Watchdog.Resume.{
  at_cap, resume_count_of, Event, appended, pane_closed, state_rewritten, launched, reported,
  reason_added, notified,
}

-- How often a resume was launched.
abbrev pub launches : List Event → ℕ
launches [] = 0
launches (launched unit runtime deadline wait ∷ es) = suc (launches es)
launches (e ∷ es) = launches es

-- The state file after the events.
abbrev pub doc_after : List Event → Doc → Doc
doc_after [] d = d
doc_after (state_rewritten d' ∷ es) d = doc_after es d'
doc_after (e ∷ es) d = doc_after es d

pub launches-append : (es fs : List Event) → launches (es ++ fs) ≡ launches es + launches fs
launches-append [] fs = omega arith
launches-append (appended r ∷ es) fs = launches-append es fs
launches-append (pane_closed p ∷ es) fs = launches-append es fs
launches-append (state_rewritten x ∷ es) fs = launches-append es fs
launches-append (launched u r t v ∷ es) fs = let h = launches-append es fs in omega arith
launches-append (reported o ∷ es) fs = launches-append es fs
launches-append (reason_added r ∷ es) fs = launches-append es fs
launches-append (notified t ∷ es) fs = launches-append es fs

doc_after-append :
    (es fs : List Event) (d : Doc) → doc_after (es ++ fs) d ≡ doc_after fs (doc_after es d)
doc_after-append [] fs d = refl
doc_after-append (appended r ∷ es) fs d = doc_after-append es fs d
doc_after-append (pane_closed p ∷ es) fs d = doc_after-append es fs d
doc_after-append (state_rewritten x ∷ es) fs d = doc_after-append es fs x
doc_after-append (launched u r t v ∷ es) fs d = doc_after-append es fs d
doc_after-append (reported o ∷ es) fs d = doc_after-append es fs d
doc_after-append (reason_added r ∷ es) fs d = doc_after-append es fs d
doc_after-append (notified t ∷ es) fs d = doc_after-append es fs d

-- The events neither launch nor change the state file.
abbrev pub Idle : List Event → Type 0
Idle es = (launches es ≡ 0) × ((d : Doc) → doc_after es d ≡ d)

pub Idle-append : (es fs : List Event) → Idle es → Idle fs → Idle (es ++ fs)
Idle-append es fs (n, same) (m, same') =
    let sum = launches-append es fs in
    (omega arith, λ d. doc_after-append es fs d ∙ ap (doc_after fs) (same d) ∙ same' d)

pub closings-Idle :
    (ps : List (String × String)) → Idle (map (λ (p : String × String). pane_closed p.1) ps)
closings-Idle [] = (refl, λ d. refl)
closings-Idle (p ∷ ps) = closings-Idle ps

-- Nothing was launched and the file is as it was; or one resume was launched, below the cap, and the file is at the cap.
abbrev pub Once : Doc → List Event → Type 0
Once d es =
    ((launches es ≡ 0) × (doc_after es d ≡ d))
    ⊎ ((launches es ≡ 1)
        × (at_cap (resume_count_of d) ≡ false)
        × (at_cap (resume_count_of (doc_after es d)) ≡ true))

pub Once-after : (d : Doc) (es fs : List Event) → Idle es → Once d fs → Once d (es ++ fs)
Once-after d es fs (z, same) (inl (n, e)) =
    let sum = launches-append es fs in
    inl (omega arith, doc_after-append es fs d ∙ ap (doc_after fs) (same d) ∙ e)
Once-after d es fs (z, same) (inr (n, below, cap)) =
    let sum = launches-append es fs in
    inr (
      omega arith,
      below,
      subst (λ (x : Doc). at_cap (resume_count_of x) ≡ true)
          (sym (doc_after-append es fs d ∙ ap (doc_after fs) (same d))) cap,
    )

pub Once-before : (d : Doc) (es fs : List Event) → Once d es → Idle fs → Once d (es ++ fs)
Once-before d es fs (inl (n, e)) (z, same) =
    let sum = launches-append es fs in
    inl (omega arith, doc_after-append es fs d ∙ same (doc_after es d) ∙ e)
Once-before d es fs (inr (n, below, cap)) (z, same) =
    let sum = launches-append es fs in
    inr (
      omega arith,
      below,
      subst (λ (x : Doc). at_cap (resume_count_of x) ≡ true)
          (sym (doc_after-append es fs d ∙ same (doc_after es d))) cap,
    )

pub Idle-Once : (d : Doc) (es : List Event) → Idle es → Once d es
Idle-Once d es h = inl (h.0, h.1 d)
