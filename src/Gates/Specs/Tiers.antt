-- ===== src/Gates/Specs/Tiers.antt =====
-- gates.py: the sections and the tier words of gate 2.
use herdr_routines.Prelude.{
  ℕ, ◌≡◌, refl, String, Bool, true, false, not, some, List, [], ◌∷◌, if◌then◌else◌, drop, length,
  arith, Bool-cases, inl, inr, ◌↔◌,
}
use herdr_routines.Prelude.Texts.{codes, prefix_of, is_in}
use herdr_routines.Gates.{
  GateVerdict, pass, fail, no_criteria, no_changelog, no_tier_word, no_confidence,
}
use herdr_routines.Gates.Specs.{head_is, search_word, has_word, has_heading, run_gate2}

abbrev chain : Bool → Bool → Bool → Bool → Bool → GateVerdict
chain a c b n f =
    if not a
    then fail no_criteria
    else if not c
    then fail no_changelog
    else if not b
    then fail (no_tier_word "blocking")
    else if not n
    then fail (no_tier_word "non-blocking")
    else if not f
    then fail no_confidence
    else pass

all_tests :
    (a c b n f : Bool)
    → (n ≡ true → b ≡ true)
    → ((chain a c b n f).passed ≡ true) ↔ ((a ≡ true) × (c ≡ true) × (n ≡ true) × (f ≡ true))
all_tests false c b n f h = (λ e. cc, λ e. cc)
all_tests true false b n f h = (λ e. cc, λ e. cc)
all_tests true true false n f h = (λ e. cc, λ e. cc (h e.2))
all_tests true true true false f h = (λ e. cc, λ e. cc)
all_tests true true true true false h = (λ e. cc, λ e. cc)
all_tests true true true true true h = (λ e. (refl, refl, refl, refl), λ e. refl)

module _ (is_word : ℕ → Bool) where
  later :
      (s : List ℕ) (inside : Bool) (c : ℕ) (t : List ℕ)
      → search_word is_word s (is_word c) t ≡ true
      → search_word is_word s inside (c ∷ t) ≡ true
  unfolding search_word
  later s inside c t h = ground arith

  here :
      (s : List ℕ) (inside : Bool) (c : ℕ) (t : List ℕ)
      → inside ≡ false
      → prefix_of s (c ∷ t) ≡ true
      → head_is is_word (drop (length s) (c ∷ t)) ≡ false
      → search_word is_word s inside (c ∷ t) ≡ true
  unfolding search_word
  here s inside c t o h e = rw (o, h, e) refl

  -- A word after a hyphen is a word of its own.
  module _ (hyphen : is_word 45 ≡ false) where
    tail_found :
        (a b c d : ℕ) (s : List ℕ) (inside : Bool) (t : List ℕ)
        → prefix_of (a ∷ b ∷ c ∷ 45 ∷ d ∷ s) t ≡ true
        → head_is is_word (drop (length (a ∷ b ∷ c ∷ 45 ∷ d ∷ s)) t) ≡ false
        → search_word is_word (d ∷ s) inside t ≡ true
    unfolding prefix_of
    tail_found a b c d s inside [] h e = cc
    tail_found a b c d s inside (x ∷ []) h e = ground arith
    tail_found a b c d s inside (x ∷ y ∷ []) h e = ground arith
    tail_found a b c d s inside (x ∷ y ∷ z ∷ []) h e = ground arith
    tail_found a b c d s inside (x ∷ y ∷ z ∷ w ∷ []) h e = ground arith
    tail_found a b c d s inside (x ∷ y ∷ z ∷ w ∷ v ∷ t) h e =
        let at_hyphen : w ≡ 45 = ground arith in
        let whole : prefix_of (d ∷ s) (v ∷ t) ≡ true = ground arith in
        let outside : is_word w ≡ false = rw at_hyphen hyphen in
        later (d ∷ s) inside x (y ∷ z ∷ w ∷ v ∷ t) (
          later (d ∷ s) (is_word x) y (z ∷ w ∷ v ∷ t) (
            later (d ∷ s) (is_word y) z (w ∷ v ∷ t)
              (later (d ∷ s) (is_word z) w (v ∷ t) (here (d ∷ s) (is_word w) v t outside whole e))))

    search_word-tail :
        (a b c d : ℕ) (s : List ℕ) (inside : Bool) (t : List ℕ)
        → search_word is_word (a ∷ b ∷ c ∷ 45 ∷ d ∷ s) inside t ≡ true
        → search_word is_word (d ∷ s) inside t ≡ true
    unfolding search_word
    search_word-tail a b c d s inside [] h = h
    search_word-tail a b c d s inside (x ∷ t) h =
        elim (Bool-cases (search_word is_word (a ∷ b ∷ c ∷ 45 ∷ d ∷ s) (is_word x) t)) [
          | inl e ↦ later (d ∷ s) inside x t (search_word-tail a b c d s (is_word x) t e)
          | inr e ↦ tail_found a b c d s inside (x ∷ t) (ground arith) (ground arith)
        ]

    -- As a hyphen is no word character, gate 2 passes a readable spec exactly if it has the two
    -- headings, "non-blocking" as a word and "confidence:": no text fails for want of the tier word
    -- "blocking" that has "non-blocking".
    pub run_gate2_iff :
        (text : String)
        → ((run_gate2 is_word (some text)).passed ≡ true) ↔ (
            (has_heading is_word "## Acceptance criteria" text ≡ true)
            × (has_heading is_word "## Changelog" text ≡ true)
            × (has_word is_word "non-blocking" text ≡ true)
            × (is_in "confidence:" text ≡ true))
    unfolding run_gate2
    run_gate2_iff text =
        let implied = search_word-tail 110 111 110 98 (codes "locking") false (codes text) in
        all_tests (has_heading is_word "## Acceptance criteria" text)
          (has_heading is_word "## Changelog" text) (has_word is_word "blocking" text)
          (has_word is_word "non-blocking" text) (is_in "confidence:" text) implied
