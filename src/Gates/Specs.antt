-- ===== src/Gates/Specs.antt =====
-- gates.py: `run_gate2`, the structure of a spec. A text is searched by its code points, line by
-- line for the headings (`^` with `re.MULTILINE`), and between word boundaries (`\b`) for the tier
-- words. `is_word` is the regular expressions' `\w`. The spec is none when it cannot be read.
pub mod Tiers
use herdr_routines.Prelude.{
  ℕ, String, Bool, true, false, not, ◌&&◌, ◌||◌, Option, none, some, List, [], ◌∷◌, if◌then◌else◌,
  ◌==◌, drop, length,
}
use herdr_routines.Prelude.Texts.{codes, prefix_of, is_in}
use herdr_routines.Gates.{
  GateVerdict, pass, fail, not_readable, no_criteria, no_changelog, no_tier_word, no_confidence,
}

-- Does a line begin with the heading? `fresh` says that this is the start of a line.
unfoldable pub search_line : List ℕ → Bool → List ℕ → Bool
search_line s fresh [] = false
search_line s fresh (c ∷ t) = (fresh && prefix_of s (c ∷ t)) || search_line s (c == 10) t

abbrev pub head_is : (ℕ → Bool) → List ℕ → Bool
head_is p [] = false
head_is p (c ∷ t) = p c

module _ (is_word : ℕ → Bool) where
  -- \bword\b, for a word that begins and ends with word characters. `inside` says that a word
  -- character stands before this place.
  unfoldable pub search_word : List ℕ → Bool → List ℕ → Bool
  search_word s inside [] = false
  search_word s inside (c ∷ t) =
      (not inside && prefix_of s (c ∷ t) && not (head_is is_word (drop (length s) (c ∷ t))))
      || search_word s (is_word c) t

  abbrev pub has_word : String → String → Bool
  has_word s text = search_word (codes s) false (codes text)

  abbrev pub has_heading : String → String → Bool
  has_heading s text = search_line (codes s) true (codes text)

  unfoldable pub run_gate2 : Option String → GateVerdict
  unfolding search_line search_word is_in
  run_gate2 none = fail not_readable
  run_gate2 (some text) =
      if not (has_heading "## Acceptance criteria" text)
      then fail no_criteria
      else if not (has_heading "## Changelog" text)
      then fail no_changelog
      else if not (has_word "blocking" text)
      then fail (no_tier_word "blocking")
      else if not (has_word "non-blocking" text)
      then fail (no_tier_word "non-blocking")
      else if not (is_in "confidence:" text)
      then fail no_confidence
      else pass
