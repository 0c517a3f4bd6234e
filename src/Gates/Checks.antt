-- ===== src/Gates/Checks.antt =====
-- gates.py: `evaluate_ci_checks` for a pull request, and the stricter `evaluate_commit_checks`
-- for a commit that is about to be deployed. `show` is `str()` on what is no text.
pub mod Strictness
use herdr_routines.Prelude.{
  ℕ, String, str_eq, Bool, true, false, not, ◌&&◌, ◌||◌, Option, none, some, List, [], ◌∷◌, map,
  if◌then◌else◌, keep_if, elem,
}
use herdr_routines.Prelude.Dict.{Dict, get}
use herdr_routines.Prelude.Texts.{strip}
use herdr_routines.Json.{Json, str, non_null, is_text, is_none, or_truthy, truthy}
use herdr_routines.Gates.{
  GateVerdict, pass, fail, Reason, ci_failed, no_check_runs, still_pending, not_green, as_text,
}

abbrev pub Check : Type 0
Check = Dict Json

unfoldable pub is_pending_check : Check → Bool
unfolding get
is_pending_check check =
    if is_none (get "status" check)
    then is_text "PENDING" (get "state" check)
    else not (is_text "COMPLETED" (get "status" check))

abbrev pub is_member : Option String → List String → Bool
is_member none set = false
is_member (some s) set = elem s set

abbrev pub failing_ci_conclusions : List String
failing_ci_conclusions = "FAILURE" ∷ []

abbrev pub accepted_commit_conclusions : List String
accepted_commit_conclusions = "SUCCESS" ∷ "SKIPPED" ∷ "NEUTRAL" ∷ []

module _ (show : Json → String) where
  abbrev pub text_of : Option Json → Option String
  text_of none = none
  text_of (some v) = some (as_text show v)

  unfoldable pub conclusion_of : Check → Option String
  conclusion_of check =
      if is_none (get "conclusion" check)
      then text_of (non_null (get "state" check))
      else text_of (get "conclusion" check)

  abbrev name_text : Option Json → String
  name_text none = "unknown"
  name_text (some v) = as_text show v

  unfoldable pub check_name : Check → String
  check_name check = name_text (or_truthy (or_truthy (get "name" check) (get "context" check)) none)

  abbrev ci_verdict : List Check → GateVerdict
  ci_verdict [] = pass
  ci_verdict failing = fail (ci_failed (map check_name failing))

  unfoldable pub is_failing : Check → Bool
  unfolding conclusion_of
  is_failing c = is_member (conclusion_of c) failing_ci_conclusions

  unfoldable pub evaluate_ci_checks : List Check → GateVerdict
  unfolding is_failing check_name
  evaluate_ci_checks checks = ci_verdict (keep_if is_failing checks)

module _ (show : Json → String) (upper : String → String) where
  abbrev pub normalise : Option String → Option String
  normalise none = none
  normalise (some s) = some (upper (strip s))

  unfoldable pub normalise_token : Option Json → Option String
  normalise_token v = normalise (text_of show (non_null v))

  abbrev not_completed : Option String → Option String → Bool
  not_completed none state = is_member state ("PENDING" ∷ [])
  not_completed (some s) state = not (str_eq s "COMPLETED")

  unfoldable pub is_pending_check_normalised : Check → Bool
  unfolding normalise_token
  is_pending_check_normalised check =
      not_completed (normalise_token (get "status" check)) (normalise_token (get "state" check))

  unfoldable pub conclusion_of_normalised : Check → Option String
  unfolding normalise_token
  conclusion_of_normalised check =
      normalise_token (or_truthy (get "conclusion" check) (get "state" check))

  unfoldable pub is_unaccepted : Check → Bool
  unfolding conclusion_of_normalised
  is_unaccepted c = not (is_member (conclusion_of_normalised c) accepted_commit_conclusions)

  abbrev green_verdict : List Check → GateVerdict
  green_verdict [] = pass
  green_verdict unaccepted =
      fail (not_green (map (λ c. (check_name show c, conclusion_of_normalised c)) unaccepted))

  abbrev settled_verdict : List Check → List Check → GateVerdict
  settled_verdict [] unaccepted = green_verdict unaccepted
  settled_verdict pending unaccepted = fail (still_pending (map (check_name show) pending))

  unfoldable pub evaluate_commit_checks : List Check → GateVerdict
  unfolding is_pending_check_normalised is_unaccepted check_name
  evaluate_commit_checks [] = fail no_check_runs
  evaluate_commit_checks (c ∷ cs) =
      settled_verdict (keep_if is_pending_check_normalised (c ∷ cs))
        (keep_if is_unaccepted (c ∷ cs))
