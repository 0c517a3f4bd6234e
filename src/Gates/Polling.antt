-- ===== src/Gates/Polling.antt =====
-- gates.py: `run_ci_gate`, the loop that polls the checks of a pull request until none of them is
-- pending or the deadline has come. `views i` is the `statusCheckRollup` of the view that poll `i`
-- fetches, and `clock i` what the clock reads after it. Seconds are natural numbers. The loop runs
-- on fuel, one unit for a poll.
pub mod Ends
use herdr_routines.Prelude.{
  ℕ, zero, suc, ◌+◌, ◌*◌, ◌≡◌, String, Bool, true, false, not, Option, none, some, List, [], ◌∷◌,
  if◌then◌else◌, all_of, leb,
}
use herdr_routines.Json.{
  Json, Items, Fields, arr, obj, nil, cons, to_dict, str, null, bool, int, float,
}
use herdr_routines.Gates.{GateVerdict, fail, ci_timeout}
use herdr_routines.Gates.Checks.{Check, is_pending_check, evaluate_ci_checks}

abbrev checks_in : Items → List Check
checks_in nil = []
checks_in (cons (obj fs) xs) = to_dict fs ∷ checks_in xs
checks_in (cons _ xs) = checks_in xs

abbrev pub checks_of : Option Json → List Check
checks_of (some (arr xs)) = checks_in xs
checks_of _ = []

abbrev pub is_settled : List Check → Bool
is_settled checks = all_of (λ c. not (is_pending_check c)) checks

module _ (show : Json → String) (views : ℕ → Option Json) (clock : ℕ → ℕ) where
  abbrev pub checks_at : ℕ → List Check
  checks_at i = checks_of (views i)

  unfoldable pub poll : ℕ → ℕ → ℕ → Option GateVerdict
  poll deadline zero i = none
  poll deadline (suc fuel) i =
      let rest = poll deadline fuel (suc i) in
      if is_settled (checks_at i)
      then some (evaluate_ci_checks show (checks_at i))
      else if leb deadline (clock i)
      then some (fail ci_timeout)
      else rest

  unfoldable pub run_ci_gate : (fuel start timeout : ℕ) → Option GateVerdict
  unfolding poll
  run_ci_gate fuel start timeout = poll (start + timeout) fuel 0
