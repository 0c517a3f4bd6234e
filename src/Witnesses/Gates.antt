-- ===== src/Witnesses/Gates.antt =====
-- Verdicts on small payloads.
use herdr_routines.Prelude.{
  ℕ, zero, suc, ◌==◌, not, ◌||◌, if◌then◌else◌, ◌+◌, ◌<◌, String, ◌≡◌, ◌≢◌, refl, ◌↔◌, Bool, true,
  false, Option, none, some, List, [], ◌∷◌, arith, any_of, Memᴰ,
}
use mathlib.Core.Option.{map}
use herdr_routines.Prelude.Dict.{Dict, get}
use herdr_routines.Prelude.NoneOf.{NoneOf}
use herdr_routines.Prelude.Texts.{is_in, strip}
use herdr_routines.Json.{Json, pos, str, arr, obj, cons, nil, field, end, truthy, is_text}
use herdr_routines.Gates.{GateVerdict}
use herdr_routines.Gates.Checks.{
  Check, evaluate_ci_checks, evaluate_commit_checks, is_pending_check_normalised, is_unaccepted,
}
use herdr_routines.Gates.Checks.Strictness.{evaluate_commit_checks_iff, green-passes_ci}
use herdr_routines.Gates.Threads.{ReviewThread, evaluate_gate7}
use herdr_routines.Gates.Threads.Coverage.{evaluate_gate7_iff, OpenPoint}
use herdr_routines.Gates.Polling.{run_ci_gate}
use herdr_routines.Gates.Polling.Ends.{run_ci_gate-IsResult, IsResult}
use herdr_routines.Gates.Specs.{run_gate2, has_heading, has_word}
use herdr_routines.Gates.Specs.Tiers.{run_gate2_iff}
use herdr_routines.Gates.Stages.{View, run_gate5, run_gate6, all_bodies, is_evidence}
use herdr_routines.Gates.Stages.Live.{run_gate5_iff, run_gate6_passes}

abbrev show : Json → String
show v = "value"

abbrev same : String → String
same s = s

abbrev green : Check
green = ("name", str "lint") ∷ ("status", str "COMPLETED") ∷ ("conclusion", str "SUCCESS") ∷ []

commit_checks_test : ((evaluate_commit_checks show same (green ∷ [])).passed ≡ true) ↔ (
    ((green ∷ []) ≢ [])
    × NoneOf (is_pending_check_normalised show same) (green ∷ [])
    × NoneOf (is_unaccepted show same) (green ∷ []))
commit_checks_test = evaluate_commit_checks_iff show same (green ∷ [])

shown : (v : Json) → truthy (some v) ≡ false → show v ≢ "FAILURE"
shown v h = λ e. cc e

green-passes_ci_example : (evaluate_ci_checks show (green ∷ [])).passed ≡ true
unfolding evaluate_commit_checks get strip
green-passes_ci_example = green-passes_ci show same refl shown (green ∷ []) refl

abbrev tagged : ReviewThread
tagged = record {
  is_resolved = false;
  comment_count = pos 1;
  first_comment_body = "[blocking] off by one";
  first_comment_author = some "reviewer";
  thread_id = none;
  replies = [];
}

evaluate_gate7_iff_example :
    ((evaluate_gate7 same (tagged ∷ []) none).passed ≡ true)
    ↔ ((t : ReviewThread) → Memᴰ t (tagged ∷ []) → ¬ OpenPoint same none t)
evaluate_gate7_iff_example = evaluate_gate7_iff same (tagged ∷ []) none

-- The one check is pending at the first poll.
abbrev views : ℕ → Option Json
views zero = some (arr (cons (obj (field "status" (str "QUEUED") end)) nil))
views (suc n) = some (arr (cons (obj (field "status" (str "COMPLETED") end)) nil))

abbrev clock : ℕ → ℕ
clock i = 15 + i

clock_ticks : (i : ℕ) → clock i < clock (suc i)
clock_ticks i = omega arith

run_ci_gate-IsResult_example :
    IsResult show views clock (10 + 600) 0 (run_ci_gate show views clock (suc 600) 10 600)
run_ci_gate-IsResult_example =
    run_ci_gate-IsResult show views clock clock_ticks 10 600 (omega arith)

abbrev letters : ℕ → Bool
letters c = not (c == 45 || c == 32 || c == 10)

run_gate2_iff_example : ((run_gate2 letters (some "a non-blocking note")).passed ≡ true) ↔ (
    (has_heading letters "## Acceptance criteria" "a non-blocking note" ≡ true)
    × (has_heading letters "## Changelog" "a non-blocking note" ≡ true)
    × (has_word letters "non-blocking" "a non-blocking note" ≡ true)
    × (is_in "confidence:" "a non-blocking note" ≡ true))
run_gate2_iff_example = run_gate2_iff letters refl "a non-blocking note"

abbrev open_view : View
open_view = ("state", str "OPEN") ∷ ("headRefName", str "auto/pipeline-1") ∷ []

abbrev pr_view : ℕ → Option View
pr_view n = if n == 7 then some open_view else none

run_gate5_test :
    ((run_gate5 pr_view "auto/pipeline-1" none).passed ≡ false)
    × (((run_gate5 pr_view "auto/pipeline-1" (some 7)).passed ≡ true) ↔ (
        (is_text "OPEN" (get "state" open_view) ≡ true)
        × (is_text "auto/pipeline-1" (get "headRefName" open_view) ≡ true)))
run_gate5_test = run_gate5_iff pr_view "auto/pipeline-1" 7 open_view refl

abbrev review : List (Dict Json)
review = (("body", str "**[blocking]** off by one") ∷ []) ∷ []

run_gate6_test :
    map (λ (v : GateVerdict). v.passed) (run_gate6 same letters (some open_view) (some review) none)
    ≡ some (any_of (is_evidence same letters) (all_bodies same letters open_view review none))
run_gate6_test = run_gate6_passes same letters open_view review none
