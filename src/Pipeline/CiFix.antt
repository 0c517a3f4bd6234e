-- ===== src/Pipeline/CiFix.antt =====
-- src/herdr_routines/pipeline_run.py: `_ci_fix_loop` and the bookkeeping around it. The exit code of a
-- check, the clock and the agents are the rounds' parameters. A sweep is none when git fails, and
-- says whether it committed something.
pub mod Rounds
pub mod Steady
use herdr_routines.Prelude.{
  ℕ, zero, suc, ◌==◌, String, Bool, true, false, not, Option, none, some, List, [], ◌∷◌, ◌++◌,
  if◌then◌else◌,
}
use herdr_routines.Prelude.Dict.{get}
use herdr_routines.Json.{ℤ, pos, negsuc}
use herdr_routines.History.{truthy}
use herdr_routines.Pipeline.State.{PipelineState}
use herdr_routines.Pipeline.Stages.{StageSpec, implement_stage, stages}
use herdr_routines.Pipeline.Sessions.{stage_key}
use herdr_routines.Pipeline.Effect.{
  Event, pane_closed, swept, Abort, failure, Result, returned, aborted, crashed, Eff, pure, abort,
  crash, emit, known, ◌>>=◌, ◌>>◌,
}
use herdr_routines.Pipeline.Agent.{Cause, AgentWorld, prompt_with_fallback, settle_outcome}

pub record CiRound : Type 0 where
  pub exit_code : ℤ
  pub past_deadline : Bool
  pub agent : AgentWorld
  pub sweep : Option Bool

abbrev pub exits_with : ℕ → ℤ → Bool
exits_with n (pos m) = m == n
exits_with n (negsuc m) = false

abbrev pub max_ci_fix_rounds : ℕ
max_ci_fix_rounds = 2

-- _sweep
abbrev pub sweep_result : Option Bool → Eff Unit
sweep_result none = abort (failure "sweep_failed")
sweep_result (some false) = pure tt
sweep_result (some true) = emit swept

abbrev pub settle_or_abort : Option String → Eff Unit
settle_or_abort none = pure tt
settle_or_abort (some reason) = abort (failure reason)

abbrev partial_deadline : Abort
partial_deadline = record { reason = "partial_deadline"; outcome = "partial" }

module _ (implementer : StageSpec) (session_id : Option String) (rounds : ℕ → CiRound) where
  abbrev fix_round : CiRound → Eff Unit
  fix_round r = do
    (pane, status, why) ← prompt_with_fallback r.agent implementer session_id
    emit (pane_closed pane)
    settle_or_abort (settle_outcome status)
    sweep_result r.sweep

  -- The loop from round `i` on, with `left` fix rounds to go.
  unfoldable pub ci_fix_rounds : ℕ → ℕ → Eff Unit
  unfolding prompt_with_fallback settle_outcome
  ci_fix_rounds zero i =
      if exits_with 0 (rounds i).exit_code
      then pure tt
      else if exits_with 127 (rounds i).exit_code
      then abort (failure "ci_check_missing")
      else abort (failure "ci_check_failed")
  ci_fix_rounds (suc left) i =
      let rest = ci_fix_rounds left (suc i) in
      if exits_with 0 (rounds i).exit_code
      then pure tt
      else if exits_with 127 (rounds i).exit_code
      then abort (failure "ci_check_missing")
      else if (rounds i).past_deadline
      then abort partial_deadline
      else if not (truthy session_id)
      then abort (failure "resume_session_missing")
      else fix_round (rounds i) >> rest

-- next(s for s in STAGES if s.stage == IMPLEMENT_STAGE)
abbrev pub find_stage : ℕ → List StageSpec → Option StageSpec
find_stage n [] = none
find_stage n (s ∷ specs) = let rest = find_stage n specs in if s.stage == n then some s else rest

abbrev fix_as : Option StageSpec → PipelineState → (ℕ → CiRound) → Eff Unit
fix_as none state rounds = crash
fix_as (some implementer) state rounds =
    ci_fix_rounds implementer (get (stage_key implement_stage) state.stage_sessions) rounds
      max_ci_fix_rounds 0

unfoldable pub ci_fix_loop : PipelineState → (ℕ → CiRound) → Eff Unit
unfolding ci_fix_rounds get
ci_fix_loop state rounds = fix_as (find_stage implement_stage stages) state rounds

-- What the rest of `_bookkeeping` comes to: `_preflight_spec`, the comparison of the named tests,
-- `_flip_issue` and `_issue_committed_done`.
pub record Books : Type 0 where
  pub preflight : Result Unit
  pub rounds : ℕ → CiRound
  pub sweep : Option Bool
  pub named_tests : Result Unit
  pub flip : Result Unit
  pub issue_done : Result Unit

unfoldable pub bookkeeping : PipelineState → Books → Eff Unit
unfolding ci_fix_loop
bookkeeping state b = do
  known b.preflight
  ci_fix_loop state b.rounds
  sweep_result b.sweep
  known b.named_tests
  known b.flip
  known b.issue_done
