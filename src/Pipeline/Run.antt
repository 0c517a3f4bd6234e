-- ===== src/Pipeline/Run.antt =====
-- src/herdr_routines/pipeline_run.py: `run_pipeline`, the loop over the stages. `world n` is what stage
-- `n` meets: the clock, the spec, git, the agents, gh and the gate of `_gate_for_stage`. The run begins
-- where `state.json` and the remote have been read. The verdict of the CI gate after stage 5 only goes
-- into the log, and the re-signing at the end only adds to the report.
pub mod Steady
pub mod Resume
use herdr_routines.Prelude.{
  ℕ, zero, suc, ◌==◌, ltb, leb, ◌-◌, String, str_eq, str_append, Bool, true, false, not, ◌&&◌, ◌||◌,
  Option, none, some, List, [], ◌∷◌, ◌++◌, if◌then◌else◌, is_some,
}
use herdr_routines.Prelude.Dict.{get, put}
use herdr_routines.Json.{Json, ℤ, pos, negsuc}
use herdr_routines.History.Codec.{Outcome, return, raise}
use herdr_routines.Pipeline.State.{Doc, PipelineState, read_doc, payload}
use herdr_routines.Pipeline.Stages.{
  StageSpec, stages, spec_review_stage, test_author_stage, implement_stage, address_comments_stage,
  pr_stage, pr_review_stage,
}
use herdr_routines.Pipeline.Sessions.{Issue, stage_key, validate_stage_sessions}
use herdr_routines.Pipeline.Effect.{
  Event, pane_closed, state_written, swept, notified, reported, Abort, failure, Result, returned,
  aborted, crashed, Eff, pure, abort, crash, commit, known, ◌>>=◌, ◌>>◌,
}
use herdr_routines.Pipeline.Agent.{Cause, AgentWorld, run_agent_stage}
use herdr_routines.Pipeline.CiFix.{Books, bookkeeping, sweep_result}

-- What a gate comes to: a verdict, the RuntimeError of gh, the abort of a git command, or any other
-- exception, which nobody catches.
pub data GateAnswer : Type 0 where
  passed : GateAnswer
  refused : GateAnswer
  unreachable : GateAnswer
  gate_aborted : GateAnswer
  gate_raised : GateAnswer

pub record StageWorld : Type 0 where
  pub past_deadline : Bool
  pub spec_readable : Bool
  pub head : Option String
  pub books : Books
  pub open_pr : Result (Option ℤ)
  pub feedback : Result Unit
  pub agent : AgentWorld
  pub sweep : Option Bool
  pub gate : GateAnswer
  -- Does the write of the state succeed?
  pub base_saved : Bool
  pub pr_saved : Bool
  pub point_saved : Bool
  -- Is there an exception of the CI gate but RuntimeError?
  pub ci_raises : Bool

pub record RunOutcome : Type 0 where
  pub outcome : String
  pub reason : Option String
  pub stage : Option ℕ

abbrev pub is_done : ℕ → ℤ → Bool
is_done stage (pos n) = leb stage n
is_done stage (negsuc n) = false

abbrev base_of : (saved : Bool) → PipelineState → ℕ → Option String → Eff PipelineState
base_of saved state stage none = abort (failure "stage_base_unreadable")
base_of saved state stage (some head) = do
  commit saved
      (payload (record state { stage_bases = put (stage_key stage) head state.stage_bases }))
  pure (record state { stage_bases = put (stage_key stage) head state.stage_bases })

unfoldable pub record_base : (saved : Bool) → PipelineState → ℕ → Option String → Eff PipelineState
unfolding get put payload
record_base saved state stage head =
    if is_some (get (stage_key stage) state.stage_bases)
    then pure state
    else base_of saved state stage head

abbrev base_if : (saved : Bool) → PipelineState → ℕ → Option String → Eff PipelineState
base_if saved state stage head =
    if stage == test_author_stage || stage == implement_stage
    then record_base saved state stage head
    else pure state

-- _sweep_message is none for the other stages.
abbrev is_swept : ℕ → Bool
is_swept stage =
    stage == spec_review_stage || stage == test_author_stage || stage == implement_stage

abbrev reread : Outcome PipelineState → Eff PipelineState
reread (return state) = pure state
reread (raise e) = crash

-- The `except _Abort` closes the pane of the stage; the other handler does not.
abbrev closing : {A : Type 0} → String → Eff A → Eff A
closing pane (es, returned a) = (es, returned a)
closing pane (es, aborted x) = (es ++ pane_closed pane ∷ [], aborted x)
closing pane (es, crashed) = (es, crashed)

abbrev sweep_if : Bool → Option Bool → Eff Unit
sweep_if true sweep = sweep_result sweep
sweep_if false sweep = pure tt

abbrev settle_stage : ℕ → Option Bool → String → Doc → Eff (Option String × PipelineState)
settle_stage stage sweep pane doc =
    closing pane
      (do sweep_if (is_swept stage) sweep; state ← reread (read_doc doc); pure (some pane, state))

abbrev feedback_if : Bool → Result Unit → Eff Unit
feedback_if true r = known r
feedback_if false r = pure tt

abbrev agent_body : StageWorld → StageSpec → PipelineState → Eff (Option String × PipelineState)
agent_body w spec state = do
  feedback_if (spec.stage == address_comments_stage) w.feedback
  (pane, why, doc) ← run_agent_stage w.agent spec state
  settle_stage spec.stage w.sweep pane doc

abbrev pr_body : StageWorld → PipelineState → Eff (Option String × PipelineState)
pr_body w state = do
  bookkeeping state w.books
  pr ← known w.open_pr
  commit w.pr_saved (payload (record state { pr_number = pr }))
  pure (none, record state { pr_number = pr })

abbrev body_for :
    StageWorld → StageSpec → Option String → PipelineState → Eff (Option String × PipelineState)
body_for w spec none state = pr_body w state
body_for w spec (some model) state = agent_body w spec state

-- The `try` around a stage: the pane that is left open, and the state.
unfoldable pub stage_body :
    StageWorld → StageSpec → PipelineState → Eff (Option String × PipelineState)
unfolding record_base run_agent_stage bookkeeping read_doc
stage_body w spec state = do
  based ← base_if w.base_saved state spec.stage w.head
  body_for w spec spec.model based

-- A stage ends in the state for the next one, or it ends the run, or an exception leaves the loop.
pub data Step : Type 0 where
  go_on : PipelineState → Step
  stop : RunOutcome → Step
  escape : Step

pub data Ending : Type 0 where
  finished : RunOutcome → Ending
  uncaught : Ending

-- `finish` at a stage
abbrev finish : String → String → ℕ → List Event × Step
finish outcome reason stage = (
  reported outcome (some reason) ∷ [],
  stop (record { outcome = outcome; reason = some reason; stage = some stage }),
)

abbrev prepend : List Event → List Event × Step → List Event × Step
prepend es (fs, r) = (es ++ fs, r)

abbrev notify_and_finish : String → String → ℕ → List Event × Step
notify_and_finish outcome reason stage = prepend (notified ∷ []) (finish outcome reason stage)

abbrev close_of : Option String → List Event
close_of none = []
close_of (some pane) = pane_closed pane ∷ []

abbrev numbered : String → ℕ → String → String
numbered before stage after = str_append before (str_append (stage_key stage) after)

-- run_stage_gate raises ValueError for the gates 6, 7 and ci without a pull request. In stage 6 the
-- user of gh is asked for first, in the same `try`.
abbrev without_pr : ℕ → GateAnswer → GateAnswer
without_pr stage unreachable = if stage == pr_review_stage then unreachable else gate_raised
without_pr stage _ = gate_raised

abbrev pub gate_for : StageWorld → ℕ → PipelineState → GateAnswer
gate_for w stage state =
    if (stage == pr_review_stage || stage == address_comments_stage)
      && not (is_some state.pr_number)
    then without_pr stage w.gate
    else w.gate

abbrev pub ci_escapes : StageWorld → ℕ → PipelineState → Bool
ci_escapes w stage state = stage == pr_stage && (not (is_some state.pr_number) || w.ci_raises)

abbrev pub after_commit : Bool → PipelineState → Step
after_commit true state = escape
after_commit false state = go_on state

-- The post-gate commit and the CI gate stand outside every handler of OSError and ValueError.
abbrev pub pass_stage : StageWorld → ℕ → PipelineState → (saved : Bool) → List Event × Step
pass_stage w stage state false = ([], escape)
pass_stage w stage state true = (
  state_written (payload (record state { current_stage = pos stage })) ∷ [],
  after_commit (ci_escapes w stage state) (record state { current_stage = pos stage }),
)

abbrev after_audit : StageWorld → ℕ → PipelineState → Option Issue → List Event × Step
after_audit w stage state (some issue) =
    notify_and_finish "failed" (numbered "stage_sessions_invalid_" stage "") stage
after_audit w stage state none = pass_stage w stage state w.point_saved

abbrev continue : List Event × Step → (PipelineState → List Event × Ending) → List Event × Ending
continue (es, stop o) next = (es, finished o)
continue (es, escape) next = (es, uncaught)
continue (es, go_on s) next = (es ++ (next s).0, (next s).1)

module _ (lower : String → String) where
  abbrev refuse : ℕ → Option String → List Event × Step
  refuse stage pane =
      prepend (close_of pane) (notify_and_finish "failed" (numbered "gate_" stage "_failed") stage)

  abbrev after_gate :
      StageWorld → GateAnswer → ℕ → Option String → PipelineState → List Event × Step
  after_gate w passed stage pane state =
      prepend (close_of pane)
        (after_audit w stage state (validate_stage_sessions lower (payload state) stages))
  after_gate w gate_raised stage pane state = ([], escape)
  after_gate w refused stage pane state = refuse stage pane
  after_gate w unreachable stage pane state = refuse stage pane
  after_gate w gate_aborted stage pane state = refuse stage pane

  abbrev after_body : StageWorld → ℕ → Eff (Option String × PipelineState) → List Event × Step
  after_body w stage (es, aborted x) = prepend es (notify_and_finish x.outcome x.reason stage)
  after_body w stage (es, crashed) = prepend es (finish "failed" "state_unreadable" stage)
  after_body w stage (es, returned (pane, state)) =
      prepend es (after_gate w (gate_for w stage state) stage pane state)

  -- One pass of the loop.
  unfoldable pub stage_step : (ℕ → StageWorld) → StageSpec → PipelineState → List Event × Step
  unfolding stage_body validate_stage_sessions payload
  stage_step world spec state =
      if is_done spec.stage state.current_stage
      then ([], go_on state)
      else if (world spec.stage).past_deadline
      then notify_and_finish "partial" "partial_deadline" (spec.stage - 1)
      else if ltb 1 spec.stage && not (world spec.stage).spec_readable
      then finish "failed" "spec_unreadable" spec.stage
      else after_body (world spec.stage) spec.stage (stage_body (world spec.stage) spec state)

  unfoldable pub run_stages :
      (ℕ → StageWorld) → List StageSpec → PipelineState → List Event × Ending
  unfolding stage_step
  run_stages world [] state =
      (reported "ok" none ∷ [], finished (record { outcome = "ok"; reason = none; stage = none }))
  run_stages world (spec ∷ specs) state =
      continue (stage_step world spec state) (λ s. run_stages world specs s)

  unfoldable pub run_pipeline : (ℕ → StageWorld) → PipelineState → List Event × Ending
  unfolding run_stages
  run_pipeline world state = run_stages world stages state
