-- ===== src/Pipeline/Agent.antt =====
-- src/herdr_routines/pipeline_run.py: one agent stage. What herdr answers is a parameter: `Attempt` for
-- one started agent, `AgentWorld` for the stage.
pub mod Panes
pub mod Starts
pub mod Steady
use herdr_routines.Prelude.{
  ℕ, String, str_eq, Bool, true, false, not, ◌&&◌, ◌||◌, Option, none, some, List, [], ◌∷◌, ◌++◌,
  if◌then◌else◌,
}
use herdr_routines.Prelude.Dict.{Dict, get, put}
use herdr_routines.Json.{Json, Items, str, obj, arr, nil, cons, to_dict}
use herdr_routines.History.{truthy}
use herdr_routines.Pipeline.State.{Doc, PipelineState, payload}
use herdr_routines.Pipeline.Stages.{StageSpec}
use herdr_routines.Pipeline.Sessions.{stage_key}
use herdr_routines.Pipeline.Effect.{
  Event, pane_opened, pane_closed, agent_started, state_written, Abort, failure, Result, returned,
  aborted, crashed, Eff, pure, abort, crash, emit, commit, known, ◌>>=◌, ◌>>◌,
}

abbrev pub quota_killed_status : String
quota_killed_status = "quota_exhausted"

abbrev is_status : String → Option String → Bool
is_status s none = false
is_status s (some t) = str_eq t s

-- None is to go on; otherwise the reason.
unfoldable pub settle_outcome : Option String → Option String
settle_outcome status =
    if is_status "idle" status || is_status "done" status
    then none
    else if is_status "blocked" status
    then some "stage_blocked"
    else if is_status quota_killed_status status
    then some "quota_exhausted"
    else some "interrupted_unknown"

pub data Prompted : Type 0 where
  settled : Option String → Prompted
  marker_killed : Prompted
  prompt_error : Prompted

-- The pane is none when it cannot be created.
pub record Attempt : Type 0 where
  pub pane : Option String
  pub starts : Bool
  pub reply : Prompted

abbrev after_prompt : String → Prompted → Eff (String × Option String)
after_prompt pane (settled s) = pure (pane, s)
after_prompt pane marker_killed = pure (pane, some quota_killed_status)
after_prompt pane prompt_error = do emit (pane_closed pane); abort (failure "stage_prompt_failed")

abbrev after_start : Attempt → String → String → Option String → Eff (String × Option String)
after_start a pane model session =
    if a.starts
    then (do emit (agent_started model session); after_prompt pane a.reply)
    else (do emit (pane_closed pane); abort (failure "agent_start_failed"))

abbrev in_pane : Attempt → Option String → String → Option String → Eff (String × Option String)
in_pane a none model session = abort (failure "pane_creation_failed")
in_pane a (some pane) model session = do emit (pane_opened pane); after_start a pane model session

unfoldable pub start_and_prompt : Attempt → String → Option String → Eff (String × Option String)
start_and_prompt a model session = in_pane a a.pane model session

-- Why a stage's model failed: a quota kill, or the provider's status code and message.
pub data Cause : Type 0 where
  quota : Cause
  api_error : Option Json → Option Json → Cause

abbrev last_item : Items → Option Json
last_item nil = none
last_item (cons x nil) = some x
last_item (cons x (cons y ys)) = last_item (cons y ys)

abbrev field_of : String → Option Json → Option Json
field_of k (some (obj fs)) = get k (to_dict fs)
field_of k _ = none

abbrev last_message : Option Json → Option Json
last_message (some (arr xs)) = last_item xs
last_message _ = none

abbrev error_of : Option Json → Option Cause
error_of (some (obj fs)) =
    if is_api (get "name" (to_dict fs))
    then some (
        api_error (field_of "statusCode" (get "data" (to_dict fs)))
          (field_of "message" (get "data" (to_dict fs))))
    else none
  where
    is_api : Option Json → Bool
    is_api (some (str s)) = str_eq s "APIError"
    is_api _ = false
error_of _ = none

-- _session_api_error, behind json.loads
unfoldable pub session_api_error : Option Json → Option Cause
unfolding get
session_api_error doc =
    error_of (field_of "error" (field_of "info" (last_message (field_of "messages" doc))))

-- The cause of `_fallback_cause`: none without a session id.
unfoldable pub fallback_cause : Option String → Option String → Option Json → Option Cause
unfolding session_api_error
fallback_cause session status exported =
    if not (truthy session)
    then none
    else if is_status quota_killed_status status
    then some quota
    else session_api_error exported

pub record AgentWorld : Type 0 where
  pub prompt : Result Unit
  pub first : Attempt
  pub session : Option String
  pub exported : Option Json
  pub second : Attempt
  pub session_after : Option String
  pub session_saved : Bool

abbrev retried :
    AgentWorld
    → Option String
    → Option Cause
    → String × Option String
    → Eff (String × Option String × Option Cause)
retried w (some model) (some cause) (pane, status) = do
  emit (pane_closed pane)
  (pane', status') ← start_and_prompt w.second model none
  pure (pane', status', some cause)
retried w _ _ (pane, status) = pure (pane, status, none)

abbrev cause_for : AgentWorld → Option String → Option String → Option Cause
cause_for w fallback status =
    if truthy fallback then fallback_cause w.session status w.exported else none

abbrev prompt_on :
    AgentWorld
    → Option String
    → Option String
    → Option String
    → Eff (String × Option String × Option Cause)
prompt_on w none fallback session = crash
prompt_on w (some model) fallback session = do
  (pane, status) ← start_and_prompt w.first model session
  retried w fallback (cause_for w fallback status) (pane, status)

unfoldable pub prompt_with_fallback :
    AgentWorld → StageSpec → Option String → Eff (String × Option String × Option Cause)
unfolding start_and_prompt fallback_cause
prompt_with_fallback w spec session = prompt_on w spec.model spec.fallback_model session

abbrev record_session : AgentWorld → StageSpec → PipelineState → String → Option String → Eff Doc
record_session w spec state pane none = do
  emit (pane_closed pane)
  abort (failure "session_id_unreadable")
record_session w spec state pane (some id) =
    if str_eq id ""
    then (do emit (pane_closed pane); abort (failure "session_id_unreadable"))
    else (do
      commit w.session_saved (
          payload
            (record state { stage_sessions = put (stage_key spec.stage) id state.stage_sessions }))
      pure (
          payload
            (record state { stage_sessions = put (stage_key spec.stage) id state.stage_sessions })))

abbrev after_settle :
    AgentWorld
    → StageSpec
    → PipelineState
    → String
    → Option Cause
    → Option String
    → Eff (String × Option Cause × Doc)
after_settle w spec state pane why (some reason) = do
  emit (pane_closed pane)
  abort (failure reason)
after_settle w spec state pane why none = do
  doc ← record_session w spec state pane w.session_after
  pure (pane, why, doc)

abbrev prompt_stage :
    AgentWorld → StageSpec → PipelineState → Option String → Eff (String × Option Cause × Doc)
prompt_stage w spec state resume = do
  _ ← known w.prompt
  (pane, status, why) ← prompt_with_fallback w spec resume
  after_settle w spec state pane why (settle_outcome status)

abbrev resume_or_abort :
    AgentWorld → StageSpec → PipelineState → Option ℕ → Eff (String × Option Cause × Doc)
resume_or_abort w spec state none = prompt_stage w spec state none
resume_or_abort w spec state (some n) =
    if truthy (get (stage_key n) state.stage_sessions)
    then prompt_stage w spec state (get (stage_key n) state.stage_sessions)
    else abort (failure "resume_session_missing")

abbrev on_model :
    AgentWorld → StageSpec → PipelineState → Option String → Eff (String × Option Cause × Doc)
on_model w spec state none = crash
on_model w spec state (some model) = resume_or_abort w spec state spec.reuses_stage

-- _run_agent_stage: the pane that is left open, why the fallback ran, and the document written.
unfoldable pub run_agent_stage :
    AgentWorld → StageSpec → PipelineState → Eff (String × Option Cause × Doc)
unfolding prompt_with_fallback settle_outcome get put payload
run_agent_stage w spec state = on_model w spec state spec.model
