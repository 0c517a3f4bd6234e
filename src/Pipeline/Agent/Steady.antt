-- ===== src/Pipeline/Agent/Steady.antt =====
-- pipeline_run.py: the resume point and the reports in the effects of an agent stage.
use herdr_routines.Prelude.{
  ℕ, String, str_eq, ◌≡◌, Bool, true, false, Option, none, some, if◌then◌else◌,
}
use herdr_routines.Prelude.Dict.{get, put}
use herdr_routines.Json.{ℤ, int}
use herdr_routines.History.{truthy}
use herdr_routines.Pipeline.State.{Doc, PipelineState, payload}
use herdr_routines.Pipeline.State.Reread.{field_written}
use herdr_routines.Pipeline.Stages.{StageSpec}
use herdr_routines.Pipeline.Sessions.{stage_key}
use herdr_routines.Pipeline.Effect.{
  pane_opened, pane_closed, agent_started, failure, pure, abort, emit, commit, known, ◌>>=◌, ◌>>◌,
}
use herdr_routines.Pipeline.Effect.Steady.{Steady, Any, bind-Steady, known-Steady}
use herdr_routines.Pipeline.Agent.{
  Attempt, Prompted, settled, marker_killed, prompt_error, Cause, AgentWorld, start_and_prompt,
  in_pane, after_start, after_prompt, retried, prompt_on, prompt_with_fallback, record_session,
  after_settle, prompt_stage, resume_or_abort, on_model, cause_for, settle_outcome, run_agent_stage,
}

pub stage_written :
    (s : PipelineState) → get "current_stage" (payload s) ≡ some (int s.current_stage)
stage_written s = field_written "current_stage" s

module _ (n : ℤ) where
  prompt-Steady : (p : String) (r : Prompted) → Steady n Any (after_prompt p r)
  prompt-Steady p (settled s) = (tt, tt)
  prompt-Steady p marker_killed = (tt, tt)
  prompt-Steady p prompt_error = ((tt, tt), tt)

  start-Steady :
      (b : Bool) (p : String) (r : Prompted) (model : String) (session : Option String)
      → Steady n Any (
          if b
          then (do emit (agent_started model session); after_prompt p r)
          else (do emit (pane_closed p); abort (failure "agent_start_failed")))
  start-Steady true p r model session =
      bind-Steady n Any Any (emit (agent_started model session)) (λ _. after_prompt p r)
        ((tt, tt), tt) (λ _ _. prompt-Steady p r)
  start-Steady false p r model session = ((tt, tt), tt)

  attempt-Steady :
      (a : Attempt) (o : Option String) (model : String) (session : Option String)
      → Steady n Any (in_pane a o model session)
  attempt-Steady a none model session = (tt, tt)
  attempt-Steady a (some p) model session =
      bind-Steady n Any Any (emit (pane_opened p)) (λ _. after_start a p model session)
        ((tt, tt), tt) (λ _ _. start-Steady a.starts p a.reply model session)

  retry-Steady :
      (w : AgentWorld) (fallback : Option String) (cause : Option Cause)
      (r : String × Option String)
      → Steady n Any (retried w fallback cause r)
  unfolding start_and_prompt
  retry-Steady w none cause (p, status) = (tt, tt)
  retry-Steady w (some model) none (p, status) = (tt, tt)
  retry-Steady w (some model) (some cause) (p, status) =
      let second = start_and_prompt w.second model none in
      let finish = λ (r : String × Option String). pure (r.0, r.1, some cause) in
      bind-Steady n Any Any (emit (pane_closed p)) (λ _. second >>= finish) ((tt, tt), tt)
        (λ _ _.
          bind-Steady n Any Any second finish (attempt-Steady w.second w.second.pane model none)
            (λ a _. (tt, tt)))

  prompt_on-Steady :
      (w : AgentWorld) (model fallback session : Option String)
      → Steady n Any (prompt_on w model fallback session)
  unfolding start_and_prompt
  prompt_on-Steady w none fallback session = (tt, tt)
  prompt_on-Steady w (some model) fallback session =
      bind-Steady n Any Any (start_and_prompt w.first model session)
        (λ r. retried w fallback (cause_for w fallback r.1) r)
        (attempt-Steady w.first w.first.pane model session)
        (λ r _. retry-Steady w fallback (cause_for w fallback r.1) r)

  pub prompt_with_fallback-Steady :
      (w : AgentWorld) (spec : StageSpec) (session : Option String)
      → Steady n Any (prompt_with_fallback w spec session)
  unfolding prompt_with_fallback
  prompt_with_fallback-Steady w spec session =
      prompt_on-Steady w spec.model spec.fallback_model session

abbrev pub AtPoint : ℤ → Doc → Type 0
AtPoint n d = get "current_stage" d ≡ some (int n)

abbrev pub KeepsPoint : ℤ → String × Option Cause × Doc → Type 0
KeepsPoint n r = AtPoint n r.2

module _ (w : AgentWorld) (spec : StageSpec) (state : PipelineState) where
  abbrev n : ℤ
  n = state.current_stage

  session-Steady :
      (p : String) (id : Option String) → Steady n (AtPoint n) (record_session w spec state p id)
  session-Steady p none = ((tt, tt), tt)
  session-Steady p (some id) = go (str_eq id "") w.session_saved
    where
      go :
          (b saved : Bool)
          → Steady n (AtPoint n) (
              if b then (do emit (pane_closed p); abort (failure "session_id_unreadable")) else (do
                commit saved (
                    payload (record state {
                      stage_sessions = put (stage_key spec.stage) id state.stage_sessions;
                    }))
                pure (
                    payload (record state {
                      stage_sessions = put (stage_key spec.stage) id state.stage_sessions;
                    }))))
      go true saved = ((tt, tt), tt)
      go false false = (tt, tt)
      go false true =
          let e = stage_written (record state {
            stage_sessions = put (stage_key spec.stage) id state.stage_sessions;
          }) in
          ((e, tt), e)

  settle-Steady :
      (p : String) (why : Option Cause) (reason : Option String)
      → Steady n (KeepsPoint n) (after_settle w spec state p why reason)
  settle-Steady p why (some reason) = ((tt, tt), tt)
  settle-Steady p why none =
      bind-Steady n (AtPoint n) (KeepsPoint n) (record_session w spec state p w.session_after)
        (λ d. pure (p, why, d)) (session-Steady p w.session_after) (λ d h. (tt, h))

  stage-Steady :
      (resume : Option String) → Steady n (KeepsPoint n) (prompt_stage w spec state resume)
  stage-Steady resume =
      bind-Steady n Any (KeepsPoint n) (known w.prompt) _ (known-Steady n w.prompt) (λ _ _.
        bind-Steady n Any (KeepsPoint n) (prompt_with_fallback w spec resume)
          (λ r. after_settle w spec state r.0 r.2 (settle_outcome r.1))
          (prompt_with_fallback-Steady n w spec resume)
          (λ r _. settle-Steady r.0 r.2 (settle_outcome r.1)))

  resume-Steady : (o : Option ℕ) → Steady n (KeepsPoint n) (resume_or_abort w spec state o)
  resume-Steady none = stage-Steady none
  resume-Steady (some k) = go (truthy (get (stage_key k) state.stage_sessions))
    where
      go :
          (b : Bool)
          → Steady n (KeepsPoint n) (
              if b
              then prompt_stage w spec state (get (stage_key k) state.stage_sessions)
              else abort (failure "resume_session_missing"))
      go true = stage-Steady (get (stage_key k) state.stage_sessions)
      go false = (tt, tt)

  model-Steady : (o : Option String) → Steady n (KeepsPoint n) (on_model w spec state o)
  model-Steady none = (tt, tt)
  model-Steady (some model) = resume-Steady spec.reuses_stage

  pub run_agent_stage-Steady :
      Steady state.current_stage (KeepsPoint state.current_stage) (run_agent_stage w spec state)
  unfolding run_agent_stage
  run_agent_stage-Steady = model-Steady spec.model
