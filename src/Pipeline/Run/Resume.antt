-- ===== src/Pipeline/Run/Resume.antt =====
-- pipeline_run.py: the resume point that `run_pipeline` writes, and its terminal report.
use herdr_routines.Prelude.{
  ℕ, suc, String, ◌≡◌, true, false, Option, none, some, List, [], ◌∷◌, ◌++◌, is_some,
}
use herdr_routines.Prelude.Dict.{get}
use herdr_routines.Json.{Json, ℤ, int, pos}
use herdr_routines.Pipeline.State.{PipelineState, payload}
use herdr_routines.Pipeline.Stages.{StageSpec, stages}
use herdr_routines.Pipeline.Sessions.{validate_stage_sessions}
use herdr_routines.Pipeline.Effect.{Event, state_written, reported, returned}
use herdr_routines.Pipeline.Run.{
  passed, gate_raised, gate_for, ci_escapes, Ending, finished, uncaught, escape, StageWorld,
  is_done, stage_body, Step, go_on, stop,
}

-- What the last document written, if any, says of the resume point.
abbrev pub point : List Event → Option Json → Option Json
point [] o = o
point (state_written d ∷ es) o = point es (get "current_stage" d)
point (e ∷ es) o = point es o

abbrev pub reports : List Event → ℕ
reports [] = 0
reports (reported outcome reason ∷ es) = suc (reports es)
reports (e ∷ es) = reports es

abbrev SameAs : ℤ → List Event → List Event → Type 0
SameAs n es fs = (point es (some (int n)) ≡ point fs (some (int n))) × (reports es ≡ reports fs)

module _ (lower : String → String) (world : ℕ → StageWorld) where
  -- A stage before the resume point is skipped. Any other is passed when its body returns, its gate
  -- passes and the session layout is valid, and the resume point is written.
  pub data Passed (s : PipelineState) (spec : StageSpec) (t : PipelineState) : Type 0 where
    skipped : is_done spec.stage s.current_stage ≡ true → t ≡ s → Passed s spec t
    worked :
        (pane : Option String) (m : PipelineState)
        → (stage_body (world spec.stage) spec s).1 ≡ returned (pane, m)
        → gate_for (world spec.stage) spec.stage m ≡ passed
        → validate_stage_sessions lower (payload m) stages ≡ none
        → (world spec.stage).point_saved ≡ true
        → ci_escapes (world spec.stage) spec.stage m ≡ false
        → t ≡ record m { current_stage = pos spec.stage }
        → Passed s spec t

  -- The exceptions that no handler catches: of the gate, of the write behind it, of the CI gate.
  pub data Escaped (s : PipelineState) (spec : StageSpec) (p : Option Json) : Type 0 where
    by_gate :
        (pane : Option String) (m : PipelineState)
        → (stage_body (world spec.stage) spec s).1 ≡ returned (pane, m)
        → gate_for (world spec.stage) spec.stage m ≡ gate_raised
        → p ≡ some (int s.current_stage)
        → Escaped s spec p
    by_write :
        (pane : Option String) (m : PipelineState)
        → (stage_body (world spec.stage) spec s).1 ≡ returned (pane, m)
        → gate_for (world spec.stage) spec.stage m ≡ passed
        → (world spec.stage).point_saved ≡ false
        → p ≡ some (int s.current_stage)
        → Escaped s spec p
    by_ci :
        (pane : Option String) (m : PipelineState)
        → (stage_body (world spec.stage) spec s).1 ≡ returned (pane, m)
        → gate_for (world spec.stage) spec.stage m ≡ passed
        → ci_escapes (world spec.stage) spec.stage m ≡ true
        → p ≡ some (int (pos spec.stage))
        → Escaped s spec p

  pub data AllPassed : PipelineState → List StageSpec → PipelineState → Type 0 where
    here : {s : PipelineState} → AllPassed s [] s
    next :
        {s u t : PipelineState} {spec : StageSpec} {specs : List StageSpec}
        → Passed s spec u
        → AllPassed u specs t
        → AllPassed s (spec ∷ specs) t

  -- A step, by the resume point that it leaves written and its reports.
  abbrev StepIs : PipelineState → StageSpec → Option Json → ℕ → Step → Type 0
  StepIs s spec p n (go_on t) = Passed s spec t × (p ≡ some (int t.current_stage)) × (n ≡ 0)
  StepIs s spec p n (stop o) =
      (p ≡ some (int s.current_stage)) × (n ≡ 1) × (is_some o.reason ≡ true)
  StepIs s spec p n escape = Escaped s spec p × (n ≡ 0)

  abbrev Good : PipelineState → StageSpec → List Event × Step → Type 0
  Good s spec r = StepIs s spec (point r.0 (some (int s.current_stage))) (reports r.0) r.1

  module _ (s : PipelineState) (spec : StageSpec) where
    module _ (pane : Option String) (m : PipelineState)
        (ran : (stage_body (world spec.stage) spec s).1 ≡ returned (pane, m)) where
      abbrev w : StageWorld
      w = world spec.stage

  -- How a run ends in the state `t` with these stages left, by the resume point that is written last
  -- and the number of reports.
  abbrev pub Ends : PipelineState → List StageSpec → Option Json → ℕ → Ending → Type 0
  Ends t [] p n (finished o) =
      (o.outcome ≡ "ok") × (o.reason ≡ none) × (p ≡ some (int t.current_stage)) × (n ≡ 1)
  Ends t (spec ∷ rest) p n (finished o) =
      (is_some o.reason ≡ true) × (p ≡ some (int t.current_stage)) × (n ≡ 1)
  Ends t [] p n uncaught = ⊥
  Ends t (spec ∷ rest) p n uncaught = Escaped t spec p × (n ≡ 0)

  pub record RunFrom (specs : List StageSpec) (s : PipelineState) (run : List Event × Ending)
      : Type 0 where
    pub front : List StageSpec
    pub rest : List StageSpec
    pub last : PipelineState
    pub split : specs ≡ front ++ rest
    pub all_passed : AllPassed s front last
    pub ends : Ends last rest (point run.0 (some (int s.current_stage))) (reports run.0) run.1
