-- ===== src/Pipeline/Agent/Starts.antt =====
-- pipeline_run.py: how often a prompt starts an agent.
use herdr_routines.Prelude.{
  ℕ, ◌+◌, ◌≤◌, ◌≡◌, String, Option, none, some, List, [], ◌∷◌, ◌++◌, if_both, arith,
}
use herdr_routines.Pipeline.Stages.{StageSpec}
use herdr_routines.Pipeline.Effect.{
  Event, agent_started, pane_opened, pane_closed, returned, aborted, crashed, Eff, pure, emit,
  ◌>>=◌,
}
use herdr_routines.Pipeline.Agent.{
  Attempt, Prompted, settled, marker_killed, prompt_error, Cause, AgentWorld, start_and_prompt,
  in_pane, after_start, after_prompt, retried, prompt_on, prompt_with_fallback, cause_for,
}

abbrev is_start : Event → ℕ
is_start (agent_started model session) = 1
is_start _ = 0

abbrev pub starts : List Event → ℕ
starts [] = 0
starts (e ∷ es) = is_start e + starts es

starts-append : (es fs : List Event) → starts (es ++ fs) ≡ starts es + starts fs
starts-append [] fs = omega arith
starts-append (e ∷ es) fs = let h = starts-append es fs in omega arith

abbrev pub AtMost : {A : Type 0} → ℕ → Eff A → Type 0
AtMost n m = starts m.0 ≤ n

pub bind-AtMost :
    {A B : Type 0} (a b : ℕ) (m : Eff A) (k : A → Eff B)
    → AtMost a m
    → ((x : A) → AtMost b (k x))
    → AtMost (a + b) (m >>= k)
bind-AtMost a b (es, returned x) k h next =
    let e = starts-append es (k x).0 in let g = next x in omega arith
bind-AtMost a b (es, aborted x) k h next = omega arith
bind-AtMost a b (es, crashed) k h next = omega arith

prompt-AtMost : (p : String) (r : Prompted) → AtMost 0 (after_prompt p r)
prompt-AtMost p (settled s) = omega arith
prompt-AtMost p marker_killed = omega arith
prompt-AtMost p prompt_error = omega arith

attempt-AtMost :
    (a : Attempt) (model : String) (session : Option String)
    → AtMost 1 (start_and_prompt a model session)
unfolding start_and_prompt
attempt-AtMost a model session = in_it a.pane
  where
    started : (p : String) → AtMost 1 (after_start a p model session)
    started p =
        if_both (AtMost 1) a.starts
          (λ _.
            bind-AtMost 1 0 (emit (agent_started model session)) (λ _. after_prompt p a.reply)
              (omega arith) (λ _. prompt-AtMost p a.reply))
          (λ _. omega arith)

    in_it : (o : Option String) → AtMost 1 (in_pane a o model session)
    in_it none = omega arith
    in_it (some p) =
        bind-AtMost 0 1 (emit (pane_opened p)) (λ _. after_start a p model session) (omega arith)
          (λ _. started p)

abbrev with_cause : Cause → String × Option String → Eff (String × Option String × Option Cause)
with_cause cause r = pure (r.0, r.1, some cause)

retry-AtMost :
    (w : AgentWorld) (fallback : Option String) (cause : Option Cause) (r : String × Option String)
    → AtMost 1 (retried w fallback cause r)
retry-AtMost w none cause r = omega arith
retry-AtMost w (some model) none r = omega arith
retry-AtMost w (some model) (some cause) (p, status) =
    let second = start_and_prompt w.second model none in
    bind-AtMost 0 1 (emit (pane_closed p)) (λ _. second >>= with_cause cause) (omega arith)
      (λ _.
        bind-AtMost 1 0 second (with_cause cause) (attempt-AtMost w.second model none)
          (λ a. omega arith))

pub prompt_with_fallback-AtMost :
    (w : AgentWorld) (spec : StageSpec) (session : Option String)
    → AtMost 2 (prompt_with_fallback w spec session)
unfolding prompt_with_fallback
prompt_with_fallback-AtMost w spec session = on spec.model
  where
    on : (o : Option String) → AtMost 2 (prompt_on w o spec.fallback_model session)
    on none = omega arith
    on (some model) =
        bind-AtMost 1 1 (start_and_prompt w.first model session) _
          (attempt-AtMost w.first model session)
          (λ r. retry-AtMost w spec.fallback_model (cause_for w spec.fallback_model r.1) r)
