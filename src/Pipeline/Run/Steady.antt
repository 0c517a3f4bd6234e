-- ===== src/Pipeline/Run/Steady.antt =====
-- pipeline_run.py: the resume point and the reports in the effects of the body of a stage.
use herdr_routines.Prelude.{
  ◌==◌, String, ◌≡◌, refl, ap, ◌∙◌, Bool, true, false, ◌||◌, Option, none, some, [], ◌∷◌, if_both,
  is_some, subst, subst,
}
use herdr_routines.Prelude.Dict.{get, put}
use herdr_routines.Json.{ℤ, int}
use herdr_routines.Pipeline.State.{
  Doc, PipelineState, read_doc, payload, complete, opt_int, opt_str, or_zero, plain_text, fields_in,
}
use herdr_routines.Pipeline.Stages.{
  StageSpec, implement_stage, test_author_stage, address_comments_stage,
}
use herdr_routines.Pipeline.Sessions.{stage_key}
use herdr_routines.Pipeline.Effect.{
  pane_closed, returned, aborted, crashed, Eff, pure, commit, known, ◌>>◌,
}
use herdr_routines.Pipeline.Effect.Steady.{Steady, Any, AllQuiet-append, bind-Steady, known-Steady}
use herdr_routines.Pipeline.Agent.{run_agent_stage}
use herdr_routines.Pipeline.Agent.Steady.{
  AtPoint, KeepsPoint, stage_written, run_agent_stage-Steady,
}
use herdr_routines.Pipeline.CiFix.{bookkeeping}
use herdr_routines.Pipeline.CiFix.Steady.{sweep-Steady, bookkeeping-Steady}
use herdr_routines.Pipeline.Run.{
  StageWorld, base_of, record_base, base_if, is_swept, reread, closing, sweep_if, settle_stage,
  feedback_if, agent_body, pr_body, body_for, stage_body,
}

-- The state is at the resume point `n`.
abbrev At : ℤ → PipelineState → Type 0
At n s = s.current_stage ≡ n

abbrev pub AtEnd : ℤ → Option String × PipelineState → Type 0
AtEnd n r = At n r.1

written-At : (n : ℤ) (s : PipelineState) → At n s → AtPoint n (payload s)
written-At n s h = stage_written s ∙ ap (λ (m : ℤ). some (int m)) h

complete-current_stage :
    (n : ℤ) (d : Doc) (a b c : Option String)
    → AtPoint n d
    → Steady n (At n) (reread (complete d a b c))
complete-current_stage n d (some a) (some b) (some c) h =
    (tt, ap (λ (o : Option _). or_zero (opt_int o)) h)
complete-current_stage n d none b c h = (tt, tt)
complete-current_stage n d (some a) none c h = (tt, tt)
complete-current_stage n d (some a) (some b) none h = (tt, tt)

reread-Steady : (n : ℤ) (d : Doc) → AtPoint n d → Steady n (At n) (reread (read_doc d))
unfolding read_doc
reread-Steady n d h =
    complete-current_stage n d (plain_text (get "spec" (fields_in (get "artifact_paths" d))))
      (opt_str (get "shared_worktree" d)) (opt_str (get "branch" d)) h

closing-Steady :
    {A : Type 0} (n : ℤ) (P : A → Type 0) (p : String) (m : Eff A)
    → Steady n P m
    → Steady n P (closing p m)
closing-Steady n P p (es, returned a) h = h
closing-Steady n P p (es, aborted x) h =
    (AllQuiet-append n es (pane_closed p ∷ []) h.0 (tt, tt), tt)
closing-Steady n P p (es, crashed) h = h

module _ (w : StageWorld) (spec : StageSpec) where
  swept-Steady : (n : ℤ) (b : Bool) → Steady n Any (sweep_if b w.sweep)
  swept-Steady n true = sweep-Steady n w.sweep
  swept-Steady n false = (tt, tt)

  settle_stage-Steady :
      (n : ℤ) (p : String) (d : Doc)
      → AtPoint n d
      → Steady n (AtEnd n) (settle_stage spec.stage w.sweep p d)
  settle_stage-Steady n p d h = closing-Steady n (AtEnd n) p _ (
      bind-Steady n Any (AtEnd n) (sweep_if (is_swept spec.stage) w.sweep) _
        (swept-Steady n (is_swept spec.stage))
        (λ _ _.
          bind-Steady n (At n) (AtEnd n) (reread (read_doc d)) (λ s. pure (some p, s))
            (reread-Steady n d h) (λ s e. (tt, e))))

  feedback-Steady : (n : ℤ) (b : Bool) → Steady n Any (feedback_if b w.feedback)
  feedback-Steady n true = known-Steady n w.feedback
  feedback-Steady n false = (tt, tt)

  agent-Steady : (n : ℤ) (s : PipelineState) → At n s → Steady n (AtEnd n) (agent_body w spec s)
  agent-Steady n s h =
      bind-Steady n Any (AtEnd n) (feedback_if (spec.stage == address_comments_stage) w.feedback) _
        (feedback-Steady n (spec.stage == address_comments_stage))
        (λ _ _.
          bind-Steady n (KeepsPoint n) (AtEnd n) (run_agent_stage w.agent spec s)
            (λ r. settle_stage spec.stage w.sweep r.0 r.2)
            (subst (λ (m : ℤ). Steady m (KeepsPoint m) (run_agent_stage w.agent spec s)) h
              (run_agent_stage-Steady w.agent spec s))
            (λ r e. settle_stage-Steady n r.0 r.2 e))

  pr-Steady : (n : ℤ) (s : PipelineState) → At n s → Steady n (AtEnd n) (pr_body w s)
  pr-Steady n s h =
      bind-Steady n Any (AtEnd n) (bookkeeping s w.books) _ (bookkeeping-Steady n s w.books) (λ _ _.
        bind-Steady n Any (AtEnd n) (known w.open_pr) _ (known-Steady n w.open_pr)
          (λ pr _. saved-Steady pr w.pr_saved))
    where
      saved-Steady :
          (pr : Option ℤ) (saved : Bool)
          → Steady n (AtEnd n) (do
            commit saved (payload (record s { pr_number = pr }))
            pure (none, record s { pr_number = pr }))
      saved-Steady pr true = ((written-At n (record s { pr_number = pr }) h, tt), h)
      saved-Steady pr false = (tt, tt)

  body-Steady :
      (n : ℤ) (o : Option String) (s : PipelineState)
      → At n s
      → Steady n (AtEnd n) (body_for w spec o s)
  body-Steady n none s h = pr-Steady n s h
  body-Steady n (some model) s h = agent-Steady n s h

  base-Steady :
      (n : ℤ) (saved : Bool) (s : PipelineState) (head : Option String)
      → At n s
      → Steady n (At n) (base_of saved s spec.stage head)
  base-Steady n saved s none h = (tt, tt)
  base-Steady n false s (some head) h = (tt, tt)
  base-Steady n true s (some head) h = (
    (written-At n (record s { stage_bases = put (stage_key spec.stage) head s.stage_bases }) h, tt),
    h,
  )

  based-Steady :
      (n : ℤ) (s : PipelineState)
      → At n s
      → Steady n (At n) (base_if w.base_saved s spec.stage w.head)
  unfolding record_base
  based-Steady n s h =
      if_both (Steady n (At n)) (spec.stage == test_author_stage || spec.stage == implement_stage)
        (λ _.
          if_both (Steady n (At n)) (is_some (get (stage_key spec.stage) s.stage_bases))
            (λ _. (tt, h)) (λ _. base-Steady n w.base_saved s w.head h))
        (λ _. (tt, h))

  pub stage_body-Steady :
      (s : PipelineState) → Steady s.current_stage (AtEnd s.current_stage) (stage_body w spec s)
  unfolding stage_body
  stage_body-Steady s =
      let n = s.current_stage in
      bind-Steady n (At n) (AtEnd n) (base_if w.base_saved s spec.stage w.head)
        (λ t. body_for w spec spec.model t) (based-Steady n s refl)
        (λ t h. body-Steady n spec.model t h)
