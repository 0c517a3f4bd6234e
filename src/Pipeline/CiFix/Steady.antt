-- ===== src/Pipeline/CiFix/Steady.antt =====
-- pipeline_run.py: the resume point and the reports in the effects of the CI fix loop.
use herdr_routines.Prelude.{
  ℕ, zero, suc, String, Bool, true, false, not, Option, none, some, if_both,
}
use herdr_routines.Prelude.Dict.{get}
use herdr_routines.Json.{ℤ}
use herdr_routines.History.{truthy}
use herdr_routines.Pipeline.State.{PipelineState}
use herdr_routines.Pipeline.Stages.{StageSpec, implement_stage, stages}
use herdr_routines.Pipeline.Sessions.{stage_key}
use herdr_routines.Pipeline.Effect.{pane_closed, Eff, emit, known, ◌>>◌}
use herdr_routines.Pipeline.Effect.Steady.{Steady, Any, bind-Steady, known-Steady}
use herdr_routines.Pipeline.Agent.{prompt_with_fallback, settle_outcome}
use herdr_routines.Pipeline.Agent.Steady.{prompt_with_fallback-Steady}
use herdr_routines.Pipeline.CiFix.{
  CiRound, exits_with, max_ci_fix_rounds, sweep_result, settle_or_abort, fix_round, ci_fix_rounds,
  find_stage, fix_as, ci_fix_loop, Books, bookkeeping,
}

module _ (n : ℤ) where
  pub sweep-Steady : (o : Option Bool) → Steady n Any (sweep_result o)
  sweep-Steady none = (tt, tt)
  sweep-Steady (some false) = (tt, tt)
  sweep-Steady (some true) = ((tt, tt), tt)

  settle-Steady : (o : Option String) → Steady n Any (settle_or_abort o)
  settle-Steady none = (tt, tt)
  settle-Steady (some reason) = (tt, tt)

  pub then-Steady :
      {A B : Type 0} (m : Eff A) (k : Eff B)
      → Steady n Any m
      → Steady n Any k
      → Steady n Any (m >> k)
  then-Steady m k h next = bind-Steady n Any Any m (λ _. k) h (λ _ _. next)

  round-Steady :
      (s : StageSpec) (id : Option String) (r : CiRound) → Steady n Any (fix_round s id (λ _. r) r)
  round-Steady s id r =
      bind-Steady n Any Any (prompt_with_fallback r.agent s id) _
        (prompt_with_fallback-Steady n r.agent s id)
        (λ a _.
          then-Steady (emit (pane_closed a.0))
            (settle_or_abort (settle_outcome a.1) >> sweep_result r.sweep) ((tt, tt), tt)
            (then-Steady (settle_or_abort (settle_outcome a.1)) (sweep_result r.sweep)
              (settle-Steady (settle_outcome a.1)) (sweep-Steady r.sweep)))

  rounds-Steady :
      (s : StageSpec) (id : Option String) (rounds : ℕ → CiRound) (left i : ℕ)
      → Steady n Any (ci_fix_rounds s id rounds left i)
  unfolding ci_fix_rounds
  rounds-Steady s id rounds zero i =
      if_both (Steady n Any) (exits_with 0 (rounds i).exit_code) (λ _. (tt, tt))
        (λ _.
          if_both (Steady n Any) (exits_with 127 (rounds i).exit_code) (λ _. (tt, tt))
            (λ _. (tt, tt)))
  rounds-Steady s id rounds (suc left) i =
      if_both (Steady n Any) (exits_with 0 (rounds i).exit_code) (λ _. (tt, tt))
        (λ _.
          if_both (Steady n Any) (exits_with 127 (rounds i).exit_code) (λ _. (tt, tt))
            (λ _.
              if_both (Steady n Any) (rounds i).past_deadline (λ _. (tt, tt))
                (λ _.
                  if_both (Steady n Any) (not (truthy id)) (λ _. (tt, tt))
                    (λ _.
                      then-Steady (fix_round s id rounds (rounds i))
                        (ci_fix_rounds s id rounds left (suc i)) (round-Steady s id (rounds i))
                        (rounds-Steady s id rounds left (suc i))))))

  fix-Steady :
      (o : Option StageSpec) (state : PipelineState) (rounds : ℕ → CiRound)
      → Steady n Any (fix_as o state rounds)
  fix-Steady none state rounds = (tt, tt)
  fix-Steady (some s) state rounds =
      rounds-Steady s (get (stage_key implement_stage) state.stage_sessions) rounds
        max_ci_fix_rounds 0

  pub bookkeeping-Steady : (state : PipelineState) (b : Books) → Steady n Any (bookkeeping state b)
  unfolding bookkeeping ci_fix_loop
  bookkeeping-Steady state b = then-Steady (known b.preflight) _ (known-Steady n b.preflight) (
      then-Steady (fix_as (find_stage implement_stage stages) state b.rounds) _
        (fix-Steady (find_stage implement_stage stages) state b.rounds)
        (then-Steady (sweep_result b.sweep) _ (sweep-Steady b.sweep) (
          then-Steady (known b.named_tests) _ (known-Steady n b.named_tests) (
            then-Steady (known b.flip) (known b.issue_done) (known-Steady n b.flip)
              (known-Steady n b.issue_done)))))
