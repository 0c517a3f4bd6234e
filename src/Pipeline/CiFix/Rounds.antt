-- ===== src/Pipeline/CiFix/Rounds.antt =====
-- pipeline_run.py: the rounds of the CI fix loop, and the checks that it sees.
use herdr_routines.Prelude.{
  ℕ, zero, suc, ◌*◌, ◌≤◌, ◌≡◌, String, Bool, true, false, not, Option, none, some, if_both, arith,
}
use herdr_routines.Prelude.Dict.{get}
use herdr_routines.History.{truthy}
use herdr_routines.Pipeline.State.{PipelineState}
use herdr_routines.Pipeline.Stages.{StageSpec, implement_stage, stages}
use herdr_routines.Pipeline.Sessions.{stage_key}
use herdr_routines.Pipeline.Effect.{
  pane_closed, Result, returned, aborted, crashed, Eff, emit, ◌>>◌,
}
use herdr_routines.Pipeline.Effect.Steady.{Gives}
use herdr_routines.Pipeline.Agent.{prompt_with_fallback, settle_outcome}
use herdr_routines.Pipeline.Agent.Starts.{starts, AtMost, bind-AtMost, prompt_with_fallback-AtMost}
use herdr_routines.Pipeline.CiFix.{
  CiRound, exits_with, max_ci_fix_rounds, sweep_result, settle_or_abort, fix_round, ci_fix_rounds,
  find_stage, fix_as, ci_fix_loop,
}

-- Check `i + k` is green, and those from `i` on before it are red.
abbrev pub FirstGreen : (ℕ → CiRound) → ℕ → ℕ → Type 0
FirstGreen rounds i zero = exits_with 0 (rounds i).exit_code ≡ true
FirstGreen rounds i (suc k) =
    (exits_with 0 (rounds i).exit_code ≡ false) × FirstGreen rounds (suc i) k

-- With `left` fix rounds to go, at most two agents are started in each, and it is only left by a green check.
abbrev pub Bounded : (ℕ → CiRound) → ℕ → ℕ → Eff Unit → Type 0
Bounded rounds left i m =
    (starts m.0 ≤ 2 * left)
    × Gives (λ (u : Unit). (k : ℕ) × ((k ≤ left) × FirstGreen rounds i k)) m.1

fix_round-AtMost :
    (s : StageSpec) (id : Option String) (rounds : ℕ → CiRound) (r : CiRound)
    → AtMost 2 (fix_round s id rounds r)
fix_round-AtMost s id rounds r =
    bind-AtMost 2 0 (prompt_with_fallback r.agent s id) _ (prompt_with_fallback-AtMost r.agent s id)
      (λ a.
        bind-AtMost 0 0 (emit (pane_closed a.0))
          (λ _. settle_or_abort (settle_outcome a.1) >> sweep_result r.sweep) (omega arith)
          (λ _.
            bind-AtMost 0 0 (settle_or_abort (settle_outcome a.1)) (λ _. sweep_result r.sweep)
              (settled-AtMost (settle_outcome a.1)) (λ _. swept-AtMost r.sweep)))
  where
    settled-AtMost : (o : Option String) → AtMost 0 (settle_or_abort o)
    settled-AtMost none = omega arith
    settled-AtMost (some reason) = omega arith

    swept-AtMost : (o : Option Bool) → AtMost 0 (sweep_result o)
    swept-AtMost none = omega arith
    swept-AtMost (some false) = omega arith
    swept-AtMost (some true) = omega arith

after_round :
    (rounds : ℕ → CiRound) (left i : ℕ) (m k : Eff Unit)
    → exits_with 0 (rounds i).exit_code ≡ false
    → AtMost 2 m
    → Bounded rounds left (suc i) k
    → Bounded rounds (suc left) i (m >> k)
after_round rounds left i (es, aborted x) k red h rest = (omega arith, tt)
after_round rounds left i (es, crashed) k red h rest = (omega arith, tt)
after_round rounds left i (es, returned u) (fs, r) red h rest =
    let sum = bind-AtMost 2 (2 * left) (es, returned u) (λ _. (fs, r)) h (λ _. rest.0) in
    (omega arith, later r rest.1)
  where
    later :
        (r : Result Unit)
        → Gives (λ (u : Unit). (k : ℕ) × ((k ≤ left) × FirstGreen rounds (suc i) k)) r
        → Gives (λ (u : Unit). (k : ℕ) × ((k ≤ suc left) × FirstGreen rounds i k)) r
    later (returned u) (k, (le, green)) = (suc k, (omega arith, (red, green)))
    later (aborted x) g = tt
    later crashed g = tt

module _ (s : StageSpec) (id : Option String) (rounds : ℕ → CiRound) where
  rounds-Bounded : (left i : ℕ) → Bounded rounds left i (ci_fix_rounds s id rounds left i)
  unfolding ci_fix_rounds
  rounds-Bounded zero i =
      if_both (Bounded rounds zero i) (exits_with 0 (rounds i).exit_code)
        (λ e. (omega arith, (zero, (omega arith, e))))
        (λ _.
          if_both (Bounded rounds zero i) (exits_with 127 (rounds i).exit_code)
            (λ _. (omega arith, tt)) (λ _. (omega arith, tt)))
  rounds-Bounded (suc left) i =
      if_both P (exits_with 0 (rounds i).exit_code) (λ e. (omega arith, (zero, (omega arith, e))))
        (λ red.
          if_both P (exits_with 127 (rounds i).exit_code) (λ _. (omega arith, tt))
            (λ _.
              if_both P (rounds i).past_deadline (λ _. (omega arith, tt))
                (λ _.
                  if_both P (not (truthy id)) (λ _. (omega arith, tt))
                    (λ _.
                      after_round rounds left i (fix_round s id rounds (rounds i))
                        (ci_fix_rounds s id rounds left (suc i)) red
                        (fix_round-AtMost s id rounds (rounds i)) (rounds-Bounded left (suc i))))))
    where
      P : Eff Unit → Type 0
      P = Bounded rounds (suc left) i

-- Whatever the checks and the agents answer, the CI fix loop runs at most two fix rounds: it starts at
-- most four agents, and it returns only after a check that exits with 0, which is one of the first
-- three, the checks before it having failed.
pub ci_fix_loop_bounded :
    (state : PipelineState) (rounds : ℕ → CiRound)
    → (starts (ci_fix_loop state rounds).0 ≤ 4)
      × Gives
          (λ (u : Unit). (k : ℕ) × ((k ≤ max_ci_fix_rounds) × FirstGreen rounds 0 k))
          (ci_fix_loop state rounds).1
unfolding ci_fix_loop
ci_fix_loop_bounded state rounds = on (find_stage implement_stage stages)
  where
    on : (o : Option StageSpec) → Bounded rounds max_ci_fix_rounds 0 (fix_as o state rounds)
    on none = (omega arith, tt)
    on (some s) =
        rounds-Bounded s (get (stage_key implement_stage) state.stage_sessions) rounds
          max_ci_fix_rounds 0
