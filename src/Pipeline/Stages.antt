-- ===== src/Pipeline/Stages.antt =====
-- src/herdr_routines/pipeline_stages.py: the table of the stages, and their model families.
use herdr_routines.Prelude.{ℕ, ◌*◌, String, Option, none, some, List, [], ◌∷◌}
use herdr_routines.Prelude.Dict.{Dict, get}

pub record StageSpec : Type 0 where
  pub stage : ℕ
  pub model : Option String
  pub prompt_file : Option String
  pub timeout_ms : ℕ
  pub start_timeout_ms : ℕ
  pub reuses_stage : Option ℕ
  pub fallback_model : Option String

abbrev pub author_fallback_model : String
author_fallback_model = "nvidia/moonshotai/kimi-k3"

abbrev pub reviewer_fallback_model : String
reviewer_fallback_model = "openrouter/nvidia/nemotron-3-ultra-550b-a55b:free"

abbrev pub model_families : Dict String
model_families =
    ("opencode/glm-5.3-flash-free", "zhipu")
    ∷ ("opencode/big-pickle", "zen-router")
    ∷ (author_fallback_model, "moonshot")
    ∷ (reviewer_fallback_model, "nvidia")
    ∷ []

-- None is the ValueError for a model of no declared family.
unfoldable pub model_family : String → Option String
unfolding get
model_family model = get model model_families

abbrev add_family : Option String → List String → Option (List String)
add_family none rest = none
add_family (some f) rest = some (f ∷ rest)

abbrev families_from : Option String → Option (List String) → Option (List String)
families_from none rest = rest
families_from (some m) none = none
families_from (some m) (some rest) = add_family (model_family m) rest

-- Every family that a stage may run on.
unfoldable pub stage_families : StageSpec → Option (List String)
unfolding model_family
stage_families spec = families_from spec.model (families_from spec.fallback_model (some []))

abbrev pub spec_review_stage : ℕ
spec_review_stage = 2

abbrev pub test_author_stage : ℕ
test_author_stage = 3

abbrev pub implement_stage : ℕ
implement_stage = 4

abbrev pub pr_stage : ℕ
pr_stage = 5

abbrev pub pr_review_stage : ℕ
pr_review_stage = 6

abbrev pub address_comments_stage : ℕ
address_comments_stage = 7

abbrev agent_stage : ℕ → String → String → ℕ → Option ℕ → String → StageSpec
agent_stage n model prompt minutes reuses fallback = record {
  stage = n;
  model = some model;
  prompt_file = some prompt;
  timeout_ms = minutes * 60 * 1000;
  start_timeout_ms = 120_000;
  reuses_stage = reuses;
  fallback_model = some fallback;
}

abbrev pub stages : List StageSpec
stages =
    agent_stage 1 "opencode/glm-5.3-flash-free" "stage-1.md" 60 none author_fallback_model
    ∷ agent_stage 2 "opencode/glm-5.3-flash-free" "stage-2.md" 60 none author_fallback_model
    ∷ agent_stage 3 "opencode/glm-5.3-flash-free" "stage-3.md" 60 none reviewer_fallback_model
    ∷ agent_stage 4 "opencode/big-pickle" "stage-4.md" 90 none author_fallback_model
    ∷ record {
      stage = 5;
      model = none;
      prompt_file = none;
      timeout_ms = 60 * 60 * 1000;
      start_timeout_ms = 120_000;
      reuses_stage = none;
      fallback_model = none;
    }
    ∷ agent_stage 6 "opencode/glm-5.3-flash-free" "stage-6.md" 60 none reviewer_fallback_model
    ∷ agent_stage 7 "opencode/big-pickle" "stage-7.md" 60 (some 4) author_fallback_model
    ∷ []
