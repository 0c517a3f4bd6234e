-- ===== src/Witnesses/Pipeline.antt =====
-- A run that resumes at stage 7, where the first model fails and the fallback finishes.
use herdr_routines.Prelude.{
  ℕ, ◌==◌, ◌≤◌, String, str_eq, Bool, ◌≡◌, refl, true, false, none, some, [], ◌∷◌, ◌++◌,
  if◌then◌else◌, Memᴰ,
}
use herdr_routines.Prelude.Dict.{Dict, get}
use herdr_routines.Json.{pos, obj, str}
use herdr_routines.History.Codec.{return}
use herdr_routines.Pipeline.State.{Doc, PipelineState, payload, read_doc, of_texts}
use herdr_routines.Pipeline.State.Reread.{read_doc-payload}
use herdr_routines.Pipeline.Stages.{StageSpec}
use herdr_routines.Pipeline.Sessions.{validate_stage_sessions}
use herdr_routines.Pipeline.Sessions.Independence.{validate_stage_sessions_independent}
use herdr_routines.Pipeline.Effect.{returned}
use herdr_routines.Pipeline.Effect.Steady.{Gives}
use herdr_routines.Pipeline.Agent.{Attempt, settled, marker_killed, AgentWorld}
use herdr_routines.Pipeline.Agent.Starts.{starts}
use herdr_routines.Pipeline.CiFix.{CiRound, ci_fix_loop, max_ci_fix_rounds}
use herdr_routines.Pipeline.CiFix.Rounds.{FirstGreen, ci_fix_loop_bounded}
use herdr_routines.Pipeline.Run.{finished, uncaught, passed, StageWorld, run_pipeline}

abbrev recorded : Dict String
recorded =
    ("1", "ses_1aaaaaaaaaaaaaaaaaaaa")
    ∷ ("2", "ses_2bbbbbbbbbbbbbbbbbbbb")
    ∷ ("3", "ses_3cccccccccccccccccccc")
    ∷ ("4", "ses_4dddddddddddddddddddd")
    ∷ ("6", "ses_6eeeeeeeeeeeeeeeeeeee")
    ∷ []

abbrev at_six : PipelineState
at_six = record {
  run_id = "night";
  worktree = "/w";
  branch = "feat";
  spec = "/w/spec.md";
  issue_source = none;
  deadline_epoch = some (pos 900);
  shared_workspace = none;
  current_stage = pos 6;
  pr_number = some (pos 12);
  stage_sessions = recorded;
  stage_bases = [];
  raw = ("note", str "kept") ∷ [];
}

read_doc-payload_example :
    (read_doc (payload at_six) ≡ return (record at_six { raw = payload at_six }))
    × (get "note" (payload at_six) ≡ some (str "kept"))
unfolding get
read_doc-payload_example = read_doc-payload at_six (refl, refl, (λ e. cc), (λ e. cc)) "note" refl

abbrev reused : Doc
reused =
    ("stage_sessions", obj (of_texts (recorded ++ ("7", "ses_4dddddddddddddddddddd") ∷ []))) ∷ []

abbrev same_id : String
same_id = "ses_4dddddddddddddddddddd"

abbrev before_four : Dict String
before_four =
    ("1", "ses_1aaaaaaaaaaaaaaaaaaaa")
    ∷ ("2", "ses_2bbbbbbbbbbbbbbbbbbbb")
    ∷ ("3", "ses_3cccccccccccccccccccc")
    ∷ []

abbrev after_four : Dict String
after_four = ("6", "ses_6eeeeeeeeeeeeeeeeeeee") ∷ ("7", same_id) ∷ []

abbrev four : String
four = "4"

abbrev seven : String
seven = "7"

validate_stage_sessions_independent_example : (four ≡ "4") × (seven ≡ "7")
unfolding validate_stage_sessions get
validate_stage_sessions_independent_example =
    validate_stage_sessions_independent (λ s. s) reused
      (of_texts (recorded ++ (seven, same_id) ∷ [])) before_four after_four four seven same_id refl
      refl (refl, (refl, (refl, tt))) (Memᴰ.tail (Memᴰ.head refl)) refl

abbrev first_try : Attempt
first_try = record { pane = some "p1"; starts = true; reply = marker_killed }

abbrev second_try : Attempt
second_try = record { pane = some "p2"; starts = true; reply = settled (some "idle") }

abbrev agent : AgentWorld
agent = record {
  prompt = returned tt;
  first = first_try;
  session = some "ses_4dddddddddddddddddddd";
  exported = none;
  second = second_try;
  session_after = some "ses_4dddddddddddddddddddd";
  session_saved = true;
}

abbrev last_stage : StageSpec
last_stage = record {
  stage = 7;
  model = some "big";
  prompt_file = some "stage-7.md";
  timeout_ms = 1;
  start_timeout_ms = 1;
  reuses_stage = some 4;
  fallback_model = some "small";
}

-- The pane of the first model is one that herdr refuses to close.
abbrev is_first_pane : String → Bool
is_first_pane p = str_eq p "p1"

abbrev round : ℕ → CiRound
round n = record {
  exit_code = if n == 0 then pos 1 else pos 0;
  past_deadline = false;
  agent = agent;
  sweep = some true;
}

ci_fix_loop_bounded_example :
    (starts (ci_fix_loop at_six round).0 ≤ 4)
    × Gives
        (λ (u : Unit). (k : ℕ) × ((k ≤ max_ci_fix_rounds) × FirstGreen round 0 k))
        (ci_fix_loop at_six round).1
ci_fix_loop_bounded_example = ci_fix_loop_bounded at_six round

ci_fix_starts : starts (ci_fix_loop at_six round).0 ≡ 2
unfolding ci_fix_loop get
ci_fix_starts = refl

abbrev night : ℕ → StageWorld
night n = record {
  past_deadline = false;
  spec_readable = true;
  head = some "abc";
  books = record {
    preflight = returned tt;
    rounds = round;
    sweep = some false;
    named_tests = returned tt;
    flip = returned tt;
    issue_done = returned tt;
  };
  open_pr = returned (some (pos 12));
  feedback = returned tt;
  agent = agent;
  sweep = some false;
  gate = passed;
  base_saved = true;
  pr_saved = true;
  point_saved = true;
  ci_raises = false;
}

-- Without a pull request the gate of stage 7 raises, and nobody reports.
uncaught_without_pr :
    (run_pipeline (λ s. s) night (record at_six { pr_number = none })).1 ≡ uncaught
unfolding run_pipeline get
uncaught_without_pr = refl

ends_ok :
    (run_pipeline (λ s. s) night at_six).1
    ≡ finished (record { outcome = "ok"; reason = none; stage = none })
unfolding run_pipeline get
ends_ok = refl
