-- ===== src/Witnesses/Watchdog.antt =====
-- A run that died, is resumed, and dies again.
use herdr_routines.Prelude.{
  ℕ, ◌+◌, ◌*◌, ◌≤◌, String, ◌≡◌, refl, Bool, true, false, none, some, List, [], ◌∷◌,
}
use herdr_routines.Prelude.Dict.{get, put}
use herdr_routines.Json.{pos, int, str, obj, field, end}
use herdr_routines.History.{HistoryRecord, running}
use herdr_routines.Pipeline.State.{Doc, of_dict}
use herdr_routines.Watchdog.{InflightRun, is_stalled, host_rebooted_after_state_write}
use herdr_routines.Watchdog.Resume.{RunWorld}
use herdr_routines.Watchdog.Launches.{launches}
use herdr_routines.Watchdog.Sweep.{reap_stalled_run}
use herdr_routines.Watchdog.Sweeps.{Round, reap_all, reap_all_once}
use herdr_routines.Watchdog.Spared.{Handled, reap_stalled_run_acts}

abbrev night : InflightRun
night = record {
  run_id = "n1";
  state_path = "/w/state.json";
  deadline_epoch = pos 20_000;
  current_stage = some (pos 3);
  stage_sessions_issue = none;
}

abbrev file : Doc
file =
    ("repo_parent", str "/repos")
    ∷ ("artifact_paths", obj (field "report" (str "/r/n1.md") end))
    ∷ []

abbrev started : List HistoryRecord
started =
    record {
      ts = (62_135_596_800 + 5_000) * 1_000_000;
      job = "pipeline";
      state = running;
      run_id = some "j1";
      extra = some (("pipeline_run_id", str "n1") ∷ ("deadline_epoch", int (pos 20_000)) ∷ []);
    }
    ∷ []

abbrev dead : (rewrites : Bool) → RunWorld
dead rewrites = record {
  state_doc = some (obj (of_dict file));
  state_mtime = some 9_000;
  heartbeat_mtime = none;
  unit_active = some false;
  panes = λ rebooted. some (("pl-3-n1", "p3") ∷ []);
  close_raises = false;
  readable = true;
  closes = λ p. true;
  appends = true;
  rewrites = rewrites;
  launches = true;
  reports = true;
}

abbrev sweep : Bool → ℕ → Round
sweep rewrites now = record {
  now = now;
  ts = (62_135_596_800 + now) * 1_000_000;
  boot = some 10_000;
  world = dead rewrites;
  others = λ d. d;
}

abbrev le : String → String → Bool
le a b = true

reap_all_once_example :
    launches (
      reap_all le
        (λ n. "120000")
        (λ n. "t")
        night
        (sweep true 30_000 ∷ sweep true 31_000 ∷ [])
        file
        (some started))
    ≤ 1
unfolding get
reap_all_once_example =
    reap_all_once le (λ n. "120000") (λ n. "t") night (sweep true 30_000 ∷ sweep true 31_000 ∷ [])
      file (some started) 0 ((refl, λ d. refl), ((refl, λ d. refl), tt)) refl

resumes_once :
    launches (
      reap_all le
        (λ n. "120000")
        (λ n. "t")
        night
        (sweep true 30_000 ∷ sweep true 31_000 ∷ [])
        file
        (some started))
    ≡ 1
unfolding reap_stalled_run get put
resumes_once = refl

-- A state file that cannot be rewritten does not keep the count.
resumes_twice :
    launches (
      reap_all le
        (λ n. "120000")
        (λ n. "t")
        night
        (sweep false 30_000 ∷ sweep false 31_000 ∷ [])
        file
        (some started))
    ≡ 2
unfolding reap_stalled_run get put
resumes_twice = refl

reap_stalled_run_acts_example : Handled (dead true) (
    reap_stalled_run le
      (λ n. "120000")
      (λ n. "t")
      (some 10_000)
      30_000
      0
      (dead true)
      night
      (some started))
unfolding is_stalled host_rebooted_after_state_write
reap_stalled_run_acts_example =
    reap_stalled_run_acts le (λ n. "120000") (λ n. "t") (some 10_000) 30_000 0 (dead true) night
      (("pl-3-n1", "p3") ∷ []) refl refl refl refl (some started) refl refl refl
