-- ===== src/Witnesses/Nightly.antt =====
-- A night whose run has reported, and one that starts a run.
use herdr_routines.Prelude.{ℕ, ◌*◌, ◌≡◌, refl, true, false, none, some, List, [], ◌∷◌}
use herdr_routines.Json.{null}
use herdr_routines.History.{HistoryRecord, done, running}
use herdr_routines.History.Query.{has_ever_been_seen}
use herdr_routines.Schedule.{ScheduleResult, due, run}
use herdr_routines.Tick.{pipeline}
use herdr_routines.Tick.OpenRuns.{open_pipeline_run}
use herdr_routines.Tick.Nightly.{NightJob, NightWorld, Night, terminal}
use herdr_routines.Tick.Nightly.Process.{process_pipeline_job}
use herdr_routines.Tick.Nightly.OneRun.{OneRun, process_pipeline_job-OneRun}

abbrev nightly : NightJob
nightly = record {
  job = record {
    name = "n";
    kind = pipeline;
    enabled = true;
    timeout_ms = 1000;
    max_targets_per_run = 1;
  };
  policy = terminal;
  notifies_missed = true;
  deadline_ms = some 3_600_000;
}

abbrev quiet : NightWorld
quiet = record {
  agent_status = none;
  files = some [];
  state_mtime = λ id. none;
  heartbeat_mtime = λ id. none;
  unit_active = λ id. some false;
  boot = none;
  report = λ id. some "failed";
  state_doc = λ id. none;
  repo_error = none;
  launch_error = none;
}

abbrev started : List HistoryRecord
started = record { ts = 5; job = "n"; state = running; run_id = some "n-1"; extra = none } ∷ []

abbrev later : ℕ
later = 63_000_000_000 * 1_000_000

abbrev over : List HistoryRecord
over = record { ts = 5; job = "n"; state = done; run_id = some "n-1"; extra = none } ∷ []

abbrev tonight : ScheduleResult
tonight = due (record {
  occurrence = 9;
  late = 0;
  decision = run;
  skipped_occurrences = 0;
  skipped_first = none;
  skipped_last = none;
})

abbrev processed : List HistoryRecord → Night
processed history =
    process_pipeline_job (λ s. s) (λ r. some r) (λ r. none) "/r" (λ p. true) quiet nightly later
      (λ n. "n-2") (λ n. "t") (λ n. null) history (some tonight)

process_pipeline_job-OneRun_example :
    OneRun nightly later (λ n. "n-2") (some tonight) (open_pipeline_run over "n") (processed over)
unfolding has_ever_been_seen
process_pipeline_job-OneRun_example =
    process_pipeline_job-OneRun (λ s. s) (λ r. some r) (λ r. none) "/r" (λ p. true) quiet nightly
      later (λ n. "n-2") (λ n. "t") (λ n. null) over (some tonight) refl

-- The run starts, and one in progress is closed.
launches_tonight : (processed over).units ≡ "herdr-pipeline-2" ∷ []
unfolding process_pipeline_job open_pipeline_run has_ever_been_seen
launches_tonight = refl

closes_started : (processed started).units ≡ []
unfolding process_pipeline_job open_pipeline_run has_ever_been_seen
closes_started = refl
