-- ===== src/Witnesses/Tick.antt =====
-- A tick over one routine whose processing raises, and one that has a stale run.
use herdr_routines.Prelude.{ℕ, ◌≡◌, refl, true, false, none, some, [], ◌∷◌, Memᴰ}
use herdr_routines.History.{HistoryRecord, running, is_terminal}
use herdr_routines.History.Query.{has_ever_been_seen}
use herdr_routines.Tick.{
  Job, History, routine, Outcome, returned, raised, other, run_tick, record_unexpected_failure,
  Client, process_routine,
}
use herdr_routines.Tick.Isolation.{record_unexpected_failure_closes}
use herdr_routines.Tick.Reports.{run_tick_reports, Ticked}
use herdr_routines.Tick.Guarding.{process_routine_cases, Proceeds}

abbrev nightly : Job
nightly = record {
  name = "nightly";
  kind = routine;
  enabled = true;
  timeout_ms = 1000;
  max_targets_per_run = 1;
}

abbrev begun : History
begun = record { ts = 9; job = "nightly"; state = running; run_id = some "r1"; extra = none } ∷ []

abbrev raises : Job → ℕ → History → Outcome × History
raises job now history = (raised "OSError()", history)

run_tick_reports_example :
    Ticked 9 raises
      (nightly ∷ [])
      begun
      (run_tick raises (nightly ∷ []) 9 begun).summaries
      (run_tick raises (nightly ∷ []) 9 begun).any_job_failed
      (run_tick raises (nightly ∷ []) 9 begun).history
run_tick_reports_example = run_tick_reports 9 raises (nightly ∷ []) begun

record_unexpected_failure_closes_example :
    (fin : HistoryRecord) × (Memᴰ fin (record_unexpected_failure nightly 9 "OSError()" begun)
      × (fin.job ≡ "nightly")
      × (is_terminal fin.state ≡ true)
      × (fin.run_id ≡ some "r1"))
unfolding record_unexpected_failure
record_unexpected_failure_closes_example =
    record_unexpected_failure_closes nightly 9 "OSError()" begun
      (record { ts = 9; job = "nightly"; state = running; run_id = some "r1"; extra = none }) "r1"
      refl (Memᴰ.head refl) refl refl refl refl (λ e. cc e)

abbrev client : Client
client = record {
  reap_agents = λ job r. none;
  live_agent_exists = λ job. false;
  fire_triggers = λ job now history. (returned (other "not due") false, history);
}

-- The run that begins at 9 is stale by then.
abbrev much_later : ℕ
much_later = 1_000_000_000

process_routine_cases_example :
    Proceeds client nightly much_later begun (process_routine client nightly much_later begun)
unfolding has_ever_been_seen
process_routine_cases_example = process_routine_cases client nightly much_later begun refl
