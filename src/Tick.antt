-- ===== src/Tick.antt =====
-- src/herdr_routines/tick.py: one tick over the jobs. The state is the run history, oldest record
-- first, that `append` adds to; `history.maybe_rotate` keeps the records that `read_all` returns,
-- and the reaping of /tmp touches none, so both are left out here. The handlers of the jobs'
-- kinds, what herdr answers and the triggers of a routine are parameters.
pub mod Isolation
pub mod Guarding
pub mod Reports
pub mod OpenRuns
pub mod Nightly
use herdr_routines.Prelude.{
  ℕ, zero, suc, ◌*◌, String, str_eq, Bool, true, false, not, ◌&&◌, ◌||◌, Option, none, some, List,
  [], ◌∷◌, ◌++◌, map, if◌then◌else◌, keep_if, ltb, ◌==◌,
}
use herdr_routines.Prelude.Dict.{Dict}
use herdr_routines.Json.{Json, str}
use herdr_routines.History.{
  State, failed, registered, skipped, interrupted_unknown, running, HistoryRecord, is_terminal,
  is_running, truthy,
}
use herdr_routines.History.Query.{
  read_job, terminal_run_ids, run_id_in, has_ever_been_seen, find_stale_running,
  is_currently_running,
}

pub data Kind : Type 0 where
  routine gated audit pipeline : Kind

abbrev pub is_pipeline : Kind → Bool
is_pipeline pipeline = true
is_pipeline _ = false

pub record Job : Type 0 where
  pub name : String
  pub kind : Kind
  pub enabled : Bool
  pub timeout_ms : ℕ
  pub max_targets_per_run : ℕ

-- The summary that a handler returns, up to its text; that of an exception has the job's name.
pub data Summary : Type 0 where
  unexpected_error : String → Summary
  newly_registered : Summary
  already_running : Summary
  agent_already_live : Summary
  other : String → Summary

abbrev pub History : Type 0
History = List HistoryRecord

-- What processing a job comes to: `(summary, failed)`, or the exception that it raises, by its
-- `repr`; the history holds what was appended until then.
pub data Outcome : Type 0 where
  returned : Summary → Bool → Outcome
  raised : String → Outcome

module _ (job : Job) (now : ℕ) where
  abbrev pub failure_record : String → Option String → HistoryRecord
  failure_record error run_id = record {
    ts = now;
    job = job.name;
    state = failed;
    run_id = run_id;
    extra = some (("reason", str "unexpected_error") ∷ ("error", str error) ∷ []);
  }

  -- The record is a `running` one of this tick with an id that no terminal record has.
  abbrev pub is_open_now : List String → HistoryRecord → Bool
  is_open_now ids r =
      is_running r.state && r.ts == now && truthy r.run_id && not (run_id_in r.run_id ids)

  unfoldable pub open_run_ids : List HistoryRecord → List (Option String)
  unfolding terminal_run_ids
  open_run_ids records =
      map (λ (r : HistoryRecord). r.run_id)
        (keep_if (is_open_now (terminal_run_ids records)) records)

  abbrev pub closing_records : String → List (Option String) → List HistoryRecord
  closing_records error [] = failure_record error none ∷ []
  closing_records error (id ∷ ids) =
      if is_pipeline job.kind then [] else map (failure_record error) (id ∷ ids)

  -- Where neither the reading nor an append of the history fails.
  unfoldable pub record_unexpected_failure : String → History → History
  unfolding open_run_ids read_job
  record_unexpected_failure error history =
      history ++ closing_records error (open_run_ids (read_job history job.name none))

-- The `try` of a job in the loop of `run_tick`.
abbrev pub settle_outcome : Job → ℕ → Outcome × History → Summary × Bool × History
settle_outcome job now (returned summary job_failed, history) = (summary, job_failed, history)
settle_outcome job now (raised error, history) =
    (unexpected_error job.name, true, record_unexpected_failure job now error history)

pub record TickOutcome : Type 0 where
  pub summaries : List Summary
  pub any_job_failed : Bool
  pub history : History

module _ (process_job : Job → ℕ → History → Outcome × History) where
  abbrev pub process_caught : Job → ℕ → History → Summary × Bool × History
  process_caught job now history = settle_outcome job now (process_job job now history)

  abbrev pub with_job : Summary × Bool × History → TickOutcome → TickOutcome
  with_job (summary, job_failed, history) rest = record {
    summaries = summary ∷ rest.summaries;
    any_job_failed = job_failed || rest.any_job_failed;
    history = rest.history;
  }

  unfoldable pub run_tick : List Job → ℕ → History → TickOutcome
  unfolding record_unexpected_failure
  run_tick [] now history = record { summaries = []; any_job_failed = false; history = history }
  run_tick (job ∷ jobs) now history =
      let one = process_caught job now history in
      let rest = run_tick jobs now (if job.enabled then one.2 else history) in
      if not job.enabled then rest else with_job one rest

-- What the guards of a routine ask of herdr, and what its triggers do.
pub record Client : Type 0 where
  pub reap_agents : Job → HistoryRecord → Option Json
  pub live_agent_exists : Job → Bool
  pub fire_triggers : Job → ℕ → History → Outcome × History

module _ (client : Client) where
  abbrev pub run_timeout_ms : Job → ℕ
  run_timeout_ms job =
      job.timeout_ms * (if ltb job.max_targets_per_run 1 then 1 else job.max_targets_per_run)

  abbrev pub plain_record : Job → ℕ → State → Option (Dict Json) → HistoryRecord
  plain_record job now state extra = record {
    ts = now;
    job = job.name;
    state = state;
    run_id = none;
    extra = extra;
  }

  abbrev stale_extra : Option Json → Dict Json
  stale_extra none = ("reason", str "stale_running_record") ∷ []
  stale_extra (some reaped) =
      ("reason", str "stale_running_record") ∷ ("reaped_agents", reaped) ∷ []

  -- The records that are appended for a stale run.
  abbrev pub interruption : Job → ℕ → Option HistoryRecord → List HistoryRecord
  interruption job now none = []
  interruption job now (some stale) =
      record {
        ts = now;
        job = job.name;
        state = interrupted_unknown;
        run_id = stale.run_id;
        extra = some (stale_extra (client.reap_agents job stale));
      }
      ∷ []

  abbrev pub after_stale : Job → ℕ → History → History
  after_stale job now history =
      history ++ interruption job now (find_stale_running history job.name (run_timeout_ms job) now)

  abbrev pub guarded : Job → ℕ → History → Outcome × History
  guarded job now history =
      if is_currently_running history job.name (run_timeout_ms job) now
      then (returned already_running false, history)
      else if client.live_agent_exists job
      then (
        returned agent_already_live false,
        history
            ++ plain_record job now skipped (some (("reason", str "agent_name_live") ∷ [])) ∷ [],
      )
      else client.fire_triggers job now history

  -- `_process_job` for a job of kind routine.
  unfoldable pub process_routine : Job → ℕ → History → Outcome × History
  unfolding has_ever_been_seen find_stale_running is_currently_running
  process_routine job now history =
      if not (has_ever_been_seen history job.name)
      then (returned newly_registered false, history ++ plain_record job now registered none ∷ [])
      else guarded job now (after_stale job now history)
