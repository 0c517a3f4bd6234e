-- ===== src/Tick/Nightly.antt =====
-- src/herdr_routines/tick.py: `_process_pipeline_job`, `_launch_pipeline_run` and dispatch_occurrence for a
-- pipeline job. `NightWorld` is what herdr, systemd and the files answer, by the bare run id;
-- `status_in` and `skip_reason` are the groups that the two regular expressions find, `run_id_of` and `iso`
-- strftime and isoformat, and `due` is the decision of the schedule. An instant is as in the history.
pub mod Process
pub mod OneRun
use herdr_routines.Prelude.{
  ℕ, suc, ◌+◌, ◌*◌, ◌/◌, ◌==◌, String, str_eq, str_append, Bool, true, false, not, ◌&&◌, ◌||◌,
  Option, none, some, List, [], ◌∷◌, ◌++◌, if◌then◌else◌, keep_if, is_some,
}
use herdr_routines.Prelude.Dict.{Dict, get}
use herdr_routines.Prelude.Texts.{is_in, has_prefix, strip}
use Prim.Native.Char.{code}
use Prim.Native.String
use herdr_routines.Json.{ℤ, Json, int, pos, str, obj, to_dict, is_text}
use herdr_routines.History.{
  State, done, failed, skipped, missed, interrupted_unknown, registered, running, HistoryRecord,
  trigger_cron,
}
use herdr_routines.History.Query.{has_ever_been_seen, find_stale_running}
use herdr_routines.Pipeline.Sessions.{validate_stage_sessions}
use herdr_routines.Pipeline.Stages.{stages}
use herdr_routines.Schedule.{
  ScheduleResult, not_due, due, Due, Decision, run, missed as late_missed,
}
use herdr_routines.Watchdog.{
  InflightRun, recorded_pipeline_deadlines, find_inflight_runs, is_stalled,
  host_rebooted_after_state_write,
}
use herdr_routines.Watchdog.Resume.{unix_seconds}
use herdr_routines.Tick.{
  Job, Summary, newly_registered, already_running, agent_already_live, other, Outcome, returned,
  raised,
}
use herdr_routines.Tick.OpenRuns.{open_pipeline_run}

pub data NotifyKind : Type 0 where
  failure finding success progress : NotifyKind

pub data NotifyPolicy : Type 0 where
  always terminal on_finding on_failure : NotifyPolicy

unfoldable pub notify_gate : NotifyPolicy → NotifyKind → Bool
notify_gate always kind = true
notify_gate terminal progress = false
notify_gate terminal kind = true
notify_gate on_finding failure = true
notify_gate on_finding finding = true
notify_gate on_finding kind = false
notify_gate on_failure failure = true
notify_gate on_failure kind = false

pub record NightJob : Type 0 where
  pub job : Job
  pub policy : NotifyPolicy
  pub notifies_missed : Bool
  pub deadline_ms : Option ℕ

abbrev pub grace_ms : ℕ
grace_ms = 60 * 60 * 1000

pub record NightWorld : Type 0 where
  pub agent_status : Option String
  pub files : Option (List (String × Option Json))
  pub state_mtime : String → Option ℕ
  pub heartbeat_mtime : String → Option ℕ
  pub unit_active : String → Option Bool
  pub boot : Option ℕ
  pub report : String → Option String
  pub state_doc : String → Option Json
  pub repo_error : Option String
  pub launch_error : Option (ℤ × String)

-- What one tick does about the job: the records that it appends, the units that it launches.
pub record Night : Type 0 where
  pub outcome : Outcome
  pub records : List HistoryRecord
  pub units : List String
  pub notices : List String

abbrev pub quietly : Summary → Bool → List HistoryRecord → Night
quietly summary job_failed records = record {
  outcome = returned summary job_failed;
  records = records;
  units = [];
  notices = [];
}

abbrev removed : String → String → Option String
removed String.[] s = some s
removed (String.◌∷◌ c p) String.[] = none
removed (String.◌∷◌ c p) (String.◌∷◌ d s) = if code c == code d then removed p s else none

abbrev or_text : String → Option String → String
or_text s none = s
or_text s (some t) = t

-- run_id.removeprefix(f"{job_name}-")
unfoldable pub bare_pipeline_run_id : String → String → String
bare_pipeline_run_id job_name run_id = or_text run_id (removed (str_append job_name "-") run_id)

-- The texts of a failed outcome, in the order in which they are looked for.
abbrev pub failed_reason : String → String
failed_reason status =
    if is_in "resume_failed" status
    then "resume_failed"
    else if is_in "watchdog" status
    then "watchdog_killed"
    else if is_in "quota_exhausted" status
    then "quota_exhausted"
    else if is_in "ci_check_failed" status
    then "ci_check_failed"
    else "orchestrator_failed"

module _ (lower : String → String) (status_in skip_reason : String → Option String) where
  abbrev pub classify_status : String → State × Option String
  classify_status status =
      if has_prefix "ok" status
      then (done, none)
      else if has_prefix "skipped" status
      then (skipped, skip_reason status)
      else if has_prefix "partial" status
      then (failed, some "partial_deadline")
      else if has_prefix "failed" status
      then (failed, some (failed_reason status))
      else (interrupted_unknown, some "outcome_marker_unrecognized")

  abbrev pub classify_match : Option String → State × Option String
  classify_match none = (interrupted_unknown, some "outcome_marker_missing")
  classify_match (some status) = classify_status (lower (strip status))

  unfoldable pub classify_pipeline_outcome : String → State × Option String
  unfolding is_in has_prefix strip
  classify_pipeline_outcome report = classify_match (status_in report)

  abbrev pub independence_issue : Option Json → Bool
  independence_issue (some (obj fs)) = is_some (validate_stage_sessions lower (to_dict fs) stages)
  independence_issue _ = false

  -- A run that is done, but whose sessions are not independent, has failed.
  abbrev pub audited : Option Json → State × Option String → State × Option String
  audited doc (done, reason) =
      if independence_issue doc
      then (failed, some "stage_independence_unverified")
      else (done, reason)
  audited doc (state, reason) = (state, reason)

  unfoldable pub reconciled : Option Json → String → State × Option String
  unfolding classify_pipeline_outcome validate_stage_sessions
  reconciled doc report = audited doc (classify_pipeline_outcome report)
