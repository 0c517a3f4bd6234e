-- ===== src/Tick/Nightly/Process.antt =====
-- src/herdr_routines/tick.py: `_process_pipeline_job`, `_launch_pipeline_run`, `_pipeline_run_is_live` and
-- dispatch_occurrence for a pipeline job. `texts` are the parameters of the module above.
use herdr_routines.Prelude.{
  ℕ, ◌+◌, ◌/◌, String, str_eq, str_append, Bool, true, false, not, ◌&&◌, ◌||◌, Option, none, some,
  List, [], ◌∷◌, ◌++◌, if◌then◌else◌, is_some, any_of,
}
use herdr_routines.Prelude.Dict.{Dict, get}
use herdr_routines.Prelude.Texts.{strip}
use herdr_routines.Json.{Json, ℤ, int, pos, str}
use herdr_routines.History.{
  State, done, failed, skipped, missed, registered, running, HistoryRecord, trigger_cron,
}
use herdr_routines.History.Codec.{state_name}
use herdr_routines.History.Query.{has_ever_been_seen, find_stale_running}
use herdr_routines.Schedule
use herdr_routines.Watchdog.{
  InflightRun, recorded_pipeline_deadlines, find_inflight_runs, is_stalled,
  host_rebooted_after_state_write,
}
use herdr_routines.Watchdog.Resume.{unix_seconds}
use herdr_routines.Tick.{
  Summary, newly_registered, already_running, agent_already_live, other, returned, raised,
}
use herdr_routines.Tick.OpenRuns.{open_pipeline_run}
use herdr_routines.Tick.Nightly.{
  NotifyKind, failure, success, notify_gate, NightJob, grace_ms, NightWorld, Night, quietly,
  bare_pipeline_run_id, reconciled,
}

abbrev pub is_live : Option String → Bool
is_live none = false
is_live (some status) = str_eq status "working"

abbrev is_false : Option Bool → Bool
is_false (some false) = true
is_false _ = false

abbrev launch_unit : String → String
launch_unit bare = str_append "herdr-pipeline-" bare

-- The records of the tick are its own.
abbrev record_of : NightJob → ℕ → State → Option String → Option (Dict Json) → HistoryRecord
record_of night now state run_id extra = record {
  ts = now;
  job = night.job.name;
  state = state;
  run_id = run_id;
  extra = extra;
}

abbrev with_trigger : Dict Json → Dict Json → Dict Json
with_trigger source extra = stamped (get "trigger" source)
  where
    stamped : Option Json → Dict Json
    stamped none = extra
    stamped (some t) = extra ++ ("trigger", t) ∷ []

abbrev notice_if : NightJob → NotifyKind → String → List String
notice_if night kind text = if notify_gate night.policy kind then text ∷ [] else []

module _ (lower : String → String) (status_in skip_reason : String → Option String)
    (reports : String) (exists : String → Bool) (w : NightWorld) (night : NightJob) (now : ℕ) where
  abbrev still_alive : InflightRun → Bool
  still_alive r =
      not (
        is_stalled r (unix_seconds now) (w.state_mtime r.run_id) (w.heartbeat_mtime r.run_id)
          w.boot)
      || not (is_false (w.unit_active r.run_id))

  abbrev pub any_in_flight : List HistoryRecord → Option (List (String × Option Json)) → Bool
  any_in_flight history none = false
  any_in_flight history (some files) =
      any_of still_alive
        (find_inflight_runs lower reports exists (recorded_pipeline_deadlines history) files)

  unfoldable pub pipeline_run_is_live : List HistoryRecord → Bool
  unfolding is_stalled find_inflight_runs recorded_pipeline_deadlines
  pipeline_run_is_live history = is_live w.agent_status || any_in_flight history w.files

  abbrev pub failed_night : Option String → Dict Json → String → Night
  failed_night run_id extra reason = record {
    outcome = returned (other (str_append "failed (" (str_append reason ")"))) true;
    records = record_of night now failed run_id (some extra) ∷ [];
    units = [];
    notices = notice_if night failure reason;
  }

  abbrev reason_entry : Option String → Dict Json
  reason_entry none = []
  reason_entry (some reason) = ("reason", str reason) ∷ []

  abbrev reason_text : Option String → String
  reason_text none = "None"
  reason_text (some reason) = reason

  abbrev pub closed : HistoryRecord → String → State × Option String → Night
  closed open_run bare (state, reason) = record {
    outcome = returned (summary state) (is_bad state);
    records =
        record_of night now state open_run.run_id (
          some (
            ("pipeline_run_id", str bare)
            ∷ ("report", str (str_append reports (str_append "/pipeline-" (str_append bare ".md"))))
            ∷ reason_entry reason))
        ∷ [];
    units = [];
    notices = notices_for state;
  }
    where
      or_unknown : Option String → String
      or_unknown none = "unknown"
      or_unknown (some s) = if str_eq s "" then "unknown" else s

      summary : State → Summary
      summary done = other "done"
      summary skipped = other "skipped"
      summary s =
          other (str_append (state_name s) (str_append " (" (str_append (reason_text reason) ")")))

      is_bad : State → Bool
      is_bad done = false
      is_bad skipped = false
      is_bad s = true

      notices_for : State → List String
      notices_for done = notice_if night success "done"
      notices_for skipped = []
      notices_for s = notice_if night failure (or_unknown reason)

  abbrev pub unreported : List HistoryRecord → HistoryRecord → String → Night
  unreported history open_run bare =
      if host_rebooted_after_state_write (w.state_mtime bare) w.boot
      then record (failed_night open_run.run_id
          (("reason", str "host_rebooted") ∷ ("pipeline_run_id", str bare) ∷ []) "host_rebooted") {
            notices = notice_if night failure "host rebooted mid-run";
          }
      else if not (
          is_some
            (find_stale_running history night.job.name (or_zero night.deadline_ms + grace_ms) now))
      then quietly (other "in flight") false []
      else failed_night open_run.run_id
          (("reason", str "no_report") ∷ ("pipeline_run_id", str bare) ∷ []) "no_report"
    where
      or_zero : Option ℕ → ℕ
      or_zero none = 0
      or_zero (some n) = n

  abbrev pub on_report : List HistoryRecord → HistoryRecord → String → String → Night
  on_report history open_run bare report =
      if not (str_eq (strip report) "")
      then closed open_run bare (reconciled lower status_in skip_reason (w.state_doc bare) report)
      else unreported history open_run bare

  abbrev or_nothing : Option String → String
  or_nothing none = ""
  or_nothing (some s) = s

  -- RuntimeError for a record without an id
  abbrev pub with_id : List HistoryRecord → HistoryRecord → Option String → Night
  with_id history open_run none = record {
    outcome = raised "open pipeline run record has no run_id";
    records = [];
    units = [];
    notices = [];
  }
  with_id history open_run (some id) =
      on_report history open_run (bare_pipeline_run_id night.job.name id)
        (or_nothing (w.report (bare_pipeline_run_id night.job.name id)))

  abbrev pub reconcile : List HistoryRecord → HistoryRecord → Night
  reconcile history open_run =
      if pipeline_run_is_live history
      then quietly already_running false []
      else with_id history open_run open_run.run_id

  abbrev deadline_epoch : ℕ → ℕ
  deadline_epoch deadline_ms = unix_seconds now + deadline_ms / 1000

  abbrev running_extra : Dict Json → String → ℕ → Dict Json
  running_extra extra bare deadline_ms =
      extra
      ++ ("pipeline_run_id", str bare)
        ∷ ("report", str (str_append reports (str_append "/pipeline-" (str_append bare ".md"))))
        ∷ ("unit", str (launch_unit bare))
        ∷ ("deadline_epoch", int (pos (deadline_epoch deadline_ms)))
        ∷ []

  -- The unit is launched first, and recorded when that has succeeded.
  abbrev pub on_launch : String → String → Dict Json → ℕ → Option (ℤ × String) → Night
  on_launch run_id bare extra deadline_ms (some (rc, error)) =
      failed_night (some run_id)
        (with_trigger extra
          (("reason", str "launch_failed") ∷ ("rc", int rc) ∷ ("error", str error) ∷ []))
        "launch_failed"
  on_launch run_id bare extra deadline_ms none = record {
    outcome =
        returned (other (str_append "dispatched (" (str_append (launch_unit bare) ")"))) false;
    records =
        record_of night now running (some run_id) (some (running_extra extra bare deadline_ms))
        ∷ [];
    units = launch_unit bare ∷ [];
    notices = [];
  }

  abbrev pub on_repo : String → String → Dict Json → ℕ → Option String → Night
  on_repo run_id bare extra deadline_ms (some error) =
      failed_night (some run_id)
        (with_trigger extra (("reason", str "repo_sync_failed") ∷ ("error", str error) ∷ []))
        "repo_sync_failed"
  on_repo run_id bare extra deadline_ms none =
      on_launch run_id bare extra deadline_ms w.launch_error

  abbrev pub with_deadline : String → Dict Json → Option ℕ → Night
  with_deadline run_id extra none = record {
    outcome = raised "deadline_ms is required";
    records = [];
    units = [];
    notices = [];
  }
  with_deadline run_id extra (some deadline_ms) =
      on_repo run_id (bare_pipeline_run_id night.job.name run_id) extra deadline_ms w.repo_error

  unfoldable pub launch_pipeline_run : String → Dict Json → Night
  unfolding bare_pipeline_run_id get notify_gate
  launch_pipeline_run run_id extra = with_deadline run_id extra night.deadline_ms

  abbrev is_cron : Option Json → Bool
  is_cron none = true
  is_cron (some (str t)) = str_eq t trigger_cron
  is_cron (some v) = false

  -- A run off the schedule would hide one that is open.
  abbrev pub is_shadowing : List HistoryRecord → Dict Json → Bool
  is_shadowing history extra =
      not (is_cron (get "trigger" extra)) && is_some (open_pipeline_run history night.job.name)

  -- dispatch_occurrence for the kind pipeline
  unfoldable pub dispatch_pipeline : List HistoryRecord → String → Dict Json → Night
  unfolding launch_pipeline_run open_pipeline_run get
  dispatch_pipeline history run_id extra =
      if is_shadowing history extra
      then quietly already_running true []
      else launch_pipeline_run run_id extra

  -- The float of a number of microseconds in seconds is a parameter.
  module _ (run_id_of iso : ℕ → String) (seconds_of : ℕ → Json) where
    abbrev pub on_due : List HistoryRecord → Schedule.Due → Schedule.Decision → Night
    on_due history d Schedule.run = dispatch_pipeline history (run_id_of d.occurrence) (
        ("trigger", str trigger_cron)
        ∷ ("scheduled_for", str (iso d.occurrence))
        ∷ ("late_seconds", seconds_of d.late)
        ∷ [])
    on_due history d Schedule.missed = record {
      outcome = returned (other "missed") false;
      records =
          record_of night now missed none (
            some (
              ("reason", str "outside_catch_up_window")
              ∷ ("scheduled_for", str (iso d.occurrence))
              ∷ []))
          ∷ [];
      units = [];
      notices = if night.notifies_missed then "outside catch-up window" ∷ [] else [];
    }

    -- Without a cron there is no decision.
    abbrev pub scheduled : List HistoryRecord → Option Schedule.ScheduleResult → Night
    scheduled history none = quietly (other "not due (request only)") false []
    scheduled history (some Schedule.not_due) = quietly (other "not due") false []
    scheduled history (some (Schedule.due d)) = on_due history d d.decision

    abbrev pub free : List HistoryRecord → Option Schedule.ScheduleResult → Night
    free history decision =
        if is_live w.agent_status
        then quietly agent_already_live false
            (record_of night now skipped none (some (("reason", str "agent_name_live") ∷ [])) ∷ [])
        else scheduled history decision

    abbrev pub seen :
        List HistoryRecord → Option Schedule.ScheduleResult → Option HistoryRecord → Night
    seen history decision (some open_run) = reconcile history open_run
    seen history decision none = free history decision

    -- _process_pipeline_job
    unfoldable pub process_pipeline_job :
        List HistoryRecord → Option Schedule.ScheduleResult → Night
    unfolding has_ever_been_seen open_pipeline_run pipeline_run_is_live find_stale_running
        reconciled dispatch_pipeline strip
    process_pipeline_job history decision =
        if not (has_ever_been_seen history night.job.name)
        then quietly newly_registered false (record_of night now registered none none ∷ [])
        else seen history decision (open_pipeline_run history night.job.name)
