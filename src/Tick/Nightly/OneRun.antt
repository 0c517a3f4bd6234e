-- ===== src/Tick/Nightly/OneRun.antt =====
-- tick.py: the records and the units of one `_process_pipeline_job`, with a run open and without.
use herdr_routines.Prelude.{
  ℕ, String, str_eq, str_append, all_of, ◌≡◌, refl, ◌⊎◌, inl, inr, Bool, true, false, not, Option,
  none, some, List, [], ◌∷◌, if◌then◌else◌, if_both,
}
use herdr_routines.Prelude.Dict.{Dict, get}
use herdr_routines.Prelude.Texts.{strip, has_prefix}
use herdr_routines.Json.{Json, ℤ, str}
use herdr_routines.History.{
  State, done, failed, skipped, missed, interrupted_unknown, registered, running, HistoryRecord,
  is_terminal, is_running, trigger_cron,
}
use herdr_routines.History
use herdr_routines.History.Query.{has_ever_been_seen}
use herdr_routines.Schedule
use herdr_routines.Watchdog.{host_rebooted_after_state_write}
use herdr_routines.Tick.{already_running, agent_already_live}
use herdr_routines.Tick.OpenRuns.{open_pipeline_run}
use herdr_routines.Tick.Nightly.{
  NightJob, NightWorld, Night, quietly, bare_pipeline_run_id, failed_reason, classify_status,
  classify_match, classify_pipeline_outcome, independence_issue, audited, reconciled,
}
use herdr_routines.Tick.Nightly.Process.{
  is_live, pipeline_run_is_live, failed_night, closed, on_report, with_id, reconcile, on_launch,
  on_repo, with_deadline, launch_pipeline_run, is_shadowing, dispatch_pipeline, on_due, scheduled,
  seen, process_pipeline_job,
}

-- The record is the job's, of this tick.
abbrev pub IsOwn : NightJob → ℕ → HistoryRecord → Type 0
IsOwn night now r = (r.job ≡ night.job.name) × (r.ts ≡ now)

-- Nothing is launched, and the open run gets at most one record: a terminal one with its id.
abbrev pub Closes : NightJob → ℕ → HistoryRecord → Night → Type 0
Closes night now open_run n =
    (n.units ≡ [])
    × ((n.records ≡ [])
        ⊎ ((r : HistoryRecord) × ((n.records ≡ r ∷ [])
              × IsOwn night now r
              × (r.run_id ≡ open_run.run_id)
              × (is_terminal r.state ≡ true))))

abbrev ExtraIs : String → Json → HistoryRecord → Type 0
ExtraIs k v r = field_is r.extra
  where
    field_is : Option (Dict Json) → Type 0
    field_is none = ⊥
    field_is (some extra) = get k extra ≡ some v

-- The unit of a run id, and its record.
abbrev pub IsRunOf : NightJob → ℕ → String → String → HistoryRecord → Type 0
IsRunOf night now run_id bare r =
    IsOwn night now r
    × (is_running r.state ≡ true)
    × (r.run_id ≡ some run_id)
    × ExtraIs "pipeline_run_id" (str bare) r
    × ExtraIs "unit" (str (str_append "herdr-pipeline-" bare)) r

-- Nothing is launched and no run is recorded, or the occurrence that is due is: one unit, and the one
-- record of its run.
abbrev pub Starts : NightJob → ℕ → (ℕ → String) → Option Schedule.ScheduleResult → Night → Type 0
Starts night now run_id_of decision n =
    ((n.units ≡ []) × (all_of (λ (r : HistoryRecord). not (is_running r.state)) n.records ≡ true))
    ⊎ ((d : Schedule.Due) × ((decision ≡ some (Schedule.due d))
          × (d.decision ≡ Schedule.run)
          × ((bare : String) × ((bare
                  ≡ bare_pipeline_run_id night.job.name (run_id_of d.occurrence))
                × (n.units ≡ str_append "herdr-pipeline-" bare ∷ [])
                × ((r : HistoryRecord) × ((n.records ≡ r ∷ [])
                      × IsRunOf night now (run_id_of d.occurrence) bare r))))))

abbrev pub OneRun :
    NightJob
    → ℕ
    → (ℕ → String)
    → Option Schedule.ScheduleResult
    → Option HistoryRecord
    → Night
    → Type 0
OneRun night now run_id_of decision (some open_run) n = Closes night now open_run n
OneRun night now run_id_of decision none n = Starts night now run_id_of decision n

abbrev IsClosed : State × Option String → Type 0
IsClosed c = is_terminal c.0 ≡ true

module _ (lower : String → String) (status_in skip_reason : String → Option String) where
  status_terminal :
      (status : String) → is_terminal (classify_status lower status_in skip_reason status).0 ≡ true
  status_terminal status =
      by_prefix (has_prefix "ok" status) (has_prefix "skipped" status) (has_prefix "partial" status)
        (has_prefix "failed" status) (failed_reason status)
    where
      by_prefix :
          (a b c d : Bool) (reason : String)
          → IsClosed (
              if a
              then (done, none)
              else if b
              then (skipped, skip_reason status)
              else if c
              then (failed, some "partial_deadline")
              else if d
              then (failed, some reason)
              else (interrupted_unknown, some "outcome_marker_unrecognized"))
      by_prefix true b c d reason = refl
      by_prefix false true c d reason = refl
      by_prefix false false true d reason = refl
      by_prefix false false false true reason = refl
      by_prefix false false false false reason = refl

  reconciled_terminal :
      (doc : Option Json) (report : String)
      → is_terminal (reconciled lower status_in skip_reason doc report).0 ≡ true
  unfolding reconciled classify_pipeline_outcome
  reconciled_terminal doc report =
      audited_terminal (classify_match lower status_in skip_reason (status_in report))
        (match_terminal (status_in report))
    where
      match_terminal :
          (o : Option String) → is_terminal (classify_match lower status_in skip_reason o).0 ≡ true
      match_terminal none = refl
      match_terminal (some m) = status_terminal (lower (strip m))

      audited_terminal :
          (c : State × Option String)
          → is_terminal c.0 ≡ true
          → is_terminal (audited lower status_in skip_reason doc c).0 ≡ true
      audited_terminal (done, reason) h =
          by_issue (independence_issue lower status_in skip_reason doc)
        where
          by_issue :
              (b : Bool)
              → IsClosed
                  (if b then (failed, some "stage_independence_unverified") else (done, reason))
          by_issue true = refl
          by_issue false = refl
      audited_terminal (failed, reason) h = refl
      audited_terminal (skipped, reason) h = refl
      audited_terminal (missed, reason) h = refl
      audited_terminal (interrupted_unknown, reason) h = refl
      audited_terminal (registered, reason) h = h
      audited_terminal (History.State.scheduled, reason) h = h
      audited_terminal (running, reason) h = h

  module _ (reports : String) (exists : String → Bool) (w : NightWorld) (night : NightJob)
      (now : ℕ) where
    failed-Closes :
        (r : HistoryRecord) (extra : Dict Json) (reason : String)
        → Closes night now r (
            failed_night lower status_in skip_reason reports exists w night now r.run_id extra
              reason)
    failed-Closes r extra reason = (refl, inr (_, (refl, (refl, refl), refl, refl)))

    closed-Closes :
        (r : HistoryRecord) (bare : String) (c : State × Option String)
        → is_terminal c.0 ≡ true
        → Closes night now r
            (closed lower status_in skip_reason reports exists w night now r bare c)
    closed-Closes r bare (state, reason) h = (refl, inr (_, (refl, (refl, refl), refl, h)))

    report-Closes :
        (history : List HistoryRecord) (r : HistoryRecord) (bare report : String)
        → Closes night now r
            (on_report lower status_in skip_reason reports exists w night now history r bare report)
    report-Closes history r bare report =
        if_both (Closes night now r) (not (str_eq (strip report) ""))
          (λ _.
            closed-Closes r bare (reconciled lower status_in skip_reason (w.state_doc bare) report)
              (reconciled_terminal (w.state_doc bare) report))
          (λ _.
            if_both (Closes night now r)
              (host_rebooted_after_state_write (w.state_mtime bare) w.boot)
              (λ _. failed-Closes r _ "host_rebooted")
              (λ _.
                if_both (Closes night now r) _ (λ _. (refl, inl refl))
                  (λ _. failed-Closes r _ "no_report")))

    reconcile-Closes :
        (history : List HistoryRecord) (r : HistoryRecord)
        → Closes night now r
            (reconcile lower status_in skip_reason reports exists w night now history r)
    reconcile-Closes history r =
        if_both (Closes night now r)
          (pipeline_run_is_live lower status_in skip_reason reports exists w night now history)
          (λ _. (refl, inl refl)) (λ _. on r.run_id)
      where
        on :
            (o : Option String)
            → Closes night now r
                (with_id lower status_in skip_reason reports exists w night now history r o)
        on none = (refl, inl refl)
        on (some id) = report-Closes history r (bare_pipeline_run_id night.job.name id) _

    module _ (run_id_of iso : ℕ → String) (seconds_of : ℕ → Json) where
      module _ (d : Schedule.Due) (is_run : d.decision ≡ Schedule.run) where
        abbrev run_id : String
        run_id = run_id_of d.occurrence

        abbrev cron_extra : Dict Json
        cron_extra =
            ("trigger", str trigger_cron)
            ∷ ("scheduled_for", str (iso d.occurrence))
            ∷ ("late_seconds", seconds_of d.late)
            ∷ []

        abbrev IsDone : Night → Type 0
        IsDone n = Starts night now run_id_of (some (Schedule.due d)) n

        launch-Starts : IsDone (
            launch_pipeline_run lower status_in skip_reason reports exists w night now run_id
              cron_extra)
        unfolding launch_pipeline_run get
        launch-Starts = on_deadline night.deadline_ms
          where
            launched :
                (ms : ℕ) (o : Option (ℤ × String))
                → IsDone (
                    on_launch lower status_in skip_reason reports exists w night now run_id
                      (bare_pipeline_run_id night.job.name run_id)
                      cron_extra
                      ms
                      o)
            launched ms none = inr (
              d,
              (
                refl,
                is_run,
                (_, (refl, refl, (_, (refl, ((refl, refl), refl, refl, refl, refl))))),
              ),
            )
            launched ms (some (rc, e)) = inl (refl, refl)

            synced :
                (ms : ℕ) (o : Option String)
                → IsDone (
                    on_repo lower status_in skip_reason reports exists w night now run_id
                      (bare_pipeline_run_id night.job.name run_id)
                      cron_extra
                      ms
                      o)
            synced ms none = launched ms w.launch_error
            synced ms (some e) = inl (refl, refl)

            on_deadline :
                (o : Option ℕ)
                → IsDone (
                    with_deadline lower status_in skip_reason reports exists w night now run_id
                      cron_extra o)
            on_deadline none = inl (refl, refl)
            on_deadline (some ms) = synced ms w.repo_error

        dispatch-Starts :
            (history : List HistoryRecord)
            → IsDone (
                dispatch_pipeline lower status_in skip_reason reports exists w night now history
                  run_id cron_extra)
        unfolding dispatch_pipeline
        dispatch-Starts history =
            unless_shadowing (
              is_shadowing lower status_in skip_reason reports exists w night now history
                cron_extra)
          where
            unless_shadowing :
                (b : Bool)
                → IsDone (
                    if b
                    then quietly already_running true []
                    else launch_pipeline_run lower status_in skip_reason reports exists w night now
                        run_id cron_extra)
            unless_shadowing true = inl (refl, refl)
            unless_shadowing false = launch-Starts

      due-Starts :
          (history : List HistoryRecord) (d : Schedule.Due) (c : Schedule.Decision)
          → d.decision ≡ c
          → Starts night now run_id_of (some (Schedule.due d)) (
              on_due lower status_in skip_reason reports exists w night now run_id_of iso seconds_of
                history d c)
      due-Starts history d Schedule.run e = dispatch-Starts d e history
      due-Starts history d Schedule.missed e = inl (refl, refl)

      scheduled-Starts :
          (history : List HistoryRecord) (o : Option Schedule.ScheduleResult)
          → Starts night now run_id_of o (
              scheduled lower status_in skip_reason reports exists w night now run_id_of iso
                seconds_of history o)
      scheduled-Starts history none = inl (refl, refl)
      scheduled-Starts history (some Schedule.not_due) = inl (refl, refl)
      scheduled-Starts history (some (Schedule.due d)) = due-Starts history d d.decision refl

      -- For a pipeline job that the history knows, whatever herdr, systemd and the files answer: while a
      -- run is open nothing is launched, and the tick appends at most one record, a terminal one
      -- of the job with the open run's id. With no run open, either nothing is launched and no
      -- running record is appended, or the schedule is due to run, and the tick launches the one
      -- unit "herdr-pipeline-<run>" of the occurrence and appends exactly one record: the job's
      -- running record, with the run id of the occurrence, and with the run and the unit in its
      -- extra fields.
      pub process_pipeline_job-OneRun :
          (history : List HistoryRecord) (decision : Option Schedule.ScheduleResult)
          → has_ever_been_seen history night.job.name ≡ true
          → OneRun night now run_id_of decision (open_pipeline_run history night.job.name) (
              process_pipeline_job lower status_in skip_reason reports exists w night now run_id_of
                iso seconds_of history decision)
      unfolding process_pipeline_job
      process_pipeline_job-OneRun history decision known =
          rw known (on (open_pipeline_run history night.job.name))
        where
          on :
              (o : Option HistoryRecord)
              → OneRun night now run_id_of decision o (
                  seen lower status_in skip_reason reports exists w night now run_id_of iso
                    seconds_of history decision o)
          on (some r) = reconcile-Closes history r
          on none = unless_live (is_live w.agent_status)
            where
              unless_live :
                  (b : Bool)
                  → Starts night now run_id_of decision (
                      if b
                      then quietly agent_already_live false (
                          record {
                            ts = now;
                            job = night.job.name;
                            state = skipped;
                            run_id = none;
                            extra = some (("reason", str "agent_name_live") ∷ []);
                          }
                          ∷ [])
                      else scheduled lower status_in skip_reason reports exists w night now
                          run_id_of iso seconds_of history decision)
              unless_live true = inl (refl, refl)
              unless_live false = scheduled-Starts history decision
