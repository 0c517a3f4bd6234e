-- ===== src/Watchdog/Sweep.antt =====
-- src/herdr_routines/pipeline_watchdog.py: `_reap_stalled_run` and `run_watchdog`. `ts` is the instant as the
-- history has it; `worlds` is what the system answers for each run. The history is none without its file.
use herdr_routines.Prelude.{
  ℕ, String, Bool, true, false, Option, none, some, List, [], ◌∷◌, ◌++◌, if◌then◌else◌,
}
use herdr_routines.Json.{Json, obj, to_dict}
use herdr_routines.History.{HistoryRecord}
use herdr_routines.Watchdog.{InflightRun, is_stalled, host_rebooted_after_state_write}
use herdr_routines.Watchdog.Resume.{
  Reason, no_history, RunWorld, Event, appended, reported, reason_added, notified, WatchdogAction,
  Reaped, spared, acted, not_resumed, raised, Sweep, before, killed, closings, action, resume_run,
}

abbrev outcome_of : (rebooted : Bool) → List String → String
outcome_of true names = "failed (watchdog: host rebooted mid-run)"
outcome_of false [] = "failed (watchdog: no live worker found)"
outcome_of false (n ∷ names) = "failed (watchdog killed)"

abbrev title_of : (rebooted : Bool) → List String → String
title_of rebooted (n ∷ names) = "stalled, worker killed"
title_of true [] = "failed, host rebooted mid-run"
title_of false [] = "stalled, no report"

abbrev pub added : Option Reason → List Event
added none = []
added (some r) = reason_added r ∷ []

abbrev pub add_event : Event → Option (List HistoryRecord) → Option (List HistoryRecord)
add_event (appended r) (some history) = some (history ++ r ∷ [])
add_event e history = history

abbrev pub add_events : List Event → Option (List HistoryRecord) → Option (List HistoryRecord)
add_events [] history = history
add_events (e ∷ es) history = add_events es (add_event e history)

abbrev action_of : Reaped → List WatchdogAction → List WatchdogAction
action_of (acted a) actions = a ∷ actions
action_of r actions = actions

abbrev joined : Sweep → List Event × List WatchdogAction → List Event × List WatchdogAction
joined (es, r) (fs, actions) = (es ++ fs, action_of r actions)

module _ (le : String → String → Bool) (unit_of : ℕ → String) (moment : ℕ → String)
    (boot : Option ℕ) (now ts : ℕ) where
  module _ (w : RunWorld) (run : InflightRun) where
    abbrev pub report_and_notify : (rebooted : Bool) → Option Reason → List String → Sweep
    report_and_notify rebooted reason names =
        if w.reports
        then before
            (reported (outcome_of rebooted names) ∷ added reason
              ++ notified (title_of rebooted names) ∷ [])
            (action le unit_of moment w run now ts names true false)
        else ([], raised)

    abbrev pub kill_listed :
        (rebooted : Bool) → Option Reason → Option (List (String × String)) → Sweep
    kill_listed rebooted reason none = ([], spared)
    kill_listed rebooted reason (some panes) = before (closings w panes) (
        if w.close_raises then ([], raised) else report_and_notify rebooted reason (killed w panes))

    abbrev pub kill_and_report : (rebooted : Bool) → Option Reason → Sweep
    kill_and_report rebooted reason = kill_listed rebooted reason (w.panes rebooted)

    abbrev pub after_resume : (rebooted : Bool) → Sweep → Sweep
    after_resume rebooted (es, not_resumed reason) =
        before es (kill_and_report rebooted (some reason))
    after_resume rebooted (es, r) = (es, r)

    abbrev pub try_resume : (rebooted : Bool) → Option Json → Option (List HistoryRecord) → Sweep
    try_resume rebooted (some (obj fs)) (some history) =
        after_resume rebooted
          (resume_run le unit_of moment w run now ts (to_dict fs) history rebooted)
    try_resume rebooted (some (obj fs)) none = kill_and_report rebooted (some no_history)
    try_resume rebooted _ history = kill_and_report rebooted none

    abbrev pub on_unit : Option Bool → Option (List HistoryRecord) → Sweep
    on_unit (some false) history =
        if w.readable
        then try_resume (host_rebooted_after_state_write w.state_mtime boot) w.state_doc history
        else ([], raised)
    on_unit _ history = ([], spared)

    -- _reap_stalled_run
    unfoldable pub reap_stalled_run : Option (List HistoryRecord) → Sweep
    unfolding is_stalled resume_run host_rebooted_after_state_write
    reap_stalled_run history =
        if is_stalled run now w.state_mtime w.heartbeat_mtime boot
        then on_unit w.unit_active history
        else ([], spared)

  -- A run that raises is passed over.
  unfoldable pub run_watchdog :
      (String → RunWorld)
      → List InflightRun
      → Option (List HistoryRecord)
      → List Event × List WatchdogAction
  unfolding reap_stalled_run
  run_watchdog worlds [] history = ([], [])
  run_watchdog worlds (run ∷ runs) history =
      joined (reap_stalled_run (worlds run.run_id) run history) (
        run_watchdog worlds runs
          (add_events (reap_stalled_run (worlds run.run_id) run history).0 history))
