-- ===== src/Watchdog.antt =====
-- src/herdr_routines/pipeline_watchdog.py: which runs are in flight, and which of them have stalled. Instants
-- are seconds since 1970; a file is what json.loads returns, or none when it cannot be read.
-- `lower` is str.lower.
pub mod Resume
pub mod Sweep
pub mod Launches
pub mod Once
pub mod Sweeps
pub mod Spared
use herdr_routines.Prelude.{
  ℕ, suc, ◌+◌, ◌*◌, ◌-◌, ltb, String, str_eq, str_append, Bool, true, false, not, ◌&&◌, ◌||◌,
  Option, none, some, List, [], ◌∷◌, ◌++◌, if◌then◌else◌, any_of, is_some,
}
use herdr_routines.Prelude.Dict.{Dict, get, put}
use herdr_routines.Json.{Json, ℤ, pos, negsuc, int, str, obj, to_dict}
use herdr_routines.History.{HistoryRecord, is_running, extra_get}
use herdr_routines.Pipeline.State.{Doc, opt_int, opt_str, fields_in}
use herdr_routines.Pipeline.Stages.{stages}
use herdr_routines.Pipeline.Sessions.{Issue, validate_stage_sessions}

abbrev deadline_grace : ℕ
deadline_grace = 30 * 60

abbrev heartbeat_stale : ℕ
heartbeat_stale = 20 * 60

abbrev boot_slop : ℕ
boot_slop = 60

pub record InflightRun : Type 0 where
  pub run_id : String
  pub state_path : String
  pub deadline_epoch : ℤ
  pub current_stage : Option ℤ
  pub stage_sessions_issue : Option Issue

abbrev noted : Option String → Option ℤ → Dict ℤ → Dict ℤ
noted (some run_id) (some deadline) d = put run_id deadline d
noted _ _ d = d

abbrev pub plain_str : Option Json → Option String
plain_str (some (str s)) = some s
plain_str _ = none

abbrev deadlines_from : Dict ℤ → List HistoryRecord → Dict ℤ
deadlines_from d [] = d
deadlines_from d (r ∷ rs) =
    deadlines_from
      (if is_running r.state
        then noted (plain_str (extra_get "pipeline_run_id" r.extra))
            (opt_int (extra_get "deadline_epoch" r.extra)) d
        else d)
      rs

unfoldable pub recorded_pipeline_deadlines : List HistoryRecord → Dict ℤ
unfolding get put
recorded_pipeline_deadlines records = deadlines_from [] records

abbrev path_of : Option String → List String
path_of none = []
path_of (some p) = p ∷ []

-- Below the directory of the reports, of which the path is the first argument.
unfoldable pub candidate_report_paths : String → String → Doc → List String
unfolding get
candidate_report_paths reports run_id raw =
    path_of (opt_str (get "report" (fields_in (get "artifact_paths" raw))))
    ++ str_append reports (str_append "/pipeline-" (str_append run_id ".md"))
      ∷ str_append reports (str_append "/" (str_append run_id ".md"))
      ∷ []

-- Tick's deadline, if it recorded one, and else that of the file.
abbrev chosen_deadline : Option ℤ → Option ℤ → Option ℤ
chosen_deadline (some recorded) own = some recorded
chosen_deadline none own = own

module _ (lower : String → String) (reports : String) (exists : String → Bool)
    (deadlines : Dict ℤ) where
  abbrev has_terminal_report : String → Doc → Bool
  has_terminal_report run_id raw = any_of exists (candidate_report_paths reports run_id raw)

  abbrev with_deadline : String → String → Doc → Option ℤ → Option InflightRun
  with_deadline path run_id raw none = none
  with_deadline path run_id raw (some deadline) =
      if has_terminal_report run_id raw
      then none
      else some (record {
        run_id = run_id;
        state_path = path;
        deadline_epoch = deadline;
        current_stage = opt_int (get "current_stage" raw);
        stage_sessions_issue = validate_stage_sessions lower raw stages;
      })

  abbrev with_run_id : String → Doc → Option String → Option InflightRun
  with_run_id path raw none = none
  with_run_id path raw (some run_id) =
      with_deadline path run_id raw
        (chosen_deadline (get run_id deadlines) (opt_int (get "deadline_epoch" raw)))

  unfoldable pub parse_state_json : String → Option Json → Option InflightRun
  unfolding get candidate_report_paths validate_stage_sessions
  parse_state_json path (some (obj fs)) =
      with_run_id path (to_dict fs) (opt_str (get "run_id" (to_dict fs)))
  parse_state_json path _ = none

  abbrev keep_run : Option InflightRun → List InflightRun → List InflightRun
  keep_run none runs = runs
  keep_run (some run) runs = run ∷ runs

  -- The files in the order of their paths.
  unfoldable pub find_inflight_runs : List (String × Option Json) → List InflightRun
  unfolding parse_state_json
  find_inflight_runs [] = []
  find_inflight_runs ((path, doc) ∷ files) =
      keep_run (parse_state_json path doc) (find_inflight_runs files)

-- d + n < now
abbrev pub is_past : ℤ → ℕ → ℕ → Bool
is_past (pos d) n now = ltb (d + n) now
is_past (negsuc k) n now = ltb n (now + suc k)

unfoldable pub heartbeat_is_stale : Option ℕ → ℕ → Bool
heartbeat_is_stale none now = true
heartbeat_is_stale (some mtime) now = ltb (mtime + heartbeat_stale) now

unfoldable pub host_rebooted_after_state_write : (mtime boot : Option ℕ) → Bool
host_rebooted_after_state_write (some mtime) (some boot) = ltb (mtime + boot_slop) boot
host_rebooted_after_state_write _ _ = false

unfoldable pub is_stalled : InflightRun → (now : ℕ) (mtime heartbeat boot : Option ℕ) → Bool
unfolding heartbeat_is_stale host_rebooted_after_state_write
is_stalled run now mtime heartbeat boot =
    host_rebooted_after_state_write mtime boot
    || (is_past run.deadline_epoch deadline_grace now && heartbeat_is_stale heartbeat now)
