-- ===== src/Tick/OpenRuns.antt =====
-- src/herdr_routines/tick.py: `_open_pipeline_run`.
use herdr_routines.Prelude.{String, Option, none, some, List, if◌then◌else◌}
use herdr_routines.History.{HistoryRecord}
use herdr_routines.History.Query.{read_job, run_id_in, terminal_run_ids, latest_running}

abbrev open_of : List String → Option HistoryRecord → Option HistoryRecord
open_of ids none = none
open_of ids (some r) = if run_id_in r.run_id ids then none else some r

unfoldable pub open_pipeline_run : List HistoryRecord → String → Option HistoryRecord
unfolding read_job terminal_run_ids latest_running
open_pipeline_run records job_name =
    let rs = read_job records job_name none in open_of (terminal_run_ids rs) (latest_running rs)
