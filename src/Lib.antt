-- ===== src/Lib.antt =====
-- herdr-routines runs agents on a schedule: a timer calls `tick`, which decides for every job from
-- the run history and its cron whether a run is due, starts it, and records how it ended. Around
-- this core stand the nightly pipeline with its gates, its watchdog and the choice of its issue, the
-- update of the program by itself, the ledger of an audit's findings, and three sweeps that delete
-- what runs leave behind. This library models that core.
--
-- Files, with what they model of src/herdr_routines:
--   Prelude     names of the libraries, Boolean tests, lists, Python's dict, sorted, strip and `in`
--   Json        the values of json.loads, with Python's truth, `or` and None
--   History     history.py: HistoryRecord; Query is the queries, Codec is to_json_line and
--               from_dict, Files is reading, the rolls and maybe_rotate
--   Schedule    schedule.py: occurrences_since and decide
--   Findings    findings.py: finding_id; Diff is diff_findings, apply_diff and the operations on
--               the ledger
--   WaitLoop    wait_loop.py and the wait of herdr.py: prompt_with_watchdog
--   Gates       gates.py: Checks is the CI and commit checks, Polling is run_ci_gate, Threads is
--               gate 7, Specs is gate 2, Stages is gates 5 and 6
--   Tick        tick.py: run_tick, _record_unexpected_failure, _process_job of a routine, on the
--               queries of History; OpenRuns is the completion gates, Nightly is
--               _process_pipeline_job
--   Pipeline    pipeline_run.py, pipeline_stages.py and the session audit of pipeline_watchdog.py:
--               State is state.json, Stages the stage table, Sessions validate_stage_sessions,
--               Effect a stage that runs by effect, Agent a stage that an agent runs, CiFix the
--               fix rounds of gate 4, Run is run_pipeline
--   Watchdog    pipeline_watchdog.py: the discovery of runs and the test for a stall; Resume is
--               the handling of a stalled run, Sweep is reap_all
--   SelfUpdate  self_update.py: the commands of git, the guards, the records; Flow is the update
--               with its gate and the rollback
--   PickFeature pick_feature.py and claims.py: the choice of an issue; Claiming is the reclaim of
--               stale claims and select_and_claim_feature
--   Gc          gc.py: Merged is the evidence of a merge, Orphans is find_orphans, Delete is
--               run_gc_delete
--   TmpHygiene  tmp_hygiene.py: reap_tmp
--   ReportsPrune reports_prune.py: _sweep and its two callers
--   Witnesses   the theorems at concrete inputs
-- The proofs of a part stand in modules below it, named for what they prove.
--
-- State is passed explicitly: a history is the list of its records, oldest first, a directory the
-- list of its files, a ledger a record. An exception is a value of a result type, or none where one
-- handler alone is concerned. Reasons and log lines are data or left out. The outside world is a
-- parameter: what git, gh, herdr and the file system answer, the cron iterator and the wall clock,
-- the JSON reader of one line, isoformat and its inverse, casefold, upper, str of a value that is no
-- text, and the classes of regular expressions.
--
-- Instants are natural numbers of microseconds or seconds, as each file says; a float that the code
-- compares is taken at that grain. The enumeration of occurrences has one unit of fuel for each
-- microsecond of the interval and the polling of the checks one for each second of the timeout and
-- one more; that this is enough is proved. The watchdog runs on the list of rounds that the world
-- gives, and returns none only when they end before it does.
--
-- An exception that leaves the loop of the pipeline is an ending of its own. A pane that herdr is
-- asked to close may stay, and `git reset --keep` may be refused. The loop of the pipeline is
-- recursion on the list of stages, that of the fix rounds recursion on the rounds that are left. The
-- watchdog's sweep and the reclaim of claims recurse on their lists.
--
-- Not modelled: the handlers of audit and gated jobs and the triggers, which are parameters of
-- Tick; the runner; of the pipeline the texts of prompts and of the pull request, and the gates of
-- the stages, which are parameters of the stage loop; the preparation of a run, the selection of
-- targets, the review scan, auto-fix, the configuration, and everything that only prints.
pub mod Prelude
pub mod Json
pub mod History
pub mod Schedule
pub mod Findings
pub mod WaitLoop
pub mod Gates
pub mod Tick
pub mod Pipeline
pub mod SelfUpdate
pub mod Watchdog
pub mod PickFeature
pub mod Gc
pub mod TmpHygiene
pub mod ReportsPrune
pub mod Witnesses
