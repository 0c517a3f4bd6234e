-- ===== src/Watchdog/Resume.antt =====
-- src/herdr_routines/pipeline_watchdog.py: `_resume_plan` and `_resume_run`. `RunWorld` is what the system
-- answers for one run; `unit_of` and `moment` are strftime and isoformat of the instant. The
-- stage in the name of a killed agent only goes into texts.
use herdr_routines.Prelude.{
  ℕ, suc, ◌+◌, ◌*◌, ◌-◌, ◌/◌, ◌==◌, ltb, leb, String, str_append, Bool, true, false, ◌&&◌, Option,
  none, some, List, [], ◌∷◌, ◌++◌, if◌then◌else◌, keep_if, map,
}
use herdr_routines.Prelude.Dict.{get, put}
use herdr_routines.Prelude.Sort.{sorted}
use herdr_routines.Json.{Json, ℤ, pos, negsuc, int, str, is_text}
use herdr_routines.History.{running, HistoryRecord, is_running, extra_get}
use herdr_routines.Pipeline.State.{Doc, opt_int, opt_str, fields_in, maybe_text}
use herdr_routines.Watchdog.{InflightRun, plain_str}

pub data Reason : Type 0 where
  no_repo_parent no_report : Reason
  cap_reached : ℤ → Reason
  no_record : Reason
  no_budget : Reason
  no_history : Reason

pub record ResumePlan : Type 0 where
  pub repo_parent : String
  pub report_path : String
  pub matching : HistoryRecord
  pub budget_ms : ℕ
  pub new_deadline : ℤ
  pub resume_count : ℤ
  pub unit_name : String
  pub resumed_from : Option String

abbrev pub Planned : Type 0
Planned = Option ResumePlan × Option Reason

abbrev pub ineligible : Reason → Planned
ineligible r = (none, some r)

-- resume_count >= MAX_PIPELINE_RESUMES
abbrev pub at_cap : ℤ → Bool
at_cap (pos n) = leb 1 n
at_cap (negsuc n) = false

abbrev pub next_count : ℤ → ℤ
next_count (pos n) = pos (suc n)
next_count (negsuc n) = if ltb 0 n then negsuc (n - 1) else pos 0

abbrev pub count_or_zero : Option ℤ → ℤ
count_or_zero none = pos 0
count_or_zero (some n) = n

abbrev pub resume_count_of : Doc → ℤ
resume_count_of raw = count_or_zero (opt_int (get "resume_count" raw))

abbrev pub first_record : String → List HistoryRecord → Option HistoryRecord
first_record run_id [] = none
first_record run_id (r ∷ rs) =
    let rest = first_record run_id rs in
    if is_running r.state && is_text run_id (extra_get "pipeline_run_id" r.extra)
    then some r
    else rest

-- int(ts.timestamp()), for an instant from 1970 on
abbrev pub unix_seconds : ℕ → ℕ
unix_seconds ts = (ts - 62_135_596_800 * 1_000_000) / 1_000_000

-- deadline - ts, where it is positive
abbrev budget_s : ℤ → ℕ → ℕ
budget_s (pos d) ts = d - ts
budget_s (negsuc k) ts = 0

abbrev or_deadline : Option ℤ → ℤ → ℤ
or_deadline none d = d
or_deadline (some d') d = d'

abbrev pub budget_of : InflightRun → HistoryRecord → ℕ
budget_of run r =
    budget_s (or_deadline (opt_int (extra_get "deadline_epoch" r.extra)) run.deadline_epoch)
      (unix_seconds r.ts)

module _ (unit_of : ℕ → String) (run : InflightRun) (now : ℕ) where
  abbrev pub plan_for : Doc → String → String → HistoryRecord → ℕ → Planned
  plan_for raw parent report r budget = if budget == 0 then ineligible no_budget else (
    some (record {
      repo_parent = parent;
      report_path = report;
      matching = r;
      budget_ms = budget * 1000;
      new_deadline = pos (now + budget);
      resume_count = next_count (resume_count_of raw);
      unit_name =
          str_append "herdr-pipeline-" (str_append run.run_id (str_append "-r" (unit_of now)));
      resumed_from = plain_str (extra_get "unit" r.extra);
    }),
    none,
  )

  abbrev pub with_record : Doc → String → String → Option HistoryRecord → Planned
  with_record raw parent report none = ineligible no_record
  with_record raw parent report (some r) = plan_for raw parent report r (budget_of run r)

  abbrev pub with_paths : Doc → List HistoryRecord → Option String → Option String → Planned
  with_paths raw history none report = ineligible no_repo_parent
  with_paths raw history (some parent) none = ineligible no_report
  with_paths raw history (some parent) (some report) =
      if at_cap (resume_count_of raw)
      then ineligible (cap_reached (resume_count_of raw))
      else with_record raw parent report (first_record run.run_id history)

  unfoldable pub resume_plan : Doc → List HistoryRecord → Planned
  unfolding get
  resume_plan raw history =
      with_paths raw history (opt_str (get "repo_parent" raw))
        (opt_str (get "report" (fields_in (get "artifact_paths" raw))))

-- `panes` is by whether the host rebooted; each Boolean is whether the call succeeds.
pub record RunWorld : Type 0 where
  pub state_doc : Option Json
  pub state_mtime : Option ℕ
  pub heartbeat_mtime : Option ℕ
  pub unit_active : Option Bool
  pub panes : Bool → Option (List (String × String))
  pub closes : String → Bool
  -- Does closing the panes end in an exception that is no HerdrCliError?
  pub close_raises : Bool
  -- Can the history be parsed, if it is there?
  pub readable : Bool
  pub appends : Bool
  pub rewrites : Bool
  pub launches : Bool
  pub reports : Bool

pub data Event : Type 0 where
  appended : HistoryRecord → Event
  pane_closed : String → Event
  state_rewritten : Doc → Event
  -- with the unit, its RuntimeMaxSec, the deadline and the wait of the argv
  launched : (unit : String) (runtime : ℕ) (deadline : ℤ) (wait_ms : ℕ) → Event
  reported : (outcome : String) → Event
  reason_added : Reason → Event
  notified : String → Event

pub record WatchdogAction : Type 0 where
  pub run_id : String
  pub killed_agents : List String
  pub has_report : Bool
  pub resumed : Bool

-- What a run's share of the sweep comes to; `raised` is an exception.
pub data Reaped : Type 0 where
  spared : Reaped
  acted : WatchdogAction → Reaped
  not_resumed : Reason → Reaped
  raised : Reaped

abbrev pub Sweep : Type 0
Sweep = List Event × Reaped

abbrev pub before : List Event → Sweep → Sweep
before es (fs, r) = (es ++ fs, r)

abbrev pub killed : RunWorld → List (String × String) → List String
killed w panes =
    map (λ (p : String × String). p.0) (keep_if (λ (p : String × String). w.closes p.1) panes)

abbrev pub closings : RunWorld → List (String × String) → List Event
closings w panes =
    map (λ (p : String × String). pane_closed p.1)
      (keep_if (λ (p : String × String). w.closes p.1) panes)

abbrev pub resumed_record : InflightRun → ResumePlan → ℕ → HistoryRecord
resumed_record run plan ts = record {
  ts = ts;
  job = plan.matching.job;
  state = running;
  run_id = plan.matching.run_id;
  extra = some (
      ("pipeline_run_id", str run.run_id)
      ∷ ("report", str plan.report_path)
      ∷ ("unit", str plan.unit_name)
      ∷ ("deadline_epoch", int plan.new_deadline)
      ∷ ("resume_count", int plan.resume_count)
      ∷ ("resumed_from", maybe_text plan.resumed_from)
      ∷ []);
}

abbrev pub resumed_state : ResumePlan → String → Doc → Doc
resumed_state plan moment raw =
    put "resumed_at" (str moment) (
      put "resume_count" (int plan.resume_count) (put "deadline_epoch" (int plan.new_deadline) raw))

module _ (le : String → String → Bool) (unit_of : ℕ → String) (moment : ℕ → String) (w : RunWorld)
    (run : InflightRun) (now ts : ℕ) where
  abbrev pub action : List String → (has_report resumed : Bool) → Sweep
  action names has_report resumed = (
    [],
    acted (record {
      run_id = run.run_id;
      killed_agents = sorted le names;
      has_report = has_report;
      resumed = resumed;
    }),
  )

  abbrev pub after_launch : List String → Sweep
  after_launch names =
      if w.launches
      then before (notified "stalled, resuming" ∷ []) (action names false true)
      else if w.reports
      then before (reported "failed (resume_failed)" ∷ notified "resume failed" ∷ [])
          (action names true false)
      else ([], raised)

  abbrev pub rewrite : ResumePlan → Doc → List Event
  rewrite plan raw =
      if w.rewrites then state_rewritten (resumed_state plan (moment now) raw) ∷ [] else []

  abbrev pub launch : ResumePlan → Doc → List String → Sweep
  launch plan raw names = before (rewrite plan raw) (
      before
        (launched plan.unit_name (plan.budget_ms / 1000 + 600) plan.new_deadline plan.budget_ms
          ∷ [])
        (after_launch names))

  abbrev pub resume_with : ResumePlan → Doc → Option (List (String × String)) → Sweep
  resume_with plan raw none = ([], spared)
  resume_with plan raw (some panes) =
      if w.appends
      then before (appended (resumed_record run plan ts) ∷ closings w panes)
          (if w.close_raises then ([], raised) else launch plan raw (killed w panes))
      else ([], raised)

  abbrev pub on_plan : Doc → (rebooted : Bool) → Planned → Sweep
  on_plan raw rebooted (some plan, reason) = resume_with plan raw (w.panes rebooted)
  on_plan raw rebooted (none, some reason) = ([], not_resumed reason)
  on_plan raw rebooted (none, none) = ([], spared)

  unfoldable pub resume_run : Doc → List HistoryRecord → (rebooted : Bool) → Sweep
  unfolding resume_plan sorted put
  resume_run raw history rebooted = on_plan raw rebooted (resume_plan unit_of run now raw history)
