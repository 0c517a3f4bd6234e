-- ===== src/Watchdog/Spared.antt =====
-- pipeline_watchdog.py: what is done about a run that is known to be dead.
use herdr_routines.Prelude.{
  ℕ, ◌==◌, ◌+◌, ◌/◌, ◌||◌, ◌≡◌, ◌⊎◌, inl, inr, refl, sym, subst, arith, any_of, any_of-append, map,
  keep_if, [], ◌∷◌, String, Bool, true, false, Option, none, some, List, if◌then◌else◌, if_both,
}
use herdr_routines.Json.{Json, null, bool, int, float, str, arr, obj, to_dict}
use herdr_routines.History.{HistoryRecord}
use herdr_routines.Prelude.Dict.{get}
use herdr_routines.Pipeline.State.{Doc, opt_str, fields_in}
use herdr_routines.Watchdog.{InflightRun, is_stalled, host_rebooted_after_state_write}
use herdr_routines.Watchdog.Resume.{
  Reason, no_history, Planned, RunWorld, WatchdogAction, acted, raised, Sweep, killed, cap_reached,
  first_record, budget_of, after_launch, on_plan, resume_plan, resume_run, with_paths, with_record,
  ineligible, at_cap, resume_count_of, Event, appended, pane_closed, state_rewritten, launched,
  reported, before, closings, ResumePlan, launch, rewrite, resumed_record, resumed_state,
}
use herdr_routines.Watchdog.Sweep.{
  report_and_notify, kill_and_report, after_resume, try_resume, reap_stalled_run,
}

abbrev is_launch : Event → Bool
is_launch (launched unit runtime deadline wait) = true
is_launch _ = false

abbrev is_report : Event → Bool
is_report (reported outcome) = true
is_report _ = false

-- Either the run was resumed, by a launch that succeeds and without a report, or its terminal report was
-- written. With `launching`, the launch stands before these events.
abbrev pub Settled : RunWorld → (launching : Bool) → Sweep → Type 0
Settled w launching (es, r) =
    (a : WatchdogAction) × ((r ≡ acted a)
      × (((a.resumed ≡ true)
            × (a.has_report ≡ false)
            × (w.launches ≡ true)
            × ((launching || any_of is_launch es) ≡ true)
            × (any_of is_report es ≡ false))
          ⊎ ((a.resumed ≡ false) × (a.has_report ≡ true) × (any_of is_report es ≡ true))))

abbrev pub Handled : RunWorld → Sweep → Type 0
Handled w s = Settled w false s

Settled-before :
    (w : RunWorld) (l : Bool) (es : List Event) (s : Sweep)
    → any_of is_report es ≡ false
    → Settled w (l || any_of is_launch es) s
    → Settled w l (before es s)
Settled-before w l es (fs, r) q (a, (e, inl (x, y, z, on, quiet))) =
    let reports = any_of-append is_report es fs in
    let launches = any_of-append is_launch es fs in
    (a, (e, inl (x, y, z, ground (arith, launches, on), ground (arith, reports, q, quiet))))
Settled-before w l es (fs, r) q (a, (e, inr (x, y, told))) =
    let reports = any_of-append is_report es fs in
    (a, (e, inr (x, y, ground (arith, reports, q, told))))

closings-no_report :
    (ps : List (String × String))
    → any_of is_report (map (λ (p : String × String). pane_closed p.1) ps) ≡ false
closings-no_report [] = refl
closings-no_report (p ∷ ps) = closings-no_report ps

closings-no_launch :
    (ps : List (String × String))
    → any_of is_launch (map (λ (p : String × String). pane_closed p.1) ps) ≡ false
closings-no_launch [] = refl
closings-no_launch (p ∷ ps) = closings-no_launch ps

closed_before :
    (w : RunWorld) (panes : List (String × String)) (s : Sweep)
    → Handled w s
    → Handled w (before (closings w panes) s)
closed_before w panes s h =
    let shut = keep_if (λ (p : String × String). w.closes p.1) panes in
    Settled-before w false (closings w panes) s (closings-no_report shut)
      (subst (λ (b : Bool). Settled w b s) (sym (closings-no_launch shut)) h)

module _ (le : String → String → Bool) (unit_of : ℕ → String) (moment : ℕ → String)
    (boot : Option ℕ) (now ts : ℕ) (w : RunWorld) (run : InflightRun)
    (panes : List (String × String)) (can_append : w.appends ≡ true) (can_report : w.reports ≡ true)
    (can_close : w.close_raises ≡ false) (can_read : w.readable ≡ true) where
  reported-Handled :
      (rebooted : Bool) (reason : Option Reason) (names : List String)
      → Handled w (report_and_notify le unit_of moment boot now ts w run rebooted reason names)
  reported-Handled rebooted reason names = rw can_report (_, (refl, inr (refl, refl, refl)))

  launch-Handled :
      (names : List String) → Settled w true (after_launch le unit_of moment w run now ts names)
  launch-Handled names =
      if_both (Settled w true) w.launches (λ e. (_, (refl, inl (refl, refl, e, refl, refl))))
        (λ _. rw can_report (_, (refl, inr (refl, refl, refl))))

  resumed-Handled :
      (plan : ResumePlan) (d : Doc)
      → Handled w (launch le unit_of moment w run now ts plan d (killed w panes))
  resumed-Handled plan d =
      Settled-before w false (rewrite le unit_of moment w run now ts plan d) _
        (no_report w.rewrites)
        (subst (λ (b : Bool). Settled w b (started plan)) (sym (no_launch w.rewrites))
          (Settled-before w false
            (launched plan.unit_name (plan.budget_ms / 1000 + 600) plan.new_deadline plan.budget_ms
              ∷ [])
            (after_launch le unit_of moment w run now ts (killed w panes)) refl
            (launch-Handled (killed w panes))))
    where
      started : ResumePlan → Sweep
      started plan =
          before
            (launched plan.unit_name (plan.budget_ms / 1000 + 600) plan.new_deadline plan.budget_ms
              ∷ [])
            (after_launch le unit_of moment w run now ts (killed w panes))

      no_report :
          (b : Bool)
          → any_of is_report
              (if b then state_rewritten (resumed_state plan (moment now) d) ∷ [] else [])
            ≡ false
      no_report true = refl
      no_report false = refl

      no_launch :
          (b : Bool)
          → any_of is_launch
              (if b then state_rewritten (resumed_state plan (moment now) d) ∷ [] else [])
            ≡ false
      no_launch true = refl
      no_launch false = refl

  kill-Handled :
      (rebooted : Bool) (reason : Option Reason)
      → w.panes rebooted ≡ some panes
      → Handled w (kill_and_report le unit_of moment boot now ts w run rebooted reason)
  kill-Handled rebooted reason e =
      rw (e, can_close)
        (closed_before w panes
          (report_and_notify le unit_of moment boot now ts w run rebooted reason (killed w panes))
          (reported-Handled rebooted reason (killed w panes)))

  -- A plan or a reason.
  abbrev Decided : Planned → Type 0
  Decided (none, none) = ⊥
  Decided _ = Unit

  plan-Decided :
      (d : Doc) (history : List HistoryRecord) → Decided (resume_plan unit_of run now d history)
  unfolding resume_plan
  plan-Decided d history =
      on_paths (opt_str (get "repo_parent" d))
        (opt_str (get "report" (fields_in (get "artifact_paths" d))))
    where
      on_record :
          (parent report : String) (o : Option HistoryRecord)
          → Decided (with_record unit_of run now d parent report o)
      on_record parent report none = tt
      on_record parent report (some r) = if_both Decided (budget_of run r == 0) (λ _. tt) (λ _. tt)

      on_paths :
          (parent report : Option String)
          → Decided (with_paths unit_of run now d history parent report)
      on_paths none report = tt
      on_paths (some parent) none = tt
      on_paths (some parent) (some report) = capped (at_cap (resume_count_of d))
        where
          capped :
              (b : Bool)
              → Decided (
                  if b
                  then ineligible (cap_reached (resume_count_of d))
                  else with_record unit_of run now d parent report
                      (first_record run.run_id history))
          capped true = tt
          capped false = on_record parent report (first_record run.run_id history)

  resume-Handled :
      (rebooted : Bool) (d : Doc) (p : Planned)
      → Decided p
      → w.panes rebooted ≡ some panes
      → Handled w (
          after_resume le unit_of moment boot now ts w run rebooted
            (on_plan le unit_of moment w run now ts d rebooted p))
  resume-Handled rebooted d (some plan, reason) h e = rw e (
      if_both
        (λ (s : Sweep). Handled w (after_resume le unit_of moment boot now ts w run rebooted s))
        w.appends
        (λ _. acted-Handled _ (
          Settled-before w false (appended (resumed_record run plan ts) ∷ []) then_launch refl (
            if_both (λ (s : Sweep). Handled w (before (closings w panes) s)) w.close_raises
              (λ raises. absurd cc)
              (λ _.
                closed_before w panes
                  (launch le unit_of moment w run now ts plan d (killed w panes))
                  (resumed-Handled plan d)))))
        (λ refused. absurd cc))
    where
      then_launch : Sweep
      then_launch = before (closings w panes) (
          if w.close_raises
          then ([], raised)
          else launch le unit_of moment w run now ts plan d (killed w panes))

      acted-Handled :
          (s : Sweep)
          → Handled w s
          → Handled w (after_resume le unit_of moment boot now ts w run rebooted s)
      acted-Handled (es, r) (a, (same, h)) = rw same (a, (refl, h))
  resume-Handled rebooted d (none, some reason) h e = kill-Handled rebooted (some reason) e
  resume-Handled rebooted d (none, none) h e = absurd h

  try-Handled :
      (rebooted : Bool) (doc : Option Json) (history : Option (List HistoryRecord))
      → w.panes rebooted ≡ some panes
      → Handled w (try_resume le unit_of moment boot now ts w run rebooted doc history)
  unfolding resume_run
  try-Handled rebooted (some (obj fs)) (some history) e =
      resume-Handled rebooted (to_dict fs) (resume_plan unit_of run now (to_dict fs) history)
        (plan-Decided (to_dict fs) history) e
  try-Handled rebooted (some (obj fs)) none e = kill-Handled rebooted (some no_history) e
  try-Handled rebooted none history e = kill-Handled rebooted none e
  try-Handled rebooted (some null) history e = kill-Handled rebooted none e
  try-Handled rebooted (some (bool b)) history e = kill-Handled rebooted none e
  try-Handled rebooted (some (int n)) history e = kill-Handled rebooted none e
  try-Handled rebooted (some (float x)) history e = kill-Handled rebooted none e
  try-Handled rebooted (some (str s)) history e = kill-Handled rebooted none e
  try-Handled rebooted (some (arr xs)) history e = kill-Handled rebooted none e

  -- A run that has stalled and whose unit is known to be inactive is dealt with in this sweep, if its
  -- agents can be listed and closed without an exception other than HerdrCliError, the history can
  -- be read and the history and the report can be written: either a resume of it is launched with
  -- success, and no report is written, or its terminal report is written.
  pub reap_stalled_run_acts :
      (history : Option (List HistoryRecord))
      → is_stalled run now w.state_mtime w.heartbeat_mtime boot ≡ true
      → w.unit_active ≡ some false
      → w.panes (host_rebooted_after_state_write w.state_mtime boot) ≡ some panes
      → Handled w (reap_stalled_run le unit_of moment boot now ts w run history)
  unfolding reap_stalled_run
  reap_stalled_run_acts history stalled dead listed =
      rw (stalled, dead)
        (if_both (Handled w) w.readable
          (λ _.
            try-Handled (host_rebooted_after_state_write w.state_mtime boot) w.state_doc history
              listed)
          (λ unread. absurd cc))
