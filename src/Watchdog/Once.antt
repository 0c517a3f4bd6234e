-- ===== src/Watchdog/Once.antt =====
-- pipeline_watchdog.py: the resumes of one sweep, and their cap.
use herdr_routines.Prelude.{
  ℕ, suc, ◌+◌, ◌/◌, ◌==◌, String, ◌≡◌, refl, sym, ap, ◌∙◌, inl, inr, Bool, true, false, Option,
  none, some, List, [], ◌∷◌, ◌++◌, if◌then◌else◌, if_both, keep_if, subst, arith,
}
use herdr_routines.Prelude.Dict.{get, put, get-put}
use herdr_routines.Json.{Json, to_dict, ℤ, pos, int, str, obj}
use herdr_routines.History.{HistoryRecord}
use herdr_routines.Pipeline.State.{Doc, opt_int, opt_str, fields_in, of_dict}
use herdr_routines.Pipeline.State.Reread.{to_dict-of_dict}
use herdr_routines.Watchdog.{InflightRun, is_stalled, host_rebooted_after_state_write}
use herdr_routines.Watchdog.Resume.{
  Reason, no_budget, no_history, ineligible, ResumePlan, Planned, at_cap, next_count,
  resume_count_of, with_record, with_paths, resume_plan, RunWorld, Event, state_rewritten, launched,
  spared, acted, not_resumed, raised, Sweep, killed, closings, resumed_state, after_launch, launch,
  resume_with, on_plan, resume_run, first_record,
}
use herdr_routines.Watchdog.Launches.{
  Idle, Idle-append, closings-Idle, Once, Once-after, Once-before, Idle-Once,
}
use herdr_routines.Watchdog.Sweep.{
  report_and_notify, kill_listed, kill_and_report, after_resume, try_resume, on_unit,
  reap_stalled_run,
}

module _ (le : String → String → Bool) (unit_of : ℕ → String) (moment : ℕ → String)
    (boot : Option ℕ) (now ts : ℕ) (w : RunWorld) (run : InflightRun) where
  report-Idle :
      (rebooted : Bool) (reason : Option Reason) (names : List String)
      → Idle (report_and_notify le unit_of moment boot now ts w run rebooted reason names).0
  report-Idle rebooted none names =
      if_both (λ (s : Sweep). Idle s.0) w.reports (λ _. (refl, λ d. refl)) (λ _. (refl, λ d. refl))
  report-Idle rebooted (some r) names =
      if_both (λ (s : Sweep). Idle s.0) w.reports (λ _. (refl, λ d. refl)) (λ _. (refl, λ d. refl))

  listed-Idle :
      (rebooted : Bool) (reason : Option Reason) (o : Option (List (String × String)))
      → Idle (kill_listed le unit_of moment boot now ts w run rebooted reason o).0
  listed-Idle rebooted reason none = (refl, λ d. refl)
  listed-Idle rebooted reason (some panes) =
      let told =
        report_and_notify le unit_of moment boot now ts w run rebooted reason (killed w panes) in
      Idle-append (closings w panes) (if w.close_raises then ([], raised) else told).0
        (closings-Idle (keep_if (λ (p : String × String). w.closes p.1) panes))
        (if_both (λ (s : Sweep). Idle s.0) w.close_raises (λ _. (refl, λ d. refl))
          (λ _. report-Idle rebooted reason (killed w panes)))

  kill-Idle :
      (rebooted : Bool) (reason : Option Reason)
      → Idle (kill_and_report le unit_of moment boot now ts w run rebooted reason).0
  kill-Idle rebooted reason = listed-Idle rebooted reason (w.panes rebooted)

  abbrev IsPlan : Doc → Planned → Type 0
  IsPlan d (none, r) = Unit
  IsPlan d (some plan, r) =
      (at_cap (resume_count_of d) ≡ false) × (plan.resume_count ≡ next_count (resume_count_of d))

  paths-IsPlan :
      (d : Doc) (history : List HistoryRecord) (parent report : Option String)
      → IsPlan d (with_paths unit_of run now d history parent report)
  paths-IsPlan d history none report = tt
  paths-IsPlan d history (some parent) none = tt
  paths-IsPlan d history (some parent) (some report) =
      if_both (IsPlan d) (at_cap (resume_count_of d)) (λ _. tt)
        (λ below. record_plan below (first_record run.run_id history))
    where
      record_plan :
          (below : at_cap (resume_count_of d) ≡ false) (o : Option HistoryRecord)
          → IsPlan d (with_record unit_of run now d parent report o)
      record_plan below none = tt
      record_plan below (some r) = chosen (_ == 0) _ refl
        where
          chosen :
              (b : Bool) (plan : ResumePlan)
              → plan.resume_count ≡ next_count (resume_count_of d)
              → IsPlan d (if b then ineligible no_budget else (some plan, none))
          chosen true plan e = tt
          chosen false plan e = (below, e)

  resume_plan-IsPlan :
      (d : Doc) (history : List HistoryRecord) → IsPlan d (resume_plan unit_of run now d history)
  unfolding resume_plan
  resume_plan-IsPlan d history =
      paths-IsPlan d history (opt_str (get "repo_parent" d))
        (opt_str (get "report" (fields_in (get "artifact_paths" d))))

  at_cap_next : (n : ℕ) → at_cap (next_count (pos n)) ≡ true
  at_cap_next n = ground arith

  written_cap :
      (plan : ResumePlan) (m : String) (d : Doc) (n : ℕ)
      → resume_count_of d ≡ pos n
      → plan.resume_count ≡ next_count (resume_count_of d)
      → at_cap (resume_count_of (resumed_state plan m d)) ≡ true
  unfolding get put
  written_cap plan m d n e p =
      let count = p ∙ ap next_count e in
      ap at_cap (ap (λ (o : Option Json). or_none (opt_int o)) (counted plan m d))
      ∙ ap at_cap count
      ∙ at_cap_next n
    where
      or_none : Option ℤ → ℤ
      or_none none = pos 0
      or_none (some c) = c

      counted :
          (plan : ResumePlan) (m : String) (d : Doc)
          → get "resume_count" (resumed_state plan m d) ≡ some (int plan.resume_count)
      counted plan m d =
          get-put "resumed_at" "resume_count" (str m) (
            put "resume_count" (int plan.resume_count)
              (put "deadline_epoch" (int plan.new_deadline) d))
          ∙ get-put "resume_count" "resume_count" (int plan.resume_count)
              (put "deadline_epoch" (int plan.new_deadline) d)

  after_launch-Idle :
      (names : List String) → Idle (after_launch le unit_of moment w run now ts names).0
  after_launch-Idle names =
      if_both (λ (s : Sweep). Idle s.0) w.launches (λ _. (refl, λ d. refl))
        (λ _.
          if_both (λ (s : Sweep). Idle s.0) w.reports (λ _. (refl, λ d. refl))
            (λ _. (refl, λ d. refl)))

  module _ (can_write : w.rewrites ≡ true) (d : Doc) (n : ℕ)
      (counted : resume_count_of d ≡ pos n) where
    resumed-Once :
        (plan : ResumePlan) (o : Option (List (String × String)))
        → at_cap (resume_count_of d) ≡ false
        → plan.resume_count ≡ next_count (resume_count_of d)
        → Once d (resume_with le unit_of moment w run now ts plan d o).0
    resumed-Once plan none below e = inl (refl, refl)
    resumed-Once plan (some panes) below e =
        if_both (λ (s : Sweep). Once d s.0) w.appends
          (λ _.
            Once-after d (closings w panes)
              (if w.close_raises
                then ([], raised)
                else launch le unit_of moment w run now ts plan d (killed w panes)).0
              (closings-Idle (keep_if (λ (p : String × String). w.closes p.1) panes))
              (if_both (λ (s : Sweep). Once d s.0) w.close_raises (λ _. inl (refl, refl))
                (λ _. subst (λ b. Once d (then_launched b)) (sym can_write) now_launched)))
          (λ _. inl (refl, refl))
      where
        then_launched : Bool → List Event
        then_launched b =
            (if b then state_rewritten (resumed_state plan (moment now) d) ∷ [] else [])
            ++ launched plan.unit_name (plan.budget_ms / 1000 + 600) plan.new_deadline
                plan.budget_ms
              ∷ (after_launch le unit_of moment w run now ts (killed w panes)).0

        now_launched : Once d (then_launched true)
        now_launched =
            let idle = after_launch-Idle (killed w panes) in
            inr (
              ap suc idle.0,
              below,
              subst (λ (x : Doc). at_cap (resume_count_of x) ≡ true)
                  (sym (idle.1 (resumed_state plan (moment now) d)))
                  (written_cap plan (moment now) d n counted e),
            )

    plan-Once :
        (rebooted : Bool) (p : Planned)
        → IsPlan d p
        → Once d (on_plan le unit_of moment w run now ts d rebooted p).0
    plan-Once rebooted (some plan, reason) h = resumed-Once plan (w.panes rebooted) h.0 h.1
    plan-Once rebooted (none, some reason) h = inl (refl, refl)
    plan-Once rebooted (none, none) h = inl (refl, refl)

    after-Once :
        (rebooted : Bool) (s : Sweep)
        → Once d s.0
        → Once d (after_resume le unit_of moment boot now ts w run rebooted s).0
    after-Once rebooted (es, spared) h = h
    after-Once rebooted (es, acted a) h = h
    after-Once rebooted (es, raised) h = h
    after-Once rebooted (es, not_resumed reason) h =
        Once-before d es _ h (kill-Idle rebooted (some reason))

    resume-Once :
        (rebooted : Bool) (o : Option (List HistoryRecord))
        → Once d
            (try_resume le unit_of moment boot now ts w run rebooted (some (obj (of_dict d))) o).0
    unfolding resume_run
    resume-Once rebooted none =
        Idle-Once d
          (kill_and_report le unit_of moment boot now ts w run rebooted (some no_history)).0
          (kill-Idle rebooted (some no_history))
    resume-Once rebooted (some history) =
        after-Once rebooted
          (resume_run le unit_of moment w run now ts (to_dict (of_dict d)) history rebooted)
          (subst
            (λ (x : Doc). Once d (resume_run le unit_of moment w run now ts x history rebooted).0)
            (sym (to_dict-of_dict d))
            (plan-Once rebooted (resume_plan unit_of run now d history)
              (resume_plan-IsPlan d history)))

    pub reap-Once :
        (history : Option (List HistoryRecord))
        → w.state_doc ≡ some (obj (of_dict d))
        → Once d (reap_stalled_run le unit_of moment boot now ts w run history).0
    unfolding reap_stalled_run
    reap-Once history e =
        if_both (λ (s : Sweep). Once d s.0)
          (is_stalled run now w.state_mtime w.heartbeat_mtime boot) (λ _. on w.unit_active)
          (λ _. inl (refl, refl))
      where
        on : (u : Option Bool) → Once d (on_unit le unit_of moment boot now ts w run u history).0
        on none = inl (refl, refl)
        on (some true) = inl (refl, refl)
        on (some false) =
            let rebooted = host_rebooted_after_state_write w.state_mtime boot in
            if_both (λ (s : Sweep). Once d s.0) w.readable
              (λ _.
                subst
                  (λ o.
                    Once d (try_resume le unit_of moment boot now ts w run rebooted o history).0)
                  (sym e) (resume-Once rebooted history))
              (λ _. inl (refl, refl))
