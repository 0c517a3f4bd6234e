-- ===== src/Tick/Reports.antt =====
-- tick.py: the jobs of one tick, one after the other.
use herdr_routines.Prelude.{
  ℕ, String, ◌≡◌, ◌≢◌, refl, ap, Bool, true, false, not, ◌||◌, Option, none, List, [], ◌∷◌, ◌++◌,
  map, if◌then◌else◌, Memᴰ,
}
use mathlib.Core.List.{cons≢nil}
use herdr_routines.History.{HistoryRecord, failed}
use herdr_routines.History.Query.{read_job}
use herdr_routines.Tick.{
  Job, History, Outcome, returned, raised, Summary, unexpected_error, TickOutcome, is_pipeline,
  open_run_ids, closing_records, failure_record, record_unexpected_failure, settle_outcome,
  with_job, run_tick,
}

module _ (now : ℕ) where
  -- What is written for an exception of the job: failed records of it, and at least one, if the job is
  -- no pipeline.
  abbrev pub Failures : Job → List HistoryRecord → Type 0
  Failures job recs =
      ((r : HistoryRecord) → Memᴰ r recs → (r.job ≡ job.name) × (r.ts ≡ now) × (r.state ≡ failed))
      × (is_pipeline job.kind ≡ false → recs ≢ [])

  mapped-Failures :
      (job : Job) (error : String) (ids : List (Option String)) (r : HistoryRecord)
      → Memᴰ r (map (failure_record job now error) ids)
      → (r.job ≡ job.name) × (r.ts ≡ now) × (r.state ≡ failed)
  mapped-Failures job error [] r m = elim m [ ]
  mapped-Failures job error (id ∷ ids) r (Memᴰ.head e) = (
    ap (λ (x : HistoryRecord). x.job) e,
    ap (λ (x : HistoryRecord). x.ts) e,
    ap (λ (x : HistoryRecord). x.state) e,
  )
  mapped-Failures job error (id ∷ ids) r (Memᴰ.tail m) = mapped-Failures job error ids r m

  closing_records-Failures :
      (job : Job) (error : String) (ids : List (Option String))
      → Failures job (closing_records job now error ids)
  closing_records-Failures job error [] = (mapped-Failures job error (none ∷ []), λ _. cons≢nil)
  closing_records-Failures job error (id ∷ ids) = go (is_pipeline job.kind) refl
    where
      go :
          (b : Bool)
          → is_pipeline job.kind ≡ b
          → Failures job (if b then [] else map (failure_record job now error) (id ∷ ids))
      go true e = (λ r m. elim m [ ], λ f. absurd cc)
      go false e = (mapped-Failures job error (id ∷ ids), λ _. cons≢nil)

  module _ (process_job : Job → ℕ → History → Outcome × History) where
    -- The steps of a tick: the jobs that are left, the history before, the summaries, whether a job
    -- failed, and the history after.
    pub data Ticked : List Job → History → List Summary → Bool → History → Type 0 where
      done : {h : History} → Ticked [] h [] false h
      disabled :
          {job : Job} {jobs : List Job} {h h' : History} {ss : List Summary} {b : Bool}
          → job.enabled ≡ false
          → Ticked jobs h ss b h'
          → Ticked (job ∷ jobs) h ss b h'
      settled :
          {job : Job} {jobs : List Job} {h mid h' : History} {ss : List Summary} {b : Bool}
          {s : Summary} {bad : Bool}
          → job.enabled ≡ true
          → process_job job now h ≡ (returned s bad, mid)
          → Ticked jobs mid ss b h'
          → Ticked (job ∷ jobs) h (s ∷ ss) (bad || b) h'
      caught :
          {job : Job} {jobs : List Job} {h mid h' : History} {ss : List Summary} {b : Bool}
          {error : String} {recs : List HistoryRecord}
          → job.enabled ≡ true
          → process_job job now h ≡ (raised error, mid)
          → Failures job recs
          → Ticked jobs (mid ++ recs) ss b h'
          → Ticked (job ∷ jobs) h (unexpected_error job.name ∷ ss) true h'

    abbrev IsTick : List Job → History → TickOutcome → Type 0
    IsTick jobs h o = Ticked jobs h o.summaries o.any_job_failed o.history

    settle :
        (job : Job) (jobs : List Job) (h : History) (o : Outcome × History)
        → job.enabled ≡ true
        → process_job job now h ≡ o
        → ((h' : History) → IsTick jobs h' (run_tick process_job jobs now h'))
        → IsTick (job ∷ jobs) h (
            with_job process_job
              (settle_outcome job now o)
              (run_tick process_job jobs now (settle_outcome job now o).2))
    unfolding record_unexpected_failure
    settle job jobs h (returned s bad, mid) on e next = Ticked.settled on e (next mid)
    settle job jobs h (raised error, mid) on e next =
        Ticked.caught on e
          (closing_records-Failures job error (open_run_ids job now (read_job mid job.name none)))
          (next (record_unexpected_failure job now error mid))

    one_step :
        (job : Job) (jobs : List Job) (history : History) (b : Bool)
        → job.enabled ≡ b
        → ((h' : History) → IsTick jobs h' (run_tick process_job jobs now h'))
        → let one = settle_outcome job now (process_job job now history) in
          let rest = run_tick process_job jobs now (if b then one.2 else history) in
          IsTick (job ∷ jobs) history (if not b then rest else with_job process_job one rest)
    one_step job jobs history false e next = Ticked.disabled e (next history)
    one_step job jobs history true e next =
        settle job jobs history (process_job job now history) e refl next

    -- Every enabled job is processed once, in the order of the jobs, on the history that the one before
    -- has left, and its summary is reported. If it raises, the summary is that of an unexpected
    -- error, the tick counts as failed, and failed records of the job are appended, at least one if
    -- it is no pipeline; the jobs behind it are processed all the same.
    pub run_tick_reports :
        (jobs : List Job) (history : History)
        → Ticked jobs history
            (run_tick process_job jobs now history).summaries
            (run_tick process_job jobs now history).any_job_failed
            (run_tick process_job jobs now history).history
    unfolding run_tick
    run_tick_reports [] history = Ticked.done
    run_tick_reports (job ∷ jobs) history =
        one_step job jobs history job.enabled refl (run_tick_reports jobs)
