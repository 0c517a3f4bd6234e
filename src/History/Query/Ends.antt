-- ===== src/History/Query/Ends.antt =====
-- history.py: what a terminal record does to `is_currently_running`.
use herdr_routines.Prelude.{
  ℕ, String, str_eq, eq_refl, ◌≡◌, refl, ap, ◌∙◌, Bool, true, false, Option, none, some, List, [],
  ◌∷◌, ◌++◌, if◌then◌else◌, keep_if, keep_if-append, any_of-append, arith,
}
use herdr_routines.History.{HistoryRecord, is_terminal}
use herdr_routines.History.Query.{
  read_job, terminal_run_ids, latest_running, running_of, is_currently_running,
}
use herdr_routines.History.Query.Guards.{
  run_id_in-terminal_run_ids, closes, latest_running-append, not_running,
}

fewer_running :
    (rs : List HistoryRecord) (fin : HistoryRecord) (timeout_ms now : ℕ) (o : Option HistoryRecord)
    → running_of (terminal_run_ids rs) timeout_ms now o ≡ false
    → running_of (terminal_run_ids (rs ++ fin ∷ [])) timeout_ms now o ≡ false
unfolding running_of
fewer_running rs fin timeout_ms now none h = refl
fewer_running rs fin timeout_ms now (some r) h = ground (
  arith,
  run_id_in-terminal_run_ids r.run_id (rs ++ fin ∷ []),
  run_id_in-terminal_run_ids r.run_id rs,
  any_of-append (closes r.run_id) rs (fin ∷ []),
  h,
)

-- A terminal record never makes a run count as in progress.
pub terminal_never_starts :
    (records : List HistoryRecord) (job_name : String) (fin : HistoryRecord) (timeout_ms now : ℕ)
    → fin.job ≡ job_name
    → is_terminal fin.state ≡ true
    → is_currently_running records job_name timeout_ms now ≡ false
    → is_currently_running (records ++ fin ∷ []) job_name timeout_ms now ≡ false
unfolding is_currently_running read_job
terminal_never_starts records job_name fin timeout_ms now own t h =
    let test = λ (r : HistoryRecord). str_eq r.job job_name in
    let rs = keep_if test records in
    let all : keep_if test (records ++ fin ∷ []) ≡ rs ++ fin ∷ [] =
      keep_if-append test records (fin ∷ [])
      ∙ ap (λ (l : List HistoryRecord). rs ++ l)
          (ap (λ (b : Bool). if b then fin ∷ [] else [])
            (ap (λ (n : String). str_eq n job_name) own ∙ eq_refl job_name)) in
    let same : latest_running (rs ++ fin ∷ []) ≡ latest_running rs =
      latest_running-append rs fin
      ∙ ap (λ (b : Bool). if b then some fin else latest_running rs) (not_running fin.state t) in
    ap
      (λ (l : List HistoryRecord).
        running_of (terminal_run_ids l) timeout_ms now (latest_running l))
      all
    ∙ ap (running_of (terminal_run_ids (rs ++ fin ∷ [])) timeout_ms now) same
    ∙ fewer_running rs fin timeout_ms now (latest_running rs) h
