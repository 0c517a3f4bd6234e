-- ===== src/History/Query/Guards.antt =====
-- The two guards of a tick over the same records: a stale run, and a run in progress.
use herdr_routines.Prelude.{
  ℕ, String, ◌≡◌, refl, ◌∙◌, Bool, true, false, Option, none, some, List, [], ◌∷◌, ◌++◌, arith,
  is_some, str_eq, eq_refl, any_of, keep_if-append, any_of-append, if◌then◌else◌, leb, ◌||◌, ◌&&◌,
}
use herdr_routines.History.{State, running, HistoryRecord, is_terminal, is_running, truthy}
use herdr_routines.History.Query.{
  read_job, run_id_in, terminal_run_ids, latest_running, deadline, find_stale_running,
  is_currently_running, stale_of, running_of, latest_from,
}

-- The latest `running` record of the job with no terminal record of its run: what both guards see.
abbrev unfinished : List String → Option HistoryRecord → Option HistoryRecord
unfinished ids none = none
unfinished ids (some r) = if run_id_in r.run_id ids then none else some r

unfoldable pub open_run : List HistoryRecord → String → Option HistoryRecord
unfolding read_job latest_running terminal_run_ids
open_run records job_name =
    let rs = read_job records job_name none in unfinished (terminal_run_ids rs) (latest_running rs)

latest_from-append :
    (acc : Option HistoryRecord) (xs ys : List HistoryRecord)
    → latest_from acc (xs ++ ys) ≡ latest_from (latest_from acc xs) ys
unfolding latest_from
latest_from-append acc [] ys = refl
latest_from-append acc (x ∷ xs) ys =
    latest_from-append (if is_running x.state then some x else acc) xs ys

abbrev pub same_id : Option String → Option String → Bool
same_id none b = false
same_id (some s) none = false
same_id (some s) (some t) = str_eq t s

-- The record closes the run with this id.
abbrev pub closes : Option String → HistoryRecord → Bool
closes id r = is_terminal r.state && truthy r.run_id && same_id id r.run_id

pub run_id_in-terminal_run_ids :
    (id : Option String) (rs : List HistoryRecord)
    → run_id_in id (terminal_run_ids rs) ≡ any_of (closes id) rs
unfolding terminal_run_ids
run_id_in-terminal_run_ids none [] = refl
run_id_in-terminal_run_ids none (r ∷ rs) = ground (arith, run_id_in-terminal_run_ids none rs)
run_id_in-terminal_run_ids (some s) [] = refl
run_id_in-terminal_run_ids (some s) (r ∷ rs) =
    ground (arith, run_id_in-terminal_run_ids (some s) rs)

split_of :
    (ids : List String) (timeout_ms now : ℕ) (o : Option HistoryRecord)
    → (is_some (unfinished ids o)
        ≡ (is_some (stale_of ids timeout_ms now o) || running_of ids timeout_ms now o))
      × ((is_some (stale_of ids timeout_ms now o) && running_of ids timeout_ms now o) ≡ false)
unfolding stale_of running_of
split_of ids timeout_ms now none = (refl, refl)
split_of ids timeout_ms now (some r) = (ground arith, ground arith)

-- For any records, job, timeout and time: the job has an open run exactly when one of the two
-- guards reports it, and they never both do.
pub guards_partition :
    (records : List HistoryRecord) (job_name : String) (timeout_ms now : ℕ)
    → (is_some (open_run records job_name) ≡ (
        is_some (find_stale_running records job_name timeout_ms now)
        || is_currently_running records job_name timeout_ms now))
      × ((is_some (find_stale_running records job_name timeout_ms now)
            && is_currently_running records job_name timeout_ms now)
          ≡ false)
unfolding open_run find_stale_running is_currently_running
guards_partition records job_name timeout_ms now =
    split_of (terminal_run_ids (read_job records job_name none)) timeout_ms now
      (latest_running (read_job records job_name none))

pub not_running : (s : State) → is_terminal s ≡ true → is_running s ≡ false
not_running running h = cc
not_running _ h = ground arith

pub same_id_refl : (id : Option String) → truthy id ≡ true → same_id id id ≡ true
same_id_refl none h = cc
same_id_refl (some s) h = eq_refl s

closes_self :
    (r fin : HistoryRecord)
    → is_terminal fin.state ≡ true
    → truthy r.run_id ≡ true
    → fin.run_id ≡ r.run_id
    → closes r.run_id fin ≡ true
closes_self r fin t id same = rw (t, same, id) (same_id_refl r.run_id id)

pub latest_running-append :
    (rs : List HistoryRecord) (r : HistoryRecord)
    → latest_running (rs ++ r ∷ []) ≡ (if is_running r.state then some r else latest_running rs)
unfolding latest_running latest_from
latest_running-append rs r = latest_from-append none rs (r ∷ [])

-- A record that ends the open run leaves none open.
unfinished-append :
    (rs : List HistoryRecord) (r fin : HistoryRecord)
    → latest_running rs ≡ some r
    → is_terminal fin.state ≡ true
    → truthy r.run_id ≡ true
    → fin.run_id ≡ r.run_id
    → unfinished (terminal_run_ids (rs ++ fin ∷ [])) (latest_running (rs ++ fin ∷ [])) ≡ none
unfinished-append rs r fin h t id same =
    rw (latest_running-append rs fin, not_running fin.state t, h)
      (rw
        (
          run_id_in-terminal_run_ids r.run_id (rs ++ fin ∷ []),
          any_of-append (closes r.run_id) rs (fin ∷ []),
          closes_self r fin t id same,
        )
        (ground arith))

latest_of_unfinished :
    (ids : List String) (o : Option HistoryRecord) (r : HistoryRecord)
    → unfinished ids o ≡ some r
    → (o ≡ some r) × (run_id_in r.run_id ids ≡ false)
latest_of_unfinished ids none r h = cc
latest_of_unfinished ids (some q) r h = ground arith

guards_of_none :
    (ids : List String) (timeout_ms now : ℕ) (o : Option HistoryRecord)
    → unfinished ids o ≡ none
    → (stale_of ids timeout_ms now o ≡ none) × (running_of ids timeout_ms now o ≡ false)
unfolding stale_of running_of
guards_of_none ids timeout_ms now none h = (refl, refl)
guards_of_none ids timeout_ms now (some r) h = (ground arith, ground arith)

read_job-append :
    (records : List HistoryRecord) (job_name : String) (r : HistoryRecord)
    → r.job ≡ job_name
    → read_job (records ++ r ∷ []) job_name none ≡ read_job records job_name none ++ r ∷ []
unfolding read_job
read_job-append records job_name r e =
    keep_if-append (λ q. str_eq q.job job_name) records (r ∷ []) ∙ rw (e, eq_refl job_name) refl

-- Once a terminal record with the run id of the job's open run is appended, neither guard reports
-- the job, whatever the timeout and the time.
pub finish_clears :
    (records : List HistoryRecord) (job_name : String) (r fin : HistoryRecord)
    → open_run records job_name ≡ some r
    → truthy r.run_id ≡ true
    → fin.job ≡ job_name
    → is_terminal fin.state ≡ true
    → fin.run_id ≡ r.run_id
    → (timeout_ms now : ℕ)
    → (find_stale_running (records ++ fin ∷ []) job_name timeout_ms now ≡ none)
      × (is_currently_running (records ++ fin ∷ []) job_name timeout_ms now ≡ false)
unfolding open_run find_stale_running is_currently_running
finish_clears records job_name r fin h id own t same timeout_ms now =
    let rs = read_job records job_name none in
    let (late, _) = latest_of_unfinished (terminal_run_ids rs) (latest_running rs) r h in
    rw (read_job-append records job_name fin own) (
      guards_of_none (terminal_run_ids (rs ++ fin ∷ [])) timeout_ms now
        (latest_running (rs ++ fin ∷ [])) (unfinished-append rs r fin late t id same))

guards_of_some :
    (ids : List String) (timeout_ms now : ℕ) (o : Option HistoryRecord) (r : HistoryRecord)
    → o ≡ some r
    → run_id_in r.run_id ids ≡ false
    → (running_of ids timeout_ms now o ≡ leb now (deadline r timeout_ms))
      × (stale_of ids timeout_ms now o ≡ (if leb now (deadline r timeout_ms) then none else some r))
unfolding stale_of running_of
guards_of_some ids timeout_ms now o r e out = (rw (e, out) refl, rw (e, out) refl)

-- After a `running` record of the job is appended, whose run id no terminal record of the job
-- has, the run counts as in progress up to its deadline and is reported as stale from then on.
pub start_is_running :
    (records : List HistoryRecord) (job_name : String) (r : HistoryRecord)
    → r.job ≡ job_name
    → r.state ≡ running
    → any_of (closes r.run_id) (read_job records job_name none) ≡ false
    → (timeout_ms now : ℕ)
    → (is_currently_running (records ++ r ∷ []) job_name timeout_ms now
        ≡ leb now (deadline r timeout_ms))
      × (find_stale_running (records ++ r ∷ []) job_name timeout_ms now
          ≡ (if leb now (deadline r timeout_ms) then none else some r))
unfolding find_stale_running is_currently_running
start_is_running records job_name r own s fresh timeout_ms now =
    let rs = read_job records job_name none in
    rw (read_job-append records job_name r own) (
      guards_of_some (terminal_run_ids (rs ++ r ∷ [])) timeout_ms now
        (latest_running (rs ++ r ∷ [])) r (latest_running-append rs r ∙ rw s refl)
        (run_id_in-terminal_run_ids r.run_id (rs ++ r ∷ [])
          ∙ any_of-append (closes r.run_id) rs (r ∷ [])
          ∙ rw (fresh, s) refl))
