-- ===== src/History/Query.antt =====
-- history.py, the queries over the records that `read_all` returned (oldest first).
pub mod Guards
pub mod OffSchedule
pub mod Ends
use herdr_routines.Prelude.{
  ℕ, ◌+◌, ◌*◌, ◌-◌, String, str_eq, Bool, true, false, not, ◌&&◌, ◌||◌, Option, none, some, List,
  [], ◌∷◌, if◌then◌else◌, leb, ltb, reverse, length, drop, keep_if, any_of, is_some, head_of, elem,
}
use herdr_routines.History.{
  State, HistoryRecord, is_terminal, is_running, truthy, is_off_schedule, stale_margin,
}

abbrev keep_last : Option ℕ → List HistoryRecord → List HistoryRecord
keep_last none rs = rs
keep_last (some limit) rs =
    if ltb limit (length rs)
    -- records[-0:] is the whole list
    then drop (if leb limit 0 then 0 else length rs - limit) rs
    else rs

unfoldable pub read_job : List HistoryRecord → String → Option ℕ → List HistoryRecord
read_job records job_name limit = keep_last limit (keep_if (λ r. str_eq r.job job_name) records)

first_terminal : List HistoryRecord → Option HistoryRecord
first_terminal [] = none
first_terminal (r ∷ rs) = if is_terminal r.state then some r else first_terminal rs

unfoldable pub last_terminal_run : List HistoryRecord → String → Option HistoryRecord
unfolding first_terminal read_job
last_terminal_run records job_name = first_terminal (reverse (read_job records job_name none))

-- the `off_schedule_run_ids` set is the list of its elements
abbrev pub run_id_in : Option String → List String → Bool
run_id_in none ids = false
run_id_in (some s) ids = elem s ids

abbrev discard : Option String → List String → List String
discard none ids = ids
discard (some s) ids = keep_if (λ j. not (str_eq j s)) ids

abbrev add : Option String → List String → List String
add none ids = ids
add (some s) ids = s ∷ ids

pub record Scan : Type 0 where
  pub off_schedule_run_ids : List String
  pub latest : Option HistoryRecord

-- the body of the `for` loop of `last_scheduled_terminal_run`
unfoldable pub scan_record : HistoryRecord → Scan → Scan
unfolding is_off_schedule
scan_record r s =
    if is_running r.state && truthy r.run_id
    then (if is_off_schedule r
        then record s { off_schedule_run_ids = add r.run_id s.off_schedule_run_ids }
        else record s { off_schedule_run_ids = discard r.run_id s.off_schedule_run_ids })
    else if is_terminal r.state
    then (if is_off_schedule r || run_id_in r.run_id s.off_schedule_run_ids
        then s
        else record s { latest = some r })
    else s

unfoldable pub scan_from : Scan → List HistoryRecord → Scan
unfolding scan_record
scan_from s [] = s
scan_from s (r ∷ rs) = scan_from (scan_record r s) rs

unfoldable pub last_scheduled_terminal_run : List HistoryRecord → String → Option HistoryRecord
unfolding scan_from read_job
last_scheduled_terminal_run records job_name =
    (scan_from (record { off_schedule_run_ids = []; latest = none })
      (read_job records job_name none)).latest

unfoldable pub has_ever_been_seen : List HistoryRecord → String → Bool
unfolding read_job
has_ever_been_seen records job_name = any_of (λ r. true) (read_job records job_name (some 1))

unfoldable pub first_seen_at : List HistoryRecord → String → Option ℕ
unfolding read_job
first_seen_at records job_name = elim (read_job records job_name none) [
  | [] ↦ none
  | r ∷ rs ↦ some r.ts
]

-- {r.run_id for r in records if r.state in TERMINAL_STATES and r.run_id}
unfoldable pub terminal_run_ids : List HistoryRecord → List String
terminal_run_ids [] = []
terminal_run_ids (r ∷ rs) =
    let rest = terminal_run_ids rs in
    if is_terminal r.state && truthy r.run_id then add r.run_id rest else rest

latest_from : Option HistoryRecord → List HistoryRecord → Option HistoryRecord
latest_from acc [] = acc
latest_from acc (r ∷ rs) = latest_from (if is_running r.state then some r else acc) rs

unfoldable pub latest_running : List HistoryRecord → Option HistoryRecord
unfolding latest_from
latest_running rs = latest_from none rs

-- timeouts are in milliseconds, instants in microseconds
abbrev pub deadline : HistoryRecord → ℕ → ℕ
deadline r timeout_ms = r.ts + timeout_ms * 1000 + stale_margin

stale_of : List String → ℕ → ℕ → Option HistoryRecord → Option HistoryRecord
stale_of ids timeout_ms now none = none
stale_of ids timeout_ms now (some r) =
    if run_id_in r.run_id ids
    then none
    else if leb now (deadline r timeout_ms)
    then none
    else some r

unfoldable pub find_stale_running : List HistoryRecord → String → ℕ → ℕ → Option HistoryRecord
unfolding stale_of latest_running terminal_run_ids read_job
find_stale_running records job_name timeout_ms now =
    let rs = read_job records job_name none in
    stale_of (terminal_run_ids rs) timeout_ms now (latest_running rs)

running_of : List String → ℕ → ℕ → Option HistoryRecord → Bool
running_of ids timeout_ms now none = false
running_of ids timeout_ms now (some r) =
    if run_id_in r.run_id ids then false else leb now (deadline r timeout_ms)

unfoldable pub is_currently_running : List HistoryRecord → String → ℕ → ℕ → Bool
unfolding running_of latest_running terminal_run_ids read_job
is_currently_running records job_name timeout_ms now =
    let rs = read_job records job_name none in
    running_of (terminal_run_ids rs) timeout_ms now (latest_running rs)
