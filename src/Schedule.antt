-- ===== src/Schedule.antt =====
-- src/herdr_routines/schedule.py. The cron iterator (croniter in the job's timezone) and the
-- local wall clock of an instant (zoneinfo) are parameters: `next t` is what `get_next` returns
-- for an iterator at `t`, and `wall t` is `t.replace(tzinfo=None)`. Times are in microseconds.
pub mod Occurrences
pub mod Decisions
use herdr_routines.Prelude.{
  ℕ, zero, suc, ◌+◌, ◌-◌, ◌*◌, ◌==◌, Bool, true, false, Option, none, some, List, [], ◌∷◌, ◌++◌,
  if◌then◌else◌, leb, ltb, any_of, length, last_of, init_of, head_of,
}
use herdr_routines.History.{HistoryRecord}

pub data Decision : Type 0 where
  run missed : Decision

pub record Due : Type 0 where
  pub decision : Decision
  pub occurrence : ℕ
  pub late : ℕ
  pub skipped_occurrences : ℕ
  pub skipped_first : Option ℕ
  pub skipped_last : Option ℕ

pub data ScheduleResult : Type 0 where
  not_due : ScheduleResult
  due : Due → ScheduleResult

abbrev pub minute : ℕ
minute = 60 * 1_000_000

abbrev pub is_seen : ℕ → List ℕ → Bool
is_seen w = any_of (λ v. v == w)

abbrev last? : List ℕ → Option ℕ
last? [] = none
last? (o ∷ os) = some (last_of o os)

abbrev pub since_of : Option HistoryRecord → ℕ → ℕ
since_of none job_registered_at = job_registered_at
since_of (some r) job_registered_at = r.ts

-- the part of `decide` behind the enumeration; `late` is exact, as no occurrence is behind `now`
abbrev pub result_of : ℕ → ℕ → List ℕ → ScheduleResult
result_of catch_up_minutes now [] = not_due
result_of catch_up_minutes now (o ∷ os) =
    let latest = last_of o os in
    let earlier = init_of o os in
    due (record {
      decision = if leb (now - latest) (catch_up_minutes * minute) then run else missed;
      occurrence = latest;
      late = now - latest;
      skipped_occurrences = length earlier;
      skipped_first = head_of earlier;
      skipped_last = last? earlier;
    })

module _ (next wall : ℕ → ℕ) where
  -- The `while True` loop: the iterator's position, the wall-clock times seen, what was found.
  -- `none` means that the fuel ran out.
  unfoldable pub enumerate : ℕ → ℕ → ℕ → List ℕ → List ℕ → Option (List ℕ)
  enumerate zero now cur seen found = none
  enumerate (suc fuel) now cur seen found =
      let nxt = next cur in
      let again = enumerate fuel now nxt seen found in
      let kept = enumerate fuel now nxt (wall nxt ∷ seen) (found ++ nxt ∷ []) in
      if ltb now nxt then some found else if is_seen (wall nxt) seen then again else kept

  -- each round moves the iterator forward by a microsecond at least
  unfoldable pub occurrences_since : ℕ → ℕ → Option (List ℕ)
  unfolding enumerate
  occurrences_since since now = enumerate (suc (now - since)) now since [] []

  abbrev decided : ℕ → ℕ → Option (List ℕ) → Option ScheduleResult
  decided catch_up_minutes now none = none
  decided catch_up_minutes now (some os) = some (result_of catch_up_minutes now os)

  unfoldable pub decide : ℕ → ℕ → Option HistoryRecord → ℕ → Option ScheduleResult
  unfolding occurrences_since
  decide catch_up_minutes now last_terminal job_registered_at =
      decided catch_up_minutes now
        (occurrences_since (since_of last_terminal job_registered_at) now)
