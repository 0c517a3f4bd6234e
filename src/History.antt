-- ===== src/History.antt =====
-- src/herdr_routines/history.py: the records of the run history. An instant is the number of
-- microseconds since the first instant that Python's `datetime` has, in UTC.
pub mod Codec
pub mod Query
pub mod Files
use herdr_routines.Prelude.{
  ℕ, ◌*◌, String, str_eq, Bool, true, false, not, Option, none, some, if◌then◌else◌,
}
use herdr_routines.Prelude.Dict.{Dict, get}
use herdr_routines.Json.{Json, null, str}

pub data State : Type 0 where
  done failed skipped missed interrupted_unknown registered scheduled running : State

abbrev pub is_terminal : State → Bool
is_terminal registered = false
is_terminal scheduled = false
is_terminal running = false
is_terminal _ = true

abbrev pub is_running : State → Bool
is_running running = true
is_running _ = false

pub record HistoryRecord : Type 0 where
  pub ts : ℕ
  pub job : String
  pub state : State
  pub run_id : Option String
  pub extra : Option (Dict Json)

abbrev pub trigger_cron : String
trigger_cron = "cron"

-- timedelta(minutes=5), in microseconds
abbrev pub stale_margin : ℕ
stale_margin = 300 * 1_000_000

-- `x and …` on an optional text: None and the empty text are false.
abbrev pub truthy : Option String → Bool
truthy none = false
truthy (some s) = not (str_eq s "")

abbrev pub extra_get : String → Option (Dict Json) → Option Json
extra_get k none = none
extra_get k (some d) = get k d

abbrev off_trigger : Option Json → Bool
off_trigger none = false
off_trigger (some null) = false
off_trigger (some (str t)) = not (str_eq t trigger_cron)
off_trigger (some _) = true

unfoldable pub is_off_schedule : HistoryRecord → Bool
is_off_schedule r = off_trigger (extra_get "trigger" r.extra)
