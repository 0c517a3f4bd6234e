-- ===== src/History/Codec.antt =====
-- history.py: `HistoryRecord.to_json_line` and `from_dict`, up to the texts of `json`. How an
-- instant is written and read (`isoformat`, `fromisoformat`) is a parameter.
pub mod Laws
use herdr_routines.Prelude.{
  ℕ, String, str_eq, ◌≡◌, Bool, true, false, not, ◌||◌, Option, none, some, List, [], ◌∷◌, ◌++◌,
  if◌then◌else◌, keep_if, elem,
}
use herdr_routines.Prelude.Dict.{Dict, get, put}
use herdr_routines.Json.{Json, null, bool, int, float, str, arr, obj, to_dict, non_null}
use herdr_routines.History.{
  State, done, failed, skipped, missed, interrupted_unknown, registered, scheduled, running,
  HistoryRecord,
}

pub data Error : Type 0 where
  key_error value_error type_error : Error

pub data Outcome (A : Type 0) : Type 0 where
  return : A → Outcome A
  raise : Error → Outcome A

infixl 5 ◌>>=◌ ◌>>◌
abbrev pub ◌>>=◌ : {A B : Type 0} → Outcome A → (A → Outcome B) → Outcome B
return a >>= f = f a
raise e >>= f = raise e

abbrev pub ◌>>◌ : {A B : Type 0} → Outcome A → Outcome B → Outcome B
m >> k = m >>= λ _. k

unfoldable pub state_name : State → String
state_name done = "done"
state_name failed = "failed"
state_name skipped = "skipped"
state_name missed = "missed"
state_name interrupted_unknown = "interrupted_unknown"
state_name registered = "registered"
state_name scheduled = "scheduled"
state_name running = "running"

unfoldable pub state_of : String → Option State
state_of s =
    if str_eq s "done"
    then some done
    else if str_eq s "failed"
    then some failed
    else if str_eq s "skipped"
    then some skipped
    else if str_eq s "missed"
    then some missed
    else if str_eq s "interrupted_unknown"
    then some interrupted_unknown
    else if str_eq s "registered"
    then some registered
    else if str_eq s "scheduled"
    then some scheduled
    else if str_eq s "running"
    then some running
    else none

-- d[k]
abbrev required : String → Dict Json → Outcome Json
required k d = elim (get k d) [ none ↦ raise key_error | some v ↦ return v ]

abbrev text : Json → Outcome String
text (str s) = return s
text _ = raise value_error

known_state : Option State → Outcome State
known_state none = raise value_error
known_state (some s) = return s

-- `state in ALL_STATES`, which hashes the value: a list or a dict has no hash.
unfoldable pub history_state : Json → Outcome State
unfolding state_of known_state
history_state (str s) = known_state (state_of s)
history_state (arr xs) = raise type_error
history_state (obj fs) = raise type_error
history_state _ = raise value_error

abbrev optional_text : Option Json → Outcome (Option String)
optional_text none = return none
optional_text (some null) = return none
optional_text (some (str s)) = return (some s)
optional_text (some _) = raise value_error

abbrev pub core_fields : List String
core_fields = "ts" ∷ "job" ∷ "state" ∷ "run_id" ∷ []

-- {k: v for k, v in d.items() if k not in known} or None
abbrev pub or_none : Dict Json → Option (Dict Json)
or_none [] = none
or_none (e ∷ d) = some (e ∷ d)

abbrev pub beyond_core : Dict Json → Dict Json
beyond_core = keep_if (λ (e : String × Json). not (elem e.0 core_fields))

abbrev parsed_time : Option ℕ → Outcome ℕ
parsed_time none = raise value_error
parsed_time (some t) = return t

module _ (fromisoformat : String → Option ℕ) where
  unfoldable pub from_dict : Dict Json → Outcome HistoryRecord
  from_dict d = do
    ts_value ← required "ts" d
    ts_text ← text ts_value
    job_value ← required "job" d
    job_text ← text job_value
    state_value ← required "state" d
    st ← history_state state_value
    rid ← optional_text (get "run_id" d)
    t ← parsed_time (fromisoformat ts_text)
    return (record {
      ts = t;
      job = job_text;
      state = st;
      run_id = rid;
      extra = or_none (beyond_core d);
    })

  -- `d["ts"]` on a value that is no dict
  unfoldable pub from_json : Json → Outcome HistoryRecord
  unfolding from_dict
  from_json (obj fs) = from_dict (to_dict fs)
  from_json _ = raise type_error

-- payload.update(extra)
unfoldable pub update : Dict Json → Dict Json → Dict Json
update d [] = d
update d ((k, v) ∷ more) = update (put k v d) more

abbrev with_run_id : Option String → Dict Json → Dict Json
with_run_id none d = d
with_run_id (some s) d = put "run_id" (str s) d

abbrev with_extra : Option (Dict Json) → Dict Json → Dict Json
with_extra none d = d
with_extra (some more) d = update d more

-- the payload of `to_json_line`
unfoldable pub to_payload : (ℕ → String) → HistoryRecord → Dict Json
unfolding update state_name
to_payload isoformat r = with_extra r.extra (
    with_run_id r.run_id (
      ("ts", str (isoformat r.ts)) ∷ ("job", str r.job) ∷ ("state", str (state_name r.state)) ∷ []))
