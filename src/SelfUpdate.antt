-- ===== src/SelfUpdate.antt =====
-- src/herdr_routines/self_update.py: the data and the helpers of one run of the updater. `Host` is what the lock, git, gh, uv and the
-- validation answer, `words` the text of a reason. What a run does to the checkout and to
-- its state file is its list of actions. An exception that escapes is not modelled.
pub mod Flow
pub mod Guards
pub mod Rejected
use herdr_routines.Prelude.{
  ℕ, zero, suc, ltb, String, str_eq, Bool, true, false, not, ◌&&◌, ◌||◌, Option, none, some, List,
  [], ◌∷◌, if◌then◌else◌,
}
use herdr_routines.Prelude.Dict.{get}
use herdr_routines.Json.{Json, obj, str, field, end, to_dict}
use herdr_routines.History.{HistoryRecord}
use herdr_routines.Gates
use herdr_routines.Gates.Checks.{Check, evaluate_commit_checks}
use herdr_routines.Tick.{Job, is_pipeline}
use herdr_routines.Tick.OpenRuns.{open_pipeline_run}

pub data Status : Type 0 where
  up_to_date updated deferred refused rolled_back : Status

pub data Reason : Type 0 where
  lock_held : Reason
  run_open : String → Reason
  head_unreadable dirty_tree detached_head : Reason
  off_base : String → Reason
  uv_missing fetch_failed base_unresolved : Reason
  on_rejected already_rolled_back : String → Option String → Reason
  remote_unresolved checks_unqueryable : Reason
  not_green : Option Gates.Reason → Reason
  dry_run_stop : String → String → Reason
  merge_failed : String → Reason
  strange_head : String → Reason
  validate_failed : String → Reason
  jobs_dropped : ℕ → ℕ → Reason

pub record SelfUpdateResult : Type 0 where
  pub status : Status
  pub old : Option String
  pub new : Option String
  pub reason : Option Reason
  pub deploy_changes : List String

abbrev pub is_fine : Status → Bool
is_fine up_to_date = true
is_fine updated = true
is_fine deferred = true
is_fine _ = false

abbrev pub exit_code : SelfUpdateResult → ℕ
exit_code r = if is_fine r.status then 0 else 1

pub record Validate : Type 0 where
  pub ok : Bool
  pub job_count : Option ℕ
  pub output : String

-- `merged` and `fetched` are exit codes of 0, `head_after` is HEAD after the merge; an empty text is
-- what git says when it fails.
pub record Host : Type 0 where
  pub lock : ℕ → Bool
  pub jobs : List Job
  pub history : List HistoryRecord
  pub old : String
  pub branch : String
  pub dirty : Bool
  pub uv : Option String
  pub fetched : Bool
  pub origin : String
  pub rejected : Option Json
  pub remote : Bool
  pub checks : Option (List Check)
  pub baseline : Validate
  pub merged : Bool
  -- Does `git reset --keep` succeed?
  pub resets : Bool
  pub head_after : String
  pub post : Validate
  pub changes : List String
  pub drift : Option (List String)

pub data Action : Type 0 where
  fetch_origin : Action
  validate_checkout : Action
  merge_ff_only : String → Action
  reset_keep : String → Action
  write_rejected : Json → Action

pub data Notice : Type 0 where
  deferred_notice : Notice
  refused_notice : Reason → Notice
  rolled_back_notice : Reason → Notice
  updated_notice : String → String → Notice
  drift_notice : Notice

pub record Run : Type 0 where
  pub actions : List Action
  pub outbox : List Notice
  pub result : SelfUpdateResult

abbrev pub after : Action → Run → Run
after a r = record r { actions = a ∷ r.actions }

abbrev pub ended :
    Status → Option String → Option String → Option Reason → List String → List Notice → Run
ended status old new reason changes outbox = record {
  actions = [];
  outbox = outbox;
  result = record {
    status = status;
    old = old;
    new = new;
    reason = reason;
    deploy_changes = changes;
  };
}

abbrev pub defer : Reason → Run
defer r = ended deferred none none (some r) [] []

abbrev pub refuse : Reason → Option String → Run
refuse r old = ended refused old none (some r) [] (refused_notice r ∷ [])

abbrev as_string : Option Json → Option String
as_string (some (str s)) = some s
as_string _ = none

-- read_rejected, behind json.loads
unfoldable pub read_rejected : Option Json → Option String × Option String
unfolding get
read_rejected (some (obj fs)) =
    (as_string (get "last_rejected_sha" (to_dict fs)), as_string (get "reason" (to_dict fs)))
read_rejected _ = (none, none)

unfoldable pub record_rejected : (sha reason stamp : String) → Json
record_rejected sha reason stamp =
    obj (
      field "last_rejected_sha" (str sha)
        (field "reason" (str reason) (field "ts" (str stamp) end)))

-- The number of sleeps comes with the answer.
unfoldable pub wait_for_tick_lock : (ℕ → Bool) → (polls attempt : ℕ) → Bool × ℕ
wait_for_tick_lock lock zero attempt = (lock attempt, attempt)
wait_for_tick_lock lock (suc polls) attempt =
    let rest = wait_for_tick_lock lock polls (suc attempt) in
    if lock attempt then (true, attempt) else rest

abbrev open_job : Option HistoryRecord → Job → Option String → Option String
open_job none job rest = rest
open_job (some r) job rest = some job.name

unfoldable pub pipeline_run_open : List Job → List HistoryRecord → Option String
unfolding open_pipeline_run
pipeline_run_open [] history = none
pipeline_run_open (job ∷ jobs) history =
    let rest = pipeline_run_open jobs history in
    if is_pipeline job.kind then open_job (open_pipeline_run history job.name) job rest else rest

abbrev pub count_of : Validate → Option ℕ
count_of v = if v.ok then v.job_count else none

abbrev pub dropped : Option ℕ → Option ℕ → Bool
dropped (some before) (some now) = ltb now before
dropped _ _ = false

-- The words of `validate_failed` are those of the output's first line.
abbrev pub failure_reason : Validate → Option ℕ → Reason
failure_reason post before =
    if post.ok then counts post.job_count before else validate_failed post.output
  where
    counts : Option ℕ → Option ℕ → Reason
    counts (some now) (some before) = jobs_dropped now before
    counts _ _ = validate_failed ""

abbrev pub is_text : Option String → String → Bool
is_text none s = false
is_text (some t) s = str_eq t s
