-- ===== src/SelfUpdate/Flow.antt =====
-- src/herdr_routines/self_update.py: `_run_self_update` and `run_self_update`. What the rollback reads of
-- HEAD, and the commit counts, only go into texts. `stamp` is the instant that is written.
use herdr_routines.Prelude.{
  ℕ, String, str_eq, Bool, true, false, not, ◌&&◌, ◌||◌, Option, none, some, List, [], ◌∷◌,
  if◌then◌else◌,
}
use herdr_routines.Json.{Json}
use herdr_routines.Gates
use herdr_routines.Gates.Checks.{Check, evaluate_commit_checks}
use herdr_routines.SelfUpdate.{
  Status, up_to_date, updated, deferred, rolled_back, Reason, lock_held, run_open, head_unreadable,
  dirty_tree, detached_head, off_base, uv_missing, fetch_failed, base_unresolved, on_rejected,
  already_rolled_back, remote_unresolved, checks_unqueryable, not_green, dry_run_stop, merge_failed,
  strange_head, Host, fetch_origin, validate_checkout, merge_ff_only, reset_keep, write_rejected,
  Notice, deferred_notice, rolled_back_notice, updated_notice, drift_notice, Run, after, ended,
  defer, refuse, read_rejected, record_rejected, wait_for_tick_lock, pipeline_run_open, count_of,
  dropped, failure_reason, is_text,
}

abbrev is_quiet : Status → Bool
is_quiet updated = true
is_quiet up_to_date = true
is_quiet deferred = true
is_quiet _ = false

-- A crash of the host check is a finding.
abbrev drift_of : Option (List String) → (dry : Bool) → Status → List String
drift_of drift dry status = if not dry && is_quiet status then found drift else []
  where
    found : Option (List String) → List String
    found none = "probe_failed" ∷ []
    found (some findings) = findings

abbrev onto_last : List Notice → List String → List (Notice × List String)
onto_last [] drift = []
onto_last (n ∷ []) drift = (n, drift) ∷ []
onto_last (n ∷ m ∷ ns) drift = (n, []) ∷ onto_last (m ∷ ns) drift

-- _flush_notifications: each notice with the drift that is appended to it
unfoldable pub flush_notifications : List Notice → List String → List (Notice × List String)
flush_notifications [] [] = []
flush_notifications [] (d ∷ drift) = (drift_notice, d ∷ drift) ∷ []
flush_notifications (n ∷ ns) drift = onto_last (n ∷ ns) drift

module _ (show : Json → String) (upper : String → String) where
  -- commit_ci_state: none when the commit is green
  unfoldable pub commit_ci_state : Option (List Check) → Option Reason
  unfolding evaluate_commit_checks
  commit_ci_state none = some checks_unqueryable
  commit_ci_state (some checks) = verdict (evaluate_commit_checks show upper checks)
    where
      verdict : Gates.GateVerdict → Option Reason
      verdict v = if v.passed then none else some (not_green v.reason)

module _ (h : Host) where
  abbrev pub at_head : Option String × Option String → Run
  at_head (sha, reason) =
      if is_text sha h.origin
      then refuse (on_rejected h.old reason) (some h.old)
      else ended up_to_date (some h.old) (some h.old) none [] []

module _ (words : Reason → String) (stamp : String) (h : Host) where
  abbrev pub roll_back : Reason → Run
  roll_back r = after (reset_keep h.old) (
      after (write_rejected (record_rejected h.head_after (words r) stamp)) (
        ended rolled_back (some h.old) (some h.head_after) (some r) [] (rolled_back_notice r ∷ [])))

  abbrev pub checked : Run
  checked =
      if not h.post.ok || dropped (count_of h.baseline) h.post.job_count
      then roll_back (failure_reason h.post (count_of h.baseline))
      else ended updated (some h.old) (some h.head_after) none h.changes
          (updated_notice h.old h.head_after ∷ [])

  abbrev pub after_merge : Run
  after_merge =
      if not (str_eq h.head_after h.old || str_eq h.head_after h.origin)
      then refuse (strange_head h.head_after) (some h.old)
      else if str_eq h.head_after h.old
      then ended up_to_date (some h.old) (some h.old) none [] []
      else after validate_checkout checked

  abbrev pub deploy : Run
  deploy = after validate_checkout (
      after (merge_ff_only h.origin)
        (if not h.merged then refuse (merge_failed h.origin) (some h.old) else after_merge))

  abbrev pub on_ci : (dry : Bool) → Option Reason → Run
  on_ci dry (some r) = defer r
  on_ci true none =
      ended deferred (some h.old) (some h.origin) (some (dry_run_stop h.old h.origin)) h.changes []
  on_ci false none = deploy

module _ (show : Json → String) (upper : String → String) (words : Reason → String) (stamp : String)
    (h : Host) where
  abbrev pub ahead : (dry : Bool) → Option String × Option String → Run
  ahead dry (sha, reason) =
      if is_text sha h.origin
      then defer (already_rolled_back h.origin reason)
      else if not h.remote
      then defer remote_unresolved
      else on_ci words stamp h dry (commit_ci_state show upper h.checks)

  abbrev pub with_uv : (dry : Bool) → Option String → Run
  with_uv dry none = refuse uv_missing (some h.old)
  with_uv dry (some uv) = after fetch_origin (
      if not h.fetched
      then refuse fetch_failed (some h.old)
      else if str_eq h.origin ""
      then refuse base_unresolved (some h.old)
      else if str_eq h.origin h.old
      then at_head h (read_rejected h.rejected)
      else ahead dry (read_rejected h.rejected))

  abbrev pub on_repo : (dry : Bool) (base : String) → Run
  on_repo dry base =
      if str_eq h.old "" || str_eq h.branch ""
      then refuse head_unreadable none
      else if h.dirty
      then refuse dirty_tree (some h.old)
      else if str_eq h.branch "HEAD"
      then refuse detached_head (some h.old)
      else if not (str_eq h.branch base)
      then refuse (off_base h.branch) (some h.old)
      else with_uv dry h.uv

  abbrev pub with_lock : (dry : Bool) (base : String) → Option String → Run
  with_lock dry base (some name) = defer (run_open name)
  with_lock dry base none = on_repo dry base

  abbrev pub unlocked : (dry : Bool) → Run
  unlocked dry =
      ended deferred none none (some lock_held) [] (if dry then [] else deferred_notice ∷ [])

  -- _run_self_update
  unfoldable pub run_held : (dry : Bool) (base : String) (polls : ℕ) → Run
  unfolding commit_ci_state wait_for_tick_lock pipeline_run_open read_rejected record_rejected
  run_held dry base polls =
      if (wait_for_tick_lock h.lock (if dry then 0 else polls) 0).0
      then with_lock dry base (pipeline_run_open h.jobs h.history)
      else unlocked dry

  unfoldable pub run_self_update :
      (dry : Bool) (base : String) (polls : ℕ) → List (Notice × List String) × Run
  unfolding run_held flush_notifications
  run_self_update dry base polls =
      let run = run_held dry base polls in
      (flush_notifications run.outbox (drift_of h.drift dry run.result.status), run)
