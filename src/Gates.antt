-- ===== src/Gates.antt =====
-- src/herdr_routines/gates.py: the verdicts on checks, review threads, reviews and specs. A
-- verdict's reason is data in place of its message. What Python makes of a value by `str()` and of
-- a text by `upper()` and `casefold()` are parameters.
pub mod Checks
pub mod Polling
pub mod Threads
pub mod Specs
pub mod Stages
use herdr_routines.Prelude.{ℕ, String, Bool, true, false, Option, none, some, List}
use herdr_routines.Json.{Json, str, bool, int}

pub data Reason : Type 0 where
  ci_failed : List String → Reason
  no_check_runs : Reason
  still_pending : List String → Reason
  not_green : List (String × Option String) → Reason
  ci_timeout : Reason
  thread_counts : (unreplied blocking : ℕ) → Reason
  no_bodies : Reason
  no_tier_label : ℕ → Reason
  not_readable no_criteria no_changelog : Reason
  no_tier_word : String → Reason
  no_confidence : Reason
  no_pr_number view_failed : Reason
  not_open : Option Json → Reason
  wrong_head : Option Json → Reason
  on_branch : ℕ → String → Reason

pub record GateVerdict : Type 0 where
  pub passed : Bool
  pub reason : Option Reason

abbrev pub pass : GateVerdict
pass = record { passed = true; reason = none }

abbrev pub fail : Reason → GateVerdict
fail r = record { passed = false; reason = some r }

-- str(v)
abbrev pub as_text : (Json → String) → Json → String
as_text show (str s) = s
as_text show v = show v
