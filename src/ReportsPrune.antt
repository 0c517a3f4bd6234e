-- ===== src/ReportsPrune.antt =====
-- src/herdr_routines/reports_prune.py: `_sweep` and the two prunings. An entry is what the file
-- system says of it, where none is an OSError. Times are seconds.
pub mod Swept
use herdr_routines.Prelude.{
  ℕ, ◌-◌, ◌*◌, String, Bool, true, false, Option, none, some, List, [], ◌∷◌, if◌then◌else◌, ltb,
  elem,
}

pub record Entry : Type 0 where
  pub path : String
  pub is_symlink : Option Bool
  pub is_file : Option Bool
  pub mtime : Option ℕ
  pub unlink_succeeds : Bool

pub record PruneResult : Type 0 where
  pub removed : List String
  pub kept_fresh : List String
  pub protected : List String
  pub errors : List String

abbrev pub nothing_pruned : PruneResult
nothing_pruned = record { removed = []; kept_fresh = []; protected = []; errors = [] }

-- What happens to an entry.
pub data Fate : Type 0 where
  ignored : Fate
  guarded : Fate
  kept : Fate
  gone : Fate
  error : Fate

abbrev aged : Bool → ℕ → Entry → Option ℕ → Fate
aged dry_run cutoff e none = error
aged dry_run cutoff e (some t) =
    if ltb cutoff t
    then kept
    else if dry_run
    then gone
    else if e.unlink_succeeds
    then gone
    else error

abbrev judged : Bool → ℕ → List String → Entry → Option Bool → Option Bool → Fate
judged dry_run cutoff protected e none file = error
judged dry_run cutoff protected e (some true) file = ignored
judged dry_run cutoff protected e (some false) none = error
judged dry_run cutoff protected e (some false) (some false) = ignored
judged dry_run cutoff protected e (some false) (some true) =
    if elem e.path protected then guarded else aged dry_run cutoff e e.mtime

-- The body of the loop of `_sweep`.
unfoldable pub fate_of : Bool → ℕ → List String → Entry → Fate
fate_of dry_run cutoff protected e = judged dry_run cutoff protected e e.is_symlink e.is_file

abbrev pub file_under : Fate → String → PruneResult → PruneResult
file_under ignored p s = s
file_under guarded p s = record s { protected = p ∷ s.protected }
file_under kept p s = record s { kept_fresh = p ∷ s.kept_fresh }
file_under gone p s = record s { removed = p ∷ s.removed }
file_under error p s = record s { errors = p ∷ s.errors }

unfoldable pub sweep : Bool → ℕ → List String → List Entry → PruneResult
unfolding fate_of
sweep dry_run cutoff protected [] = nothing_pruned
sweep dry_run cutoff protected (e ∷ entries) =
    file_under (fate_of dry_run cutoff protected e) e.path (sweep dry_run cutoff protected entries)

-- time.time() - older_than_days * SECONDS_PER_DAY, where the clock is past that
abbrev pub cutoff_of : ℕ → ℕ → ℕ
cutoff_of now older_than_days = now - older_than_days * 86400

-- `entries` are those of the directory, sorted, and none when it is no directory.
unfoldable pub prune_reports : Option (List Entry) → ℕ → ℕ → Bool → List String → PruneResult
unfolding sweep
prune_reports none now older_than_days dry_run protected = nothing_pruned
prune_reports (some entries) now older_than_days dry_run protected =
    sweep dry_run (cutoff_of now older_than_days) protected entries

unfoldable pub prune_rolled_history : List Entry → ℕ → ℕ → Bool → PruneResult
unfolding sweep
prune_rolled_history rolls now older_than_days dry_run =
    sweep dry_run (cutoff_of now older_than_days) [] rolls
