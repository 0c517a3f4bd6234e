-- ===== src/Gc.antt =====
-- src/herdr_routines/gc.py: which branches and which leftover worktree entries are garbage, and
-- their removal. What git, gh and the file system answer are parameters. An age is in seconds, none
-- is `float("-inf")`. Paths are texts.
pub mod Merged
pub mod Orphans
pub mod Delete
use herdr_routines.Prelude.{
  ℕ, zero, suc, ◌*◌, String, Bool, true, false, not, ◌&&◌, ◌||◌, Option, none, some, if◌then◌else◌,
  ltb,
}
use herdr_routines.Prelude.Texts.{has_prefix}
use herdr_routines.Json.{ℤ, pos, negsuc}

pub record Row : Type 0 where
  pub branch : String
  pub worktree_exists : Bool
  pub merged_into_base : Bool
  pub age : Option ℤ

unfoldable pub is_stale : Row → Bool
is_stale row = row.merged_into_base || not row.worktree_exists

-- older_than_days > 0 and age_days < older_than_days
abbrev pub is_too_young : Option ℤ → ℤ → Bool
is_too_young age (negsuc n) = false
is_too_young age (pos zero) = false
is_too_young none (pos (suc n)) = true
is_too_young (some (negsuc s)) (pos (suc n)) = true
is_too_young (some (pos s)) (pos (suc n)) = ltb s (suc n * 86400)

unfoldable pub collectible : Row → ℤ → Bool
unfolding is_stale
collectible row older_than_days =
    if not (is_stale row)
    then false
    else not (row.merged_into_base && is_too_young row.age older_than_days)

module _ (check_open_pr check_inflight : String → Bool) where
  unfoldable pub pipeline_branch_retained : Row → Bool
  unfolding has_prefix
  pipeline_branch_retained row =
      if not (has_prefix "auto/pipeline-" row.branch)
      then false
      else if not row.merged_into_base
      then true
      else if check_open_pr row.branch
      then true
      else check_inflight row.branch
