-- ===== src/Gc/Delete.antt =====
-- gc.py: `run_gc_delete`. A run is its exit code and the commands it gave, in order; `succeeds` says
-- which commands succeed. A timeout of git, which ends the run, is not modelled.
pub mod Safety
use herdr_routines.Prelude.{
  ℕ, String, str_eq, Bool, true, false, not, ◌&&◌, ◌||◌, Option, none, some, List, [], ◌∷◌, ◌++◌,
  map, if◌then◌else◌, keep_if, any_of, elem,
}
use herdr_routines.Prelude.Dict.{Dict, get}
use herdr_routines.Prelude.Texts.{strip}
use herdr_routines.Json.{ℤ}
use herdr_routines.Gc.{Row, collectible}
use herdr_routines.Gc.Orphans.{
  Entry, Orphan, OrphanKind, dangling_symlink, empty_dir, nonempty_dir, is_collectible,
  find_orphans,
}

pub data Effect : Type 0 where
  worktree_remove : String → Effect
  branch_delete : String → Effect
  unlink : String → Effect
  rmdir : String → Effect

-- What happened to a branch.
pub data Fate : Type 0 where
  dirty : Fate
  worktree_failed : Fate
  branch_failed : Fate
  deleted : Fate

-- What a run finds: `retained` is `pipeline_branch_retained`; `exists` and `status` are a worktree's
-- `path.exists()` and its `git status --porcelain`, none when that fails; `entries` lists the
-- worktrees' directory after the commands given so far, and is none when `resolve_orphan_root` has
-- no directory to sweep; `resolve` is `Path.resolve`.
pub record World : Type 0 where
  pub retained : Row → Bool
  pub worktrees : Dict String
  pub all_worktree_paths : List String
  pub exists : String → Bool
  pub status : String → Option String
  pub succeeds : Effect → Bool
  pub entries : List Effect → Option (List Entry)
  pub resolve : String → String

module _ (w : World) where
  abbrev unclean : Option String → Bool
  unclean none = true
  unclean (some out) = not (str_eq (strip out) "")

  unfoldable pub worktree_dirty : Option String → Bool
  unfolding strip
  worktree_dirty none = false
  worktree_dirty (some path) = if not (w.exists path) then false else unclean (w.status path)

  abbrev branch_step : Row → List Effect → List Effect × Fate
  branch_step row before = (
    before ++ branch_delete row.branch ∷ [],
    if w.succeeds (branch_delete row.branch) then deleted else branch_failed,
  )

  abbrev removal_step : Row → Option String → List Effect × Fate
  removal_step row none = branch_step row []
  removal_step row (some path) =
      if w.succeeds (worktree_remove path)
      then branch_step row (worktree_remove path ∷ [])
      else (worktree_remove path ∷ [], worktree_failed)

  -- The body of the loop over `to_delete`.
  unfoldable pub delete_row : Row → List Effect × Fate
  unfolding worktree_dirty get
  delete_row row =
      if worktree_dirty (get row.branch w.worktrees)
      then ([], dirty)
      else removal_step row (get row.branch w.worktrees)

  unfoldable pub delete_rows : List Row → List Effect × List Fate
  unfolding delete_row
  delete_rows [] = ([], [])
  delete_rows (row ∷ rows) =
      let rest = delete_rows rows in let one = delete_row row in (one.0 ++ rest.0, one.1 ∷ rest.1)

  abbrev removal_of : Orphan → OrphanKind → Effect
  removal_of o dangling_symlink = unlink o.path
  removal_of o _ = rmdir o.path

  abbrev sweep_commands : List Orphan → List Effect
  sweep_commands orphans =
      map (λ (o : Orphan). removal_of o o.kind) (keep_if is_collectible orphans)

  abbrev sweep_of : Option (List Entry) → List String → List Effect
  sweep_of none registered = []
  sweep_of (some entries) registered =
      sweep_commands (find_orphans entries (map w.resolve registered))

  -- Any command that removes an orphan may fail, which makes the exit code 1.
  unfoldable pub sweep_orphans : List Effect → List String → List Effect
  unfolding find_orphans
  sweep_orphans before registered = sweep_of (w.entries before) registered

  abbrev is_failure : Fate → Bool
  is_failure worktree_failed = true
  is_failure branch_failed = true
  is_failure _ = false

  abbrev is_removal_of : String → Effect → Bool
  is_removal_of path (worktree_remove q) = str_eq q path && w.succeeds (worktree_remove q)
  is_removal_of path _ = false

  abbrev pub candidates : List Row → ℤ → List Row
  candidates rows older_than_days =
      keep_if (λ r. collectible r older_than_days) (keep_if (λ r. not (w.retained r)) rows)

  abbrev pub to_delete : List Row → Bool → List Row
  to_delete rows force = if not force then keep_if (λ (r : Row). r.merged_into_base) rows else rows

  abbrev pub swept : List Effect → List Fate → List Effect → ℕ × List Effect
  swept before fates sweep = (
    if any_of is_failure fates || any_of (λ e. not (w.succeeds e)) sweep then 1 else 0,
    before ++ sweep,
  )

  abbrev deletion_of : List Effect × List Fate → ℕ × List Effect
  deletion_of (before, fates) = swept before fates (
      sweep_orphans before
        (keep_if (λ p. not (any_of (is_removal_of p) before)) w.all_worktree_paths))

  abbrev gc_delete_on : List Row → (force assume_yes : Bool) → ℕ × List Effect
  gc_delete_on [] force assume_yes = swept [] [] (sweep_orphans [] w.all_worktree_paths)
  gc_delete_on (row ∷ rows) force assume_yes =
      if not assume_yes then (2, []) else deletion_of (delete_rows (to_delete (row ∷ rows) force))

  abbrev gc_delete_in : Option (List Row) → (force assume_yes : Bool) → ℤ → ℕ × List Effect
  gc_delete_in none force assume_yes older_than_days = (1, [])
  gc_delete_in (some rows) force assume_yes older_than_days =
      gc_delete_on (candidates rows older_than_days) force assume_yes

  -- `is_repo` says that `resolve_repo_root` found a repository; `rows` is none when the listing of
  -- the branches failed.
  unfoldable pub run_gc_delete :
      (is_repo : Bool) → Option (List Row) → (force assume_yes : Bool) → ℤ → ℕ × List Effect
  unfolding sweep_orphans delete_rows collectible
  run_gc_delete is_repo rows force assume_yes older_than_days =
      if not is_repo then (1, []) else gc_delete_in rows force assume_yes older_than_days
