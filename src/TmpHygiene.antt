-- ===== src/TmpHygiene.antt =====
-- src/herdr_routines/tmp_hygiene.py: `reap_tmp`, which removes leaked entries of /tmp. An entry is
-- what the file system says of it: an answer that is none is an OSError, and `walk` is what
-- `os.walk` meets below it. Times are seconds.
pub mod Reaped
use herdr_routines.Prelude.{
  ℕ, zero, suc, ◌+◌, String, Bool, true, false, not, Option, none, some, List, [], ◌∷◌,
  if◌then◌else◌, ltb,
}

-- A name that the walk meets, with its mtime, or a directory that it cannot list.
pub data Step : Type 0 where
  name : Option ℕ → Step
  listing_error : Step

pub record Entry : Type 0 where
  pub path : String
  pub is_child : Bool
  pub is_symlink : Bool
  pub mtime : Option ℕ
  pub is_dir : Bool
  pub walk : List Step
  pub removal_succeeds : Bool

pub data Freshness : Type 0 where
  fresh : Freshness
  old : Freshness
  -- OSError or _WalkIncomplete
  unknown : Freshness

abbrev pub max_walk_entries : ℕ
max_walk_entries = 10_000

unfoldable pub walk_freshness : ℕ → ℕ → List Step → Freshness
walk_freshness cutoff seen [] = old
walk_freshness cutoff seen (listing_error ∷ steps) = unknown
walk_freshness cutoff seen (name none ∷ steps) = unknown
walk_freshness cutoff seen (name (some t) ∷ steps) =
    let rest = walk_freshness cutoff (suc seen) steps in
    if ltb max_walk_entries (suc seen) then unknown else if ltb cutoff t then fresh else rest

abbrev pub freshness_at : ℕ → Option ℕ → Entry → Freshness
freshness_at cutoff none e = unknown
freshness_at cutoff (some t) e =
    if ltb cutoff t then fresh else if not e.is_dir then old else walk_freshness cutoff 0 e.walk

-- _is_fresh
unfoldable pub freshness : ℕ → Entry → Freshness
unfolding walk_freshness
freshness cutoff e = freshness_at cutoff e.mtime e

pub record ReapResult : Type 0 where
  pub removed : ℕ
  pub skipped_fresh : ℕ
  pub errors : ℕ
  -- the entries that `rmtree` or `unlink` was called on
  pub attempted : List Entry

abbrev no_result : ReapResult
no_result = record { removed = 0; skipped_fresh = 0; errors = 0; attempted = [] }

abbrev pub reap_old : Bool → Entry → ReapResult → ReapResult
reap_old dry_run e s =
    if dry_run
    then record s { removed = suc s.removed }
    else if e.removal_succeeds
    then record s { removed = suc s.removed; attempted = e ∷ s.attempted }
    else record s { errors = suc s.errors; attempted = e ∷ s.attempted }

abbrev pub reap_by : Freshness → Bool → Entry → ReapResult → ReapResult
reap_by unknown dry_run e s = record s { errors = suc s.errors }
reap_by fresh dry_run e s = record s { skipped_fresh = suc s.skipped_fresh }
reap_by old dry_run e s = reap_old dry_run e s

abbrev pub reap_entry : ℕ → Bool → Entry → ReapResult → ReapResult
reap_entry cutoff dry_run e s =
    if not e.is_child
    then s
    else if e.is_symlink
    then s
    else reap_by (freshness cutoff e) dry_run e s

-- `entries` are those of the four globs, one glob after the other. The counters do not depend on
-- the order, so the rest is counted first.
unfoldable pub reap_tmp : ℕ → Bool → List Entry → ReapResult
unfolding freshness
reap_tmp cutoff dry_run [] = no_result
reap_tmp cutoff dry_run (e ∷ entries) =
    reap_entry cutoff dry_run e (reap_tmp cutoff dry_run entries)
