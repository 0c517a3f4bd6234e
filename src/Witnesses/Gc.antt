-- ===== src/Witnesses/Gc.antt =====
-- One merged branch with a clean worktree, and one empty directory.
use herdr_routines.Prelude.{
  String, ◌≡◌, refl, ◌⊎◌, Bool, true, false, Option, none, some, List, [], ◌∷◌, Memᴰ,
}
use herdr_routines.Prelude.Dict.{Dict, get}
use herdr_routines.Json.{pos}
use herdr_routines.Gc.{Row, collectible}
use herdr_routines.Gc.Orphans.{Entry, Orphan, empty_dir, find_orphans}
use herdr_routines.Gc.Orphans.Inert.{find_orphans_inert, IsDebrisOf}
use herdr_routines.Gc.Merged.{MergedPr, is_merged}
use herdr_routines.Gc.Merged.Covers.{is_merged_sound, Vouches}
use herdr_routines.Gc.Delete.{World, run_gc_delete}
use herdr_routines.Gc.Delete.Safety.{run_gc_delete_safe, MayGo, IsCleared}

abbrev branch : String
branch = "auto/review-1"

abbrev row : Row
row = record {
  branch = branch;
  worktree_exists = true;
  merged_into_base = true;
  age = some (pos 8000000);
}

abbrev world : World
world = record {
  retained = λ r. false;
  worktrees = (branch, "/w/1") ∷ [];
  all_worktree_paths = "/w/1" ∷ [];
  exists = λ p. true;
  status = λ p. some "";
  succeeds = λ e. true;
  entries = λ es. none;
  resolve = λ p. p;
}

run_gc_delete_safe_example :
    (true ≡ true)
    × MayGo world (row ∷ []) false (pos 14) branch
    × IsCleared world branch (run_gc_delete world true (some (row ∷ [])) false true (pos 14)).1
unfolding run_gc_delete collectible
run_gc_delete_safe_example =
    run_gc_delete_safe world true (row ∷ []) false true (pos 14) branch (Memᴰ.tail (Memᴰ.head refl))

abbrev left_over : Entry
left_over = record {
  path = "/w/auto-2";
  resolved = "/w/auto-2";
  is_symlink = false;
  target_exists = true;
  is_dir = true;
  has_content = false;
}

abbrev debris : Orphan
debris = record { path = "/w/auto-2"; kind = empty_dir }

find_orphans_inert_example : IsDebrisOf ("/w/1" ∷ []) (left_over ∷ []) debris
unfolding find_orphans
find_orphans_inert_example =
    find_orphans_inert ("/w/1" ∷ []) (left_over ∷ []) debris (Memᴰ.head refl) refl

abbrev tip_of : String → Option String
tip_of b = some "c0ffee"

abbrev is_ancestor : String → String → Bool
is_ancestor a b = false

abbrev merged_prs : Dict (List MergedPr)
merged_prs = (branch, record { head_oid = some "c0ffee"; merged_at = none } ∷ []) ∷ []

is_merged_sound_example :
    ((prs : List MergedPr) × (pr : MergedPr) × (get branch merged_prs ≡ some prs)
      × Vouches tip_of is_ancestor branch prs pr)
    ⊎ (is_ancestor branch "origin/main" ≡ true)
unfolding is_merged
is_merged_sound_example = is_merged_sound tip_of is_ancestor branch "origin/main" merged_prs refl
