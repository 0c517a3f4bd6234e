-- ===== src/Witnesses/Sweeps.antt =====
-- One old file for each of the two sweeps.
use herdr_routines.Prelude.{◌+◌, ◌≡◌, refl, true, false, some, [], ◌∷◌, Memᴰ, length, keep_if}
use herdr_routines.TmpHygiene.{reap_tmp, Step, name, freshness}
use herdr_routines.TmpHygiene
use herdr_routines.TmpHygiene.Reaped.{reap_tmp_safe, reap_tmp_counts, IsLeaked, is_judged}
use herdr_routines.ReportsPrune.{sweep, fate_of}
use herdr_routines.ReportsPrune
use herdr_routines.ReportsPrune.Swept.{sweep_safe, IsPrunable}

abbrev leaked : TmpHygiene.Entry
leaked = record {
  path = "/tmp/opencode";
  is_child = true;
  is_symlink = false;
  mtime = some 5;
  is_dir = true;
  walk = name (some 7) ∷ [];
  removal_succeeds = true;
}

reap_tmp_safe_example : Memᴰ leaked (leaked ∷ []) × IsLeaked 100 leaked × (false ≡ false)
unfolding reap_tmp freshness
reap_tmp_safe_example = reap_tmp_safe 100 false (leaked ∷ []) leaked (Memᴰ.head refl)

reap_tmp_counts_test :
    (reap_tmp 100 false (leaked ∷ [])).removed
      + (reap_tmp 100 false (leaked ∷ [])).skipped_fresh
      + (reap_tmp 100 false (leaked ∷ [])).errors
    ≡ length (keep_if is_judged (leaked ∷ []))
reap_tmp_counts_test = reap_tmp_counts 100 false (leaked ∷ [])

abbrev report : ReportsPrune.Entry
report = record {
  path = "reports/r1.md";
  is_symlink = some false;
  is_file = some true;
  mtime = some 5;
  unlink_succeeds = true;
}

sweep_safe_example :
    (e : ReportsPrune.Entry) × Memᴰ e (report ∷ [])
    × (report.path ≡ e.path)
    × IsPrunable 100 ("reports/r2.md" ∷ []) e
unfolding sweep
sweep_safe_example =
    sweep_safe false 100 ("reports/r2.md" ∷ []) (report ∷ []) "reports/r1.md" (Memᴰ.head refl)
