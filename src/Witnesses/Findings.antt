-- ===== src/Witnesses/Findings.antt =====
-- One cycle over a ledger with one open entry.
use herdr_routines.Prelude.{◌≡◌, refl, false, none, some, [], ◌∷◌}
use herdr_routines.Prelude.Dict.{get}
use herdr_routines.Findings.{low, high, open_, Finding, LedgerEntry, Ledger}
use herdr_routines.Findings.Diff.{collect_from, diff_findings, apply_diff}
use herdr_routines.Findings.Diff.Outcome.{After, apply_diff-diff_findings}
use herdr_routines.Findings.Diff.Stable.{diff_after_apply}

abbrev leak : Finding
leak = record { id = "a1"; kind = "leak"; severity = high; location = "x.py"; summary = "a leak" }

abbrev known : LedgerEntry
known = record {
  kind = "style";
  location = "y.py";
  severity = low;
  state = open_;
  first_seen = "t0";
  last_seen = "t0";
  resolved_at = none;
  attempts = 0;
  last_dispatched_run = none;
  queued = false;
}

abbrev ledger : Ledger
ledger = record {
  job = "audit";
  entries = ("b2", known) ∷ [];
  version = 1;
  updated = none;
  runs = 0;
}

abbrev after : Ledger
after = apply_diff ledger (diff_findings (leak ∷ []) (some ledger)) "t1" "r1" [] ("a1" ∷ [])

apply_diff-diff_findings_example :
    After "t1" "r1" []
      ("a1" ∷ [])
      (get "b2" (collect_from [] (leak ∷ [])))
      (get "b2" ledger.entries)
      (get "b2" after.entries)
unfolding get
apply_diff-diff_findings_example =
    apply_diff-diff_findings "t1" "r1" [] ("a1" ∷ []) ledger (leak ∷ []) (refl, tt) "b2"

diff_after_apply_example :
    ((diff_findings (leak ∷ []) (some after)).new ≡ [])
    × ((diff_findings (leak ∷ []) (some after)).regressed ≡ [])
    × ((diff_findings (leak ∷ []) (some after)).resolved ≡ [])
unfolding get
diff_after_apply_example = diff_after_apply ledger (leak ∷ []) "t1" "r1" [] ("a1" ∷ []) (refl, tt)
