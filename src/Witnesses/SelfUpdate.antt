-- ===== src/Witnesses/SelfUpdate.antt =====
-- A night that deploys a commit, and one that rolls it back.
use herdr_routines.Prelude.{ℕ, ◌≡◌, refl, true, false, Option, none, some, List, [], ◌∷◌}
use herdr_routines.Prelude.Dict.{get}
use herdr_routines.Prelude.Texts.{strip}
use herdr_routines.Json.{Json, str}
use herdr_routines.Gates.Checks.{Check}
use herdr_routines.SelfUpdate.{Validate, Host, Run}
use herdr_routines.SelfUpdate.Flow.{run_held}
use herdr_routines.SelfUpdate.Guards.{merges}
use herdr_routines.SelfUpdate.Rejected.{state_after, rolled_back_stays}

abbrev valid : ℕ → Validate
valid n = record { ok = true; job_count = some n; output = "ok" }

abbrev green : List Check
green = (("status", str "COMPLETED") ∷ ("conclusion", str "SUCCESS") ∷ []) ∷ []

abbrev host : ℕ → Option Json → Host
host jobs_after rejected = record {
  lock = λ n. true;
  jobs = [];
  history = [];
  old = "aaa";
  branch = "main";
  dirty = false;
  uv = some "uv";
  fetched = true;
  origin = "bbb";
  rejected = rejected;
  remote = true;
  checks = some green;
  baseline = valid 3;
  merged = true;
  resets = true;
  head_after = "bbb";
  post = valid jobs_after;
  changes = [];
  drift = some [];
}

abbrev run_on : Host → Run
run_on h = run_held (λ v. "") (λ s. s) (λ r. "why") "now" h false "main" 60

deploys : merges (run_on (host 3 none)).actions ≡ "bbb" ∷ []
unfolding run_held get strip
deploys = refl

abbrev dropped_job : Host
dropped_job = host 2 none

abbrev next_night : Host
next_night = host 3 (state_after none (run_on dropped_job).actions)

rolled_back_stays_example : merges (run_on next_night).actions ≡ []
unfolding run_held get strip
rolled_back_stays_example =
    rolled_back_stays (λ v. "") (λ s. s) (λ r. "why") "now" "now" dropped_job next_night false false
      "main" 60 60 refl refl refl
