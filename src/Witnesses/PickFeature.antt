-- ===== src/Witnesses/PickFeature.antt =====
-- Two nights that pick from the same issues.
use herdr_routines.Prelude.{
  ℕ, String, str_eq, ◌≡◌, refl, Bool, true, false, Option, none, some, [], ◌∷◌, arith,
}
use herdr_routines.Prelude.Dict.{get}
use herdr_routines.PickFeature.{absent, Issue}
use herdr_routines.PickFeature.Claiming.{World, select_and_claim_feature}
use herdr_routines.PickFeature.Claimed.{select_and_claim_feature_once}

abbrev issue : String → String → Issue
issue id priority = record {
  id = id;
  title = "t";
  status = "open";
  priority = priority;
  path = "p";
  body = "b";
}

abbrev old_id : String
old_id = "041"

abbrev new_id : String
new_id = "042"

abbrev night : ℕ → World
night now = record {
  issues = some (issue new_id "low" ∷ issue old_id "high" ∷ []);
  now = now;
  open_prs = some [];
  pipeline_prs = none;
  in_flight = [];
}

abbrev as_int : String → Option ℕ
as_int s = some 41

abbrev below : String → String → Bool
below a b = true

select_and_claim_feature_once_example : str_eq old_id new_id ≡ false
unfolding select_and_claim_feature get
select_and_claim_feature_once_example =
    select_and_claim_feature_once as_int below absent (night 1_000) (night 2_000) true
      (issue old_id "high") (issue new_id "low") [] [] refl refl (omega arith)
