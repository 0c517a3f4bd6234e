-- ===== src/PickFeature/Claiming.antt =====
-- src/herdr_routines/pick_feature.py and claims.py: the reclaim of stale claims, and `select_and_claim_feature`
-- on the store that `locked_claims` reads and saves. The answers of gh are the lists of ids.
use herdr_routines.Prelude.{
  ℕ, ◌+◌, ◌==◌, leb, String, str_eq, Bool, true, false, not, ◌&&◌, ◌||◌, Option, none, some, List,
  [], ◌∷◌, if◌then◌else◌, keep_if, all_of, length, elem, map,
}
use herdr_routines.Prelude.Dict.{get, put}
use herdr_routines.PickFeature.{
  Claims, Store, absent, corrupt, holds, load_claims, Issue, is_in_set, lease, select_next,
}

-- As of the claims: a claim is looked up by its issue.
abbrev pub has_expired : ℕ → Option ℕ → Bool
has_expired now none = false
has_expired now (some claimed_at) = leb (claimed_at + lease) now

abbrev pub is_stale : Claims → ℕ → String × ℕ → Bool
is_stale claims now e = has_expired now (get e.0 claims)

-- del claims[k]
abbrev pub delete : String → Claims → Claims
delete k claims = keep_if (λ (e : String × ℕ). not (str_eq e.0 k)) claims

abbrev pub Released : Type 0
Released = Claims × List (String × ℕ)

module _ (as_int : String → Option ℕ) (open_prs : List ℕ) (in_flight : List String) where
  abbrev pub noting : String × ℕ → Option Released → Option Released
  noting e none = none
  noting e (some (claims, reclaimed)) = some (claims, e ∷ reclaimed)

  -- None is the ValueError of int.
  abbrev pub decided : String → Option ℕ → Option Released → Option Released → Option Released
  decided id none kept released = none
  decided id (some n) kept released =
      if is_in_set n open_prs || elem id in_flight then kept else released

  abbrev pub release : List (String × ℕ) → Claims → Option Released
  release [] claims = some (claims, [])
  release ((id, t) ∷ stale) claims =
      decided id (as_int id) (release stale claims)
        (noting (id, t) (release stale (delete id claims)))

-- Without an answer of gh nothing is released.
abbrev pub with_prs :
    (String → Option ℕ) → List String → Claims → ℕ → Option (List ℕ) → Option Released
with_prs as_int in_flight claims now none = some (claims, [])
with_prs as_int in_flight claims now (some open_prs) =
    release as_int open_prs in_flight (keep_if (is_stale claims now) claims) claims

unfoldable pub reclaim_stale_claims :
    (String → Option ℕ) → List String → Claims → ℕ → Option (List ℕ) → Option Released
unfolding get
reclaim_stale_claims as_int in_flight claims now open_prs =
    with_prs as_int in_flight claims now open_prs

-- What one run finds: the issues, or none when they cannot be parsed, and the three lists of ids.
pub record World : Type 0 where
  pub issues : Option (List Issue)
  pub now : ℕ
  pub open_prs : Option (List ℕ)
  pub pipeline_prs : Option (List ℕ)
  pub in_flight : List String

pub data Pick : Type 0 where
  picked : Issue → List (String × ℕ) → Pick
  nothing : List (String × ℕ) → Pick
  unparsable : Pick
  value_error : Pick

abbrev pub is_time : ℕ → Option ℕ → Bool
is_time t none = false
is_time t (some u) = u == t

-- dict equality
abbrev pub same_claims : Claims → Claims → Bool
same_claims after before =
    all_of (λ (e : String × ℕ). is_time e.1 (get e.0 before)) after && length after == length before

-- A malformed store was moved aside.
abbrev pub unchanged : Store → Store
unchanged corrupt = absent
unchanged store = store

-- The end of `locked_claims`
unfoldable pub save_changed : Store → Claims → Store
unfolding get load_claims
save_changed store claims =
    if same_claims claims (load_claims store) then unchanged store else holds claims

abbrev pub or_none : Option (List ℕ) → List ℕ
or_none none = []
or_none (some ids) = ids

module _ (as_int : String → Option ℕ) (below : String → String → Bool) where
  abbrev pub choose : World → List Issue → Claims → Option Issue
  choose w issues claims =
      select_next as_int below issues (map (λ (e : String × ℕ). e.0) claims)
        (or_none w.pipeline_prs)

  abbrev pub claim_it : World → Store → Released → Option Issue → Pick × Store
  claim_it w store (claims, reclaimed) none = (nothing reclaimed, save_changed store claims)
  claim_it w store (claims, reclaimed) (some issue) =
      (picked issue reclaimed, save_changed store (put issue.id w.now claims))

  -- An exception in the block leaves the claims as they were.
  abbrev pub after_reclaim : World → Store → List Issue → Option Released → Pick × Store
  after_reclaim w store issues none = (value_error, unchanged store)
  after_reclaim w store issues (some r) = claim_it w store r (choose w issues r.0)

  abbrev pub only_pick : Option Issue → Pick
  only_pick none = nothing []
  only_pick (some issue) = picked issue []

  abbrev pub with_issues : (mark : Bool) → Store → World → Option (List Issue) → Pick × Store
  with_issues mark store w none = (unparsable, store)
  with_issues true store w (some issues) =
      after_reclaim w store issues
        (reclaim_stale_claims as_int w.in_flight (load_claims store) w.now w.open_prs)
  with_issues false store w (some issues) = (only_pick (choose w issues (load_claims store)), store)

  unfoldable pub select_and_claim_feature : (mark : Bool) → Store → World → Pick × Store
  unfolding reclaim_stale_claims select_next load_claims save_changed put
  select_and_claim_feature mark store w = with_issues mark store w w.issues
