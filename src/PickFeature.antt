-- ===== src/PickFeature.antt =====
-- src/herdr_routines/pick_feature.py and claims.py: selection of the next issue, and the store of claims. `as_int`
-- is int of a text, or none for a ValueError, `below` the order of texts, `issue_refs` and `leading_id` what the
-- two regular expressions find, `show` is str. Instants are in microseconds. The issues are given as they are
-- parsed. A claim is its instant.
pub mod Claiming
pub mod Leases
pub mod Claimed
use herdr_routines.Prelude.{
  ℕ, suc, ◌+◌, ◌*◌, ◌-◌, ◌==◌, leb, ltb, String, str_eq, str_append, Bool, true, false, not, ◌&&◌,
  ◌||◌, Option, none, some, List, [], ◌∷◌, ◌++◌, if◌then◌else◌, keep_if, any_of, all_of, length,
  elem, map,
}
use herdr_routines.Prelude.Dict.{Dict, get, put, has}
use herdr_routines.Prelude.Texts.{has_prefix}
use herdr_routines.Json.{Json, bool, str, arr, obj, to_dict, to_list}
use herdr_routines.Pipeline.State.{Doc, opt_str}
use herdr_routines.Watchdog.{candidate_report_paths}

abbrev pub Claims : Type 0
Claims = Dict ℕ

-- The file of the store: absent, malformed, or the claims that it holds.
pub data Store : Type 0 where
  absent corrupt : Store
  holds : Claims → Store

-- load_claims, and what `locked_claims` yields
unfoldable pub load_claims : Store → Claims
load_claims absent = []
load_claims corrupt = []
load_claims (holds claims) = claims

pub record Issue : Type 0 where
  pub id : String
  pub title : String
  pub status : String
  pub priority : String
  pub path : String
  pub body : String

abbrev pub priority_of : String → ℕ
priority_of p =
    if str_eq p "high" then 0 else if str_eq p "medium" then 1 else if str_eq p "low" then 2 else 3

abbrev is_same_repo_pr : Doc → Bool
is_same_repo_pr item = is_false (get "isCrossRepository" item)
  where
    is_false : Option Json → Bool
    is_false (some (bool false)) = true
    is_false _ = false

abbrev pub is_in_set : ℕ → List ℕ → Bool
is_in_set n = any_of (λ m. m == n)

-- timedelta(hours=12)
abbrev pub lease : ℕ
lease = 12 * 3_600 * 1_000_000

module _ (as_int : String → Option ℕ) (below : String → String → Bool) where
  -- The order of the sort keys.
  abbrev pub before : Issue → Issue → Bool
  before a b =
      ltb (priority_of a.priority) (priority_of b.priority)
      || (priority_of a.priority == priority_of b.priority && below a.id b.id)

  abbrev excluded_by_pipeline : List ℕ → Option ℕ → Bool
  excluded_by_pipeline ids none = false
  excluded_by_pipeline ids (some n) = is_in_set n ids

  abbrev pub is_free : List String → List ℕ → Issue → Bool
  is_free claimed ids issue =
      str_eq issue.status "open"
      && not (elem issue.id claimed)
      && not (excluded_by_pipeline ids (as_int issue.id))

  -- min, which keeps the first of equals
  abbrev pub first_of : Issue → List Issue → Issue
  first_of best [] = best
  first_of best (i ∷ issues) = first_of (if before i best then i else best) issues

  abbrev pub min_of : List Issue → Option Issue
  min_of [] = none
  min_of (i ∷ issues) = some (first_of i issues)

  unfoldable pub select_next : List Issue → List String → List ℕ → Option Issue
  select_next issues claimed ids = min_of (keep_if (is_free claimed ids) issues)

module _ (show : Json → String) (issue_refs : String → List ℕ) (as_int : String → Option ℕ)
    (leading_id : String → Option String) where
  abbrev text_at : String → Doc → String
  text_at k item = shown (get k item)
    where
      shown : Option Json → String
      shown none = ""
      shown (some v) = show v

  abbrev prose_refs : Doc → List ℕ
  prose_refs item =
      issue_refs (str_append (text_at "title" item) (str_append "\n" (text_at "body" item)))

  abbrev refs_in : (Doc → List ℕ) → List Json → List ℕ
  refs_in f [] = []
  refs_in f (obj fs ∷ items) =
      (if is_same_repo_pr (to_dict fs) then f (to_dict fs) else []) ++ refs_in f items
  refs_in f (_ ∷ items) = refs_in f items

  abbrev ids_of : (Doc → List ℕ) → Option Json → Option (List ℕ)
  ids_of f (some (arr items)) = some (refs_in f (to_list items))
  ids_of f _ = none

  -- What gh prints, or none for its failure.
  unfoldable pub open_pr_issue_ids : Option Json → Option (List ℕ)
  unfolding get
  open_pr_issue_ids printed = ids_of prose_refs printed

  abbrev source_id : Option String → Option String
  source_id none = none
  source_id (some source) = leading_id source

  -- The first of the state files that names an issue.
  abbrev structural_id : List (Option Json) → Option String
  structural_id [] = none
  structural_id (some (obj fs) ∷ files) =
      or_next (source_id (opt_str (get "feature_source" (to_dict fs)))) (structural_id files)
    where
      or_next : Option String → Option String → Option String
      or_next none next = next
      or_next (some id) next = some id
  structural_id (_ ∷ files) = structural_id files

  abbrev one_of : Option ℕ → List ℕ
  one_of none = []
  one_of (some n) = n ∷ []

  abbrev by_structure : Doc → Option String → List ℕ
  by_structure item none = prose_refs item
  by_structure item (some id) = one_of (as_int id)

  -- `files head` is the state files of the run that a branch names, in both casings of its worktree.
  abbrev pipeline_refs : (String → List (Option Json)) → Doc → List ℕ
  pipeline_refs files item = of_head (get "headRefName" item)
    where
      of_head : Option Json → List ℕ
      of_head (some (str head)) =
          if has_prefix "auto/pipeline-" head
          then by_structure item (structural_id (files head))
          else []
      of_head _ = []

  unfoldable pub pipeline_open_pr_issue_ids :
      (String → List (Option Json)) → Option Json → Option (List ℕ)
  unfolding get has_prefix
  pipeline_open_pr_issue_ids files printed = ids_of (pipeline_refs files) printed

  abbrev id_in_flight : String → (String → Bool) → Doc → Option String → Option String → List String
  id_in_flight reports exists raw (some run_id) (some id) =
      if any_of exists (candidate_report_paths reports run_id raw) then [] else id ∷ []
  id_in_flight reports exists raw _ _ = []

  unfoldable pub inflight_issue_ids : String → (String → Bool) → List (Option Json) → List String
  unfolding get candidate_report_paths
  inflight_issue_ids reports exists [] = []
  inflight_issue_ids reports exists (some (obj fs) ∷ files) =
      id_in_flight reports exists (to_dict fs) (opt_str (get "run_id" (to_dict fs)))
        (source_id (opt_str (get "feature_source" (to_dict fs))))
      ++ inflight_issue_ids reports exists files
  inflight_issue_ids reports exists (_ ∷ files) = inflight_issue_ids reports exists files
