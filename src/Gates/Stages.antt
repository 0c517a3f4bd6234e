-- ===== src/Gates/Stages.antt =====
-- gates.py: `run_gate5`, the pull request is live, and `run_gate6`, the review skill has run. What
-- `gh` returns is a parameter, none for its RuntimeError. `is_digit` is the regular expressions'
-- `\d`.
pub mod Live
use herdr_routines.Prelude.{
  ℕ, String, str_eq, Bool, true, false, not, ◌&&◌, ◌||◌, Option, none, some, List, [], ◌∷◌, ◌++◌,
  if◌then◌else◌, any_of, keep_if, length,
}
use herdr_routines.Prelude.Dict.{Dict, get}
use herdr_routines.Prelude.Texts.{codes, prefix_of, is_in}
use herdr_routines.Json.{Json, Items, Fields, obj, arr, str, nil, cons, to_dict, to_list, is_text}
use herdr_routines.Gates.{
  GateVerdict, pass, fail, no_pr_number, view_failed, not_open, wrong_head, on_branch, no_bodies,
  no_tier_label,
}
use herdr_routines.Gates.Threads.{in_scope, blocking_tag}

abbrev pub View : Type 0
View = Dict Json

abbrev pub judge_view : String → ℕ → View → GateVerdict
judge_view branch pr view =
    if not (is_text "OPEN" (get "state" view))
    then fail (not_open (get "state" view))
    else if not (is_text branch (get "headRefName" view))
    then fail (wrong_head (get "headRefName" view))
    else record { passed = true; reason = some (on_branch pr branch) }

abbrev judge_answer : String → ℕ → Option View → GateVerdict
judge_answer branch pr none = fail view_failed
judge_answer branch pr (some view) = judge_view branch pr view

unfoldable pub run_gate5 : (pr_view : ℕ → Option View) → String → Option ℕ → GateVerdict
unfolding get
run_gate5 pr_view branch none = fail no_pr_number
run_gate5 pr_view branch (some pr) = judge_answer branch pr (pr_view pr)

abbrev login_of : Option Json → Option Json
login_of (some (obj fs)) = get "login" (to_dict fs)
login_of _ = none

-- _login_at
unfoldable pub login_at : Dict Json → String → Option Json
unfolding get
login_at entry key = login_of (get key entry)

module _ (casefold : String → String) where
  abbrev counted : Dict Json → String → Option (List String) → Option Json → List String
  counted entry key trusted (some (str body)) =
      if in_scope casefold (login_at entry key) trusted then body ∷ [] else []
  counted entry key trusted _ = []

  -- The body of an entry whose author counts.
  unfoldable pub body_of : Dict Json → String → Option (List String) → List String
  unfolding login_at get
  body_of entry key trusted = counted entry key trusted (get "body" entry)

  abbrev bodies_of : List Json → Option (List String) → List String
  bodies_of [] trusted = []
  bodies_of (obj fs ∷ entries) trusted =
      body_of (to_dict fs) "author" trusted ++ bodies_of entries trusted
  bodies_of (_ ∷ entries) trusted = bodies_of entries trusted

  abbrev bodies_in : Option Json → Option (List String) → List String
  bodies_in (some (arr entries)) trusted = bodies_of (to_list entries) trusted
  bodies_in _ trusted = []

  -- _pr_bodies
  unfoldable pub pr_bodies : View → Option (List String) → List String
  unfolding body_of get
  pr_bodies view trusted =
      bodies_in (get "comments" view) trusted ++ bodies_in (get "reviews" view) trusted

  abbrev comment_bodies : List (Dict Json) → Option (List String) → List String
  comment_bodies [] trusted = []
  comment_bodies (c ∷ cs) trusted = body_of c "user" trusted ++ comment_bodies cs trusted

  module _ (is_digit : ℕ → Bool) where
    abbrev after_digits : List ℕ → Bool
    after_digits [] = false
    after_digits (c ∷ t) =
        let rest = after_digits t in
        if is_digit c then rest else prefix_of (codes " blocking issue(s)") (c ∷ t)

    abbrev some_digits : List ℕ → Bool
    some_digits [] = false
    some_digits (c ∷ t) = is_digit c && after_digits t

    abbrev summary_at : List ℕ → Bool
    summary_at (_ ∷ _ ∷ _ ∷ _ ∷ _ ∷ _ ∷ t) = some_digits t
    summary_at _ = false

    abbrev search_summary : List ℕ → Bool
    search_summary [] = false
    search_summary (c ∷ t) =
        (prefix_of (codes "Found ") (c ∷ t) && summary_at (c ∷ t)) || search_summary t

    -- BLOCKING_SUMMARY_RE.search(body)
    unfoldable pub has_summary : String → Bool
    unfolding prefix_of
    has_summary body = search_summary (codes body)

    abbrev pub is_evidence : String → Bool
    is_evidence body = is_in blocking_tag body || has_summary body

    abbrev pub judge_bodies : List String → GateVerdict
    judge_bodies [] = fail no_bodies
    judge_bodies (b ∷ bodies) =
        if any_of (is_in blocking_tag) (b ∷ bodies) || any_of has_summary (b ∷ bodies)
        then pass
        else fail (no_tier_label (length (b ∷ bodies)))

    unfoldable pub all_bodies : View → List (Dict Json) → Option (List String) → List String
    unfolding pr_bodies
    all_bodies view comments trusted = pr_bodies view trusted ++ comment_bodies comments trusted

    abbrev judge_comments :
        View → Option (List (Dict Json)) → Option (List String) → Option GateVerdict
    judge_comments view none trusted = none
    judge_comments view (some comments) trusted =
        some (judge_bodies (all_bodies view comments trusted))

    -- None when `gh` raises.
    unfoldable pub run_gate6 :
        Option View → Option (List (Dict Json)) → Option (List String) → Option GateVerdict
    unfolding all_bodies has_summary
    run_gate6 none comments trusted = none
    run_gate6 (some view) comments trusted = judge_comments view comments trusted
