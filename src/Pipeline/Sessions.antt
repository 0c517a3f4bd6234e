-- ===== src/Pipeline/Sessions.antt =====
-- src/herdr_routines/pipeline_watchdog.py: `validate_stage_sessions`, which audits the session ids
-- that `pipeline_run` records. `lower` is `str.lower`.
pub mod Independence
use herdr_routines.Prelude.{
  ℕ, zero, suc, ◌-◌, ◌==◌, leb, String, str_eq, Bool, true, false, not, ◌&&◌, ◌||◌, Option, none,
  some, List, [], ◌∷◌, if◌then◌else◌, any_of, keep_if, map, is_some, length,
}
use herdr_routines.Prelude.Dict.{Dict, get, put}
use herdr_routines.Prelude.Texts.{codes, prefix_of, is_in}
use herdr_routines.Json.{Json, ℤ, pos, negsuc, int, str, obj, to_dict}
use herdr_routines.Pipeline.Stages.{StageSpec, stages}

pub data Issue : Type 0 where
  sessions_missing : Issue
  non_string_entries : Issue
  placeholder_id : String → Issue
  not_an_id : String → Issue
  reused : (owner key : String) → Issue
  unverified : List ℕ → Issue

-- str(stage), for the stages' one digit
abbrev pub stage_key : ℕ → String
stage_key n =
    if n == 1
    then "1"
    else if n == 2
    then "2"
    else if n == 3
    then "3"
    else if n == 4
    then "4"
    else if n == 5
    then "5"
    else if n == 6
    then "6"
    else if n == 7
    then "7"
    else if n == 8
    then "8"
    else if n == 9
    then "9"
    else "0"

abbrev pub fabricated_markers : List String
fabricated_markers =
    "fake" ∷ "placeholder" ∷ "dummy" ∷ "stub" ∷ "todo" ∷ "example" ∷ "sample" ∷ "mock" ∷ []

abbrev is_alnum : ℕ → Bool
is_alnum c = (leb 48 c && leb c 57) || (leb 65 c && leb c 90) || (leb 97 c && leb c 122)

abbrev is_end : List ℕ → Bool
is_end [] = true
is_end (c ∷ t) = false

-- [A-Za-z0-9]{20,}$, where `$` also stands before a newline that ends the text
abbrev id_tail : ℕ → List ℕ → Bool
id_tail n [] = leb 20 n
id_tail n (c ∷ t) =
    let rest = id_tail (suc n) t in if is_alnum c then rest else c == 10 && is_end t && leb 20 n

abbrev after_prefix : List ℕ → Bool
after_prefix (_ ∷ _ ∷ _ ∷ _ ∷ t) = id_tail 0 t
after_prefix _ = false

-- _SESSION_ID_RE.match(value)
unfoldable pub is_session_id : String → Bool
unfolding prefix_of
is_session_id value = prefix_of (codes "ses_") (codes value) && after_prefix (codes value)

-- The entries, if all of them are texts.
abbrev pub text_entries : Dict Json → Option (Dict String)
text_entries [] = some []
text_entries ((k, str v) ∷ d) = with_entry k v (text_entries d)
  where
    with_entry : String → String → Option (Dict String) → Option (Dict String)
    with_entry k v none = none
    with_entry k v (some rest) = some ((k, v) ∷ rest)
text_entries ((k, _) ∷ d) = none

abbrev first_such : (String → Bool) → Dict String → Option String
first_such p [] = none
first_such p ((k, v) ∷ d) = let rest = first_such p d in if p v then some v else rest

module _ (lower : String → String) where
  unfoldable pub is_fabricated : String → Bool
  unfolding is_in
  is_fabricated value = any_of (λ marker. is_in marker (lower value)) fabricated_markers

  -- {str(spec.reuses_stage): str(spec.stage) ...}
  abbrev add_reuse : ℕ → Option ℕ → Dict String → Dict String
  add_reuse stage none d = d
  add_reuse stage (some owner) d = put (stage_key owner) (stage_key stage) d

  abbrev reuses_from : List StageSpec → Dict String → Dict String
  reuses_from [] d = d
  reuses_from (s ∷ specs) d = reuses_from specs (add_reuse s.stage s.reuses_stage d)

  unfoldable pub reuse_allowed : List StageSpec → Dict String
  unfolding put
  reuse_allowed expected = reuses_from expected []

  abbrev pub same_text : Option String → String → Bool
  same_text none k = false
  same_text (some s) k = str_eq s k

  -- The loop over the entries; `seen` maps a session to the first stage with it.
  unfoldable pub find_reuse : Dict String → Dict String → Dict String → Option Issue
  unfolding get put
  find_reuse allowed seen [] = none
  find_reuse allowed seen ((key, value) ∷ d) =
      by_owner (get value seen) (find_reuse allowed seen d)
        (find_reuse allowed (put value key seen) d)
    where
      by_owner : Option String → Option Issue → Option Issue → Option Issue
      by_owner none known fresh = fresh
      by_owner (some owner) known fresh =
          if not (same_text (get owner allowed) key) then some (reused owner key) else known

  abbrev pub needs_session : Dict String → StageSpec → Bool
  needs_session sessions s =
      is_some s.model
      && not (is_some s.reuses_stage)
      && not (is_some (get (stage_key s.stage) sessions))

  abbrev take : ℕ → List StageSpec → List StageSpec
  take zero xs = []
  take (suc n) [] = []
  take (suc n) (x ∷ xs) = x ∷ take n xs

  -- expected[:min(current_stage, len(expected))], where a negative bound counts from the end
  abbrev pub up_to : ℤ → List StageSpec → List StageSpec
  up_to (pos n) expected = take n expected
  up_to (negsuc n) expected = take (length expected - suc n) expected

  abbrev unverified_of : List StageSpec → Option Issue
  unverified_of [] = none
  unverified_of missing = some (unverified (map (λ (s : StageSpec). s.stage) missing))

  abbrev missing_of : Dict String → List StageSpec → Option Json → Option Issue
  missing_of sessions expected (some (int n)) =
      unverified_of (keep_if (needs_session sessions) (up_to n expected))
  missing_of sessions expected _ = none

  abbrev or_issue : Option Issue → Option Issue → Option Issue
  or_issue none next = next
  or_issue (some i) next = some i

  abbrev placeholder_of : Option String → Option Issue
  placeholder_of none = none
  placeholder_of (some v) = some (placeholder_id v)

  abbrev bad_id_of : Option String → Option Issue
  bad_id_of none = none
  bad_id_of (some v) = some (not_an_id v)

  abbrev audit_texts : List StageSpec → Option Json → Option (Dict String) → Option Issue
  audit_texts expected current none = some non_string_entries
  audit_texts expected current (some sessions) =
      or_issue (placeholder_of (first_such is_fabricated sessions)) (
        or_issue (bad_id_of (first_such (λ v. not (is_session_id v)) sessions)) (
          or_issue (find_reuse (reuse_allowed expected) [] sessions)
            (missing_of sessions expected current)))

  abbrev audit_entries : List StageSpec → Option Json → Dict Json → Option Issue
  audit_entries expected current [] = some sessions_missing
  audit_entries expected current (e ∷ entries) =
      audit_texts expected current (text_entries (e ∷ entries))

  abbrev audit_field : List StageSpec → Option Json → Option Json → Option Issue
  audit_field expected current (some (obj fs)) = audit_entries expected current (to_dict fs)
  audit_field expected current _ = some sessions_missing

  unfoldable pub validate_stage_sessions : Dict Json → List StageSpec → Option Issue
  unfolding find_reuse is_fabricated is_session_id reuse_allowed get
  validate_stage_sessions raw_state expected =
      audit_field expected (get "current_stage" raw_state) (get "stage_sessions" raw_state)
