-- ===== src/Gates/Checks/Strictness.antt =====
-- What a green commit has, and that it is also a passing pull request.
use mathlib.Core.List.{cons≢nil}
use herdr_routines.Prelude.{
  String, str_eq, eq_iff, ◌≡◌, refl, sym, ◌↔◌, ◌≢◌, inl, inr, true, false, not, ◌||◌, Option, none,
  some, List, [], ◌∷◌, arith, keep_if, Bool-cases, if◌then◌else◌,
}
use herdr_routines.Prelude.NoneOf.{NoneOf, keep_if_none, NoneOf-keep_if, NoneOf-mono}
use herdr_routines.Prelude.Dict.{get}
use herdr_routines.Prelude.Texts.{strip}
use herdr_routines.Json.{
  Json, null, bool, int, float, str, arr, obj, is_none, truthy, or_truthy, non_null,
}
use herdr_routines.Gates.{as_text}
use herdr_routines.Gates.Checks.{
  Check, is_failing, evaluate_ci_checks, normalise_token, is_pending_check_normalised,
  is_unaccepted, evaluate_commit_checks, ci_verdict, is_member, failing_ci_conclusions,
  accepted_commit_conclusions, settled_verdict, text_of, normalise,
}

is_failure : (s : String) → is_member (some s) failing_ci_conclusions ≡ true → "FAILURE" ≡ s
is_failure s h =
    let found : (str_eq "FAILURE" s || false) ≡ true = h in (eq_iff "FAILURE" s).0 (ground arith)

non_null-some : (v : Json) → is_none (some v) ≡ false → non_null (some v) ≡ some v
non_null-some null e = cc
non_null-some (bool b) e = refl
non_null-some (int b) e = refl
non_null-some (float b) e = refl
non_null-some (arr b) e = refl
non_null-some (obj b) e = refl
non_null-some (str b) e = refl

empty_not_failure : (s : String) → truthy (some (str s)) ≡ false → ¬ (s ≡ "FAILURE")
empty_not_failure s e = λ h. cc (rw h at e)

module _ (show : Json → String) (upper : String → String) where
  settled_pass :
      (pending unaccepted : List Check)
      → ((settled_verdict show upper pending unaccepted).passed ≡ true)
        ↔ ((pending ≡ []) × (unaccepted ≡ []))
  settled_pass [] [] = (λ h. (refl, refl), λ h. refl)
  settled_pass [] (c ∷ cs) = (λ h. cc, λ h. absurd (cons≢nil h.1))
  settled_pass (c ∷ cs) unaccepted = (λ h. cc, λ h. absurd (cons≢nil h.0))

  -- A commit is green exactly when it has checks, none of them is pending and every conclusion is in
  -- the allowlist.
  pub evaluate_commit_checks_iff :
      (cs : List Check)
      → ((evaluate_commit_checks show upper cs).passed ≡ true) ↔ (
          (cs ≢ [])
          × NoneOf (is_pending_check_normalised show upper) cs
          × NoneOf (is_unaccepted show upper) cs)
  unfolding evaluate_commit_checks
  evaluate_commit_checks_iff [] = (λ h. cc, λ h. absurd (h.0 refl))
  evaluate_commit_checks_iff (c ∷ cs) =
      let pending = is_pending_check_normalised show upper in
      let unaccepted = is_unaccepted show upper in
      let split = settled_pass (keep_if pending (c ∷ cs)) (keep_if unaccepted (c ∷ cs)) in
      (
        λ h. (
          cons≢nil,
          NoneOf-keep_if pending (c ∷ cs) (split.0 h).0,
          NoneOf-keep_if unaccepted (c ∷ cs) (split.0 h).1,
        ),
        λ h. split.1 (keep_if_none pending (c ∷ cs) h.1, keep_if_none unaccepted (c ∷ cs) h.2),
      )

  module _ (upper_failure : upper "FAILURE" ≡ "FAILURE")
      (show_falsy : (v : Json) → truthy (some v) ≡ false → show v ≢ "FAILURE") where
    failure_normalised :
        (x : Option String)
        → is_member x failing_ci_conclusions ≡ true
        → not (is_member (normalise show upper x) accepted_commit_conclusions) ≡ true
    unfolding strip
    failure_normalised none h = cc
    failure_normalised (some s) h = rw (← is_failure s h, upper_failure) refl

    as_text_falsy : (v : Json) → truthy (some v) ≡ false → as_text show v ≢ "FAILURE"
    as_text_falsy null e = show_falsy null e
    as_text_falsy (bool b) e = show_falsy (bool b) e
    as_text_falsy (int n) e = show_falsy (int n) e
    as_text_falsy (float x) e = show_falsy (float x) e
    as_text_falsy (arr xs) e = show_falsy (arr xs) e
    as_text_falsy (obj fs) e = show_falsy (obj fs) e
    as_text_falsy (str s) e = λ h. absurd (empty_not_failure s e h)

    failing_value :
        (v : Json) (state : Option Json)
        → is_none (some v) ≡ false
        → is_member (text_of show (some v)) failing_ci_conclusions ≡ true
        → not (
            is_member
              (normalise_token show upper (or_truthy (some v) state))
              accepted_commit_conclusions)
          ≡ true
    unfolding normalise_token
    failing_value v state n h = elim (Bool-cases (truthy (some v))) [
      | inl e ↦ rw (e, non_null-some v n) (failure_normalised (some (as_text show v)) h)
      | inr e ↦ absurd (as_text_falsy v e (sym (is_failure (as_text show v) h)))
    ]

    failing_cases :
        (conclusion state : Option Json)
        → is_member
            (if is_none conclusion then text_of show (non_null state) else text_of show conclusion)
            failing_ci_conclusions
          ≡ true
        → not (
            is_member
              (normalise_token show upper (or_truthy conclusion state))
              accepted_commit_conclusions)
          ≡ true
    unfolding normalise_token
    failing_cases none state h = failure_normalised (text_of show (non_null state)) h
    failing_cases (some null) state h = failure_normalised (text_of show (non_null state)) h
    failing_cases (some (bool b)) state h = failing_value (bool b) state refl h
    failing_cases (some (int b)) state h = failing_value (int b) state refl h
    failing_cases (some (float b)) state h = failing_value (float b) state refl h
    failing_cases (some (str b)) state h = failing_value (str b) state refl h
    failing_cases (some (arr b)) state h = failing_value (arr b) state refl h
    failing_cases (some (obj b)) state h = failing_value (obj b) state refl h

    failing_not_accepted :
        (c : Check) → is_failing show c ≡ true → is_unaccepted show upper c ≡ true
    unfolding is_failing is_unaccepted
    failing_not_accepted c h = failing_cases (get "conclusion" c) (get "state" c) h

    ci_pass : (cs : List Check) → cs ≡ [] → (ci_verdict show cs).passed ≡ true
    ci_pass [] h = refl
    ci_pass (c ∷ cs) h = absurd (cons≢nil h)

    -- A commit that is green enough to deploy also passes the gate of a pull request, as far as
    -- `upper` leaves FAILURE alone and no falsy value is written "FAILURE".
    pub green-passes_ci :
        (cs : List Check)
        → (evaluate_commit_checks show upper cs).passed ≡ true
        → (evaluate_ci_checks show cs).passed ≡ true
    unfolding evaluate_ci_checks
    green-passes_ci cs h = ci_pass (keep_if (is_failing show) cs) (
        keep_if_none (is_failing show) cs (
          NoneOf-mono (is_unaccepted show upper) (is_failing show) cs failing_not_accepted
            ((evaluate_commit_checks_iff cs).0 h).2))
