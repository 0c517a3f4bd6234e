-- ===== src/Gates/Stages/Live.antt =====
-- When gate 5 and gate 6 pass.
use herdr_routines.Prelude.{
  ℕ, String, ◌≡◌, refl, ap, ◌∙◌, length, ◌↔◌, Bool, true, false, not, ◌||◌, Option, none, some,
  List, [], ◌∷◌, if◌then◌else◌, any_of, arith,
}
use herdr_routines.Prelude.Dict.{Dict, get}
use herdr_routines.Json.{Json, is_text}
use mathlib.Core.Option.{map}
use herdr_routines.Gates.{
  GateVerdict, Reason, pass, fail, not_open, wrong_head, on_branch, no_tier_label,
}
use herdr_routines.Gates.Threads.{blocking_tag}
use herdr_routines.Prelude.Texts.{is_in}
use herdr_routines.Gates.Stages.{
  View, run_gate5, run_gate6, judge_bodies, all_bodies, is_evidence, has_summary,
}

judged :
    (a b : Bool) (v w : Reason) (x : Option Reason)
    → ((if not a
          then fail v
          else if not b
          then fail w
          else record { passed = true; reason = x }).passed
        ≡ true)
      ↔ ((a ≡ true) × (b ≡ true))
judged true true v w x = (λ h. (refl, refl), λ h. refl)
judged true false v w x = (λ h. cc, λ h. cc)
judged false b v w x = (λ h. cc, λ h. cc)

-- Gate 5 fails without a recorded pull request. For one that `gh` can view, it passes exactly if the
-- state is OPEN and the head is the branch.
pub run_gate5_iff :
    (pr_view : ℕ → Option View) (branch : String) (pr : ℕ) (view : View)
    → pr_view pr ≡ some view
    → ((run_gate5 pr_view branch none).passed ≡ false)
      × (((run_gate5 pr_view branch (some pr)).passed ≡ true) ↔ (
          (is_text "OPEN" (get "state" view) ≡ true)
          × (is_text branch (get "headRefName" view) ≡ true)))
unfolding run_gate5
run_gate5_iff pr_view branch pr view h = (
  refl,
  rw h (
      judged (is_text "OPEN" (get "state" view)) (is_text branch (get "headRefName" view))
        (not_open (get "state" view)) (wrong_head (get "headRefName" view))
        (some (on_branch pr branch))),
)

any_of-or {ℓ} :
    {A : Type ℓ} (p q : A → Bool) (xs : List A)
    → (any_of p xs || any_of q xs) ≡ any_of (λ (x : A). p x || q x) xs
any_of-or p q [] = refl
any_of-or p q (x ∷ xs) = ground (arith, any_of-or p q xs)

passed_if : (b : Bool) (r : Reason) → (if b then pass else fail r).passed ≡ b
passed_if true r = refl
passed_if false r = refl

module _ (casefold : String → String) (is_digit : ℕ → Bool) where
  bodies_pass :
      (bodies : List String)
      → (judge_bodies casefold is_digit bodies).passed
        ≡ any_of (is_evidence casefold is_digit) bodies
  bodies_pass [] = refl
  bodies_pass (b ∷ bodies) =
      passed_if _ (no_tier_label (length (b ∷ bodies)))
      ∙ any_of-or (is_in blocking_tag) (has_summary casefold is_digit) (b ∷ bodies)

  -- When `gh` returns the view and the inline comments, gate 6 passes exactly if one of the bodies in
  -- scope has the blocking tag or the summary of the review skill.
  pub run_gate6_passes :
      (view : View) (comments : List (Dict Json)) (trusted : Option (List String))
      → map
          (λ (v : GateVerdict). v.passed)
          (run_gate6 casefold is_digit (some view) (some comments) trusted)
        ≡ some (
            any_of
              (is_evidence casefold is_digit)
              (all_bodies casefold is_digit view comments trusted))
  unfolding run_gate6
  run_gate6_passes view comments trusted =
      ap (λ (b : Bool). some b) (bodies_pass (all_bodies casefold is_digit view comments trusted))
