-- ===== src/Gates/Polling/Ends.antt =====
-- gates.py: the poll at which the loop of `run_ci_gate` ends.
use herdr_routines.Prelude.{
  ℕ, zero, suc, ◌+◌, ◌≤◌, ◌<◌, ◌≡◌, refl, subst, ◌⊎◌, inl, inr, String, true, false, Option, some,
  arith, leb, Bool-cases, leb→le,
}
use herdr_routines.Json.{Json}
use herdr_routines.Gates.{GateVerdict, fail, ci_timeout}
use herdr_routines.Gates.Checks.{evaluate_ci_checks}
use herdr_routines.Gates.Polling.{is_settled, checks_at, poll, run_ci_gate}

module _ (show : Json → String) (views : ℕ → Option Json) (clock : ℕ → ℕ) where
  abbrev pub IsWaiting : ℕ → ℕ → Type 0
  IsWaiting deadline j =
      (is_settled (checks_at show views clock j) ≡ false) × (leb deadline (clock j) ≡ false)

  abbrev pub EndsAt : ℕ → ℕ → GateVerdict → Type 0
  EndsAt deadline i v =
      ((is_settled (checks_at show views clock i) ≡ true)
        × (v ≡ evaluate_ci_checks show (checks_at show views clock i)))
      ⊎ ((is_settled (checks_at show views clock i) ≡ false)
          × (deadline ≤ clock i)
          × (v ≡ fail ci_timeout))

  abbrev pub IsResult : ℕ → ℕ → Option GateVerdict → Type 0
  IsResult deadline i r =
      (v : GateVerdict) × (k : ℕ) × (r ≡ some v)
      × (i ≤ k)
      × EndsAt deadline k v
      × ((j : ℕ) → i ≤ j → j < k → IsWaiting deadline j)

  settled_now :
      (deadline fuel i : ℕ)
      → is_settled (checks_at show views clock i) ≡ true
      → IsResult deadline i (poll show views clock deadline (suc fuel) i)
  unfolding poll
  settled_now deadline fuel i e = (
    evaluate_ci_checks show (checks_at show views clock i),
    i,
    rw e refl,
    omega arith,
    inl (e, refl),
    λ j h k. absurd (omega arith),
  )

  expired_now :
      (deadline fuel i : ℕ)
      → is_settled (checks_at show views clock i) ≡ false
      → leb deadline (clock i) ≡ true
      → IsResult deadline i (poll show views clock deadline (suc fuel) i)
  unfolding poll
  expired_now deadline fuel i e l = (
    fail ci_timeout,
    i,
    rw (e, l) refl,
    omega arith,
    inr (e, leb→le deadline (clock i) l, refl),
    λ j h k. absurd (omega arith),
  )

  waits_first :
      (deadline i : ℕ)
      → IsWaiting deadline i
      → (k : ℕ) → ((j : ℕ) → suc i ≤ j → j < k → IsWaiting deadline j)
      → (j : ℕ) → i ≤ j
      → j < k
      → IsWaiting deadline j
  waits_first deadline i w k later j h l = elim (Bool-cases (leb j i)) [
    | inl e ↦ let same : i ≡ j = ground arith in subst (λ (n : ℕ). IsWaiting deadline n) same w
    | inr e ↦ later j (ground arith) l
  ]

  waiting_now :
      (deadline fuel i : ℕ)
      → IsWaiting deadline i
      → IsResult deadline (suc i) (poll show views clock deadline fuel (suc i))
      → IsResult deadline i (poll show views clock deadline (suc fuel) i)
  unfolding poll
  waiting_now deadline fuel i w (v, k, e, l, ends, later) =
      (v, k, rw (w.0, w.1) e, omega arith, ends, waits_first deadline i w k later)

  one_poll :
      (deadline fuel i : ℕ)
      → (IsWaiting deadline i
          → IsResult deadline (suc i) (poll show views clock deadline fuel (suc i)))
      → IsResult deadline i (poll show views clock deadline (suc fuel) i)
  one_poll deadline fuel i next = elim (Bool-cases (is_settled (checks_at show views clock i))) [
    | inl e ↦ settled_now deadline fuel i e
    | inr e ↦ elim (Bool-cases (leb deadline (clock i))) [
      | inl l ↦ expired_now deadline fuel i e l
      | inr l ↦ waiting_now deadline fuel i (e, l) (next (e, l))
    ]
  ]

  module _ (ticks : (i : ℕ) → clock i < clock (suc i)) where
    poll-IsResult :
        (deadline fuel i : ℕ)
        → deadline ≤ clock i + fuel
        → IsResult deadline i (poll show views clock deadline (suc fuel) i)
    poll-IsResult deadline zero i enough =
        one_poll deadline zero i (λ w. let late = w.1 in absurd (ground arith))
    poll-IsResult deadline (suc fuel) i enough =
        one_poll deadline (suc fuel) i
          (λ w. poll-IsResult deadline fuel (suc i) (omega (arith, ticks i)))

    -- If the clock does not run backwards between the start and the first poll and goes on by at
    -- least one second from a poll to the next, one poll more than the timeout has seconds is
    -- enough for a verdict: that of the checks at the first settled poll, or the timeout at the
    -- first poll at or past the deadline, whichever comes first, the settled one at a tie.
    pub run_ci_gate-IsResult :
        (start timeout : ℕ)
        → start ≤ clock 0
        → IsResult (start + timeout) 0 (run_ci_gate show views clock (suc timeout) start timeout)
    unfolding run_ci_gate
    run_ci_gate-IsResult start timeout h = poll-IsResult (start + timeout) timeout 0 (omega arith)
