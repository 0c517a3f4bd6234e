-- ===== src/WaitLoop/Ends.antt =====
-- When the call is over.
use herdr_routines.Prelude.{
  ℕ, zero, suc, String, ◌≡◌, refl, Bool, true, false, Option, none, some, List, [], ◌∷◌,
  if◌then◌else◌, any_of,
}
use herdr_routines.WaitLoop.{
  CliError, Round, settled, rejected, overrun, polled, Reply, status, error, killed, wait, scan,
  after_poll, after_wait, done, Outcome, attempts, prompt_with_watchdog, is_retryable_prompt_error,
}

-- The round ends the attempt; a wait has such a round at its timeout at the latest.
abbrev pub is_final : Round → Bool
is_final (polled screen) = false
is_final _ = true

-- There is an attempt for the first sending and for each delay, and every one of them ends.
abbrev pub IsAnswered : ℕ → List (List Round) → Type 0
IsAnswered left [] = ⊥
IsAnswered zero (rs ∷ more) = any_of is_final rs ≡ true
IsAnswered (suc left) (rs ∷ more) = (any_of is_final rs ≡ true) × IsAnswered left more

abbrev Returns : {A : Type 0} → Option A → Type 0
Returns {A = A} o = (a : A) × (o ≡ some a)

after_wait-Returns :
    (sends : ℕ) (w : Option (Reply × Option String × ℕ))
    (handle : CliError → Option String → ℕ → Option Outcome)
    → Returns w
    → ((e : CliError) (hit : Option String) (polls : ℕ) → Returns (handle e hit polls))
    → Returns (after_wait sends w handle)
after_wait-Returns sends none handle (a, h) g = cc
after_wait-Returns sends (some (status s, hit, polls)) handle r g = (_, refl)
after_wait-Returns sends (some (killed m s, hit, polls)) handle r g = (_, refl)
after_wait-Returns sends (some (error e, hit, polls)) handle r g = g e hit polls

module _ (markers : List String) (prompt_text : String) where
  after_poll-Returns :
      (marker : Option String) (screen : String) (hit : Option String) (polls : ℕ)
      (rest : Option (Reply × Option String × ℕ))
      → Returns rest
      → Returns (after_poll markers prompt_text marker screen hit polls rest)
  after_poll-Returns none screen hit polls rest r = r
  after_poll-Returns (some m) screen hit polls rest r = (_, refl)

  wait-Returns :
      (hit : Option String) (polls : ℕ) (rs : List Round)
      → any_of is_final rs ≡ true
      → Returns (wait markers prompt_text hit polls rs)
  unfolding wait
  wait-Returns hit polls [] h = cc
  wait-Returns hit polls (settled s ∷ rs) h = (_, refl)
  wait-Returns hit polls (rejected e ∷ rs) h = (_, refl)
  wait-Returns hit polls (overrun ∷ rs) h = (_, refl)
  wait-Returns hit polls (polled screen ∷ rs) h =
      let next = scan markers prompt_text hit screen in
      after_poll-Returns next.1 screen next.0 (suc polls)
        (wait markers prompt_text next.0 (suc polls) rs) (wait-Returns next.0 (suc polls) rs h)

  retry_or :
      (b : Bool) (again stop : Option Outcome)
      → Returns again
      → Returns stop
      → Returns (if b then again else stop)
  retry_or true again stop r s = r
  retry_or false again stop r s = s

  attempts_return :
      (left sends : ℕ) (hit : Option String) (polls : ℕ) (world : List (List Round))
      → IsAnswered left world
      → Returns (attempts markers prompt_text left sends hit polls world)
  unfolding attempts
  attempts_return left sends hit polls [] h = absurd h
  attempts_return zero sends hit polls (rs ∷ more) h =
      after_wait-Returns sends (wait markers prompt_text hit polls rs) _
        (wait-Returns hit polls rs h) (λ e hit' polls'. (_, refl))
  attempts_return (suc left) sends hit polls (rs ∷ more) h =
      after_wait-Returns sends (wait markers prompt_text hit polls rs) _
        (wait-Returns hit polls rs h.0)
        (λ e hit' polls'.
          retry_or (is_retryable_prompt_error e)
            (attempts markers prompt_text left (suc sends) hit' polls' more)
            (done (error e) (suc sends) polls')
            (attempts_return left (suc sends) hit' polls' more h.1) (_, refl))

  -- If the world has one attempt more than there are delays, and every attempt has a round that
  -- settles, is rejected or overruns, the call returns an outcome.
  pub prompt_with_watchdog_returns :
      (retry_delays : ℕ) (world : List (List Round))
      → IsAnswered retry_delays world
      → (o : Outcome) × (prompt_with_watchdog markers prompt_text retry_delays world ≡ some o)
  unfolding prompt_with_watchdog
  prompt_with_watchdog_returns retry_delays world h = attempts_return retry_delays 0 none 0 world h
