-- ===== src/Witnesses/WaitLoop.antt =====
-- A prompt that is rejected once and then settles, and one that is killed.
use herdr_routines.Prelude.{String, ◌≡◌, refl, some, List, [], ◌∷◌, ◌++◌}
use herdr_routines.Prelude.Texts.{is_in}
use herdr_routines.Json.{pos, obj, str, field, end}
use herdr_routines.WaitLoop.{
  CliError, error_body_code, is_retryable_prompt_error, Round, settled, rejected, polled, status,
  killed, Outcome, prompt_with_watchdog, matched_failure_marker,
}
use herdr_routines.WaitLoop.Sends.{prompt_with_watchdog-IsBounded, IsBounded}
use herdr_routines.WaitLoop.Ends.{prompt_with_watchdog_returns}
use herdr_routines.WaitLoop.Kills.{killed-IsConfirmed, screens_of}

abbrev busy : CliError
busy = record {
  exit_code = pos 1;
  error_body = some (obj (field "error" (obj (field "code" (str "busy") end)) end));
}

abbrev retried : List (List Round)
retried = (rejected busy ∷ []) ∷ (polled "working" ∷ settled (some "idle") ∷ []) ∷ []

abbrev second_time : Outcome
second_time = record { reply = status (some "idle"); sends = 2; polls = 1 }

abbrev markers : List String
markers = "Rate limit" ∷ []

prompt_with_watchdog-IsBounded_example : IsBounded markers "go" 2 0 retried second_time
unfolding prompt_with_watchdog is_retryable_prompt_error error_body_code matched_failure_marker
    is_in
prompt_with_watchdog-IsBounded_example =
    prompt_with_watchdog-IsBounded markers "go" 2 retried second_time refl

abbrev limited : List (List Round)
limited = (polled "Rate limit" ∷ polled "Rate limit" ∷ []) ∷ []

abbrev stopped : Outcome
stopped = record { reply = killed "Rate limit" "Rate limit"; sends = 1; polls = 2 }

killed-IsConfirmed_example :
    (pre : List String) × (first : String) × (post : List String) × (screens_of limited
      ≡ pre ++ first ∷ "Rate limit" ∷ post)
    × (matched_failure_marker first markers "go" ≡ some "Rate limit")
    × (matched_failure_marker "Rate limit" markers "go" ≡ some "Rate limit")
unfolding prompt_with_watchdog matched_failure_marker is_in
killed-IsConfirmed_example =
    killed-IsConfirmed markers "go" 2 limited stopped "Rate limit" "Rate limit" refl refl

prompt_with_watchdog_returns_example :
    (o : Outcome) × (prompt_with_watchdog markers "go" 1 retried ≡ some o)
prompt_with_watchdog_returns_example =
    prompt_with_watchdog_returns markers "go" 1 retried (refl, refl)
