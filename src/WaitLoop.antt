-- ===== src/WaitLoop.antt =====
-- src/herdr_routines/wait_loop.py and the wait of herdr.py below it: one prompt under the
-- failure-marker watchdog, with bounded retries. The outside world is a list of rounds for each
-- attempt: what the wait finds each time that it looks.
pub mod Sends
pub mod Kills
pub mod Ends
use herdr_routines.Prelude.{
  ℕ, zero, suc, ◌+◌, String, str_eq, Bool, true, false, not, ◌&&◌, ◌||◌, Option, none, some, List,
  [], ◌∷◌, ◌++◌, if◌then◌else◌, is_some, length,
}
use herdr_routines.Prelude.Dict.{get}
use herdr_routines.Prelude.Texts.{is_in}
use herdr_routines.Json.{Json, ℤ, pos, is_one, obj, str, to_dict}

-- HerdrCliError
pub record CliError : Type 0 where
  pub exit_code : ℤ
  pub error_body : Option Json

abbrev text_of : Option Json → Option String
text_of (some (str s)) = some s
text_of _ = none

abbrev field_of : String → Option Json → Option Json
field_of k (some (obj fs)) = get k (to_dict fs)
field_of k _ = none

unfoldable pub error_body_code : CliError → Option String
unfolding get
error_body_code e = text_of (field_of "code" (field_of "error" e.error_body))

abbrev pub is_dict : Option Json → Bool
is_dict (some (obj fs)) = true
is_dict _ = false

abbrev is_timeout : Option String → Bool
is_timeout none = false
is_timeout (some c) = str_eq c "timeout"

unfoldable pub is_settle_timeout : CliError → Bool
unfolding error_body_code
is_settle_timeout e = is_timeout (error_body_code e)

unfoldable pub is_retryable_prompt_error : CliError → Bool
is_retryable_prompt_error e =
    is_one e.exit_code
    && is_dict e.error_body
    && is_some (error_body_code e)
    && not (is_timeout (error_body_code e))

unfoldable pub first_marker : String → List String → String → Option String
first_marker screen [] prompt = none
first_marker screen (m ∷ ms) prompt =
    let rest = first_marker screen ms prompt in
    if not (str_eq m "") && is_in m screen && not (is_in m prompt) then some m else rest

unfoldable pub matched_failure_marker : String → List String → String → Option String
unfolding first_marker
matched_failure_marker screen_text markers prompt_text =
    if str_eq screen_text "" then none else first_marker screen_text markers prompt_text

-- What the wait finds in one round of its loop.
pub data Round : Type 0 where
  settled : Option String → Round
  rejected : CliError → Round
  overrun : Round
  polled : String → Round

-- How an attempt ends. `killed` is PromptWatchdogKilled with its marker and its screen.
pub data Reply : Type 0 where
  status : Option String → Reply
  error : CliError → Reply
  killed : String → String → Reply

abbrev pub overrun_error : CliError
overrun_error = record { exit_code = pos 124; error_body = none }

abbrev same_marker : Option String → String → Bool
same_marker none m = false
same_marker (some p) m = str_eq p m

module _ (markers : List String) (prompt_text : String) where
  abbrev pub after_match : Option String → Option String → Option String × Option String
  after_match previous_hit none = (none, none)
  after_match previous_hit (some m) =
      if same_marker previous_hit m then (previous_hit, some m) else (some m, none)

  -- The closure `scan`: the new `previous_hit`, and the marker to kill for.
  unfoldable pub scan : Option String → String → Option String × Option String
  scan previous_hit screen_text =
      after_match previous_hit (matched_failure_marker screen_text markers prompt_text)

  abbrev after_poll :
      Option String
      → String
      → Option String
      → ℕ
      → Option (Reply × Option String × ℕ)
      → Option (Reply × Option String × ℕ)
  after_poll none screen hit polls rest = rest
  after_poll (some m) screen hit polls rest = some (killed m screen, hit, polls)

  -- `agent_prompt_wait_with_watchdog`: the reply, `previous_hit` and how often the hook was
  -- called. `none` means that the rounds ended before the attempt did.
  unfoldable pub wait : Option String → ℕ → List Round → Option (Reply × Option String × ℕ)
  unfolding scan
  wait hit polls [] = none
  wait hit polls (settled s ∷ rs) = some (status s, hit, polls)
  wait hit polls (rejected e ∷ rs) = some (error e, hit, polls)
  wait hit polls (overrun ∷ rs) = some (error overrun_error, hit, polls)
  wait hit polls (polled screen ∷ rs) =
      let (hit', marker) = scan hit screen in
      let rest = wait hit' (suc polls) rs in after_poll marker screen hit' (suc polls) rest

-- What the whole call leaves: its outcome, the number of prompts sent, the hook's calls.
pub record Outcome : Type 0 where
  pub reply : Reply
  pub sends : ℕ
  pub polls : ℕ

abbrev pub done : Reply → ℕ → ℕ → Option Outcome
done r sends polls = some (record { reply = r; sends = sends; polls = polls })

-- A killed attempt ends the call, as a settled one does; an error goes to the handler.
abbrev pub after_wait :
    ℕ
    → Option (Reply × Option String × ℕ)
    → (CliError → Option String → ℕ → Option Outcome)
    → Option Outcome
after_wait sends none handle = none
after_wait sends (some (status s, hit, polls)) handle = done (status s) (suc sends) polls
after_wait sends (some (killed m screen, hit, polls)) handle =
    done (killed m screen) (suc sends) polls
after_wait sends (some (error e, hit, polls)) handle = handle e hit polls

module _ (markers : List String) (prompt_text : String) where
  -- The `for` loop over the delays; `left` is how many of them remain behind this attempt.
  unfoldable pub attempts : ℕ → ℕ → Option String → ℕ → List (List Round) → Option Outcome
  unfolding wait
  attempts left sends hit polls [] = none
  attempts zero sends hit polls (rs ∷ more) =
      after_wait sends (wait markers prompt_text hit polls rs)
        (λ e hit' polls'. done (error e) (suc sends) polls')
  attempts (suc left) sends hit polls (rs ∷ more) =
      after_wait sends (wait markers prompt_text hit polls rs) (λ e hit' polls'.
        let again = attempts left (suc sends) hit' polls' more in
        if is_retryable_prompt_error e then again else done (error e) (suc sends) polls')

  -- `retry_delays` is len(retry_delays_s), 2 by default
  unfoldable pub prompt_with_watchdog : ℕ → List (List Round) → Option Outcome
  unfolding attempts
  prompt_with_watchdog retry_delays world = attempts retry_delays 0 none 0 world
