-- ===== src/Pipeline/Effect.antt =====
-- src/herdr_routines/pipeline_run.py: what a stage does to the world, in order, and how it ends.
pub mod Steady
use herdr_routines.Prelude.{String, Bool, true, false, Option, none, some, List, [], ◌∷◌, ◌++◌}
use herdr_routines.Pipeline.State.{Doc}

pub data Event : Type 0 where
  pane_opened : String → Event
  -- `_close_pane`: herdr is asked to close it, and may refuse
  pane_closed : String → Event
  -- `agent_start` with the model and the session that it resumes
  agent_started : String → Option String → Event
  state_written : Doc → Event
  swept : Event
  notified : Event
  -- `write_terminal_report`, by its outcome and reason
  reported : String → Option String → Event

-- _Abort
pub record Abort : Type 0 where
  pub reason : String
  pub outcome : String

abbrev pub failure : String → Abort
failure reason = record { reason = reason; outcome = "failed" }

-- `crashed` is an OSError, a ValueError or a TypeError.
pub data Result (A : Type 0) : Type 0 where
  returned : A → Result A
  aborted : Abort → Result A
  crashed : Result A

abbrev pub Eff : Type 0 → Type 0
Eff A = List Event × Result A

abbrev pub pure : {A : Type 0} → A → Eff A
pure a = ([], returned a)

abbrev pub abort : {A : Type 0} → Abort → Eff A
abort a = ([], aborted a)

abbrev pub crash : {A : Type 0} → Eff A
crash = ([], crashed)

abbrev pub emit : Event → Eff Unit
emit e = (e ∷ [], returned tt)

-- `_State.commit`: the document is written, or it is an OSError.
abbrev pub commit : (saved : Bool) → Doc → Eff Unit
commit true d = emit (state_written d)
commit false d = crash

abbrev pub with_events : {A : Type 0} → List Event → Eff A → Eff A
with_events es (fs, r) = (es ++ fs, r)

infixl 5 ◌>>=◌ ◌>>◌
abbrev pub ◌>>=◌ : {A B : Type 0} → Eff A → (A → Eff B) → Eff B
(es, returned a) >>= f = with_events es (f a)
(es, aborted x) >>= f = (es, aborted x)
(es, crashed) >>= f = (es, crashed)

abbrev pub ◌>>◌ : {A B : Type 0} → Eff A → Eff B → Eff B
m >> k = m >>= λ _. k

abbrev pub known : {A : Type 0} → Result A → Eff A
known r = ([], r)
