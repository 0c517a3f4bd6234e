-- ===== src/Pipeline/Agent/Panes.antt =====
-- pipeline_run.py: the panes that an agent stage opens and closes.
use herdr_routines.Prelude.{
  String, str_eq, eq_refl, ◌≡◌, refl, ◌⊎◌, Bool, false, not, Option, List, [], ◌∷◌, if◌then◌else◌,
  keep_if,
}
use herdr_routines.Pipeline.State.{Doc}
use herdr_routines.Pipeline.Effect.{
  Event, pane_opened, pane_closed, Abort, Result, returned, aborted, crashed, Eff, abort, emit,
  ◌>>◌,
}
use herdr_routines.Pipeline.Agent.{Cause, AgentWorld}

abbrev after_event : Event → List String → List String
after_event (pane_opened p) now_open = p ∷ now_open
after_event (pane_closed p) now_open = keep_if (λ q. not (str_eq q p)) now_open
after_event _ now_open = now_open

-- The panes that are open after the events.
abbrev live : List Event → List String → List String
live [] now_open = now_open
live (e ∷ es) now_open = live es (after_event e now_open)

-- The panes that nobody was asked to close, by how the effect ends. `saved` is whether the state with
-- the session could be written.
abbrev LeftOpen :
    {A : Type 0} → (saved : Bool) → (A → List String) → Result A → List String → Type 0
LeftOpen saved f (returned a) panes = panes ≡ f a
LeftOpen saved f (aborted x) panes = panes ≡ []
LeftOpen saved f crashed panes =
    (panes ≡ []) ⊎ ((saved ≡ false) × ((p : String) × (panes ≡ p ∷ [])))

module _ (w : AgentWorld) where
  -- Started with these panes, it ends with those of its result.
  abbrev Leaves : {A : Type 0} → (A → List String) → List String → Eff A → Type 0
  Leaves f now_open m = LeftOpen w.session_saved f m.1 (live m.0 now_open)

  closed_only : (p : String) → keep_if (λ q. not (str_eq q p)) (p ∷ []) ≡ []
  closed_only p = rw (eq_refl p) refl

  -- A pane is closed, and the stage fails.
  close_and_fail :
      {A : Type 0} (f : A → List String) (p : String) (x : Abort)
      → Leaves f (p ∷ []) (emit (pane_closed p) >> abort x)
  close_and_fail f p x = closed_only p

  abbrev pane : {A : Type 0} → String × A → List String
  pane r = r.0 ∷ []

  abbrev its_pane : {A B : Type 0} → String × A × B → List String
  its_pane r = r.0 ∷ []

module _ (refuses : String → Bool) where
  -- A pane that herdr refuses to close stays.
  abbrev after_answer : Event → List String → List String
  after_answer (pane_opened p) now_open = p ∷ now_open
  after_answer (pane_closed p) now_open =
      if refuses p then now_open else keep_if (λ q. not (str_eq q p)) now_open
  after_answer _ now_open = now_open

  abbrev pub open_panes : List Event → List String → List String
  open_panes [] now_open = now_open
  open_panes (e ∷ es) now_open = open_panes es (after_answer e now_open)

  -- Those that herdr closes when it is asked to.
  abbrev pub closable : List String → List String
  closable = keep_if (λ p. not (refuses p))

  -- Of the panes that herdr closes when asked, those that an agent stage leaves open.
  abbrev pub StageLeaves :
      (saved : Bool) → Result (String × Option Cause × Doc) → List String → Type 0
  StageLeaves saved (returned r) panes = panes ≡ closable (r.0 ∷ [])
  StageLeaves saved (aborted x) panes = panes ≡ []
  StageLeaves saved crashed panes =
      (panes ≡ []) ⊎ ((saved ≡ false) × ((p : String) × (panes ≡ closable (p ∷ []))))
