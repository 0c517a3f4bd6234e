-- ===== src/SelfUpdate/Rejected.antt =====
-- self_update.py: the runs after a rollback.
use herdr_routines.Prelude.{
  ℕ, String, eq_refl, ◌≡◌, ap, ◌∙◌, inl, inr, Bool, true, Option, some, List, [], ◌∷◌, subst,
}
use herdr_routines.Prelude.Dict.{get}
use herdr_routines.Json.{Json}
use herdr_routines.SelfUpdate.{
  Reason, Host, Action, write_rejected, Run, rolled_back, read_rejected, record_rejected, is_text,
  count_of, failure_reason,
}
use herdr_routines.SelfUpdate.Flow.{run_held}
use herdr_routines.SelfUpdate.Guards.{merges, Ends, run_held-Sound}

-- The last state that the actions write, if any.
abbrev pub state_after : Option Json → List Action → Option Json
state_after o [] = o
state_after o (write_rejected doc ∷ rest) = state_after (some doc) rest
state_after o (a ∷ rest) = state_after o rest

is_rejected :
    (sha reason stamp : String)
    → is_text (read_rejected (some (record_rejected sha reason stamp))).0 sha ≡ true
unfolding read_rejected record_rejected get
is_rejected sha reason stamp = eq_refl sha

module _ (show : Json → String) (upper : String → String) (words : Reason → String)
    (stamp stamp' : String) (h h' : Host) (dry dry' : Bool) (base : String) (polls polls' : ℕ) where
  abbrev first_run : Run
  first_run = run_held show upper words stamp h dry base polls

  abbrev next_run : Run
  next_run = run_held show upper words stamp' h' dry' base polls'

  rejected_by_first :
      first_run.result.status ≡ rolled_back
      → is_text (read_rejected (state_after h.rejected first_run.actions)).0 h.origin ≡ true
  rejected_by_first e =
      let ends =
        subst (λ s. Ends show upper words stamp h s first_run.actions) e
          (run_held-Sound show upper words stamp h dry base polls).1 in
      ap (λ (l : List Action). is_text (read_rejected (state_after h.rejected l)).0 h.origin) ends.0
      ∙ is_rejected h.origin (words (failure_reason h.post (count_of h.baseline))) stamp

  -- After a run that ended as rolled_back, a run that finds the state file as that run has left it
  -- and the same commit at origin merges nothing, whatever else it meets.
  pub rolled_back_stays :
      first_run.result.status ≡ rolled_back
      → h'.rejected ≡ state_after h.rejected first_run.actions
      → h'.origin ≡ h.origin
      → merges next_run.actions ≡ []
  rolled_back_stays e state same =
      elim (run_held-Sound show upper words stamp' h' dry' base polls').0 [
        | inl none_merged ↦ none_merged
        | inr (once, guards) ↦
            let fresh = guards.5 in
            let rejected =
              ap (λ (o : Option Json). is_text (read_rejected o).0 h'.origin) state
              ∙ ap (is_text (read_rejected (state_after h.rejected first_run.actions)).0) same
              ∙ rejected_by_first e in
            absurd cc
      ]
