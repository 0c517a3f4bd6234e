-- ===== src/SelfUpdate/Guards.antt =====
-- self_update.py: when the updater moves the checkout, and where it leaves it.
use herdr_routines.Prelude.{
  ℕ, String, str_eq, eq_iff, ◌≡◌, refl, ap, ◌⊎◌, inl, inr, Bool, true, false, not, ◌||◌, Option,
  none, some, List, [], ◌∷◌, if◌then◌else◌, if_both, subst,
}
use herdr_routines.Json.{Json}
use herdr_routines.SelfUpdate.{
  Status, updated, rolled_back, Reason, Host, Action, fetch_origin, validate_checkout,
  merge_ff_only, reset_keep, write_rejected, Run, after, read_rejected, record_rejected,
  wait_for_tick_lock, pipeline_run_open, count_of, dropped, failure_reason, is_text,
}
use herdr_routines.SelfUpdate.Flow.{
  commit_ci_state, checked, deploy, on_ci, at_head, ahead, with_uv, with_lock, run_held,
}

-- The commits that the actions merge.
abbrev pub merges : List Action → List String
merges [] = []
merges (merge_ff_only sha ∷ rest) = sha ∷ merges rest
merges (a ∷ rest) = merges rest

other_of : (a b : Bool) → not (a || b) ≡ false → a ≡ false → b ≡ true
other_of true b h e = absurd cc
other_of false true h e = refl
other_of false false h e = absurd cc

was_true : (a : Bool) → not a ≡ false → a ≡ true
was_true true h = refl
was_true false h = absurd cc

module _ (show : Json → String) (upper : String → String) (words : Reason → String) (stamp : String)
    (h : Host) where
  abbrev pub Guards : (dry : Bool) (base : String) (polls : ℕ) → Type 0
  Guards dry base polls =
      (dry ≡ false)
      × ((wait_for_tick_lock h.lock polls 0).0 ≡ true)
      × (pipeline_run_open h.jobs h.history ≡ none)
      × (h.dirty ≡ false)
      × (h.branch ≡ base)
      × (is_text (read_rejected h.rejected).0 h.origin ≡ false)
      × (commit_ci_state show upper h.checks ≡ none)

  abbrev pub moved : List Action → List Action
  moved rest = fetch_origin ∷ validate_checkout ∷ merge_ff_only h.origin ∷ validate_checkout ∷ rest

  abbrev pub is_bad : Bool
  is_bad = not h.post.ok || dropped (count_of h.baseline) h.post.job_count

  -- HEAD after the actions; `head_after` is HEAD behind the merge.
  abbrev pub head : List Action → String → String
  head [] at = at
  head (merge_ff_only sha ∷ rest) at = head rest h.head_after
  head (reset_keep sha ∷ rest) at = head rest (if h.resets then sha else at)
  head (a ∷ rest) at = head rest at

  -- What an update and a rollback have done.
  abbrev pub Ends : Status → List Action → Type 0
  Ends updated actions = (actions ≡ moved []) × (h.head_after ≡ h.origin) × (is_bad ≡ false)
  Ends rolled_back actions =
      (actions
        ≡ moved (
            reset_keep h.old
            ∷ write_rejected (
                record_rejected h.origin (words (failure_reason h.post (count_of h.baseline)))
                  stamp)
            ∷ []))
      × (is_bad ≡ true)
      × (head actions h.old ≡ (if h.resets then h.old else h.origin))
  Ends _ actions = Unit

  abbrev pub Sound : (dry : Bool) (base : String) (polls : ℕ) → Run → Type 0
  Sound dry base polls run =
      ((merges run.actions ≡ []) ⊎ ((merges run.actions ≡ h.origin ∷ []) × Guards dry base polls))
      × Ends run.result.status run.actions

  module _ (dry : Bool) (base : String) (polls : ℕ) where
    abbrev Fine : Run → Type 0
    Fine = Sound dry base polls

    -- All that stands after the merge.
    checked_is :
        h.head_after ≡ h.origin
        → Ends (checked words stamp h).result.status (moved (checked words stamp h).actions)
    checked_is same =
        if_both (λ (r : Run). Ends r.result.status (moved r.actions)) is_bad
          (λ bad. (rw same refl, bad, rw same refl)) (λ good. (refl, same, good))

    merged_is :
        (r : Run)
        → Guards dry base polls
        → merges r.actions ≡ []
        → Ends r.result.status
            (fetch_origin ∷ validate_checkout ∷ merge_ff_only h.origin ∷ r.actions)
        → Fine (after fetch_origin (after validate_checkout (after (merge_ff_only h.origin) r)))
    merged_is r g none_else ends = (inr (ap (λ (l : List String). h.origin ∷ l) none_else, g), ends)

    merges-checked : merges (checked words stamp h).actions ≡ []
    merges-checked = if_both (λ (r : Run). merges r.actions ≡ []) is_bad (λ _. refl) (λ _. refl)

    deploy_is : Guards dry base polls → Fine (after fetch_origin (deploy words stamp h))
    deploy_is g =
        if_both after_it (not h.merged) (λ _. (inr (refl, g), tt))
          (λ _.
            if_both after_it (not (str_eq h.head_after h.old || str_eq h.head_after h.origin))
              (λ _. (inr (refl, g), tt))
              (λ known.
                if_both after_it (str_eq h.head_after h.old) (λ _. (inr (refl, g), tt))
                  (λ moved_on.
                    merged_is (after validate_checkout (checked words stamp h)) g merges-checked (
                      checked_is
                        ((eq_iff h.head_after h.origin).0 (other_of _ _ known moved_on))))))
      where
        after_it : Run → Type 0
        after_it r =
            Fine (after fetch_origin (after validate_checkout (after (merge_ff_only h.origin) r)))

    ahead_is :
        (r : Option String × Option String)
        → (is_text r.0 h.origin ≡ false
            → commit_ci_state show upper h.checks ≡ none
            → (dry ≡ false)
            → Guards dry base polls)
        → Fine (after fetch_origin (ahead show upper words stamp h dry r))
    ahead_is (sha, reason) g =
        if_both (λ (r : Run). Fine (after fetch_origin r)) (is_text sha h.origin)
          (λ _. (inl refl, tt))
          (λ fresh.
            if_both (λ (r : Run). Fine (after fetch_origin r)) (not h.remote) (λ _. (inl refl, tt))
              (λ _. on_ci_is dry (commit_ci_state show upper h.checks) refl refl fresh))
      where
        on_ci_is :
            (d : Bool) (o : Option Reason)
            → dry ≡ d
            → commit_ci_state show upper h.checks ≡ o
            → is_text sha h.origin ≡ false
            → Fine (after fetch_origin (on_ci words stamp h d o))
        on_ci_is d (some r) e green fresh = (inl refl, tt)
        on_ci_is true none e green fresh = (inl refl, tt)
        on_ci_is false none e green fresh = deploy_is (g fresh green e)

    at_head_is : (r : Option String × Option String) → Fine (after fetch_origin (at_head h r))
    at_head_is (sha, reason) =
        if_both (λ (r : Run). Fine (after fetch_origin r)) (is_text sha h.origin)
          (λ _. (inl refl, tt)) (λ _. (inl refl, tt))

    uv_is :
        (o : Option String)
        → (is_text (read_rejected h.rejected).0 h.origin ≡ false
            → commit_ci_state show upper h.checks ≡ none
            → (dry ≡ false)
            → Guards dry base polls)
        → Fine (with_uv show upper words stamp h dry o)
    uv_is none g = (inl refl, tt)
    uv_is (some uv) g =
        if_both (λ (r : Run). Fine (after fetch_origin r)) (not h.fetched) (λ _. (inl refl, tt))
          (λ _.
            if_both (λ (r : Run). Fine (after fetch_origin r)) (str_eq h.origin "")
              (λ _. (inl refl, tt))
              (λ _.
                if_both (λ (r : Run). Fine (after fetch_origin r)) (str_eq h.origin h.old)
                  (λ _. at_head_is (read_rejected h.rejected))
                  (λ _. ahead_is (read_rejected h.rejected) g)))

    locked_is :
        (o : Option String)
        → pipeline_run_open h.jobs h.history ≡ o
        → (dry ≡ false → (wait_for_tick_lock h.lock polls 0).0 ≡ true)
        → Fine (with_lock show upper words stamp h dry base o)
    locked_is (some name) e lock = (inl refl, tt)
    locked_is none e lock =
        if_both Fine (str_eq h.old "" || str_eq h.branch "") (λ _. (inl refl, tt))
          (λ _.
            if_both Fine h.dirty (λ _. (inl refl, tt))
              (λ clean.
                if_both Fine (str_eq h.branch "HEAD") (λ _. (inl refl, tt))
                  (λ _.
                    if_both Fine (not (str_eq h.branch base)) (λ _. (inl refl, tt))
                      (λ on_base. uv_is h.uv (λ fresh green wet. (
                        wet,
                        lock wet,
                        e,
                        clean,
                        (eq_iff h.branch base).0 (was_true _ on_base),
                        fresh,
                        green,
                      ))))))

    pub run_held-Sound : Sound dry base polls (run_held show upper words stamp h dry base polls)
    unfolding run_held
    run_held-Sound =
        if_both Fine (wait_for_tick_lock h.lock (if dry then 0 else polls) 0).0
          (λ locked. locked_is (pipeline_run_open h.jobs h.history) refl (λ wet.
            subst (λ (d : Bool). (wait_for_tick_lock h.lock (if d then 0 else polls) 0).0 ≡ true)
              wet locked))
          (λ _. (inl refl, tt))
