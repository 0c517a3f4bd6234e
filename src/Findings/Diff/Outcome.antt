-- ===== src/Findings/Diff/Outcome.antt =====
-- findings.py: what one audit cycle does to the ledger, key by key.
use herdr_routines.Prelude.{
  ℕ, ◌+◌, ◌||◌, ◌&&◌, String, ◌≡◌, refl, ◌⊎◌, inl, inr, Bool, false, Option, none, some, List, [],
  elem, if◌then◌else◌,
}
use herdr_routines.Prelude.Dict.{get}
use herdr_routines.Findings.{Finding, LedgerEntry, Ledger, LedgerState, open_, resolved, is_open}
use herdr_routines.Findings.Diff.{collect_from, diff_findings, apply_diff, opened, closed}
use herdr_routines.Findings.Diff.Current.{IsDict}
use herdr_routines.Findings.Diff.Cycle.{expected, get-apply_diff}

-- What the ledger knew of a finding.
abbrev first_seen_of : String → Option LedgerEntry → String
first_seen_of stamp none = stamp
first_seen_of stamp (some old) = old.first_seen

abbrev attempts_of : Option LedgerEntry → ℕ
attempts_of none = 0
attempts_of (some old) = old.attempts

abbrev run_of : Option LedgerEntry → Option String
run_of none = none
run_of (some old) = old.last_dispatched_run

abbrev was_queued : Option LedgerEntry → Bool
was_queued none = false
was_queued (some old) = is_open old.state && old.queued

module _ (stamp run_id : String) (queued dispatched : List String) where
  -- The entry of a current finding is open and seen now, and keeps what the ledger knew.
  abbrev pub IsOpened : Finding → Option LedgerEntry → LedgerEntry → Type 0
  IsOpened f old e =
      (e.state ≡ open_)
      × (e.kind ≡ f.kind)
      × (e.location ≡ f.location)
      × (e.severity ≡ f.severity)
      × (e.last_seen ≡ stamp)
      × (e.resolved_at ≡ none)
      × (e.first_seen ≡ first_seen_of stamp old)
      × (e.attempts ≡ attempts_of old + (if elem f.id dispatched then 1 else 0))
      × (e.last_dispatched_run ≡ (if elem f.id dispatched then some run_id else run_of old))
      × (e.queued ≡ (was_queued old || elem f.id queued))

  -- A resolved entry differs from the old one in nothing else.
  abbrev pub resolution_of : LedgerEntry → LedgerEntry
  resolution_of old = record {
    kind = old.kind;
    location = old.location;
    severity = old.severity;
    state = resolved;
    first_seen = old.first_seen;
    last_seen = old.last_seen;
    resolved_at = some stamp;
    attempts = old.attempts;
    last_dispatched_run = old.last_dispatched_run;
    queued = false;
  }

  abbrev pub After : Option Finding → Option LedgerEntry → Option LedgerEntry → Type 0
  After (some f) old new = (e : LedgerEntry) × ((new ≡ some e) × IsOpened f old e)
  After none none new = new ≡ none
  After none (some old) new =
      ((old.state ≡ open_) × (new ≡ some (resolution_of old)))
      ⊎ ((old.state ≡ resolved) × (new ≡ some old))

  opened_is :
      (f : Finding) (old : Option LedgerEntry)
      → IsOpened f old (opened old f stamp run_id queued dispatched)
  unfolding opened
  opened_is f none = (refl, refl, refl, refl, refl, refl, refl, refl, refl, refl)
  opened_is f (some old) = (refl, refl, refl, refl, refl, refl, refl, refl, refl, refl)

  expected-After :
      (f : Option Finding) (old new : Option LedgerEntry)
      → new ≡ expected f old stamp run_id queued dispatched
      → After f old new
  unfolding closed
  expected-After (some f) old new h = (_, (h, opened_is f old))
  expected-After none none new h = h
  expected-After none (some old) new h = by_state old.state refl h
    where
      by_state :
          (s : LedgerState)
          → old.state ≡ s
          → new ≡ some (if is_open s then closed old stamp else old)
          → ((old.state ≡ open_) × (new ≡ some (resolution_of old)))
            ⊎ ((old.state ≡ resolved) × (new ≡ some old))
      by_state open_ e q = inl (e, q)
      by_state resolved e q = inr (e, q)

  -- After a cycle, that is `apply_diff` of the diff of the current findings against the ledger, whose
  -- entries have no key twice: a current finding has an open entry, which is its own, seen now, not
  -- resolved, and with what the ledger knew of first sight, attempts, dispatch and queue; an open
  -- entry without a current finding is resolved now and no longer queued, and otherwise the same;
  -- a resolved entry without one is as it was; and there is no other entry.
  pub apply_diff-diff_findings :
      (ledger : Ledger) (findings : List Finding)
      → IsDict ledger.entries
      → (k : String)
      → let after =
          apply_diff ledger (diff_findings findings (some ledger)) stamp run_id queued dispatched in
        After (get k (collect_from [] findings)) (get k ledger.entries) (get k after.entries)
  apply_diff-diff_findings ledger findings is_dict k =
      expected-After (get k (collect_from [] findings)) (get k ledger.entries) _
        (get-apply_diff ledger findings stamp run_id queued dispatched is_dict k)
