-- ===== src/Findings/Diff.antt =====
-- findings.py: the diff of the current findings against the ledger, and what a cycle writes back.
-- Stamps are the texts that `_iso` makes; `parse_epoch` reads one, a naive one as UTC.
mod Current
mod Cycle
pub mod Outcome
pub mod Stable
use herdr_routines.Prelude.{
  ℕ, suc, ◌+◌, ◌*◌, String, str_eq, Bool, true, false, not, ◌&&◌, ◌||◌, Option, none, some, List,
  [], ◌∷◌, ◌++◌, map, if◌then◌else◌, ltb, keep_if, elem, is_some,
}
use herdr_routines.Prelude.Dict.{Dict, get, put, values}
use herdr_routines.Prelude.Sort.{sorted}
use herdr_routines.Findings.{
  Severity, rank, LedgerState, open_, resolved, is_open, Finding, FindingDiff, LedgerEntry, Ledger,
  order_le, text_le,
}

-- {f.id: f for f in findings}
unfoldable pub collect_from : Dict Finding → List Finding → Dict Finding
collect_from d [] = d
collect_from d (f ∷ fs) = collect_from (put f.id f d) fs

abbrev pub entries_of : Option Ledger → Dict LedgerEntry
entries_of none = []
entries_of (some l) = l.entries

abbrev is_new_of : Option LedgerEntry → Bool
is_new_of none = true
is_new_of (some old) = not (is_open old.state)

abbrev is_worse_of : Finding → Option LedgerEntry → Bool
is_worse_of f none = false
is_worse_of f (some old) = ltb (rank old.severity) (rank f.severity)

-- the three branches of the loop of `diff_findings`
unfoldable pub is_new : Dict LedgerEntry → Finding → Bool
is_new entries f = is_new_of (get f.id entries)

unfoldable pub is_regressed : Dict LedgerEntry → Finding → Bool
unfolding is_new
is_regressed entries f = not (is_new entries f) && is_worse_of f (get f.id entries)

unfoldable pub is_unchanged : Dict LedgerEntry → Finding → Bool
unfolding is_new
is_unchanged entries f = not (is_new entries f) && not (is_worse_of f (get f.id entries))

unfoldable pub resolved_ids : Dict Finding → Dict LedgerEntry → List String
resolved_ids current [] = []
resolved_ids current ((fid, e) ∷ entries) =
    let rest = resolved_ids current entries in
    if is_open e.state && not (is_some (get fid current)) then fid ∷ rest else rest

unfoldable pub diff_findings : List Finding → Option Ledger → FindingDiff
unfolding collect_from resolved_ids
diff_findings findings ledger =
    let entries = entries_of ledger in
    let current = collect_from [] findings in
    record {
      new = sorted order_le (keep_if (is_new entries) (values current));
      regressed = sorted order_le (keep_if (is_regressed entries) (values current));
      unchanged = sorted order_le (keep_if (is_unchanged entries) (values current));
      resolved = sorted text_le (resolved_ids current entries);
    }

abbrev is_queued_of : Option LedgerEntry → Bool
is_queued_of none = false
is_queued_of (some e) = e.queued

unfoldable pub dispatch_pool : FindingDiff → Option Ledger → List Finding
dispatch_pool diff ledger =
    let carried = keep_if (λ f. is_queued_of (get f.id (entries_of ledger))) diff.unchanged in
    sorted order_le (diff.new ++ (diff.regressed ++ carried))

-- the entry that `apply_diff` writes for a finding of this cycle
unfoldable pub opened :
    Option LedgerEntry → Finding → String → String → List String → List String → LedgerEntry
opened none f stamp run_id queued dispatched = record {
  kind = f.kind;
  location = f.location;
  severity = f.severity;
  state = open_;
  first_seen = stamp;
  last_seen = stamp;
  resolved_at = none;
  attempts = 0 + (if elem f.id dispatched then 1 else 0);
  last_dispatched_run = if elem f.id dispatched then some run_id else none;
  queued = false || elem f.id queued;
}
opened (some old) f stamp run_id queued dispatched = record {
  kind = f.kind;
  location = f.location;
  severity = f.severity;
  state = open_;
  first_seen = old.first_seen;
  last_seen = stamp;
  resolved_at = none;
  attempts = old.attempts + (if elem f.id dispatched then 1 else 0);
  last_dispatched_run = if elem f.id dispatched then some run_id else old.last_dispatched_run;
  queued = (is_open old.state && old.queued) || elem f.id queued;
}

unfoldable pub closed : LedgerEntry → String → LedgerEntry
closed old stamp = record old { state = resolved; resolved_at = some stamp; queued = false }

module _ (old_entries : Dict LedgerEntry) (stamp run_id : String)
    (queued dispatched : List String) where
  unfoldable pub write_open : List Finding → Dict LedgerEntry → Dict LedgerEntry
  unfolding opened
  write_open [] d = d
  write_open (f ∷ fs) d =
      write_open fs (put f.id (opened (get f.id old_entries) f stamp run_id queued dispatched) d)

module _ (old_entries : Dict LedgerEntry) (stamp : String) where
  abbrev write_one : String → Option LedgerEntry → Dict LedgerEntry → Dict LedgerEntry
  write_one fid none d = d
  write_one fid (some old) d = put fid (closed old stamp) d

  unfoldable pub write_resolved : List String → Dict LedgerEntry → Dict LedgerEntry
  unfolding closed
  write_resolved [] d = d
  write_resolved (fid ∷ fids) d = write_resolved fids (write_one fid (get fid old_entries) d)

unfoldable pub apply_diff :
    Ledger → FindingDiff → String → String → List String → List String → Ledger
unfolding write_open write_resolved
apply_diff ledger diff stamp run_id queued_ids dispatched_ids = record {
  job = ledger.job;
  entries = write_resolved ledger.entries stamp diff.resolved (
      write_open ledger.entries stamp run_id queued_ids dispatched_ids
        (diff.new ++ (diff.regressed ++ diff.unchanged)) ledger.entries);
  version = ledger.version;
  updated = some stamp;
  runs = ledger.runs + 1;
}

abbrev unqueue_one : String → Option LedgerEntry → Dict LedgerEntry → Dict LedgerEntry
unqueue_one fid none d = d
unqueue_one fid (some e) d = put fid (record e { queued = false }) d

unfoldable pub unqueue : List String → Dict LedgerEntry → Dict LedgerEntry
unqueue [] d = d
unqueue (fid ∷ fids) d = unqueue fids (unqueue_one fid (get fid d) d)

unfoldable pub mark_handed_off : Ledger → List String → Ledger
unfolding unqueue
mark_handed_off ledger finding_ids = record ledger { entries = unqueue finding_ids ledger.entries }

abbrev pub day : ℕ
day = 86_400 * 1_000_000

module _ (parse_epoch : String → Option ℕ) (now retention_days : ℕ) where
  -- resolved_ts < now - retention_days * 86400
  abbrev is_expired_at : Option ℕ → Bool
  is_expired_at none = false
  is_expired_at (some t) = ltb (t + retention_days * day) now

  abbrev resolved_before : Option String → Bool
  resolved_before none = false
  resolved_before (some t) = is_expired_at (parse_epoch t)

  unfoldable pub is_expired : LedgerEntry → Bool
  is_expired e = not (is_open e.state) && resolved_before e.resolved_at

  unfoldable pub prune_ledger : Ledger → Ledger
  unfolding is_expired
  prune_ledger ledger = record ledger {
    entries = keep_if (λ (p : String × LedgerEntry). not (is_expired p.1)) ledger.entries;
  }
