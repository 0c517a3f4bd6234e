-- ===== src/Tick/Guarding.antt =====
-- tick.py: the guards of a routine.
use herdr_routines.Prelude.{
  ℕ, ◌≡◌, refl, ap, sym, ◌∙◌, Bool, true, false, not, Option, none, some, [], ◌∷◌, ◌++◌,
  if◌then◌else◌, arith, Bool-cases, Option-cases, inl, inr, ◌⊎◌, is_some,
}
use mathlib.Core.List.{append-nil}
use herdr_routines.Json.{str}
use herdr_routines.History.{HistoryRecord, skipped, registered, interrupted_unknown}
use herdr_routines.History.Query.{find_stale_running, is_currently_running, has_ever_been_seen}
use herdr_routines.History.Query.Guards.{guards_partition}
use herdr_routines.History.Query.Ends.{terminal_never_starts}
use herdr_routines.Tick.{
  Job, History, Outcome, returned, already_running, newly_registered, agent_already_live, Client,
  run_timeout_ms, plain_record, after_stale, interruption, guarded, process_routine,
}

module _ (client : Client) (job : Job) (now : ℕ) where
  abbrev pub in_progress : History → Bool
  in_progress history = is_currently_running history job.name (run_timeout_ms client job) now

  abbrev pub unguarded : History → Outcome × History
  unguarded history =
      if client.live_agent_exists job
      then (
        returned agent_already_live false,
        history
            ++ plain_record client job now skipped (some (("reason", str "agent_name_live") ∷ []))
              ∷ [],
      )
      else client.fire_triggers job now history

  abbrev first_seen : History → Outcome × History
  first_seen history =
      (returned newly_registered false, history ++ plain_record client job now registered none ∷ [])

  seen_runs_guarded :
      (history : History)
      → has_ever_been_seen history job.name ≡ true
      → process_routine client job now history
        ≡ guarded client job now (after_stale client job now history)
  unfolding process_routine
  seen_runs_guarded history seen =
      ap
        (λ (b : Bool).
          if not b
          then first_seen history
          else guarded client job now (after_stale client job now history))
        seen

  guarded_busy :
      (history : History)
      → in_progress history ≡ true
      → guarded client job now history ≡ (returned already_running false, history)
  guarded_busy history h =
      ap (λ (b : Bool). if b then (returned already_running false, history) else unguarded history)
        h

  guarded_free :
      (history : History)
      → in_progress history ≡ false
      → guarded client job now history ≡ unguarded history
  guarded_free history h =
      ap (λ (b : Bool). if b then (returned already_running false, history) else unguarded history)
        h

  nothing_stale :
      (history : History)
      → find_stale_running history job.name (run_timeout_ms client job) now ≡ none
      → after_stale client job now history ≡ history
  nothing_stale history e =
      ap (λ (o : Option HistoryRecord). history ++ interruption client job now o) e
      ∙ append-nil history

  stale_is_idle :
      (history : History) (r : HistoryRecord)
      → find_stale_running history job.name (run_timeout_ms client job) now ≡ some r
      → in_progress (after_stale client job now history) ≡ false
  stale_is_idle history r e =
      let both = (guards_partition history job.name (run_timeout_ms client job) now).1 in
      let found = ap is_some e in
      let idle : in_progress history ≡ false = ground (arith, both, found) in
      ap (λ (o : Option HistoryRecord). in_progress (history ++ interruption client job now o)) e
      ∙ terminal_never_starts history job.name _ (run_timeout_ms client job) now refl refl idle

  -- The stale run that was found, and the record that is written for it.
  abbrev pub Interrupts : HistoryRecord → HistoryRecord → Type 0
  Interrupts stale r =
      (r.job ≡ job.name)
      × (r.ts ≡ now)
      × (r.state ≡ interrupted_unknown)
      × (r.run_id ≡ stale.run_id)

  abbrev pub Proceeds : History → Outcome × History → Type 0
  Proceeds history result =
      ((in_progress history ≡ true) × (result ≡ (returned already_running false, history)))
      ⊎ (((find_stale_running history job.name (run_timeout_ms client job) now ≡ none)
            × (in_progress history ≡ false)
            × (result ≡ unguarded history))
          ⊎ ((stale : HistoryRecord) × ((find_stale_running history job.name
                    (run_timeout_ms client job) now
                  ≡ some stale)
                × ((r : HistoryRecord) × (Interrupts stale r
                      × (in_progress (history ++ r ∷ []) ≡ false)
                      × (result ≡ unguarded (history ++ r ∷ [])))))))

  -- A routine that has been seen before is in one of three cases. It has a run in progress, and then
  -- nothing is written or started. Or it has neither a run in progress nor a stale one. Or it has a
  -- stale run, and one record of the routine is appended for it, interrupted_unknown and with the
  -- run id of the stale one, after which no run is in progress. In the last two cases, and only
  -- then, the triggers are fired on that history, unless herdr knows a live agent of the routine.
  pub process_routine_cases :
      (history : History)
      → has_ever_been_seen history job.name ≡ true
      → Proceeds history (process_routine client job now history)
  process_routine_cases history seen =
      elim (Option-cases (find_stale_running history job.name (run_timeout_ms client job) now)) [
        | inl e ↦ elim (Bool-cases (in_progress history)) [
          | inl busy ↦ inl (
            busy,
            seen_runs_guarded history seen
                ∙ ap (guarded client job now) (nothing_stale history e)
                ∙ guarded_busy history busy,
          )
          | inr free ↦ inr (
              inl (
                e,
                free,
                seen_runs_guarded history seen
                    ∙ ap (guarded client job now) (nothing_stale history e)
                    ∙ guarded_free history free,
              ))
        ]
        | inr (r, e) ↦
            let appended =
              ap (λ (o : Option HistoryRecord). history ++ interruption client job now o) e in
            let free = sym (ap in_progress appended) ∙ stale_is_idle history r e in
            inr (
              inr (
                r,
                (
                  e,
                  (
                    _,
                    (
                      (refl, refl, refl, refl),
                      free,
                      seen_runs_guarded history seen
                          ∙ ap (guarded client job now) appended
                          ∙ guarded_free _ free,
                    ),
                  ),
                ),
              ))
      ]
