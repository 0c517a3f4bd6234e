-- ===== src/Watchdog/Sweeps.antt =====
-- pipeline_watchdog.py: the resumes of a run over several sweeps.
use herdr_routines.Prelude.{
  ℕ, ◌≤◌, String, ◌≡◌, refl, ap, ◌∙◌, inl, inr, Bool, true, Option, some, List, [], ◌∷◌, ◌++◌, All,
  arith,
}
use herdr_routines.Prelude.Dict.{get}
use herdr_routines.Json.{Json, ℤ, pos, negsuc, obj}
use herdr_routines.History.{HistoryRecord}
use herdr_routines.Pipeline.State.{Doc, opt_int, of_dict}
use herdr_routines.Watchdog.{InflightRun}
use herdr_routines.Watchdog.Resume.{at_cap, resume_count_of, count_or_zero, RunWorld, Event}
use herdr_routines.Watchdog.Sweep.{add_events, reap_stalled_run}
use herdr_routines.Watchdog.Launches.{launches, doc_after, Once, launches-append}
use herdr_routines.Watchdog.Once.{reap-Once}

-- One sweep: when it is, what the system answers, and what others make of the state file after it.
pub record Round : Type 0 where
  pub now : ℕ
  pub ts : ℕ
  pub boot : Option ℕ
  pub world : RunWorld
  pub others : Doc → Doc

abbrev pub Fair : Round → Type 0
Fair r =
    (r.world.rewrites ≡ true) × ((d : Doc) → get "resume_count" (r.others d) ≡ get "resume_count" d)

at_cap_pos : (c : ℤ) → at_cap c ≡ true → (n : ℕ) × (c ≡ pos n)
at_cap_pos (pos n) h = (n, refl)
at_cap_pos (negsuc n) h = absurd cc

module _ (le : String → String → Bool) (unit_of : ℕ → String) (moment : ℕ → String)
    (run : InflightRun) where
  abbrev pub reap_in : Round → Doc → Option (List HistoryRecord) → List Event
  reap_in r d history =
      (reap_stalled_run le unit_of moment r.boot r.now r.ts
        (record r.world { state_doc = some (obj (of_dict d)) }) run history).0

  -- The events of the sweeps, each of which finds the file and the history as they have become.
  abbrev pub reap_all : List Round → Doc → Option (List HistoryRecord) → List Event
  reap_all [] d history = []
  reap_all (r ∷ rounds) d history =
      reap_in r d history
      ++ reap_all rounds (r.others (doc_after (reap_in r d history) d))
          (add_events (reap_in r d history) history)

  module _ (r : Round) (fair : Fair r) (d : Doc) (history : Option (List HistoryRecord)) where
    abbrev after : Doc
    after = r.others (doc_after (reap_in r d history) d)

    reap_in-Once : (n : ℕ) → resume_count_of d ≡ pos n → Once d (reap_in r d history)
    reap_in-Once n counted =
        reap-Once le unit_of moment r.boot r.now r.ts
          (record r.world { state_doc = some (obj (of_dict d)) }) run fair.0 d n counted history
          refl

    count_after : resume_count_of after ≡ resume_count_of (doc_after (reap_in r d history) d)
    count_after =
        ap (λ (o : Option Json). count_or_zero (opt_int o))
          (fair.1 (doc_after (reap_in r d history) d))

  module _ (r : Round) (fair : Fair r) (d : Doc) (history : Option (List HistoryRecord))
      (rounds : List Round) where
    abbrev es : List Event
    es = reap_in r d history

    abbrev later : List Event
    later = reap_all rounds (after r fair d history) (add_events es history)

    capped_step :
        Once d es
        → at_cap (resume_count_of d) ≡ true
        → (at_cap (resume_count_of (after r fair d history)) ≡ true → launches later ≡ 0)
        → launches (es ++ later) ≡ 0
    capped_step (inr (one, below, _)) at rest = absurd cc
    capped_step (inl (z, same)) at rest =
        let none_later =
          rest (ap at_cap (count_after r fair d history ∙ ap resume_count_of same) ∙ at) in
        let sum = launches-append es later in omega arith

    Once-step :
        (n : ℕ)
        → Once d es
        → resume_count_of d ≡ pos n
        → (at_cap (resume_count_of (after r fair d history)) ≡ true → launches later ≡ 0)
        → (resume_count_of (after r fair d history) ≡ pos n → launches later ≤ 1)
        → launches (es ++ later) ≤ 1
    Once-step n (inr (one, below, at)) counted none_later rest =
        let z = none_later (ap at_cap (count_after r fair d history) ∙ at) in
        let sum = launches-append es later in omega arith
    Once-step n (inl (z, same)) counted none_later rest =
        let le_one = rest (count_after r fair d history ∙ ap resume_count_of same ∙ counted) in
        let sum = launches-append es later in omega arith

  capped-Idle :
      (rounds : List Round) (d : Doc) (history : Option (List HistoryRecord))
      → All Fair rounds
      → at_cap (resume_count_of d) ≡ true
      → launches (reap_all rounds d history) ≡ 0
  capped-Idle [] d history fair at = refl
  capped-Idle (r ∷ rounds) d history fair at =
      let n = at_cap_pos (resume_count_of d) at in
      capped_step r fair.0 d history rounds (reap_in-Once r fair.0 d history n.0 n.1) at (λ e.
        capped-Idle rounds (after r fair.0 d history) (add_events (reap_in r d history) history)
          fair.1 e)

  -- However often the watchdog sweeps a run whose state file counts no negative number of resumes,
  -- whatever it meets, it launches at most one resume, if each rewriting of the state file
  -- succeeds and nobody else changes the count in the file.
  pub reap_all_once :
      (rounds : List Round) (d : Doc) (history : Option (List HistoryRecord)) (n : ℕ)
      → All Fair rounds
      → resume_count_of d ≡ pos n
      → launches (reap_all rounds d history) ≤ 1
  reap_all_once [] d history n fair counted = omega arith
  reap_all_once (r ∷ rounds) d history n fair counted =
      Once-step r fair.0 d history rounds n (reap_in-Once r fair.0 d history n counted) counted
        (λ e.
          capped-Idle rounds (after r fair.0 d history) (add_events (reap_in r d history) history)
            fair.1 e)
        (λ e.
          reap_all_once rounds (after r fair.0 d history) (add_events (reap_in r d history) history)
            n fair.1 e)
