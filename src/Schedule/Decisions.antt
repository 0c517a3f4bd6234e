-- ===== src/Schedule/Decisions.antt =====
-- What `decide` says about one tick, and about two ticks in a row.
use herdr_routines.Prelude.{
  ℕ, suc, ◌+◌, ◌-◌, ◌*◌, ◌≤◌, ◌<◌, ◌≡◌, ◌↔◌, refl, ap, ◌∙◌, Option, none, some, List, [], ◌∷◌,
  arith, length, last_of, init_of, init_of-append-last_of, sym, head_of, ◌++◌, Memᴰ,
}
use herdr_routines.History.{HistoryRecord}
use herdr_routines.Schedule.{
  run, Due, ScheduleResult, not_due, due, minute, since_of, result_of, occurrences_since, decide,
  decided,
}
use herdr_routines.Schedule.Occurrences.{Rising, occurrences_since_complete}

last_of_bounds :
    (low high o : ℕ) (os : List ℕ)
    → Rising low high (o ∷ os)
    → (low < last_of o os) × (last_of o os ≤ high)
last_of_bounds low high o [] r = (r.0, r.1)
last_of_bounds low high o (p ∷ os) r =
    let (above, below) = last_of_bounds o high p os r.2 in (omega arith, below)

last_of_latest :
    (low high o : ℕ) (os : List ℕ)
    → Rising low high (o ∷ os)
    → (t : ℕ) → Memᴰ t (o ∷ os)
    → t ≤ last_of o os
last_of_latest low high o [] r t (Memᴰ.head e) = omega (arith, e)
last_of_latest low high o [] r t (Memᴰ.tail m) = elim m [ ]
last_of_latest low high o (p ∷ os) r t (Memᴰ.head e) =
    let (above, below) = last_of_bounds o high p os r.2 in omega arith
last_of_latest low high o (p ∷ os) r t (Memᴰ.tail m) = last_of_latest o high p os r.2 t m

-- What a decision to act says of the interval from `since` to `now`.
pub record IsSound (since now catch_up_minutes : ℕ) (found : List ℕ) (d : Due) : Type 0 where
  pub after : since < d.occurrence
  pub reached : d.occurrence ≤ now
  pub late_by : d.late + d.occurrence ≡ now
  pub runs_iff : (d.decision ≡ run) ↔ (now ≤ d.occurrence + catch_up_minutes * minute)
  -- The occurrence is the last one found, and none that was found is later.
  pub earlier : List ℕ
  pub is_last : found ≡ earlier ++ d.occurrence ∷ []
  pub is_latest : (t : ℕ) → Memᴰ t found → t ≤ d.occurrence
  pub counted : d.skipped_occurrences ≡ length earlier
  pub first_skipped : d.skipped_first ≡ head_of earlier

abbrev pub Decides : ℕ → ℕ → ℕ → List ℕ → ScheduleResult → Type 0
Decides since now c found not_due = found ≡ []
Decides since now c found (due d) = IsSound since now c found d

result_of_sound :
    (since now c : ℕ) (os : List ℕ)
    → Rising since now os
    → Decides since now c os (result_of c now os)
result_of_sound since now c [] r = refl
result_of_sound since now c (o ∷ os) r =
    let (above, below) = last_of_bounds since now o os r in
    record {
      after = above;
      reached = below;
      late_by = omega arith;
      runs_iff = (λ e. ground arith, λ e. ground arith);
      earlier = init_of o os;
      is_last = sym (init_of-append-last_of o os);
      is_latest = last_of_latest since now o os r;
      counted = refl;
      first_skipped = refl;
    }

module _ (next wall : ℕ → ℕ) (next_grows : (t : ℕ) → t < next t) where
  -- A decision is always reached, for a cron iterator that moves forward. Not due means that the
  -- enumeration of the interval from the last counted record (or the registration) to `now` found
  -- nothing; otherwise the occurrence acted on lies in that interval and is the last and the latest
  -- that was found, it is run exactly when it is at most the catch-up time old, and the ones found
  -- before it are counted as skipped, with the first of them.
  pub decide_sound :
      (c now : ℕ) (last_terminal : Option HistoryRecord) (registered_at : ℕ)
      → let since = since_of last_terminal registered_at in
        (found : List ℕ) × (result : ScheduleResult) × (occurrences_since next wall since now
          ≡ some found)
        × (decide next wall c now last_terminal registered_at ≡ some result)
        × Decides since now c found result
  unfolding decide
  decide_sound c now last_terminal registered_at =
      let since = since_of last_terminal registered_at in
      let (os, e, rising, _, _, _) = occurrences_since_complete next wall next_grows since now in
      (os, result_of c now os, e, rw e refl, result_of_sound since now c os rising)

  one_instant : (t b : ℕ) → next t ≡ b → occurrences_since next wall t b ≡ some (b ∷ [])
  unfolding occurrences_since
  one_instant t b h =
      let e : b - t ≡ suc (b - suc t) = omega (arith, next_grows t) in
      rw e (ground (arith, next_grows b))

  same_wall :
      (s a b : ℕ)
      → next s ≡ a
      → next a ≡ b
      → wall a ≡ wall b
      → occurrences_since next wall s b ≡ some (a ∷ [])
  unfolding occurrences_since
  same_wall s a b hs ha w =
      let e : b - s ≡ suc (suc (b - suc (suc s))) = omega (arith, next_grows s, next_grows a) in
      rw e (ground (arith, next_grows a, next_grows b))

  abbrev pub fires : ℕ → Option ScheduleResult
  fires o = some (
      due (record {
        decision = run;
        occurrence = o;
        late = 0;
        skipped_occurrences = 0;
        skipped_first = none;
        skipped_last = none;
      }))

  result_at : (c b : ℕ) → some (result_of c b (b ∷ [])) ≡ fires b
  result_at c b = let e : b - b ≡ 0 = omega arith in rw e (ground arith)

  fires_at :
      (c b registered_at : ℕ) (r : HistoryRecord)
      → next r.ts ≡ b
      → decide next wall c b (some r) registered_at ≡ fires b
  unfolding decide
  fires_at c b registered_at r h = ap (decided next wall c b) (one_instant r.ts b h) ∙ result_at c b

  -- Two instants `a` and `b` of the cron that follow one another and have one wall-clock time, as
  -- on the day the clocks go back. One enumeration that holds both keeps only `a`. But a tick at
  -- `a` runs the job, and once that run has left a terminal record before `b`, a tick at `b` runs
  -- the job again.
  pub decide_repeats :
      (c s a b registered_at : ℕ) (before fin : HistoryRecord)
      → before.ts ≡ s
      → next s ≡ a
      → next a ≡ b
      → wall a ≡ wall b
      → a ≤ fin.ts
      → next fin.ts ≡ b
      → (occurrences_since next wall s b ≡ some (a ∷ []))
        × (decide next wall c a (some before) registered_at ≡ fires a)
        × (decide next wall c b (some fin) registered_at ≡ fires b)
  decide_repeats c s a b registered_at before fin hs ha hb w le hf = (
    same_wall s a b ha hb w,
    fires_at c a registered_at before (ap next hs ∙ ha),
    fires_at c b registered_at fin hf,
  )
