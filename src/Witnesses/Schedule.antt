-- ===== src/Witnesses/Schedule.antt =====
-- A cron that fires every ten microseconds, and one whose wall clock stands still once.
use herdr_routines.Prelude.{ℕ, ◌+◌, ◌<◌, ◌≡◌, refl, none, some, List, [], ◌∷◌, arith}
use herdr_routines.History.{HistoryRecord, done}
use herdr_routines.Schedule.{ScheduleResult, occurrences_since, decide}
use herdr_routines.Schedule.Occurrences.{
  occurrences_since_complete, Rising, FreshWalls, Iterates, Covers,
}
use herdr_routines.Schedule.Decisions.{decide_sound, decide_repeats, Decides, fires}

abbrev next : ℕ → ℕ
next t = t + 10

abbrev wall : ℕ → ℕ
wall t = t

next_grows : (t : ℕ) → t < next t
next_grows t = omega arith

occurrences_since_complete_example :
    (os : List ℕ) × (occurrences_since next wall 0 35 ≡ some os)
    × Rising 0 35 os
    × FreshWalls wall [] os
    × Iterates next 0 os
    × Covers next wall 35 0 [] os
occurrences_since_complete_example = occurrences_since_complete next wall next_grows 0 35

decide_sound_example :
    (found : List ℕ) × (result : ScheduleResult) × (occurrences_since next wall 0 35 ≡ some found)
    × (decide next wall 1 35 none 0 ≡ some result)
    × Decides 0 35 1 found result
decide_sound_example = decide_sound next wall next_grows 1 35 none 0

abbrev ended : ℕ → HistoryRecord
ended t = record { ts = t; job = "nightly"; state = done; run_id = none; extra = none }

-- Every instant reads the same on this wall clock.
abbrev stopped : ℕ → ℕ
stopped t = 0

decide_repeats_example :
    (occurrences_since next stopped 0 20 ≡ some (10 ∷ []))
    × (decide next stopped 1 10 (some (ended 0)) 0 ≡ fires next stopped next_grows 10)
    × (decide next stopped 1 20 (some (ended 10)) 0 ≡ fires next stopped next_grows 20)
decide_repeats_example =
    decide_repeats next stopped next_grows 1 0 10 20 0 (ended 0) (ended 10) refl refl refl refl
      (omega arith) refl
