-- ===== src/Witnesses/History.antt =====
-- Runs of history.py on small histories.
use herdr_routines.Prelude.{
  ℕ, String, zero, suc, str_eq, ◌≡◌, refl, ap, inl, inr, ◌⊎◌, true, false, ◌&&◌, ◌||◌, Option, none,
  some, List, [], ◌∷◌, ◌++◌, is_some, leb, Memᴰ, if◌then◌else◌,
}
use mathlib.Core.Option.{map}
use herdr_routines.Prelude.Texts.{strip}
use herdr_routines.Prelude.Dict.{Dict}
use herdr_routines.Json.{Json, str, arr, nil}
use herdr_routines.History.{State, HistoryRecord, running, done, registered, is_off_schedule}
use herdr_routines.History.Query.{
  find_stale_running, is_currently_running, deadline, last_scheduled_terminal_run, read_job,
}
use herdr_routines.History.Query.Guards.{
  guards_partition, finish_clears, start_is_running, open_run,
}
use herdr_routines.History.Query.OffSchedule.{last_scheduled-append_run, last_scheduled_sound}
use herdr_routines.History.Codec.{return, raise, type_error, from_dict, from_json, to_payload}
use herdr_routines.History.Codec.Laws.{from_dict-to_payload}
use herdr_routines.History.Files.{File, Dir, read_file, read_all, maybe_rotate}
use herdr_routines.History.Files.Reading.{read_file-skip, read_file_type_error}
use herdr_routines.History.Files.Rotation.{maybe_rotate-read_all}

abbrev entry : ℕ → State → HistoryRecord
entry t s = record { ts = t; job = "nightly"; state = s; run_id = some "r1"; extra = none }

abbrev begun : List HistoryRecord
begun = entry 1 running ∷ []

guards_partition_example :
    (is_some (open_run begun "nightly") ≡ (
      is_some (find_stale_running begun "nightly" 1000 2)
      || is_currently_running begun "nightly" 1000 2))
    × ((is_some (find_stale_running begun "nightly" 1000 2)
          && is_currently_running begun "nightly" 1000 2)
        ≡ false)
guards_partition_example = guards_partition begun "nightly" 1000 2

finish_clears_example :
    (find_stale_running (begun ++ entry 2 done ∷ []) "nightly" 1000 3 ≡ none)
    × (is_currently_running (begun ++ entry 2 done ∷ []) "nightly" 1000 3 ≡ false)
unfolding open_run
finish_clears_example =
    finish_clears begun "nightly" (entry 1 running) (entry 2 done) refl refl refl refl refl 1000 3

start_is_running_example :
    (is_currently_running (entry 0 registered ∷ entry 1 running ∷ []) "nightly" 1000 2
      ≡ leb 2 (deadline (entry 1 running) 1000))
    × (find_stale_running (entry 0 registered ∷ entry 1 running ∷ []) "nightly" 1000 2
        ≡ (if leb 2 (deadline (entry 1 running) 1000) then none else some (entry 1 running)))
unfolding read_job
start_is_running_example =
    start_is_running (entry 0 registered ∷ []) "nightly" (entry 1 running) refl refl refl 1000 2

last_scheduled-append_run_example :
    last_scheduled_terminal_run ([] ++ entry 1 running ∷ ([] ++ entry 2 done ∷ [])) "nightly" ≡ (
      if is_off_schedule (entry 1 running) || is_off_schedule (entry 2 done)
      then last_scheduled_terminal_run [] "nightly"
      else some (entry 2 done))
last_scheduled-append_run_example =
    last_scheduled-append_run [] [] "nightly" (entry 1 running) (entry 2 done) refl refl tt refl
      refl refl refl

last_scheduled_test :
    Memᴰ (entry 2 done) (entry 1 running ∷ entry 2 done ∷ [])
    × ((entry 2 done).job ≡ (entry 2 done).job)
    × (true ≡ true)
    × (is_off_schedule (entry 2 done) ≡ false)
unfolding last_scheduled_terminal_run
last_scheduled_test =
    last_scheduled_sound (entry 1 running ∷ entry 2 done ∷ []) "nightly" (entry 2 done) refl

-- Instants by the number of their digits, and a reader of one kind of line.
abbrev isoformat : ℕ → String
isoformat zero = String.[]
isoformat (suc n) = String.◌∷◌ "1" (isoformat n)

abbrev fromisoformat : String → Option ℕ
fromisoformat String.[] = some 0
fromisoformat (String.◌∷◌ c s) = map (λ n. suc n) (fromisoformat s)

fromisoformat-isoformat : (t : ℕ) → fromisoformat (isoformat t) ≡ some t
fromisoformat-isoformat zero = refl
fromisoformat-isoformat (suc n) = ap (map (λ (k : ℕ). suc k)) (fromisoformat-isoformat n)

abbrev reasons : Dict Json
reasons = ("reason", str "timeout") ∷ []

from_dict-to_payload_example :
    from_dict fromisoformat (
      to_payload isoformat (record {
        ts = 3;
        job = "nightly";
        state = done;
        run_id = some "r1";
        extra = some reasons;
      }))
    ≡ return
        (record { ts = 3; job = "nightly"; state = done; run_id = some "r1"; extra = some reasons })
from_dict-to_payload_example =
    from_dict-to_payload isoformat fromisoformat fromisoformat-isoformat 3 "nightly" done
      (some "r1") (some reasons) (λ e. cc e) (refl, tt)

abbrev loads : String → Option Json
loads s = if str_eq s "[]" then some (arr nil) else none

abbrev never : String → Option ℕ
never s = none

abbrev file : List String → File
file ls = record { lines = ls; st_size = 10; st_mtime = 0; readable = true }

read_file-skip_example :
    read_file loads never (some (file ("x" ∷ []))) ≡ read_file loads never (some (file []))
unfolding strip
read_file-skip_example =
    read_file-skip loads never (file ("x" ∷ [])) [] "x" [] refl (inr (inl refl))

read_file_type_error_example : read_file loads never (some (file ("[]" ∷ []))) ≡ raise type_error
unfolding from_json strip
read_file_type_error_example =
    read_file_type_error loads never (file ("[]" ∷ [])) [] "[]" [] (arr nil) refl refl refl refl
      refl

abbrev live_only : Dir
live_only = record { rolls = []; live = some (file []) }

abbrev rolled : Dir
rolled = record { rolls = ("history-1", file []) ∷ []; live = some (file []) }

abbrev name : Option String
name = some "history-1"

maybe_rotate-read_all_example :
    (read_all loads never rolled ≡ read_all loads never live_only)
    × (((rolled ≡ live_only) × (name ≡ none))
        ⊎ ((f : File) × (some (file []) ≡ some f)
            × (rolled ≡ record { rolls = ("history-1", f) ∷ []; live = some (file []) })
            × (name ≡ name)))
unfolding maybe_rotate
maybe_rotate-read_all_example =
    maybe_rotate-read_all loads never live_only rolled (some 5) none 0 "history-1" (file [])
      (some "history-1") tt refl refl
