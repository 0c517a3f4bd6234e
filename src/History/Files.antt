-- ===== src/History/Files.antt =====
-- history.py: reading the live file and its rolls, and the rotation. A file is its lines; the
-- JSON reader of one line is a parameter, `none` being a JSONDecodeError.
pub mod Reading
pub mod Rotation
use Prim.Native.String.{compare}
use Prim.Native.Nat.{Ordering}
use herdr_routines.Prelude.{
  ℕ, ◌+◌, ◌*◌, String, str_eq, ◌≡◌, Bool, true, false, not, ◌&&◌, ◌||◌, Option, none, some, List,
  [], ◌∷◌, ◌++◌, if◌then◌else◌, ltb, keep_if, any_of, is_some,
}
use herdr_routines.Prelude.Texts.{strip}
use herdr_routines.Json.{Json}
use herdr_routines.History.{HistoryRecord}
use herdr_routines.History.Codec.{
  Outcome, Error, return, raise, type_error, key_error, value_error, ◌>>=◌, from_json,
}

pub record File : Type 0 where
  pub lines : List String
  pub st_size : ℕ
  pub st_mtime : ℕ
  pub readable : Bool

-- The history directory: the rolls with their names, in any order, and the live file.
pub record Dir : Type 0 where
  pub rolls : List (String × File)
  pub live : Option File

abbrev pub day : ℕ
day = 86_400 * 1_000_000

module _ (loads : String → Option Json) (fromisoformat : String → Option ℕ) where
  -- `except (json.JSONDecodeError, KeyError, ValueError)`: any other error leaves `_read_file`.
  abbrev keep_record :
      Outcome HistoryRecord → Outcome (List HistoryRecord) → Outcome (List HistoryRecord)
  keep_record (return r) rest = rest >>= λ rs. return (r ∷ rs)
  keep_record (raise type_error) rest = raise type_error
  keep_record (raise _) rest = rest

  abbrev keep_line : Option Json → Outcome (List HistoryRecord) → Outcome (List HistoryRecord)
  keep_line none rest = rest
  keep_line (some v) rest = keep_record (from_json fromisoformat v) rest

  unfoldable pub read_lines : List String → Outcome (List HistoryRecord)
  read_lines [] = return []
  read_lines (l ∷ ls) =
      let rest = read_lines ls in
      let line = strip l in if str_eq line "" then rest else keep_line (loads line) rest

  unfoldable pub read_file : Option File → Outcome (List HistoryRecord)
  unfolding read_lines
  read_file none = return []
  read_file (some f) = if f.readable then read_lines f.lines else return []

  unfoldable pub read_files : List (String × File) → Outcome (List HistoryRecord)
  unfolding read_file
  read_files [] = return []
  read_files ((name, f) ∷ fs) = do xs ← read_file (some f); ys ← read_files fs; return (xs ++ ys)

-- `sorted` on the names: an insertion sort, by the order of the code points
abbrev pub before : String → String → Bool
before a b = elim (compare a b) [ Ordering.gt ↦ false | _ ↦ true ]

unfoldable pub insert_roll : String × File → List (String × File) → List (String × File)
insert_roll f [] = f ∷ []
insert_roll f (g ∷ fs) =
    let rest = insert_roll f fs in if before f.0 g.0 then f ∷ g ∷ fs else g ∷ rest

unfoldable pub sort_rolls : List (String × File) → List (String × File)
unfolding insert_roll
sort_rolls [] = []
sort_rolls (f ∷ fs) = insert_roll f (sort_rolls fs)

abbrev maybe_over : Option ℕ → ℕ → Bool
maybe_over none n = false
maybe_over (some limit) n = ltb limit n

module _ (loads : String → Option Json) (fromisoformat : String → Option ℕ) where
  unfoldable pub read_all : Dir → Outcome (List HistoryRecord)
  unfolding read_files sort_rolls
  read_all d = do
    xs ← read_files loads fromisoformat (sort_rolls d.rolls)
    ys ← read_file loads fromisoformat d.live
    return (xs ++ ys)

  abbrev baseline : List HistoryRecord → File → ℕ
  baseline [] f = f.st_mtime
  baseline (r ∷ rs) f = r.ts

  -- now - baseline > timedelta(days=max_age_days)
  abbrev over_age : Option ℕ → ℕ → File → Outcome Bool
  over_age none now f = return false
  over_age (some days) now f = do
    records ← read_file loads fromisoformat (some f)
    return (ltb (baseline records f + days * day) now)

  unfoldable pub over_rotation_threshold : File → Option ℕ → Option ℕ → ℕ → Outcome Bool
  unfolding read_file
  over_rotation_threshold f max_bytes max_age_days now =
      if maybe_over max_bytes f.st_size then return true else over_age max_age_days now f

  -- `target` is the name that `rolled_path` makes of `now`, and `touched` the empty file that
  -- `path.touch()` leaves.
  abbrev roll : Dir → File → String → File → Dir × Option String
  roll d f target touched =
      if any_of (λ (g : String × File). str_eq g.0 target) d.rolls
      then (d, none)
      else (record { rolls = (target, f) ∷ d.rolls; live = some touched }, some target)

  abbrev rotate_live :
      Dir → Option File → Option ℕ → Option ℕ → ℕ → String → File → Outcome (Dir × Option String)
  rotate_live d none max_bytes max_age_days now target touched = return (d, none)
  rotate_live d (some f) max_bytes max_age_days now target touched = do
    over ← over_rotation_threshold f max_bytes max_age_days now
    return (if over then roll d f target touched else (d, none))

  unfoldable pub maybe_rotate :
      Dir → Option ℕ → Option ℕ → ℕ → String → File → Outcome (Dir × Option String)
  unfolding over_rotation_threshold
  maybe_rotate d max_bytes max_age_days now target touched =
      if not (is_some max_bytes) && not (is_some max_age_days)
      then return (d, none)
      else rotate_live d d.live max_bytes max_age_days now target touched
