-- ===== src/Findings.antt =====
-- src/herdr_routines/findings.py: the findings of an audit and the ledger that they are compared
-- with. SHA-1 and the digits of the Unicode database are parameters.
pub mod Diff
use Prim.Native.String.{compare}
use Prim.Native.Nat.{Ordering}
use herdr_routines.Prelude.{
  ℕ, String, Bool, true, false, not, ◌&&◌, ◌==◌, Option, none, some, List, [], ◌∷◌, ◌++◌, reverse,
  if◌then◌else◌, ltb, keep_if,
}
use herdr_routines.Prelude.Dict.{Dict}
use herdr_routines.Prelude.Texts.{codes, is_space}

pub data Severity : Type 0 where
  low medium high : Severity

unfoldable pub rank : Severity → ℕ
rank low = 0
rank medium = 1
rank high = 2

pub data LedgerState : Type 0 where
  open_ resolved : LedgerState

abbrev pub is_open : LedgerState → Bool
is_open open_ = true
is_open resolved = false

pub record Finding : Type 0 where
  pub id : String
  pub kind : String
  pub severity : Severity
  pub location : String
  pub summary : String

pub record FindingDiff : Type 0 where
  pub new : List Finding
  pub regressed : List Finding
  pub unchanged : List Finding
  pub resolved : List String

pub record LedgerEntry : Type 0 where
  pub kind : String
  pub location : String
  pub severity : Severity
  pub state : LedgerState
  pub first_seen : String
  pub last_seen : String
  pub resolved_at : Option String
  pub attempts : ℕ
  pub last_dispatched_run : Option String
  pub queued : Bool

pub record Ledger : Type 0 where
  pub job : String
  pub entries : Dict LedgerEntry
  pub version : ℕ
  pub updated : Option String
  pub runs : ℕ

-- lexicographic orders, as those of Python's tuples and texts
abbrev pub then_by : Ordering → Ordering → Ordering
then_by Ordering.eq o = o
then_by p o = p

abbrev by_rank : ℕ → ℕ → Ordering
by_rank a b = if ltb b a then Ordering.lt else if ltb a b then Ordering.gt else Ordering.eq

-- the tuples of `_order_key`, the greater severity first
unfoldable pub order_compare : Finding → Finding → Ordering
unfolding rank
order_compare f g =
    then_by (by_rank (rank f.severity) (rank g.severity)) (
      then_by (compare f.location g.location) (then_by (compare f.kind g.kind) (compare f.id g.id)))

abbrev is_le : Ordering → Bool
is_le Ordering.gt = false
is_le _ = true

unfoldable pub order_le : Finding → Finding → Bool
unfolding order_compare
order_le f g = is_le (order_compare f g)

abbrev pub text_le : String → String → Bool
text_le a b = is_le (compare a b)

module _ (is_digit : ℕ → Bool) where
  -- what is left behind a non-empty run of digits and a colon
  after_digits : Bool → List ℕ → Option (List ℕ)
  after_digits some_digit [] = none
  after_digits some_digit (c ∷ cs) =
      let rest = after_digits true cs in
      if is_digit c then rest else if c == b':' && some_digit then some cs else none

  -- `:\d+(?::\d+)?$`, on the reversed text
  abbrev drop_second : List ℕ → Option (List ℕ) → List ℕ
  drop_second cs none = cs
  drop_second cs (some ds) = ds

  abbrev drop_first : List ℕ → Option (List ℕ) → List ℕ
  drop_first cs none = cs
  drop_first cs (some ds) = drop_second ds (after_digits false ds)

  unfoldable pub normalize_location : List ℕ → List ℕ
  unfolding after_digits is_space
  normalize_location location =
      let r = reverse (keep_if (λ c. not (is_space c)) location) in
      reverse (drop_first r (after_digits false r))

  -- `digest key` is the first 12 hexadecimal digits of the SHA-1 of the key
  unfoldable pub finding_id : (List ℕ → String) → String → String → String → String
  unfolding normalize_location
  finding_id digest check kind location =
      digest (codes check ++ (b'|' ∷ codes kind) ++ (b'|' ∷ normalize_location (codes location)))
