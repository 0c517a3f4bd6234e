-- ===== src/Gates/Threads.antt =====
-- gates.py: `has_reply` and `evaluate_gate7`, the reply coverage of the review threads, and
-- auto_fix.py's `is_trusted_author`. Times are natural numbers, and `casefold` is `str.casefold`.
pub mod Coverage
use herdr_routines.Prelude.{
  ℕ, String, str_eq, Bool, true, false, not, ◌&&◌, ◌||◌, Option, none, some, List, [], ◌∷◌,
  if◌then◌else◌, keep_if, any_of, elem, leb, length,
}
use herdr_routines.Prelude.Texts.{is_in}
use herdr_routines.Json.{Json, str, ℤ, pos, negsuc}
use herdr_routines.Gates.{GateVerdict, pass, fail, thread_counts}

pub record ThreadComment : Type 0 where
  pub author : Option String
  pub created_at : Option ℕ

pub record ReviewThread : Type 0 where
  pub is_resolved : Bool
  pub comment_count : ℤ
  pub first_comment_body : String
  pub first_comment_author : Option String
  pub thread_id : Option String
  pub replies : List ThreadComment

abbrev pub blocking_tag : String
blocking_tag = "[blocking]"

-- count >= MIN_REPLIED_COMMENT_COUNT
abbrev enough_comments : ℤ → Bool
enough_comments (pos n) = leb 2 n
enough_comments (negsuc n) = false

abbrev pub login : Option String → Option Json
login none = none
login (some s) = some (str s)

abbrev since_reached : Option ℕ → Option ℕ → Bool
since_reached none at = true
since_reached (some s) none = false
since_reached (some s) (some t) = leb s t

module _ (casefold : String → String) where
  unfoldable pub is_trusted_author : Option Json → List String → Bool
  is_trusted_author (some (str s)) trusted = not (str_eq s "") && elem (casefold s) trusted
  is_trusted_author _ trusted = false

  -- trusted is None or is_trusted_author(login, trusted)
  abbrev pub in_scope : Option Json → Option (List String) → Bool
  in_scope l none = true
  in_scope l (some trusted) = is_trusted_author l trusted

  unfoldable pub has_reply : ReviewThread → Option (List String) → Option ℕ → Bool
  unfolding is_trusted_author
  has_reply thread none none = enough_comments thread.comment_count
  has_reply thread (some trusted) since =
      any_of
        (λ (c : ThreadComment).
          in_scope (login c.author) (some trusted) && since_reached since c.created_at)
        thread.replies
  has_reply thread none (some since) =
      any_of (λ (c : ThreadComment). since_reached (some since) c.created_at) thread.replies

  abbrev pub is_unresolved : Option (List String) → ReviewThread → Bool
  is_unresolved trusted t = not t.is_resolved && in_scope (login t.first_comment_author) trusted

  abbrev pub is_unreplied : ReviewThread → Bool
  is_unreplied t = not (has_reply t none none)

  abbrev pub is_blocking : ReviewThread → Bool
  is_blocking t = is_in blocking_tag t.first_comment_body

  abbrev pub gate7_verdict : List ReviewThread → List ReviewThread → GateVerdict
  gate7_verdict [] [] = pass
  gate7_verdict unreplied blocking = fail (thread_counts (length unreplied) (length blocking))

  unfoldable pub evaluate_gate7 : List ReviewThread → Option (List String) → GateVerdict
  unfolding has_reply is_in is_trusted_author
  evaluate_gate7 threads trusted =
      let unresolved = keep_if (is_unresolved trusted) threads in
      gate7_verdict (keep_if is_unreplied unresolved) (keep_if is_blocking unresolved)
