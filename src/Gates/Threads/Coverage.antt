-- ===== src/Gates/Threads/Coverage.antt =====
-- What gate 7 requires of every thread.
use herdr_routines.Prelude.{
  ◌≤◌, ◌≢◌, not, false, str_eq, eq_iff, any_of, Memᴰ, ◌⊎◌, none, some, String, ◌≡◌, refl, ◌↔◌, Bool,
  true, ◌&&◌, ◌||◌, Option, List, [], ◌∷◌, arith, keep_if, Bool-cases, inl, inr,
}
use mathlib.Core.List.{cons≢nil}
use herdr_routines.Prelude.NoneOf.{NoneOf, NoneOf-Memᴰ, NoneOf-at, keep_if_none, NoneOf-keep_if}
use herdr_routines.Prelude.Texts.{is_in}
use herdr_routines.Json.{ℤ, pos, negsuc}
use herdr_routines.Gates.Threads.{
  enough_comments, login, in_scope, is_trusted_author, has_reply, ReviewThread, is_unresolved,
  is_unreplied, is_blocking, gate7_verdict, evaluate_gate7,
}

-- A test fails on all of a list's elements that another test keeps.
keep_if-NoneOf_or {ℓ} :
    {A : Type ℓ} (p q r : A → Bool) (xs : List A)
    → (NoneOf q (keep_if p xs) × NoneOf r (keep_if p xs))
      ↔ NoneOf (λ (x : A). p x && (q x || r x)) xs
keep_if-NoneOf_or p q r [] = (λ h. tt, λ h. (tt, tt))
keep_if-NoneOf_or p q r (x ∷ xs) =
    let ih = keep_if-NoneOf_or p q r xs in
    elim (Bool-cases (p x)) [
      | inl e ↦ rw e (
        λ h. (ground (arith, h.0.0, h.1.0), ih.0 (h.0.1, h.1.1)),
        λ h. ((ground (arith, h.0), (ih.1 h.1).0), (ground (arith, h.0), (ih.1 h.1).1)),
      )
      | inr e ↦ rw e (λ h. (refl, ih.0 h), λ h. ih.1 h.1)
    ]

module _ (casefold : String → String) where
  passes :
      (us bs : List ReviewThread)
      → ((gate7_verdict casefold us bs).passed ≡ true) ↔ ((us ≡ []) × (bs ≡ []))
  passes [] [] = (λ h. (refl, refl), λ h. refl)
  passes [] (b ∷ bs) = (λ h. cc, λ h. absurd (cons≢nil h.1))
  passes (u ∷ us) bs = (λ h. cc, λ h. absurd (cons≢nil h.0))

  abbrev is_open_point : Option (List String) → ReviewThread → Bool
  is_open_point trusted t =
      is_unresolved casefold trusted t && (is_unreplied casefold t || is_blocking casefold t)

  flat_iff :
      (threads : List ReviewThread) (trusted : Option (List String))
      → ((evaluate_gate7 casefold threads trusted).passed ≡ true)
        ↔ NoneOf (is_open_point trusted) threads
  unfolding evaluate_gate7
  flat_iff threads trusted =
      let unresolved = keep_if (is_unresolved casefold trusted) threads in
      let unreplied = is_unreplied casefold in
      let blocking = is_blocking casefold in
      let split = passes (keep_if unreplied unresolved) (keep_if blocking unresolved) in
      let flat = keep_if-NoneOf_or (is_unresolved casefold trusted) unreplied blocking threads in
      (
        λ h. flat.0 (
          NoneOf-keep_if unreplied unresolved (split.0 h).0,
          NoneOf-keep_if blocking unresolved (split.0 h).1,
        ),
        λ h. split.1 (
          keep_if_none unreplied unresolved (flat.1 h).0,
          keep_if_none blocking unresolved (flat.1 h).1,
        ),
      )

  -- The first comment is by an author whose comments count.
  abbrev pub InScope : Option (List String) → Option String → Type 0
  InScope none author = Unit
  InScope (some trusted) none = ⊥
  InScope (some trusted) (some s) = (s ≢ "") × (any_of (λ t. str_eq t (casefold s)) trusted ≡ true)

  -- There is no second comment.
  abbrev pub NoReply : ℤ → Type 0
  NoReply (pos n) = n ≤ 1
  NoReply (negsuc n) = Unit

  abbrev pub OpenPoint : Option (List String) → ReviewThread → Type 0
  OpenPoint trusted t =
      (t.is_resolved ≡ false)
      × InScope trusted t.first_comment_author
      × (NoReply t.comment_count ⊎ (is_in "[blocking]" t.first_comment_body ≡ true))

  scope_iff :
      (trusted : Option (List String)) (author : Option String)
      → (in_scope casefold (login author) trusted ≡ true) ↔ InScope trusted author
  unfolding is_trusted_author
  scope_iff none author = (λ h. tt, λ h. refl)
  scope_iff (some trusted) none = (λ h. cc, λ h. absurd h)
  scope_iff (some trusted) (some s) = (
    λ h. ((λ e. ground (arith, h, eq_iff s "", e)), ground (arith, h)),
    λ h. ground (arith, h.0, h.1, eq_iff s ""),
  )

  reply_iff : (t : ReviewThread) → (is_unreplied casefold t ≡ true) ↔ NoReply t.comment_count
  unfolding has_reply
  reply_iff t = count_iff t.comment_count
    where
      count_iff : (n : ℤ) → (not (enough_comments n) ≡ true) ↔ NoReply n
      count_iff (pos n) = (λ h. ground arith, λ h. ground arith)
      count_iff (negsuc n) = (λ h. tt, λ h. refl)

  point_iff :
      (trusted : Option (List String)) (t : ReviewThread)
      → (is_open_point trusted t ≡ true) ↔ OpenPoint trusted t
  point_iff trusted t =
      let scope = scope_iff trusted t.first_comment_author in
      let reply = reply_iff t in
      (
        λ h. (
          ground (arith, h),
          scope.0 (ground (arith, h)),
          elim (Bool-cases (is_unreplied casefold t)) [
            | inl e ↦ inl (reply.0 e)
            | inr e ↦ inr (ground (arith, h, e))
          ],
        ),
        λ h.
            let in_it = scope.1 h.1 in
            elim h.2 [
              | inl n ↦ let e = reply.1 n in ground (arith, h.0, in_it, e)
              | inr b ↦ ground (arith, h.0, in_it, b)
            ],
      )

  -- Gate 7 passes exactly when no thread is an open point: one that is not resolved, whose first
  -- comment is by a trusted author, if a set of them is given, and which has fewer than two comments
  -- or the text "[blocking]" in its first one.
  pub evaluate_gate7_iff :
      (threads : List ReviewThread) (trusted : Option (List String))
      → ((evaluate_gate7 casefold threads trusted).passed ≡ true)
        ↔ ((t : ReviewThread) → Memᴰ t threads → ¬ OpenPoint trusted t)
  evaluate_gate7_iff threads trusted =
      let flat = flat_iff threads trusted in
      (
        λ h t m. λ o.
            let closed = NoneOf-at (is_open_point trusted) t threads (flat.0 h) m in
            let open_too = (point_iff trusted t).1 o in cc,
        λ h. flat.1 (
            NoneOf-Memᴰ (is_open_point trusted) threads (λ t m.
              elim (Bool-cases (is_open_point trusted t)) [
                | inl e ↦ absurd (h t m ((point_iff trusted t).0 e))
                | inr e ↦ e
              ])),
      )
