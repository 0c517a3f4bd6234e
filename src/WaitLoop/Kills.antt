-- ===== src/WaitLoop/Kills.antt =====
-- When the watchdog kills a delivered prompt.
use herdr_routines.Prelude.{
  ℕ, zero, suc, String, eq_iff, ◌≡◌, refl, sym, subst, ap, ◌∙◌, ◌⊎◌, inl, inr, Option, none, some,
  List, [], ◌∷◌, ◌++◌, arith, Bool-cases,
}
use mathlib.Core.List.{append_assoc}
use herdr_routines.WaitLoop.{
  CliError, is_retryable_prompt_error, matched_failure_marker, Round, settled, rejected, overrun,
  polled, Reply, status, error, killed, wait, scan, after_match, after_poll, after_wait, Outcome,
  done, attempts, prompt_with_watchdog,
}

-- The screens that an attempt polls, and those of a whole call.
abbrev pub polls_of : List Round → List String
polls_of (polled s ∷ rs) = s ∷ polls_of rs
polls_of _ = []

abbrev pub screens_of : List (List Round) → List String
screens_of [] = []
screens_of (rs ∷ more) = polls_of rs ++ screens_of more

none_ne_some {ℓ} : {A : Type ℓ} {a : A} → ◌≡◌ {A = Option A} none (some a) → ⊥
none_ne_some h = cc

killed_cases :
    (sent : ℕ) (w : Option (Reply × Option String × ℕ))
    (handle : CliError → Option String → ℕ → Option Outcome) (o : Outcome) (m s : String)
    → after_wait sent w handle ≡ some o
    → o.reply ≡ killed m s
    → ((hit : Option String) × (n : ℕ) × (w ≡ some (killed m s, hit, n)))
      ⊎ ((e : CliError) × (hit : Option String) × (n : ℕ) × (w ≡ some (error e, hit, n))
          × (handle e hit n ≡ some o))
killed_cases sent none handle o m s h r = cc
killed_cases sent (some (status x, hit, n)) handle o m s h r = absurd (ground arith)
killed_cases sent (some (killed k x, hit, n)) handle o m s h r = inl (hit, n, ground arith)
killed_cases sent (some (error e, hit, n)) handle o m s h r = inr (e, hit, n, refl, h)

not_done :
    {e : CliError} {a b : ℕ} {o : Outcome} {m s : String}
    → done (error e) a b ≡ some o
    → o.reply ≡ killed m s
    → ⊥
not_done h r = ground arith

module _ (markers : List String) (prompt_text : String) where
  abbrev matched : String → Option String
  matched s = matched_failure_marker s markers prompt_text

  after_match_hit : (hit o : Option String) → (after_match markers prompt_text hit o).0 ≡ o
  after_match_hit hit none = refl
  after_match_hit none (some m) = refl
  after_match_hit (some p) (some m) = ground (arith, eq_iff p m)

  after_match_kill :
      (hit o : Option String) (m : String)
      → (after_match markers prompt_text hit o).1 ≡ some m
      → (o ≡ some m) × (hit ≡ some m)
  after_match_kill hit none m h = cc
  after_match_kill none (some n) m h = cc
  after_match_kill (some p) (some n) m h = ground (arith, eq_iff p n)

  scan_hit : (hit : Option String) (s : String) → (scan markers prompt_text hit s).0 ≡ matched s
  unfolding scan
  scan_hit hit s = after_match_hit hit (matched s)

  scan_kill :
      (hit : Option String) (s m : String)
      → (scan markers prompt_text hit s).1 ≡ some m
      → (matched s ≡ some m) × (hit ≡ some m)
  unfolding scan
  scan_kill hit s m h = after_match_kill hit (matched s) m h

  -- Two screens polled one behind the other match the marker; `hit` stands for the last match
  -- before these screens.
  abbrev pub IsConfirmed : Option String → List String → String → String → Type 0
  IsConfirmed hit screens m s =
      ((post : List String) × (screens ≡ s ∷ post) × (hit ≡ some m) × (matched s ≡ some m))
      ⊎ ((pre : List String) × (first : String) × (post : List String) × (screens
            ≡ pre ++ first ∷ s ∷ post)
          × (matched first ≡ some m)
          × (matched s ≡ some m))

  IsConfirmed-later :
      (x : String) (hit : Option String) (screens : List String) (m s : String)
      → IsConfirmed (matched x) screens m s
      → IsConfirmed hit (x ∷ screens) m s
  IsConfirmed-later x hit screens m s (inl (post, e, h, k)) =
      inr ([], x, post, ap (λ (l : List String). x ∷ l) e, h, k)
  IsConfirmed-later x hit screens m s (inr (pre, first, post, e, h, k)) =
      inr (x ∷ pre, first, post, ap (λ (l : List String). x ∷ l) e, h, k)

  IsConfirmed-append :
      (hit : Option String) (xs ys : List String) (m s : String)
      → IsConfirmed hit xs m s
      → IsConfirmed hit (xs ++ ys) m s
  IsConfirmed-append hit xs ys m s (inl (post, e, h, k)) =
      inl (post ++ ys, ap (λ l. l ++ ys) e, h, k)
  IsConfirmed-append hit xs ys m s (inr (pre, first, post, e, h, k)) =
      inr
        (pre, first, post ++ ys, ap (λ l. l ++ ys) e ∙ append_assoc pre (first ∷ s ∷ post) ys, h, k)

  after_poll_kills :
      (marker : Option String) (x : String) (hit hit' : Option String) (n n' : ℕ)
      (rest : Option (Reply × Option String × ℕ)) (m s : String)
      → after_poll markers prompt_text marker x hit n rest ≡ some (killed m s, hit', n')
      → (rest ≡ some (killed m s, hit', n')) ⊎ ((marker ≡ some m) × (x ≡ s))
  after_poll_kills none x hit hit' n n' rest m s h = inl h
  after_poll_kills (some k) x hit hit' n n' rest m s h = inr (ground arith, ground arith)

  after_poll_error :
      (marker : Option String) (x : String) (hit hit' : Option String) (n n' : ℕ)
      (rest : Option (Reply × Option String × ℕ)) (e : CliError)
      → after_poll markers prompt_text marker x hit n rest ≡ some (error e, hit', n')
      → rest ≡ some (error e, hit', n')
  after_poll_error none x hit hit' n n' rest e h = h
  after_poll_error (some k) x hit hit' n n' rest e h = cc

  wait_kill :
      (rs : List Round) (hit hit' : Option String) (n n' : ℕ) (m s : String)
      → wait markers prompt_text hit n rs ≡ some (killed m s, hit', n')
      → IsConfirmed hit (polls_of rs) m s
  unfolding wait
  wait_kill [] hit hit' n n' m s h = cc
  wait_kill (settled x ∷ rs) hit hit' n n' m s h = cc
  wait_kill (rejected x ∷ rs) hit hit' n n' m s h = cc
  wait_kill (overrun ∷ rs) hit hit' n n' m s h = cc
  wait_kill (polled x ∷ rs) hit hit' n n' m s h =
      elim (after_poll_kills (scan markers prompt_text hit x).1 x (scan markers prompt_text hit x).0
        hit' (suc n) n' (wait markers prompt_text (scan markers prompt_text hit x).0 (suc n) rs) m s
        h) [
          | inl later ↦ IsConfirmed-later x hit (polls_of rs) m s (
              subst (λ y. IsConfirmed y (polls_of rs) m s) (scan_hit hit x)
                (wait_kill rs (scan markers prompt_text hit x).0 hit' (suc n) n' m s later))
          | inr (e, same) ↦
              let (now, before) = scan_kill hit x m e in
              inl (polls_of rs, ap (λ y. y ∷ polls_of rs) same, before, ap matched (sym same) ∙ now)
        ]

  -- An attempt that ends with an error has polled nothing, or leaves the match of its last poll.
  wait_error_hit :
      (rs : List Round) (hit hit' : Option String) (n n' : ℕ) (e : CliError)
      → wait markers prompt_text hit n rs ≡ some (error e, hit', n')
      → ((polls_of rs ≡ []) × (hit' ≡ hit))
        ⊎ ((pre : List String) × (last : String) × (polls_of rs ≡ pre ++ last ∷ [])
            × (hit' ≡ matched last))
  unfolding wait
  wait_error_hit [] hit hit' n n' e h = cc
  wait_error_hit (settled x ∷ rs) hit hit' n n' e h = cc
  wait_error_hit (rejected x ∷ rs) hit hit' n n' e h = inl (refl, ground arith)
  wait_error_hit (overrun ∷ rs) hit hit' n n' e h = inl (refl, ground arith)
  wait_error_hit (polled x ∷ rs) hit hit' n n' e h =
      elim (wait_error_hit rs (scan markers prompt_text hit x).0 hit' (suc n) n' e (
        after_poll_error (scan markers prompt_text hit x).1 x (scan markers prompt_text hit x).0
          hit' (suc n) n' (wait markers prompt_text (scan markers prompt_text hit x).0 (suc n) rs) e
          h)) [
            | inl (none_left, same) ↦ inr ([], x, ap (λ l. x ∷ l) none_left, same ∙ scan_hit hit x)
            | inr (pre, last, order, same) ↦ inr (x ∷ pre, last, ap (λ l. x ∷ l) order, same)
          ]

  IsConfirmed-next :
      (rs : List Round) (hit hit' : Option String) (ys : List String) (m s : String)
      → ((polls_of rs ≡ []) × (hit' ≡ hit))
        ⊎ ((pre : List String) × (last : String) × (polls_of rs ≡ pre ++ last ∷ [])
            × (hit' ≡ matched last))
      → IsConfirmed hit' ys m s
      → IsConfirmed hit (polls_of rs ++ ys) m s
  IsConfirmed-next rs hit hit' ys m s (inl (none_left, same)) c =
      rw none_left (subst (λ y. IsConfirmed y ys m s) same c)
  IsConfirmed-next rs hit hit' ys m s (inr (pre, last, order, same)) (inl (post, e, h, k)) =
      inr
        (pre, last, post, rw (order, e) (append_assoc pre (last ∷ []) (s ∷ post)), sym same ∙ h, k)
  IsConfirmed-next rs hit hit' ys m s (inr (pre, last, order, same))
        (inr (pre', first, post, e, h, k)) =
      inr (
        polls_of rs ++ pre',
        first,
        post,
        rw e (sym (append_assoc (polls_of rs) pre' (first ∷ s ∷ post))),
        h,
        k,
      )

  attempts_kill :
      (left sent : ℕ) (hit : Option String) (n : ℕ) (world : List (List Round)) (o : Outcome)
      (m s : String)
      → attempts markers prompt_text left sent hit n world ≡ some o
      → o.reply ≡ killed m s
      → IsConfirmed hit (screens_of world) m s
  unfolding attempts
  attempts_kill left sent hit n [] o m s h r = cc
  attempts_kill zero sent hit n (rs ∷ more) o m s h r =
      elim (killed_cases sent (wait markers prompt_text hit n rs) _ o m s h r) [
        | inl (hit', n', w) ↦
            IsConfirmed-append hit (polls_of rs) (screens_of more) m s
              (wait_kill rs hit hit' n n' m s w)
        | inr (e, hit', n', w, q) ↦ absurd (not_done q r)
      ]
  attempts_kill (suc left) sent hit n (rs ∷ more) o m s h r =
      elim (killed_cases sent (wait markers prompt_text hit n rs) _ o m s h r) [
        | inl (hit', n', w) ↦
            IsConfirmed-append hit (polls_of rs) (screens_of more) m s
              (wait_kill rs hit hit' n n' m s w)
        | inr (e, hit', n', w, q) ↦ elim (Bool-cases (is_retryable_prompt_error e)) [
          | inl again ↦
              IsConfirmed-next rs hit hit' (screens_of more) m s
                (wait_error_hit rs hit hit' n n' e w)
                (attempts_kill left (suc sent) hit' n' more o m s (rw again at q) r)
          | inr stop ↦ absurd (not_done (rw stop at q) r)
        ]
      ]

  -- A prompt is killed only if one marker was matched on two screens polled one behind the other,
  -- the second of which is the screen that the kill reports. The two may belong to two attempts.
  pub killed-IsConfirmed :
      (retry_delays : ℕ) (world : List (List Round)) (o : Outcome) (m s : String)
      → prompt_with_watchdog markers prompt_text retry_delays world ≡ some o
      → o.reply ≡ killed m s
      → (pre : List String) × (first : String) × (post : List String) × (screens_of world
          ≡ pre ++ first ∷ s ∷ post)
        × (matched_failure_marker first markers prompt_text ≡ some m)
        × (matched_failure_marker s markers prompt_text ≡ some m)
  unfolding prompt_with_watchdog
  killed-IsConfirmed retry_delays world o m s h r =
      elim (attempts_kill retry_delays 0 none 0 world o m s h r) [
        | inl (post, e, k, _) ↦ absurd (none_ne_some k)
        | inr c ↦ c
      ]
