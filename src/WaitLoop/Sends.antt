-- ===== src/WaitLoop/Sends.antt =====
-- When the prompt is sent again.
use herdr_routines.Prelude.{
  ℕ, zero, suc, ◌+◌, ◌≤◌, String, str_eq, ◌≡◌, refl, sym, subst, ◌≢◌, ap, ◌∙◌, ◌⊎◌, inl, inr, true,
  false, Option, none, some, List, [], ◌∷◌, ◌++◌, Memᴰ, arith, All, length, Bool-cases,
  Option-cases,
}
use herdr_routines.Json.{is_one}
use herdr_routines.WaitLoop.{
  CliError, error_body_code, is_retryable_prompt_error, Round, settled, rejected, overrun, polled,
  Reply, status, error, killed, overrun_error, wait, scan, after_poll, after_wait, done, Outcome,
  attempts, prompt_with_watchdog,
}

-- The attempt was rejected early: with exit code 1, and with a JSON body whose error code is
-- there and is not "timeout".
abbrev pub WasRejected : List Round → Type 0
WasRejected rs =
    (e : CliError) × (code : String) × Memᴰ (rejected e) rs
    × (is_one e.exit_code ≡ true)
    × (error_body_code e ≡ some code)
    × (str_eq code "timeout" ≡ false)

retryable_lem :
    (e : CliError)
    → is_retryable_prompt_error e ≡ true
    → (code : String) × (is_one e.exit_code ≡ true)
      × (error_body_code e ≡ some code)
      × (str_eq code "timeout" ≡ false)
unfolding is_retryable_prompt_error
retryable_lem e h = elim (Option-cases (error_body_code e)) [
  | inl n ↦ absurd (ground arith)
  | inr (c, q) ↦ (c, ground arith, q, ground arith)
]

overrun_ends : is_retryable_prompt_error overrun_error ≡ true → ⊥
unfolding is_retryable_prompt_error
overrun_ends h = cc

-- An attempt that ended with an error, or one that ended the call.
after_wait_cases :
    (sends : ℕ) (w : Option (Reply × Option String × ℕ))
    (handle : CliError → Option String → ℕ → Option Outcome) (o : Outcome)
    → after_wait sends w handle ≡ some o
    → ((e : CliError) × (hit : Option String) × (polls : ℕ) × (w ≡ some (error e, hit, polls))
        × (handle e hit polls ≡ some o))
      ⊎ ((o.sends ≡ suc sends) × ((e : CliError) → o.reply ≢ error e))
after_wait_cases sends none handle o h = cc
after_wait_cases sends (some (status s, hit, polls)) handle o h =
    let same : o ≡ record { reply = status s; sends = suc sends; polls = polls } = cc in
    inr (
      ap (λ (x : Outcome). x.sends) same,
      λ e r. status_ne_error s e (sym (ap (λ (x : Outcome). x.reply) same) ∙ r),
    )
  where
    status_ne_error : (s : Option String) (e : CliError) → status s ≢ error e
    status_ne_error s e r = cc
after_wait_cases sends (some (killed m s, hit, polls)) handle o h =
    let same : o ≡ record { reply = killed m s; sends = suc sends; polls = polls } = cc in
    inr (
      ap (λ (x : Outcome). x.sends) same,
      λ e r. killed_ne_error m s e (sym (ap (λ (x : Outcome). x.reply) same) ∙ r),
    )
  where
    killed_ne_error : (m s : String) (e : CliError) → killed m s ≢ error e
    killed_ne_error m s e r = cc
after_wait_cases sends (some (error e, hit, polls)) handle o h = inl (e, hit, polls, refl, h)

module _ (markers : List String) (prompt_text : String) where
  not_killed :
      (marker : Option String) (screen : String) (hit hit' : Option String) (polls polls' : ℕ)
      (rest : Option (Reply × Option String × ℕ)) (e : CliError)
      → after_poll markers prompt_text marker screen hit polls rest ≡ some (error e, hit', polls')
      → rest ≡ some (error e, hit', polls')
  not_killed none screen hit hit' polls polls' rest e h = h
  not_killed (some m) screen hit hit' polls polls' rest e h = cc

  wait_error :
      (rs : List Round) (hit hit' : Option String) (polls polls' : ℕ) (e : CliError)
      → wait markers prompt_text hit polls rs ≡ some (error e, hit', polls')
      → Memᴰ (rejected e) rs ⊎ (e ≡ overrun_error)
  unfolding wait
  wait_error [] hit hit' polls polls' e h = cc
  wait_error (settled s ∷ rs) hit hit' polls polls' e h = cc
  wait_error (rejected x ∷ rs) hit hit' polls polls' e h =
      let same : e ≡ x = cc in inl (Memᴰ.head (ap rejected same))
  wait_error (overrun ∷ rs) hit hit' polls polls' e h = inr cc
  wait_error (polled s ∷ rs) hit hit' polls polls' e h =
      let (next_hit, marker) = scan markers prompt_text hit s in
      elim (wait_error rs next_hit hit' (suc polls) polls' e (
        not_killed marker s next_hit hit' (suc polls) polls'
          (wait markers prompt_text next_hit (suc polls) rs) e h)) [
            | inl m ↦ inl (Memᴰ.tail m)
            | inr o ↦ inr o
          ]

  -- How the attempts of a call went, `sent` prompts having gone out before them.
  pub record IsBounded (left sent : ℕ) (world : List (List Round)) (o : Outcome) : Type 0 where
    pub failed : List (List Round)
    pub last : List Round
    pub rest : List (List Round)
    pub order : world ≡ failed ++ last ∷ rest
    pub count : o.sends ≡ suc (sent + length failed)
    pub limit : length failed ≤ left
    pub all_rejected : All WasRejected failed
    pub final_error :
        (e : CliError)
        → o.reply ≡ error e
        → (length failed ≡ left) ⊎ (is_retryable_prompt_error e ≡ false)

  first_attempt :
      (left sent : ℕ) (rs : List Round) (more : List (List Round)) (o : Outcome)
      → o.sends ≡ suc sent
      → ((e : CliError) → o.reply ≡ error e → (0 ≡ left) ⊎ (is_retryable_prompt_error e ≡ false))
      → IsBounded left sent (rs ∷ more) o
  first_attempt left sent rs more o s final = record {
    failed = [];
    last = rs;
    rest = more;
    order = refl;
    count = omega arith;
    limit = omega arith;
    all_rejected = tt;
    final_error = final;
  }

  rejected_of_wait :
      (rs : List Round) (hit hit' : Option String) (polls polls' : ℕ) (e : CliError)
      → wait markers prompt_text hit polls rs ≡ some (error e, hit', polls')
      → is_retryable_prompt_error e ≡ true
      → WasRejected rs
  rejected_of_wait rs hit hit' polls polls' e h r = elim (wait_error rs hit hit' polls polls' e h) [
    | inl m ↦ let (c, x, y, z) = retryable_lem e r in (e, c, m, x, y, z)
    | inr o ↦ absurd (overrun_ends (rw o at r))
  ]

  later_attempt :
      (left sent : ℕ) (rs : List Round) (more : List (List Round)) (o : Outcome)
      → WasRejected rs
      → IsBounded left (suc sent) more o
      → IsBounded (suc left) sent (rs ∷ more) o
  later_attempt left sent rs more o r b = record {
    failed = rs ∷ b.failed;
    last = b.last;
    rest = b.rest;
    order = ap (λ (l : List (List Round)). rs ∷ l) b.order;
    count = omega arith;
    limit = omega arith;
    all_rejected = (r, b.all_rejected);
    final_error = λ e q. final e (b.final_error e q);
  }
    where
      final :
          (e : CliError)
          → (length b.failed ≡ left) ⊎ (is_retryable_prompt_error e ≡ false)
          → (suc (length b.failed) ≡ suc left) ⊎ (is_retryable_prompt_error e ≡ false)
      final e (inl x) = inl (ap suc x)
      final e (inr y) = inr y

  sends_of : {r : Reply} {n m : ℕ} {o : Outcome} → done r n m ≡ some o → o.sends ≡ n
  sends_of q = ground arith

  error_of :
      {e x : CliError} {n m : ℕ} {o : Outcome}
      → done (error e) n m ≡ some o
      → o.reply ≡ error x
      → e ≡ x
  error_of q r = ground arith

  attempts-IsBounded :
      (left sent : ℕ) (hit : Option String) (polls : ℕ) (world : List (List Round)) (o : Outcome)
      → attempts markers prompt_text left sent hit polls world ≡ some o
      → IsBounded left sent world o
  unfolding attempts
  attempts-IsBounded left sent hit polls [] o h = cc
  attempts-IsBounded zero sent hit polls (rs ∷ more) o h =
      elim (after_wait_cases sent (wait markers prompt_text hit polls rs) _ o h) [
        | inl (e, hit', polls', w, q) ↦
            first_attempt zero sent rs more o (sends_of q) (λ x r. inl refl)
        | inr (s, final) ↦ first_attempt zero sent rs more o s (λ x r. absurd (final x r))
      ]
  attempts-IsBounded (suc left) sent hit polls (rs ∷ more) o h =
      elim (after_wait_cases sent (wait markers prompt_text hit polls rs) _ o h) [
        | inr (s, final) ↦ first_attempt (suc left) sent rs more o s (λ x r. absurd (final x r))
        | inl (e, hit', polls', w, q) ↦ elim (Bool-cases (is_retryable_prompt_error e)) [
          | inl again ↦
              later_attempt left sent rs more o
                (rejected_of_wait rs hit hit' polls polls' e w again)
                (attempts-IsBounded left (suc sent) hit' polls' more o (rw again at q))
          | inr stop ↦ stopped e polls' stop (rw stop at q)
        ]
      ]
    where
      stopped :
          (e : CliError) (n : ℕ)
          → is_retryable_prompt_error e ≡ false
          → done (error e) (suc sent) n ≡ some o
          → IsBounded (suc left) sent (rs ∷ more) o
      stopped e n stop q =
          first_attempt (suc left) sent rs more o (sends_of q)
            (λ x r. inr (subst (λ y. is_retryable_prompt_error y ≡ false) (error_of q r) stop))

  -- The prompt is sent at most once more than there are delays. It is sent again only after every
  -- attempt before it was rejected early, with exit code 1 and an error code other than
  -- "timeout" in a JSON body; and the error that the call raises is one that is not retried, or
  -- the last that the delays allow.
  pub prompt_with_watchdog-IsBounded :
      (retry_delays : ℕ) (world : List (List Round)) (o : Outcome)
      → prompt_with_watchdog markers prompt_text retry_delays world ≡ some o
      → IsBounded retry_delays 0 world o
  unfolding prompt_with_watchdog
  prompt_with_watchdog-IsBounded retry_delays world o h =
      attempts-IsBounded retry_delays 0 none 0 world o h
