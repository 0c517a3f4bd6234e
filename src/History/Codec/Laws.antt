-- ===== src/History/Codec/Laws.antt =====
-- A record that is written and read back.
use mathlib.Core.List.{append-nil, append_assoc}
use herdr_routines.Prelude.{
  ℕ, String, str_eq, eq_iff, ◌≡◌, refl, sym, ap, ◌∙◌, ◌≢◌, true, false, Option, none, some, List,
  [], ◌∷◌, ◌++◌, arith, Bool-cases, inl, inr, elem, any_of-append,
}
use herdr_routines.Prelude.Dict.{Dict, get, put}
use herdr_routines.Json.{Json, str}
use herdr_routines.History.{
  State, done, failed, skipped, missed, interrupted_unknown, registered, scheduled, running,
  HistoryRecord,
}
use herdr_routines.History.Codec.{
  return, state_name, state_of, history_state, from_dict, update, to_payload, core_fields, or_none,
  beyond_core, known_state,
}

-- The keys are new to the core fields, and no key stands twice.
abbrev pub IsFresh : List String → Dict Json → Type 0
IsFresh used [] = Unit
IsFresh used ((k, v) ∷ d) = (elem k used ≡ false) × IsFresh (used ++ k ∷ []) d

abbrev keys : Dict Json → List String
keys [] = []
keys ((k, v) ∷ d) = k ∷ keys d

put_fresh :
    (k : String) (v : Json) (d : Dict Json) → elem k (keys d) ≡ false → put k v d ≡ d ++ (k, v) ∷ []
unfolding put
put_fresh k v [] h = refl
put_fresh k v ((j, w) ∷ d) h = ground (arith, put_fresh k v d)

history_state-state_name : (s : State) → history_state (str (state_name s)) ≡ return s
unfolding history_state state_name state_of known_state
history_state-state_name done = refl
history_state-state_name failed = refl
history_state-state_name skipped = refl
history_state-state_name missed = refl
history_state-state_name interrupted_unknown = refl
history_state-state_name registered = refl
history_state-state_name scheduled = refl
history_state-state_name running = refl

keys-append : (d : Dict Json) (k : String) (v : Json) → keys (d ++ (k, v) ∷ []) ≡ keys d ++ k ∷ []
keys-append [] k v = refl
keys-append ((j, w) ∷ d) k v = ap (λ (l : List String). j ∷ l) (keys-append d k v)

update_fresh : (more d : Dict Json) → IsFresh (keys d) more → update d more ≡ d ++ more
unfolding update
update_fresh [] d h = sym (append-nil d)
update_fresh ((k, v) ∷ more) d h =
    rw (put_fresh k v d h.0)
      (update_fresh more (d ++ (k, v) ∷ []) (rw (keys-append d k v) h.1) ∙ append_assoc d _ more)

elem-append_false :
    (j k : String) (xs ys : List String)
    → (elem j xs ≡ false → elem j ys ≡ false)
    → elem j (xs ++ k ∷ []) ≡ false
    → elem j (ys ++ k ∷ []) ≡ false
elem-append_false j k xs ys h e =
    rw (any_of-append (λ i. str_eq i j) ys (k ∷ []))
      (ground (arith, h, rw (any_of-append (λ i. str_eq i j) xs (k ∷ [])) at e))

IsFresh-weaken :
    (d : Dict Json) (xs ys : List String)
    → ((j : String) → elem j xs ≡ false → elem j ys ≡ false)
    → IsFresh xs d
    → IsFresh ys d
IsFresh-weaken [] xs ys sub h = tt
IsFresh-weaken ((k, v) ∷ d) xs ys sub h = (
  sub k h.0,
  IsFresh-weaken d (xs ++ k ∷ []) (ys ++ k ∷ []) (λ j. elem-append_false j k xs ys (sub j)) h.1,
)

beyond_core_fresh : (d : Dict Json) → IsFresh core_fields d → beyond_core d ≡ d
beyond_core_fresh [] h = refl
beyond_core_fresh ((k, v) ∷ d) h =
    rw
      (
        h.0,
        beyond_core_fresh d
            (IsFresh-weaken d (core_fields ++ k ∷ []) core_fields (λ j e. ground arith) h.1),
      )
      refl

abbrev pub fields : Option (Dict Json) → Dict Json
fields none = []
fields (some d) = d

get_fresh :
    (j : String) (used : List String) (d : Dict Json)
    → elem j used ≡ true
    → IsFresh used d
    → get j d ≡ none
unfolding get
get_fresh j used [] e h = refl
get_fresh j used ((k, v) ∷ d) e h =
    let later : get j d ≡ none =
      get_fresh j (used ++ k ∷ []) d (rw (any_of-append (λ i. str_eq i j) used (k ∷ []), e) refl)
        h.1 in
    elim (Bool-cases (str_eq k j)) [
      | inl same ↦ cc (rw ((eq_iff k j).0 same) at h.0)
      | inr other ↦ rw other later
    ]

abbrev base : String → String → State → Option String → Dict Json
base time job st none = ("ts", str time) ∷ ("job", str job) ∷ ("state", str (state_name st)) ∷ []
base time job st (some s) =
    ("ts", str time) ∷ ("job", str job) ∷ ("state", str (state_name st)) ∷ ("run_id", str s) ∷ []

or_none-some : (d : Dict Json) → d ≢ [] → or_none d ≡ some d
or_none-some [] h = absurd (h refl)
or_none-some (e ∷ d) h = refl

module _ (isoformat : ℕ → String) (fromisoformat : String → Option ℕ)
    (fromisoformat-isoformat : (t : ℕ) → fromisoformat (isoformat t) ≡ some t) where
  read_base :
      (t : ℕ) (job : String) (st : State) (rid : Option String) (d : Dict Json)
      → IsFresh core_fields d
      → from_dict fromisoformat (base (isoformat t) job st rid ++ d)
        ≡ return (record { ts = t; job = job; state = st; run_id = rid; extra = or_none d })
  unfolding from_dict get
  read_base t job st none d fresh =
      rw
        (
          history_state-state_name st,
          fromisoformat-isoformat t,
          get_fresh "run_id" core_fields d refl fresh,
          beyond_core_fresh d fresh,
        )
        refl
  read_base t job st (some s) d fresh =
      rw (history_state-state_name st, fromisoformat-isoformat t, beyond_core_fresh d fresh) refl

  write_base :
      (t : ℕ) (job : String) (st : State) (rid : Option String) (d : Dict Json)
      → IsFresh core_fields d
      → to_payload isoformat
          (record { ts = t; job = job; state = st; run_id = rid; extra = some d })
        ≡ base (isoformat t) job st rid ++ d
  unfolding to_payload put
  write_base t job st none d fresh =
      update_fresh d (base (isoformat t) job st none)
        (IsFresh-weaken d core_fields _ (λ j e. ground arith) fresh)
  write_base t job st (some s) d fresh =
      update_fresh d (base (isoformat t) job st (some s))
        (IsFresh-weaken d core_fields _ (λ j e. ground arith) fresh)

  write_none :
      (t : ℕ) (job : String) (st : State) (rid : Option String)
      → to_payload isoformat (record { ts = t; job = job; state = st; run_id = rid; extra = none })
        ≡ base (isoformat t) job st rid ++ []
  unfolding to_payload put
  write_none t job st none = refl
  write_none t job st (some s) = refl

  -- A record that is written and read back is the same record, if its extra fields are absent or
  -- at least one, no key among them stands twice and none is a core field's.
  pub from_dict-to_payload :
      (t : ℕ) (job : String) (st : State) (rid : Option String) (extra : Option (Dict Json))
      → extra ≢ some []
      → IsFresh core_fields (fields extra)
      → let r : HistoryRecord = record {
        ts = t;
        job = job;
        state = st;
        run_id = rid;
        extra = extra;
      } in
        from_dict fromisoformat (to_payload isoformat r) ≡ return r
  from_dict-to_payload t job st rid none present fresh =
      rw (write_none t job st rid, read_base t job st rid [] tt) refl
  from_dict-to_payload t job st rid (some d) present fresh =
      rw
        (
          write_base t job st rid d fresh,
          read_base t job st rid d fresh,
          or_none-some d (λ e. present (ap some e)),
        )
        refl
