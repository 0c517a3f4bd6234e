-- ===== src/Pipeline/Sessions/Independence.antt =====
-- pipeline_watchdog.py: what a valid layout of sessions says of two stages.
use herdr_routines.Prelude.{
  String, str_eq, eq_iff, eq_refl, ◌≡◌, refl, sym, ap, ◌∙◌, true, false, Option, none, some, List,
  [], ◌∷◌, ◌++◌, Bool-cases, Option-cases, inl, inr, Memᴰ,
}
use herdr_routines.Prelude.NoneOf.{NoneOf}
use herdr_routines.Prelude.Dict.{Dict, get, put, get-put}
use herdr_routines.Json.{Json, Fields, obj, to_dict}
use herdr_routines.Pipeline.Stages.{StageSpec, stages}
use herdr_routines.Pipeline.Sessions.{
  Issue, find_reuse, same_text, reuse_allowed, validate_stage_sessions, text_entries, audit_texts,
  audit_entries, audit_field, or_issue,
}

module _ (lower : String → String) (allowed : Dict String) where
  same_text_lem : (o : Option String) (k : String) → same_text lower o k ≡ true → o ≡ some k
  same_text_lem none k h = cc
  same_text_lem (some s) k h = ap (λ (t : String). some t) ((eq_iff s k).0 h)

  known_owner :
      (seen : Dict String) (key value owner : String) (d : Dict String)
      → get value seen ≡ some owner
      → find_reuse lower allowed seen ((key, value) ∷ d) ≡ none
      → (get owner allowed ≡ some key) × (find_reuse lower allowed seen d ≡ none)
  unfolding find_reuse
  known_owner seen key value owner d g h =
      elim (Bool-cases (same_text lower (get owner allowed) key)) [
        | inl e ↦ (same_text_lem (get owner allowed) key e, rw (g, e) at h)
        | inr e ↦ cc (rw (g, e) at h)
      ]

  new_owner :
      (seen : Dict String) (key value : String) (d : Dict String)
      → get value seen ≡ none
      → find_reuse lower allowed seen ((key, value) ∷ d) ≡ none
      → find_reuse lower allowed (put value key seen) d ≡ none
  unfolding find_reuse
  new_owner seen key value d g h = rw g at h

  put_other :
      (seen : Dict String) (key value v : String) (o : Option String)
      → str_eq value v ≡ false
      → get v seen ≡ o
      → get v (put value key seen) ≡ o
  put_other seen key value v o n g = get-put value v key seen ∙ rw n g

  reuse_of_owner :
      (seen d : Dict String) (v owner k : String)
      → get v seen ≡ some owner
      → find_reuse lower allowed seen d ≡ none
      → Memᴰ (k, v) d
      → get owner allowed ≡ some k
  reuse_of_owner seen [] v owner k g h m = elim m [ ]
  reuse_of_owner seen ((key, value) ∷ d) v owner k g h (Memᴰ.head e) =
      let same_key : k ≡ key = ap (λ (p : String × String). p.0) e in
      let same : v ≡ value = ap (λ (p : String × String). p.1) e in
      (known_owner seen key value owner d (ap (λ (x : String). get x seen) (sym same) ∙ g) h).0
      ∙ ap (λ (x : String). some x) (sym same_key)
  reuse_of_owner seen ((key, value) ∷ d) v owner k g h (Memᴰ.tail m) =
      elim (Option-cases (get value seen)) [
        | inr (o, e) ↦ reuse_of_owner seen d v owner k g (known_owner seen key value o d e h).1 m
        | inl e ↦ elim (Bool-cases (str_eq value v)) [
          | inl q ↦ cc (sym g ∙ ap (λ (x : String). get x seen) (sym ((eq_iff value v).0 q)) ∙ e)
          | inr q ↦
              reuse_of_owner (put value key seen) d v owner k
                (put_other seen key value v (some owner) q g) (new_owner seen key value d e h) m
        ]
      ]

  reuse_after :
      (seen pre rest : Dict String) (v k1 k2 : String)
      → NoneOf (λ (e : String × String). str_eq e.1 v) pre
      → get v seen ≡ none
      → find_reuse lower allowed seen (pre ++ (k1, v) ∷ rest) ≡ none
      → Memᴰ (k2, v) rest
      → get k1 allowed ≡ some k2
  reuse_after seen [] rest v k1 k2 n g h m =
      reuse_of_owner (put v k1 seen) rest v k1 k2 (get-put v v k1 seen ∙ rw (eq_refl v) refl)
        (new_owner seen k1 v rest g h) m
  reuse_after seen ((key, value) ∷ pre) rest v k1 k2 n g h m =
      elim (Option-cases (get value seen)) [
        | inr (o, e) ↦
            reuse_after seen pre rest v k1 k2 n.1 g
              (known_owner seen key value o (pre ++ (k1, v) ∷ rest) e h).1 m
        | inl e ↦
            reuse_after (put value key seen) pre rest v k1 k2 n.1
              (put_other seen key value v none n.0 g)
              (new_owner seen key value (pre ++ (k1, v) ∷ rest) e h) m
      ]

or_issue-none :
    (lower : String → String) (a b : Option Issue)
    → or_issue lower a b ≡ none
    → (a ≡ none) × (b ≡ none)
or_issue-none lower none b h = (refl, h)
or_issue-none lower (some i) b h = cc

module _ (lower : String → String) where
  texts_audited :
      (expected : List StageSpec) (current : Option Json) (entries : Dict Json) (d : Dict String)
      → text_entries entries ≡ some d
      → audit_entries lower expected current entries ≡ none
      → audit_texts lower expected current (some d) ≡ none
  texts_audited expected current [] d t h = cc
  texts_audited expected current (e ∷ entries) d t h =
      ap (audit_texts lower expected current) (sym t) ∙ h

  no_reuse :
      (expected : List StageSpec) (current : Option Json) (d : Dict String)
      → audit_texts lower expected current (some d) ≡ none
      → find_reuse lower (reuse_allowed lower expected) [] d ≡ none
  no_reuse expected current d h =
      (or_issue-none lower _ _ (or_issue-none lower _ _ (or_issue-none lower _ _ h).1).1).0

  only_resumed : (k1 k2 : String) → get k1 (("4", "7") ∷ []) ≡ some k2 → (k1 ≡ "4") × (k2 ≡ "7")
  unfolding get
  only_resumed k1 k2 h = elim (Bool-cases (str_eq "4" k1)) [
    | inl e ↦ (sym ((eq_iff "4" k1).0 e), cc (rw e at h))
    | inr e ↦ cc (rw e at h)
  ]

  -- In sessions that pass the audit against the table, a session that two stages record is that of
  -- stage 4, recorded first, and of stage 7, which resumes it.
  pub validate_stage_sessions_independent :
      (raw_state : Dict Json) (fs : Fields) (pre rest : Dict String) (k1 k2 v : String)
      → get "stage_sessions" raw_state ≡ some (obj fs)
      → text_entries (to_dict fs) ≡ some (pre ++ (k1, v) ∷ rest)
      → NoneOf (λ (e : String × String). str_eq e.1 v) pre
      → Memᴰ (k2, v) rest
      → validate_stage_sessions lower raw_state stages ≡ none
      → (k1 ≡ "4") × (k2 ≡ "7")
  unfolding validate_stage_sessions reuse_allowed
  validate_stage_sessions_independent raw_state fs pre rest k1 k2 v g t n m h =
      let current = get "current_stage" raw_state in
      let audited = ap (audit_field lower stages current) (sym g) ∙ h in
      only_resumed k1 k2 (
        reuse_after lower (reuse_allowed lower stages) [] pre rest v k1 k2 n refl
          (no_reuse stages current (pre ++ (k1, v) ∷ rest)
            (texts_audited stages current (to_dict fs) (pre ++ (k1, v) ∷ rest) t audited))
          m)
