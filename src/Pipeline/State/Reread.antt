-- ===== src/Pipeline/State/Reread.antt =====
-- pipeline_run.py: the document that `_State` writes back, read again.
use herdr_routines.Prelude.{
  String, str_eq, eq_iff, ◌≡◌, refl, sym, ap, ◌∙◌, false, Option, none, some, List, [], ◌∷◌, arith,
  if◌then◌else◌, ◌≢◌, Bool-cases, inl, inr, elem,
}
use herdr_routines.Prelude.Dict.{Dict, get, put, get-put}
use herdr_routines.Json.{Json, ℤ, str, to_dict}
use herdr_routines.History.Codec.{return, update}
use herdr_routines.Pipeline.State.{
  PipelineState, opt_str, texts_of, text_map, fields_in, of_texts, of_dict, artifacts, own_fields,
  payload, read_doc, maybe_text, maybe_int, opt_int, complete, plain_text, or_empty, or_zero,
}

texts_of-of_texts : (d : Dict String) → texts_of (to_dict (of_texts d)) ≡ d
texts_of-of_texts [] = refl
texts_of-of_texts ((k, s) ∷ d) = ap (λ (l : Dict String). (k, s) ∷ l) (texts_of-of_texts d)

pub to_dict-of_dict : (d : Dict Json) → to_dict (of_dict d) ≡ d
to_dict-of_dict [] = refl
to_dict-of_dict ((k, v) ∷ d) = ap (λ (l : Dict Json). (k, v) ∷ l) (to_dict-of_dict d)

-- The last of the updates of a key, if any.
abbrev last_update : String → Dict Json → Option Json → Option Json
last_update j [] o = o
last_update j ((k, v) ∷ more) o = last_update j more (if str_eq k j then some v else o)

get-update :
    (j : String) (d more : Dict Json) → get j (update d more) ≡ last_update j more (get j d)
unfolding update
get-update j d [] = refl
get-update j d ((k, v) ∷ more) =
    get-update j (put k v d) more ∙ ap (last_update j more) (get-put k j v d)

pub field_written :
    (j : String) (s : PipelineState)
    → get j (payload s) ≡ last_update j (own_fields s) (get j s.raw)
unfolding payload
field_written j s = get-update j s.raw (own_fields s)

abbrev pub keys_of : Dict Json → List String
keys_of [] = []
keys_of ((k, v) ∷ d) = k ∷ keys_of d

last_update-fresh :
    (j : String) (more : Dict Json) (o : Option Json)
    → elem j (keys_of more) ≡ false
    → last_update j more o ≡ o
last_update-fresh j [] o h = refl
last_update-fresh j ((k, v) ∷ more) o h = elim (Bool-cases (str_eq k j)) [
  | inl e ↦ absurd (ground arith)
  | inr e ↦ rw e (last_update-fresh j more o (ground arith))
]

opt_str-maybe_text : (o : Option String) → o ≢ some "" → opt_str (some (maybe_text o)) ≡ o
opt_str-maybe_text none h = refl
opt_str-maybe_text (some s) h = elim (Bool-cases (str_eq s "")) [
  | inl e ↦ absurd (h (ap (λ (t : String). some t) ((eq_iff s "").0 e)))
  | inr e ↦ rw e refl
]

opt_int-maybe_int : (o : Option ℤ) → opt_int (some (maybe_int o)) ≡ o
opt_int-maybe_int none = refl
opt_int-maybe_int (some n) = refl

opt_str-text : (s : String) → str_eq s "" ≡ false → opt_str (some (str s)) ≡ some s
opt_str-text s h = rw h refl

or_empty-text : (s : String) → or_empty (opt_str (some (str s))) ≡ s
or_empty-text s = elim (Bool-cases (str_eq s "")) [
  | inl e ↦ rw e (sym ((eq_iff s "").0 e))
  | inr e ↦ rw e refl
]

module _ (s : PipelineState) where
  abbrev pub written : String → Option Json
  written j = get j (payload s)

  spec_written : plain_text (get "spec" (fields_in (written "artifact_paths"))) ≡ some s.spec
  spec_written =
      ap (λ (o : Option Json). plain_text (get "spec" (fields_in o)))
        (field_written "artifact_paths" s)
      ∙ ap (λ (d : Dict Json). plain_text (get "spec" d)) (to_dict-of_dict (artifacts s))
      ∙ ap plain_text (get-put "spec" "spec" (str s.spec) (fields_in (get "artifact_paths" s.raw)))

  -- The fields of a state that name something name it by a text that is not empty.
  abbrev pub IsNamed : Type 0
  IsNamed =
      (str_eq s.worktree "" ≡ false)
      × (str_eq s.branch "" ≡ false)
      × (s.issue_source ≢ some "")
      × (s.shared_workspace ≢ some "")

  abbrev built :
      String
      → Option String
      → Option ℤ
      → Option String
      → ℤ
      → Option ℤ
      → Dict String
      → Dict String
      → PipelineState
  built i src dl ws st pr ss sb = record {
    run_id = i;
    worktree = s.worktree;
    branch = s.branch;
    spec = s.spec;
    issue_source = src;
    deadline_epoch = dl;
    shared_workspace = ws;
    current_stage = st;
    pr_number = pr;
    stage_sessions = ss;
    stage_bases = sb;
    raw = payload s;
  }

  abbrev from_written : PipelineState
  from_written =
      built (or_empty (opt_str (written "run_id"))) (opt_str (written "feature_source"))
        (opt_int (written "deadline_epoch")) (opt_str (written "shared_workspace"))
        (or_zero (opt_int (written "current_stage"))) (opt_int (written "pr_number"))
        (text_map (written "stage_sessions")) (text_map (written "stage_bases"))

  fields_reread :
      s.issue_source ≢ some ""
      → s.shared_workspace ≢ some ""
      → from_written ≡ record s { raw = payload s }
  fields_reread src ws =
      rw
        (
          ap or_empty (ap opt_str (field_written "run_id" s)) ∙ or_empty-text s.run_id,
          ap opt_str (field_written "feature_source" s) ∙ opt_str-maybe_text s.issue_source src,
          ap opt_int (field_written "deadline_epoch" s) ∙ opt_int-maybe_int s.deadline_epoch,
          ap opt_str (field_written "shared_workspace" s)
              ∙ opt_str-maybe_text s.shared_workspace ws,
          ap or_zero (ap opt_int (field_written "current_stage" s)),
          ap opt_int (field_written "pr_number" s) ∙ opt_int-maybe_int s.pr_number,
          ap text_map (field_written "stage_sessions" s) ∙ texts_of-of_texts s.stage_sessions,
          ap text_map (field_written "stage_bases" s) ∙ texts_of-of_texts s.stage_bases,
        )
        refl

  reread : IsNamed → read_doc (payload s) ≡ return (record s { raw = payload s })
  unfolding read_doc
  reread h =
      ap
        (λ (o : Option String).
          complete (payload s) o (opt_str (written "shared_worktree")) (opt_str (written "branch")))
        spec_written
      ∙ ap
          (λ (o : Option String). complete (payload s) (some s.spec) o (opt_str (written "branch")))
          (ap opt_str (field_written "shared_worktree" s) ∙ opt_str-text s.worktree h.0)
      ∙ ap (λ (o : Option String). complete (payload s) (some s.spec) (some s.worktree) o)
          (ap opt_str (field_written "branch" s) ∙ opt_str-text s.branch h.1)
      ∙ ap (λ (t : PipelineState). return t) (fields_reread h.2 h.3)

  -- A state that is written and read again is the same but for the document that it carries along,
  -- if its worktree and branch are not empty and its source and workspace are absent or not empty;
  -- and the document still has every key that the state does not own, with its value.
  pub read_doc-payload :
      IsNamed
      → (j : String) → elem j (keys_of (own_fields s)) ≡ false
      → (read_doc (payload s) ≡ return (record s { raw = payload s }))
        × (get j (payload s) ≡ get j s.raw)
  unfolding read_doc
  read_doc-payload h j fresh =
      (reread h, field_written j s ∙ last_update-fresh j (own_fields s) (get j s.raw) fresh)
