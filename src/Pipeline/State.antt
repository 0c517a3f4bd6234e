-- ===== src/Pipeline/State.antt =====
-- src/herdr_routines/pipeline_run.py: `_State`, the parsed `state.json`. Paths are texts. A value is
-- read from the document that json.loads returns, and written back as the document that json.dumps
-- gets.
pub mod Reread
use herdr_routines.Prelude.{
  ℕ, String, str_eq, Bool, true, false, Option, none, some, List, [], ◌∷◌, if◌then◌else◌,
}
use herdr_routines.Prelude.Dict.{Dict, get, put}
use herdr_routines.Json.{Json, ℤ, pos, Items, Fields, null, int, str, obj, end, field, to_dict}
use herdr_routines.History.Codec.{Outcome, return, raise, type_error, value_error, update}

abbrev pub Doc : Type 0
Doc = Dict Json

-- `raw` is the document as it was read.
pub record PipelineState : Type 0 where
  pub run_id : String
  pub worktree : String
  pub branch : String
  pub spec : String
  pub issue_source : Option String
  pub deadline_epoch : Option ℤ
  pub shared_workspace : Option String
  pub current_stage : ℤ
  pub pr_number : Option ℤ
  pub stage_sessions : Dict String
  pub stage_bases : Dict String
  pub raw : Doc

-- opt_str, on the value of the key
abbrev pub opt_str : Option Json → Option String
opt_str (some (str s)) = if str_eq s "" then none else some s
opt_str _ = none

-- opt_int: a bool is no int here.
abbrev pub opt_int : Option Json → Option ℤ
opt_int (some (int n)) = some n
opt_int _ = none

abbrev pub texts_of : Dict Json → Dict String
texts_of [] = []
texts_of ((k, str s) ∷ d) = (k, s) ∷ texts_of d
texts_of ((k, _) ∷ d) = texts_of d

abbrev pub text_map : Option Json → Dict String
text_map (some (obj fs)) = texts_of (to_dict fs)
text_map _ = []

abbrev pub fields_in : Option Json → Dict Json
fields_in (some (obj fs)) = to_dict fs
fields_in _ = []

abbrev pub plain_text : Option Json → Option String
plain_text (some (str s)) = some s
plain_text _ = none

abbrev pub or_zero : Option ℤ → ℤ
or_zero none = pos 0
or_zero (some n) = n

abbrev pub or_empty : Option String → String
or_empty none = ""
or_empty (some s) = s

abbrev pub complete : Doc → Option String → Option String → Option String → Outcome PipelineState
complete d (some spec) (some worktree) (some branch) = return (record {
  run_id = or_empty (opt_str (get "run_id" d));
  worktree = worktree;
  branch = branch;
  spec = spec;
  issue_source = opt_str (get "feature_source" d);
  deadline_epoch = opt_int (get "deadline_epoch" d);
  shared_workspace = opt_str (get "shared_workspace" d);
  current_stage = or_zero (opt_int (get "current_stage" d));
  pr_number = opt_int (get "pr_number" d);
  stage_sessions = text_map (get "stage_sessions" d);
  stage_bases = text_map (get "stage_bases" d);
  raw = d;
})
complete d _ _ _ = raise value_error

unfoldable pub read_doc : Doc → Outcome PipelineState
unfolding get
read_doc d =
    complete d (plain_text (get "spec" (fields_in (get "artifact_paths" d))))
      (opt_str (get "shared_worktree" d)) (opt_str (get "branch" d))

-- _State.read, behind json.loads
unfoldable pub read : Json → Outcome PipelineState
unfolding read_doc
read (obj fs) = read_doc (to_dict fs)
read _ = raise type_error

abbrev pub of_texts : Dict String → Fields
of_texts [] = end
of_texts ((k, s) ∷ d) = field k (str s) (of_texts d)

abbrev pub of_dict : Dict Json → Fields
of_dict [] = end
of_dict ((k, v) ∷ d) = field k v (of_dict d)

abbrev pub maybe_text : Option String → Json
maybe_text none = null
maybe_text (some s) = str s

abbrev pub maybe_int : Option ℤ → Json
maybe_int none = null
maybe_int (some n) = int n

abbrev pub artifacts : PipelineState → Dict Json
artifacts s = put "spec" (str s.spec) (fields_in (get "artifact_paths" s.raw))

abbrev pub own_fields : PipelineState → Dict Json
own_fields s =
    ("run_id", str s.run_id)
    ∷ ("current_stage", int s.current_stage)
    ∷ ("pr_number", maybe_int s.pr_number)
    ∷ ("shared_worktree", str s.worktree)
    ∷ ("branch", str s.branch)
    ∷ ("shared_workspace", maybe_text s.shared_workspace)
    ∷ ("deadline_epoch", maybe_int s.deadline_epoch)
    ∷ ("feature_source", maybe_text s.issue_source)
    ∷ ("artifact_paths", obj (of_dict (artifacts s)))
    ∷ ("stage_sessions", obj (of_texts s.stage_sessions))
    ∷ ("stage_bases", obj (of_texts s.stage_bases))
    ∷ []

unfoldable pub payload : PipelineState → Doc
unfolding update get put
payload s = update s.raw (own_fields s)
