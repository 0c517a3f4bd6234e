-- ===== src/Gc/Merged.antt =====
-- gc.py: is a branch merged? `tip_of` is the commit of a local branch, none when git does not say;
-- `is_ancestor` is `git merge-base --is-ancestor`.
pub mod Covers
use herdr_routines.Prelude.{
  String, str_eq, Bool, true, false, not, ◌||◌, Option, none, some, List, [], ◌∷◌, if◌then◌else◌,
  is_some,
}
use herdr_routines.Prelude.Dict.{Dict, get}

pub record MergedPr : Type 0 where
  pub head_oid : Option String
  pub merged_at : Option String

module _ (tip_of : String → Option String) (is_ancestor : String → String → Bool) where
  abbrev pub covers : String → Option String → Bool
  covers tip none = false
  covers tip (some oid) = str_eq oid tip || is_ancestor tip oid

  abbrev first_cover : String → List MergedPr → Option MergedPr
  first_cover tip [] = none
  first_cover tip (pr ∷ prs) =
      let rest = first_cover tip prs in if covers tip pr.head_oid then some pr else rest

  abbrev cover_of : Option String → List MergedPr → Option MergedPr
  cover_of none prs = none
  cover_of (some tip) prs = if str_eq tip "" then none else first_cover tip prs

  abbrev cover_among : String → Option (List MergedPr) → Option MergedPr
  cover_among branch none = none
  cover_among branch (some []) = none
  cover_among branch (some (pr ∷ prs)) = cover_of (tip_of branch) (pr ∷ prs)

  unfoldable pub merged_pr_for : String → Dict (List MergedPr) → Option MergedPr
  unfolding get
  merged_pr_for branch merged_prs = cover_among branch (get branch merged_prs)

  unfoldable pub is_merged : String → String → Dict (List MergedPr) → Bool
  unfolding merged_pr_for
  is_merged branch base merged_prs =
      if is_some (merged_pr_for branch merged_prs) then true else is_ancestor branch base
