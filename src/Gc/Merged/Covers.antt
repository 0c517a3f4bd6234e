-- ===== src/Gc/Merged/Covers.antt =====
-- What a merged pull request vouches for.
use herdr_routines.Prelude.{
  String, str_eq, eq_iff, ◌≡◌, refl, Bool, true, Option, none, some, List, [], ◌∷◌, arith, Memᴰ,
  Bool-cases, Option-cases, inl, inr, ◌⊎◌, sym, subst,
}
use herdr_routines.Prelude.Dict.{Dict, get}
use herdr_routines.Gc.Merged.{
  MergedPr, covers, first_cover, cover_of, cover_among, merged_pr_for, is_merged,
}

module _ (tip_of : String → Option String) (is_ancestor : String → String → Bool) where
  -- The pull request is one of the branch's name, and the branch's tip is its head or an ancestor.
  abbrev pub Vouches : String → List MergedPr → MergedPr → Type 0
  Vouches branch prs pr =
      (tip : String) × (oid : String) × Memᴰ pr prs
      × (tip_of branch ≡ some tip)
      × (pr.head_oid ≡ some oid)
      × ((oid ≡ tip) ⊎ (is_ancestor tip oid ≡ true))

  first_cover_sound :
      (tip : String) (prs : List MergedPr) (pr : MergedPr)
      → first_cover tip_of is_ancestor tip prs ≡ some pr
      → Memᴰ pr prs × (covers tip_of is_ancestor tip pr.head_oid ≡ true)
  first_cover_sound tip [] pr h = cc
  first_cover_sound tip (q ∷ prs) pr h =
      elim (Bool-cases (covers tip_of is_ancestor tip q.head_oid)) [
        | inl e ↦
            let same : q ≡ pr = cc (rw e at h) in
            (
              Memᴰ.head (sym same),
              subst (λ (x : MergedPr). covers tip_of is_ancestor tip x.head_oid ≡ true) same e,
            )
        | inr e ↦ let ih = first_cover_sound tip prs pr (rw e at h) in (Memᴰ.tail ih.0, ih.1)
      ]

  covers_cases :
      (tip : String) (o : Option String)
      → covers tip_of is_ancestor tip o ≡ true
      → (oid : String) × (o ≡ some oid) × ((oid ≡ tip) ⊎ (is_ancestor tip oid ≡ true))
  covers_cases tip none h = cc
  covers_cases tip (some oid) h = elim (Bool-cases (str_eq oid tip)) [
    | inl e ↦ (oid, refl, inl ((eq_iff oid tip).0 e))
    | inr e ↦ (oid, refl, inr (ground arith))
  ]

  cover_of_sound :
      (branch : String) (o : Option String) (prs : List MergedPr) (pr : MergedPr)
      → tip_of branch ≡ o
      → cover_of tip_of is_ancestor o prs ≡ some pr
      → Vouches branch prs pr
  cover_of_sound branch none prs pr t h = cc
  cover_of_sound branch (some tip) prs pr t h = elim (Bool-cases (str_eq tip "")) [
    | inl e ↦ cc (rw e at h)
    | inr e ↦
        let found = first_cover_sound tip prs pr (rw e at h) in
        let (oid, held, how) = covers_cases tip pr.head_oid found.1 in
        (tip, oid, found.0, t, held, how)
  ]

  cover_among_sound :
      (branch : String) (o : Option (List MergedPr)) (pr : MergedPr)
      → cover_among tip_of is_ancestor branch o ≡ some pr
      → (prs : List MergedPr) × (o ≡ some prs) × Vouches branch prs pr
  cover_among_sound branch none pr h = cc
  cover_among_sound branch (some []) pr h = cc
  cover_among_sound branch (some (q ∷ prs)) pr h =
      (q ∷ prs, refl, cover_of_sound branch (tip_of branch) (q ∷ prs) pr refl h)

  -- A branch counts as merged only by a merged pull request of its name whose head is the
  -- branch's tip or a descendant of it, or by being an ancestor of the base.
  pub is_merged_sound :
      (branch base : String) (merged_prs : Dict (List MergedPr))
      → is_merged tip_of is_ancestor branch base merged_prs ≡ true
      → ((prs : List MergedPr) × (pr : MergedPr) × (get branch merged_prs ≡ some prs)
          × Vouches branch prs pr)
        ⊎ (is_ancestor branch base ≡ true)
  unfolding is_merged merged_pr_for
  is_merged_sound branch base merged_prs h =
      elim (Option-cases (cover_among tip_of is_ancestor branch (get branch merged_prs))) [
        | inl e ↦ inr (rw e at h)
        | inr (pr, e) ↦
            let (prs, found, vouch) = cover_among_sound branch (get branch merged_prs) pr e in
            inl (prs, pr, found, vouch)
      ]
