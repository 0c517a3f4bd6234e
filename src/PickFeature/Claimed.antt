-- ===== src/PickFeature/Claimed.antt =====
-- pick_feature.py: two runs of `select_and_claim_feature` on one store, within the lease.
use herdr_routines.Prelude.{
  ℕ, ◌+◌, ◌<◌, leb, String, str_eq, eq_iff, eq_refl, ◌≡◌, refl, ap, ◌∙◌, subst, Bool, true, false,
  Option, none, some, List, [], ◌∷◌, if_both, keep_if, elem, map, Bool-cases, inl, inr, arith,
}
use herdr_routines.Prelude.Dict.{get, put, get-put}
use herdr_routines.PickFeature.{
  Claims, Store, load_claims, Issue, lease, is_free, before, first_of, select_next,
}
use herdr_routines.PickFeature.Claiming.{
  Released, reclaim_stale_claims, World, Pick, picked, choose, claim_it, only_pick, after_reclaim,
  with_issues, select_and_claim_feature, or_none,
}
use herdr_routines.PickFeature.Leases.{elem-keys, get-save_changed, Keeps, reclaim-Keeps}

not_expired : (t now : ℕ) → now < t + lease → leb (t + lease) now ≡ false
not_expired t now h = ground arith

module _ (as_int : String → Option ℕ) (below : String → String → Bool) where
  module _ (claimed : List String) (ids : List ℕ) where
    abbrev free : Issue → Bool
    free = is_free as_int below claimed ids

    -- The least of free issues is one of them.
    first_is_free :
        (issues : List Issue) (best : Issue)
        → free best ≡ true
        → free (first_of as_int below best (keep_if free issues)) ≡ true
    first_is_free [] best h = h
    first_is_free (i ∷ issues) best h = elim (Bool-cases (free i)) [
      | inl e ↦ rw e (
          first_is_free issues _
            (if_both (λ (x : Issue). free x ≡ true) (before as_int below i best) (λ _. e) (λ _. h)))
      | inr e ↦ rw e (first_is_free issues best h)
    ]

    abbrev Free : Option Issue → Type 0
    Free none = Unit
    Free (some i) = free i ≡ true

    select_next-Free : (issues : List Issue) → Free (select_next as_int below issues claimed ids)
    unfolding select_next
    select_next-Free [] = tt
    select_next-Free (x ∷ issues) = elim (Bool-cases (free x)) [
      | inl e ↦ rw e (first_is_free issues x e)
      | inr e ↦ rw e (select_next-Free issues)
    ]

  not_elem :
      (claimed : List String) (ids : List ℕ) (i : Issue)
      → is_free as_int below claimed ids i ≡ true
      → elem i.id claimed ≡ false
  not_elem claimed ids i h = ground arith

  -- The pick is recorded in the store.
  abbrev Claimed : ℕ → Pick × Store → Type 0
  Claimed now (picked i reclaimed, store) = get i.id (load_claims store) ≡ some now
  Claimed now _ = Unit

  claim-Claimed :
      (w : World) (store : Store) (r : Released) (o : Option Issue)
      → Claimed w.now (claim_it as_int below w store r o)
  claim-Claimed w store (claims, reclaimed) none = tt
  claim-Claimed w store (claims, reclaimed) (some i) =
      get-save_changed store (put i.id w.now claims) i.id w.now
        (get-put i.id i.id w.now claims ∙ rw (eq_refl i.id) refl)

  select-Claimed :
      (store : Store) (w : World)
      → Claimed w.now (select_and_claim_feature as_int below true store w)
  unfolding select_and_claim_feature
  select-Claimed store w = on w.issues
    where
      after :
          (issues : List Issue) (o : Option Released)
          → Claimed w.now (after_reclaim as_int below w store issues o)
      after issues none = tt
      after issues (some r) = claim-Claimed w store r (choose as_int below w issues r.0)

      on : (o : Option (List Issue)) → Claimed w.now (with_issues as_int below true store w o)
      on none = tt
      on (some issues) =
          after issues
            (reclaim_stale_claims as_int w.in_flight (load_claims store) w.now w.open_prs)

  module _ (k : String) (t : ℕ) (store : Store) (w : World)
      (known : get k (load_claims store) ≡ some t) (young : leb (t + lease) w.now ≡ false) where
    abbrev Other : Pick → Type 0
    Other (picked i reclaimed) = str_eq k i.id ≡ false
    Other _ = Unit

    other_id :
        (claims : Claims) (i : Issue)
        → get k claims ≡ some t
        → elem i.id (map (λ (e : String × ℕ). e.0) claims) ≡ false
        → str_eq k i.id ≡ false
    other_id claims i g h = elim (Bool-cases (str_eq k i.id)) [
      | inl q ↦
          let there = elem-keys k t claims g in
          let same =
            ap (λ (x : String). elem x (map (λ (e : String × ℕ). e.0) claims))
              ((eq_iff k i.id).0 q) in
          absurd cc
      | inr q ↦ q
    ]

    chosen-Other :
        (claims : Claims) (reclaimed : List (String × ℕ)) (o : Option Issue)
        → get k claims ≡ some t
        → Free (map (λ (e : String × ℕ). e.0) claims) (or_none w.pipeline_prs) o
        → Other (claim_it as_int below w store (claims, reclaimed) o).0
    chosen-Other claims reclaimed none g h = tt
    chosen-Other claims reclaimed (some i) g h = other_id claims i g (not_elem _ _ i h)

    only-Other :
        (claims : Claims) (o : Option Issue)
        → get k claims ≡ some t
        → Free (map (λ (e : String × ℕ). e.0) claims) (or_none w.pipeline_prs) o
        → Other (only_pick as_int below o)
    only-Other claims none g h = tt
    only-Other claims (some i) g h = other_id claims i g (not_elem _ _ i h)

    choose-Free :
        (issues : List Issue) (claims : Claims)
        → Free
            (map (λ (e : String × ℕ). e.0) claims)
            (or_none w.pipeline_prs)
            (choose as_int below w issues claims)
    choose-Free issues claims =
        select_next-Free (map (λ (e : String × ℕ). e.0) claims) (or_none w.pipeline_prs) issues

    select-Other : (mark : Bool) → Other (select_and_claim_feature as_int below mark store w).0
    unfolding select_and_claim_feature
    select-Other mark = on mark w.issues
      where
        after :
            (issues : List Issue) (o : Option Released)
            → Keeps k t o
            → Other (after_reclaim as_int below w store issues o).0
        after issues none h = tt
        after issues (some (claims, reclaimed)) h =
            chosen-Other claims reclaimed (choose as_int below w issues claims) h
              (choose-Free issues claims)

        on :
            (mark : Bool) (o : Option (List Issue))
            → Other (with_issues as_int below mark store w o).0
        on mark none = tt
        on true (some issues) =
            after issues
              (reclaim_stale_claims as_int w.in_flight (load_claims store) w.now w.open_prs)
              (reclaim-Keeps as_int k t w.in_flight (load_claims store) w.now w.open_prs known
                young)
        on false (some issues) =
            only-Other (load_claims store) (choose as_int below w issues (load_claims store)) known
              (choose-Free issues (load_claims store))

  -- An issue that was picked and claimed is not picked again by the next run on the store that was
  -- saved, marking or not, if that run begins before the lease of 12 hours is over; whatever gh
  -- and the state files answer, and whether the store was there, absent or malformed.
  pub select_and_claim_feature_once :
      (store : Store) (w1 w2 : World) (mark : Bool) (i1 i2 : Issue) (r1 r2 : List (String × ℕ))
      → (select_and_claim_feature as_int below true store w1).0 ≡ picked i1 r1
      → (select_and_claim_feature as_int below mark
          (select_and_claim_feature as_int below true store w1).1
          w2).0
        ≡ picked i2 r2
      → w2.now < w1.now + lease
      → str_eq i1.id i2.id ≡ false
  select_and_claim_feature_once store w1 w2 mark i1 i2 r1 r2 first second young =
      let saved = (select_and_claim_feature as_int below true store w1).1 in
      let known = subst (λ (p : Pick). Claimed w1.now (p, saved)) first (select-Claimed store w1) in
      subst (λ (p : Pick). Other i1.id w1.now saved w2 known (not_expired w1.now w2.now young) p)
        second (select-Other i1.id w1.now saved w2 known (not_expired w1.now w2.now young) mark)
