-- ===== src/PickFeature/Leases.antt =====
-- pick_feature.py and claims.py: a claim within its lease, under the reclaim and in the store.
use herdr_routines.Prelude.{
  ℕ, ◌+◌, leb, String, str_eq, eq_iff, ◌≡◌, refl, sym, ap, ◌∙◌, Bool, true, false, not, ◌&&◌, ◌||◌,
  Option, none, some, List, [], ◌∷◌, if_both, keep_if, all_of, all_of-Memᴰ, elem, map, Bool-cases,
  inl, inr, arith,
}
use herdr_routines.Prelude.Dict.{get, get-Memᴰ}
use herdr_routines.PickFeature.{
  Claims, Store, absent, corrupt, holds, load_claims, is_in_set, lease,
}
use herdr_routines.PickFeature.Claiming.{
  is_stale, delete, Released, noting, decided, has_expired, release, reclaim_stale_claims, is_time,
  same_claims, unchanged, save_changed,
}

get-delete :
    (k j : String) (claims : Claims) → str_eq j k ≡ false → get k (delete j claims) ≡ get k claims
unfolding get
get-delete k j [] h = refl
get-delete k j ((i, t) ∷ claims) h =
    ground (arith, eq_iff i j, eq_iff i k, eq_iff j k, get-delete k j claims h)

pub elem-keys :
    (k : String) (t : ℕ) (claims : Claims)
    → get k claims ≡ some t
    → elem k (map (λ (e : String × ℕ). e.0) claims) ≡ true
unfolding get
elem-keys k t [] h = absurd cc
elem-keys k t ((i, u) ∷ claims) h = elim (Bool-cases (str_eq i k)) [
  | inl e ↦ rw e refl
  | inr e ↦ rw (e, elem-keys k t claims (rw e at h)) refl
]

unchanged_lem : (store : Store) → load_claims (unchanged store) ≡ load_claims store
unfolding load_claims
unchanged_lem absent = refl
unchanged_lem corrupt = refl
unchanged_lem (holds claims) = refl

or_left : (a b : Bool) → (a || b) ≡ false → a ≡ false
or_left true b h = h
or_left false b h = refl

or_right : (a b : Bool) → (a || b) ≡ false → b ≡ false
or_right true b h = absurd cc
or_right false b h = h

and_right : (a b : Bool) → (a && b) ≡ true → b ≡ true
and_right true b h = h
and_right false b h = absurd cc

was_false : (a : Bool) → not a ≡ true → a ≡ false
was_false true h = absurd cc
was_false false h = refl

and_left : (a b : Bool) → (a && b) ≡ true → a ≡ true
and_left true b h = refl
and_left false b h = h

is_time_lem : (t : ℕ) (o : Option ℕ) → is_time t o ≡ true → o ≡ some t
is_time_lem t none h = absurd cc
is_time_lem t (some u) h = ground arith

-- What was claimed is in the store that is saved.
pub get-save_changed :
    (store : Store) (claims : Claims) (k : String) (t : ℕ)
    → get k claims ≡ some t
    → get k (load_claims (save_changed store claims)) ≡ some t
unfolding save_changed load_claims
get-save_changed store claims k t h = elim (Bool-cases (same_claims claims (load_claims store))) [
  | inl e ↦
      let all_same = and_left (all_of _ claims) _ e in
      rw e (
        ap (get k) (unchanged_lem store)
        ∙ is_time_lem t (get k (load_claims store)) (
            all_of-Memᴰ (λ (e : String × ℕ). is_time e.1 (get e.0 (load_claims store))) (k, t)
              claims all_same (get-Memᴰ k t claims h)))
  | inr e ↦ rw e h
]

abbrev pub Keeps : String → ℕ → Option Released → Type 0
Keeps k t none = Unit
Keeps k t (some r) = get k r.0 ≡ some t

module _ (as_int : String → Option ℕ) (k : String) (t : ℕ) where
  noting-Keeps :
      (open_prs : List ℕ) (in_flight : List String) (e : String × ℕ) (o : Option Released)
      → Keeps k t o
      → Keeps k t (noting as_int open_prs in_flight e o)
  noting-Keeps open_prs in_flight e none h = tt
  noting-Keeps open_prs in_flight e (some (claims, reclaimed)) h = h

  decided-Keeps :
      (open_prs : List ℕ) (in_flight : List String) (id : String) (n : Option ℕ)
      (kept released : Option Released)
      → Keeps k t kept
      → Keeps k t released
      → Keeps k t (decided as_int open_prs in_flight id n kept released)
  decided-Keeps open_prs in_flight id none kept released h j = tt
  decided-Keeps open_prs in_flight id (some n) kept released h j =
      if_both (Keeps k t) (is_in_set n open_prs || elem id in_flight) (λ _. h) (λ _. j)

  -- A claim that is no stale entry is kept.
  release-Keeps :
      (open_prs : List ℕ) (in_flight : List String) (stale : List (String × ℕ)) (claims : Claims)
      → elem k (map (λ (e : String × ℕ). e.0) stale) ≡ false
      → get k claims ≡ some t
      → Keeps k t (release as_int open_prs in_flight stale claims)
  release-Keeps open_prs in_flight [] claims h g = g
  release-Keeps open_prs in_flight ((id, u) ∷ stale) claims h g =
      let other = or_left (str_eq id k) _ h in
      let later = or_right (str_eq id k) _ h in
      decided-Keeps open_prs in_flight id (as_int id) _ _
        (release-Keeps open_prs in_flight stale claims later g)
        (noting-Keeps open_prs in_flight (id, u)
          (release as_int open_prs in_flight stale (delete id claims))
          (release-Keeps open_prs in_flight stale (delete id claims) later
            (get-delete k id claims other ∙ g)))

  differs :
      (i : String) (claims : Claims) (now : ℕ)
      → get k claims ≡ some t
      → leb (t + lease) now ≡ false
      → has_expired now (get i claims) ≡ true
      → str_eq i k ≡ false
  differs i claims now g h e = elim (Bool-cases (str_eq i k)) [
    | inl q ↦
        let stale =
          sym e
          ∙ ap (λ (x : String). has_expired now (get x claims)) ((eq_iff i k).0 q)
          ∙ ap (has_expired now) g
          ∙ h in
        absurd cc
    | inr q ↦ q
  ]

  fresh_not_stale :
      (claims : Claims) (now : ℕ)
      → get k claims ≡ some t
      → leb (t + lease) now ≡ false
      → (es : List (String × ℕ))
      → elem k (map (λ (e : String × ℕ). e.0) (keep_if (is_stale claims now) es)) ≡ false
  fresh_not_stale claims now g h [] = refl
  fresh_not_stale claims now g h ((i, u) ∷ es) = elim (Bool-cases (is_stale claims now (i, u))) [
    | inl e ↦ rw (e, fresh_not_stale claims now g h es) (rw (differs i claims now g h e) refl)
    | inr e ↦ rw e (fresh_not_stale claims now g h es)
  ]

  pub reclaim-Keeps :
      (in_flight : List String) (claims : Claims) (now : ℕ) (open_prs : Option (List ℕ))
      → get k claims ≡ some t
      → leb (t + lease) now ≡ false
      → Keeps k t (reclaim_stale_claims as_int in_flight claims now open_prs)
  unfolding reclaim_stale_claims
  reclaim-Keeps in_flight claims now none g h = g
  reclaim-Keeps in_flight claims now (some open_prs) g h =
      release-Keeps open_prs in_flight (keep_if (is_stale claims now) claims) claims
        (fresh_not_stale claims now g h claims) g
