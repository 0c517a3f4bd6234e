-- ===== src/Schedule/Occurrences.antt =====
-- What `occurrences_since` enumerates.
use herdr_routines.Prelude.{
  ℕ, zero, suc, ◌-◌, ◌≤◌, ◌<◌, ◌==◌, ◌≡◌, refl, sym, ap, ◌∙◌, ◌||◌, ltb→lt, true, false, Option,
  some, List, [], ◌∷◌, ◌++◌, arith, ltb, any_of, Bool-cases, inl, inr,
}
use mathlib.Core.List.{append-nil, append_assoc}
use herdr_routines.Schedule.{is_seen, enumerate, occurrences_since}

-- The iterator's position after so many steps.
pub iterate : (ℕ → ℕ) → ℕ → ℕ → ℕ
iterate next zero t = t
iterate next (suc k) t = iterate next k (next t)

-- The instants stand after `low` in rising order, none after `high`.
abbrev pub Rising : ℕ → ℕ → List ℕ → Type 0
Rising low high [] = Unit
Rising low high (o ∷ os) = (low < o) × (o ≤ high) × Rising o high os

-- No wall-clock time stands twice, or in `seen`.
abbrev pub FreshWalls : (ℕ → ℕ) → List ℕ → List ℕ → Type 0
FreshWalls wall seen [] = Unit
FreshWalls wall seen (o ∷ os) = (is_seen (wall o) seen ≡ false) × FreshWalls wall (wall o ∷ seen) os

-- Each instant comes out of the iterator.
abbrev pub Iterates : (ℕ → ℕ) → ℕ → List ℕ → Type 0
Iterates next low [] = Unit
Iterates next low (o ∷ os) = ((k : ℕ) × (o ≡ iterate next (suc k) low)) × Iterates next low os

-- The wall-clock time of every instant of the iterator up to `now` is in `seen`, or an instant
-- of the list has it.
abbrev pub Covers : (ℕ → ℕ) → (ℕ → ℕ) → ℕ → ℕ → List ℕ → List ℕ → Type 0
Covers next wall now cur seen os =
    (k : ℕ)
    → iterate next (suc k) cur ≤ now
    → (is_seen (wall (iterate next (suc k) cur)) seen
        || any_of (λ o. wall o == wall (iterate next (suc k) cur)) os)
      ≡ true

Rising-lower :
    (low low' high : ℕ) (os : List ℕ) → low ≤ low' → Rising low' high os → Rising low high os
Rising-lower low low' high [] h r = tt
Rising-lower low low' high (o ∷ os) h r = (omega arith, r.1, r.2)

Iterates-step :
    (next : ℕ → ℕ) (low : ℕ) (os : List ℕ) → Iterates next (next low) os → Iterates next low os
unfolding iterate
Iterates-step next low [] h = tt
Iterates-step next low (o ∷ os) h = ((suc h.0.0, h.0.1), Iterates-step next low os h.1)

module _ (next wall : ℕ → ℕ) (next_grows : (t : ℕ) → t < next t) where
  iterate_grows : (k t : ℕ) → t ≤ iterate next k t
  unfolding iterate
  iterate_grows zero t = omega arith
  iterate_grows (suc k) t = omega (arith, iterate_grows k (next t), next_grows t)

  Covers-end : (now cur : ℕ) (seen : List ℕ) → now < next cur → Covers next wall now cur seen []
  unfolding iterate
  Covers-end now cur seen h k le = absurd (omega (arith, iterate_grows k (next cur)))

  Covers-again :
      (now cur : ℕ) (seen os : List ℕ)
      → is_seen (wall (next cur)) seen ≡ true
      → Covers next wall now (next cur) seen os
      → Covers next wall now cur seen os
  unfolding iterate
  Covers-again now cur seen os h c zero le = rw h refl
  Covers-again now cur seen os h c (suc k) le = c k le

  Covers-kept :
      (now cur : ℕ) (seen os : List ℕ)
      → Covers next wall now (next cur) (wall (next cur) ∷ seen) os
      → Covers next wall now cur seen (next cur ∷ os)
  unfolding iterate
  Covers-kept now cur seen os c zero le = ground arith
  Covers-kept now cur seen os c (suc k) le = ground (arith, c k le)

  -- The loop without its accumulator: what it adds to `found`.
  abbrev Adds : ℕ → ℕ → List ℕ → List ℕ → Option (List ℕ) → Type 0
  Adds now cur seen found result =
      (os : List ℕ) × (result ≡ some (found ++ os))
      × Rising cur now os
      × FreshWalls wall seen os
      × Iterates next cur os
      × Covers next wall now cur seen os

  enumerate-Adds :
      (fuel now cur : ℕ) (seen found : List ℕ)
      → now - cur < fuel
      → Adds now cur seen found (enumerate next wall fuel now cur seen found)
  unfolding enumerate
  enumerate-Adds zero now cur seen found h = elim h [ ]
  enumerate-Adds (suc fuel) now cur seen found h = elim (Bool-cases (ltb now (next cur))) [
    | inl past ↦ rw past (
      [],
      ap some (sym (append-nil found)),
      tt,
      tt,
      tt,
      Covers-end now cur seen (ltb→lt _ _ past),
    )
    | inr due ↦ elim (Bool-cases (is_seen (wall (next cur)) seen)) [
      | inl old ↦
          let (os, e, r, f, it, c) =
            enumerate-Adds fuel now (next cur) seen found (ground (arith, next_grows cur)) in
          rw (due, old)
            (
              os,
              e,
              Rising-lower cur (next cur) now os (omega (arith, next_grows cur)) r,
              f,
              Iterates-step next cur os it,
              Covers-again now cur seen os old c,
            )
      | inr new ↦
          let (os, e, r, f, it, c) =
            enumerate-Adds fuel now (next cur) (wall (next cur) ∷ seen) (found ++ next cur ∷ [])
              (ground (arith, next_grows cur)) in
          rw (due, new)
            (
              next cur ∷ os,
              e ∙ ap some (append_assoc found (next cur ∷ []) os),
              (next_grows cur, ground arith, r),
              (new, f),
              ((zero, unfold iterate in refl), Iterates-step next cur os it),
              Covers-kept now cur seen os c,
            )
    ]
  ]

  -- For a cron iterator that always moves forward the enumeration ends, and what it returns are
  -- instants of the iterator after `since` and not after `now`, in rising order, no two of them
  -- with one wall-clock time, and every instant of the iterator in that interval has its
  -- wall-clock time among theirs.
  pub occurrences_since_complete :
      (since now : ℕ)
      → (os : List ℕ) × (occurrences_since next wall since now ≡ some os)
        × Rising since now os
        × FreshWalls wall [] os
        × Iterates next since os
        × Covers next wall now since [] os
  unfolding occurrences_since
  occurrences_since_complete since now =
      enumerate-Adds (suc (now - since)) now since [] [] (omega arith)
