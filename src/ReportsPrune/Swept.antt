-- ===== src/ReportsPrune/Swept.antt =====
-- reports_prune.py: what a pruning removes, with a dry run and without.
use herdr_routines.Prelude.{
  ℕ, ◌≤◌, ◌≡◌, refl, String, Bool, true, false, Option, none, some, List, [], ◌∷◌, ltb, elem, arith,
  Memᴰ, Bool-cases, inl, inr, ◌⊎◌,
}
use herdr_routines.ReportsPrune.{
  Entry, Fate, PruneResult, ignored, guarded, kept, gone, error, aged, judged, fate_of, file_under,
  sweep,
}

-- The entry may be removed: it is a file, no symlink, not protected and not newer than the cutoff.
abbrev pub IsPrunable : ℕ → List String → Entry → Type 0
IsPrunable cutoff protected e =
    (e.is_symlink ≡ some false)
    × (e.is_file ≡ some true)
    × (elem e.path protected ≡ false)
    × ((t : ℕ) × (e.mtime ≡ some t) × (t ≤ cutoff))

aged-gone :
    (dry_run : Bool) (cutoff : ℕ) (e : Entry) (o : Option ℕ)
    → aged dry_run cutoff e o ≡ gone
    → (t : ℕ) × (o ≡ some t) × (t ≤ cutoff)
aged-gone dry_run cutoff e none h = cc
aged-gone dry_run cutoff e (some t) h = elim (Bool-cases (ltb cutoff t)) [
  | inl f ↦ cc (rw f at h)
  | inr f ↦ (t, refl, ground arith)
]

judged-gone :
    (dry_run : Bool) (cutoff : ℕ) (protected : List String) (e : Entry) (symlink file : Option Bool)
    → judged dry_run cutoff protected e symlink file ≡ gone
    → (symlink ≡ some false)
      × (file ≡ some true)
      × (elem e.path protected ≡ false)
      × ((t : ℕ) × (e.mtime ≡ some t) × (t ≤ cutoff))
judged-gone dry_run cutoff protected e none file h = cc
judged-gone dry_run cutoff protected e (some true) file h = cc
judged-gone dry_run cutoff protected e (some false) none h = cc
judged-gone dry_run cutoff protected e (some false) (some false) h = cc
judged-gone dry_run cutoff protected e (some false) (some true) h =
    elim (Bool-cases (elem e.path protected)) [
      | inl f ↦ cc (rw f at h)
      | inr f ↦ (refl, refl, f, aged-gone dry_run cutoff e e.mtime (rw f at h))
    ]

removed_under :
    (f : Fate) (p q : String) (s : PruneResult)
    → Memᴰ q (file_under f p s).removed
    → ((f ≡ gone) × (q ≡ p)) ⊎ Memᴰ q s.removed
removed_under ignored p q s m = inr m
removed_under guarded p q s m = inr m
removed_under kept p q s m = inr m
removed_under error p q s m = inr m
removed_under gone p q s (Memᴰ.head e) = inl (refl, e)
removed_under gone p q s (Memᴰ.tail m) = inr m

-- Every path that a sweep reports as removed is that of a file, no symlink, that is not protected
-- and whose mtime is not after the cutoff.
pub sweep_safe :
    (dry_run : Bool) (cutoff : ℕ) (protected : List String) (entries : List Entry) (p : String)
    → Memᴰ p (sweep dry_run cutoff protected entries).removed
    → (e : Entry) × Memᴰ e entries × (p ≡ e.path) × IsPrunable cutoff protected e
unfolding sweep fate_of
sweep_safe dry_run cutoff protected [] p m = elim m [ ]
sweep_safe dry_run cutoff protected (e ∷ entries) p m =
    elim (removed_under (fate_of dry_run cutoff protected e) e.path p
      (sweep dry_run cutoff protected entries) m) [
        | inl (f, same) ↦
            let ok = judged-gone dry_run cutoff protected e e.is_symlink e.is_file f in
            (e, Memᴰ.head refl, same, ok)
        | inr n ↦
            let (g, n', same, ok) = sweep_safe dry_run cutoff protected entries p n in
            (g, Memᴰ.tail n', same, ok)
      ]
