-- ===== src/TmpHygiene/Reaped.antt =====
-- tmp_hygiene.py: what `reap_tmp` removes, and its counts.
use herdr_routines.Prelude.{
  ℕ, suc, ◌+◌, ◌≤◌, ◌≡◌, refl, Bool, true, false, not, ◌&&◌, Option, none, some, List, [], ◌∷◌,
  if◌then◌else◌, ltb, arith, Memᴰ, Bool-cases, inl, inr, ◌⊎◌, length, keep_if, All, subst, sym,
}
use herdr_routines.TmpHygiene.{
  Step, Entry, Freshness, ReapResult, name, listing_error, fresh, old, unknown, freshness,
  freshness_at, walk_freshness, reap_tmp, reap_entry, reap_by, max_walk_entries,
}

abbrev pub IsOldStep : ℕ → Step → Type 0
IsOldStep cutoff (name (some t)) = t ≤ cutoff
IsOldStep cutoff (name none) = ⊥
IsOldStep cutoff listing_error = ⊥

-- The entry is a direct child, no symlink, and nothing in it is newer than the cutoff.
abbrev pub IsLeaked : ℕ → Entry → Type 0
IsLeaked cutoff e =
    (e.is_child ≡ true)
    × (e.is_symlink ≡ false)
    × ((t : ℕ) × (e.mtime ≡ some t) × (t ≤ cutoff))
    × ((e.is_dir ≡ true) → All (IsOldStep cutoff) e.walk × (length e.walk ≤ max_walk_entries))

walk_old :
    (cutoff seen : ℕ) (steps : List Step)
    → walk_freshness cutoff seen steps ≡ old
    → seen ≤ max_walk_entries
    → All (IsOldStep cutoff) steps × (seen + length steps ≤ max_walk_entries)
unfolding walk_freshness
walk_old cutoff seen [] h l = (tt, omega arith)
walk_old cutoff seen (listing_error ∷ steps) h l = cc
walk_old cutoff seen (name none ∷ steps) h l = cc
walk_old cutoff seen (name (some t) ∷ steps) h l =
    elim (Bool-cases (ltb max_walk_entries (suc seen))) [
      | inl e ↦ cc (rw e at h)
      | inr e ↦ elim (Bool-cases (ltb cutoff t)) [
        | inl f ↦ cc (rw (e, f) at h)
        | inr f ↦
            let ih = walk_old cutoff (suc seen) steps (rw (e, f) at h) (ground arith) in
            ((ground arith, ih.0), omega (arith, ih.1))
      ]
    ]

leaked_at :
    (cutoff : ℕ) (o : Option ℕ) (e : Entry)
    → freshness_at cutoff o e ≡ old
    → ((t : ℕ) × (o ≡ some t) × (t ≤ cutoff))
      × ((e.is_dir ≡ true) → All (IsOldStep cutoff) e.walk × (length e.walk ≤ max_walk_entries))
leaked_at cutoff none e h = cc
leaked_at cutoff (some t) e h = elim (Bool-cases (ltb cutoff t)) [
  | inl f ↦ cc (rw f at h)
  | inr f ↦ (
    (t, refl, ground arith),
    λ d.
        let walked = walk_old cutoff 0 e.walk (rw (f, d) at h) (omega arith) in
        (walked.0, omega (arith, walked.1)),
  )
]

-- Either branch of a test leaves the same entries attempted.
either_branch :
    (b : Bool) (a : Entry) (x y : ReapResult)
    → x.attempted ≡ y.attempted
    → Memᴰ a (if b then x else y).attempted
    → Memᴰ a y.attempted
either_branch true a x y h m = subst (λ (l : List Entry). Memᴰ a l) h m
either_branch false a x y h m = m

attempted_by :
    (dry_run : Bool) (e a : Entry) (f : Freshness) (s : ReapResult)
    → Memᴰ a (reap_by f dry_run e s).attempted
    → ((a ≡ e) × (f ≡ old) × (dry_run ≡ false)) ⊎ Memᴰ a s.attempted
attempted_by dry_run e a unknown s m = inr m
attempted_by dry_run e a fresh s m = inr m
attempted_by true e a old s m = inr m
attempted_by false e a old s m = tried (
    either_branch e.removal_succeeds a
      (record s { removed = suc s.removed; attempted = e ∷ s.attempted })
      (record s { errors = suc s.errors; attempted = e ∷ s.attempted }) refl m)
  where
    tried :
        Memᴰ a (e ∷ s.attempted) → ((a ≡ e) × (old ≡ old) × (false ≡ false)) ⊎ Memᴰ a s.attempted
    tried (Memᴰ.head q) = inl (q, refl, refl)
    tried (Memᴰ.tail n) = inr n

attempted_if :
    (cutoff : ℕ) (dry_run : Bool) (e a : Entry) (s : ReapResult) (child symlink : Bool)
    → Memᴰ a
        (if not child
          then s
          else if symlink
          then s
          else reap_by (freshness_at cutoff e.mtime e) dry_run e s).attempted
    → ((child ≡ true)
        × (symlink ≡ false)
        × Memᴰ a (reap_by (freshness_at cutoff e.mtime e) dry_run e s).attempted)
      ⊎ Memᴰ a s.attempted
attempted_if cutoff dry_run e a s false symlink m = inr m
attempted_if cutoff dry_run e a s true true m = inr m
attempted_if cutoff dry_run e a s true false m = inl (refl, refl, m)

attempted_in :
    (cutoff : ℕ) (dry_run : Bool) (e a : Entry) (s : ReapResult)
    → Memᴰ a (reap_entry cutoff dry_run e s).attempted
    → ((a ≡ e) × IsLeaked cutoff e × (dry_run ≡ false)) ⊎ Memᴰ a s.attempted
unfolding freshness
attempted_in cutoff dry_run e a s m =
    elim (attempted_if cutoff dry_run e a s e.is_child e.is_symlink m) [
      | inr n ↦ inr n
      | inl (c, l, n) ↦ elim (attempted_by dry_run e a (freshness_at cutoff e.mtime e) s n) [
        | inl (same, aged, real) ↦
            let leaked = leaked_at cutoff e.mtime e aged in
            inl (same, (c, l, leaked.0, leaked.1), real)
        | inr k ↦ inr k
      ]
    ]

-- Only a reaping that is no dry run removes anything, and every entry that it tries to remove is a
-- direct child, is no symlink, has an mtime that is not after the cutoff and, if it is a directory,
-- was walked to its end within the bound with nothing newer than the cutoff in it.
pub reap_tmp_safe :
    (cutoff : ℕ) (dry_run : Bool) (entries : List Entry) (a : Entry)
    → Memᴰ a (reap_tmp cutoff dry_run entries).attempted
    → Memᴰ a entries × IsLeaked cutoff a × (dry_run ≡ false)
unfolding reap_tmp
reap_tmp_safe cutoff dry_run [] a m = elim m [ ]
reap_tmp_safe cutoff dry_run (e ∷ entries) a m =
    elim (attempted_in cutoff dry_run e a (reap_tmp cutoff dry_run entries) m) [
      | inl (same, leaked, real) ↦
          (Memᴰ.head same, subst (λ (x : Entry). IsLeaked cutoff x) (sym same) leaked, real)
      | inr n ↦ let ih = reap_tmp_safe cutoff dry_run entries a n in (Memᴰ.tail ih.0, ih.1, ih.2)
    ]

-- The entries that are judged: direct children that are no symlinks.
abbrev pub is_judged : Entry → Bool
is_judged e = e.is_child && not e.is_symlink

abbrev total : ReapResult → ℕ
total s = s.removed + s.skipped_fresh + s.errors

total_old :
    (succeeds : Bool) (e : Entry) (s : ReapResult)
    → total (
        if succeeds
        then record s { removed = suc s.removed; attempted = e ∷ s.attempted }
        else record s { errors = suc s.errors; attempted = e ∷ s.attempted })
      ≡ suc (total s)
total_old true e s = omega arith
total_old false e s = omega arith

total_by :
    (f : Freshness) (dry_run : Bool) (e : Entry) (s : ReapResult)
    → total (reap_by f dry_run e s) ≡ suc (total s)
total_by unknown dry_run e s = omega arith
total_by fresh dry_run e s = omega arith
total_by old true e s = omega arith
total_by old false e s = total_old e.removal_succeeds e s

total_if :
    (s t : ReapResult) (e : Entry) (es : List Entry) (child symlink : Bool)
    → total t ≡ suc (total s)
    → total s ≡ length es
    → total (if not child then s else if symlink then s else t)
      ≡ length (if child && not symlink then e ∷ es else es)
total_if s t e es false symlink h i = i
total_if s t e es true true h i = i
total_if s t e es true false h i = omega (arith, h, i)

-- Every direct child that is no symlink is counted once: as removed, as fresh or as an error.
pub reap_tmp_counts :
    (cutoff : ℕ) (dry_run : Bool) (entries : List Entry)
    → (reap_tmp cutoff dry_run entries).removed
        + (reap_tmp cutoff dry_run entries).skipped_fresh
        + (reap_tmp cutoff dry_run entries).errors
      ≡ length (keep_if is_judged entries)
unfolding reap_tmp
reap_tmp_counts cutoff dry_run [] = refl
reap_tmp_counts cutoff dry_run (e ∷ entries) =
    let rest = reap_tmp cutoff dry_run entries in
    total_if rest (reap_by (freshness cutoff e) dry_run e rest) e (keep_if is_judged entries)
      e.is_child e.is_symlink (total_by (freshness cutoff e) dry_run e rest)
      (reap_tmp_counts cutoff dry_run entries)
