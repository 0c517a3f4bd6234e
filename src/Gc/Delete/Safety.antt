-- ===== src/Gc/Delete/Safety.antt =====
-- What `gc --delete` may remove.
use herdr_routines.Prelude.{
  String, ◌≡◌, refl, Bool, true, false, not, Option, none, some, List, [], ◌∷◌, ◌++◌, eq_iff, map,
  keep_if, arith, Memᴰ, Memᴰ-append, Memᴰ-keep_if, Bool-cases, inl, inr, ◌⊎◌, sym, subst,
}
use herdr_routines.Prelude.Dict.{get}
use herdr_routines.Prelude.Texts.{strip}
use herdr_routines.Json.{ℤ}
use herdr_routines.Gc.{Row, collectible}
use herdr_routines.Gc.Orphans.{
  Entry, Orphan, OrphanKind, dangling_symlink, empty_dir, nonempty_dir, is_collectible,
  find_orphans,
}
use herdr_routines.Gc.Delete.{
  World, Effect, worktree_remove, branch_delete, worktree_dirty, unclean, delete_row, delete_rows,
  run_gc_delete, removal_step, gc_delete_on, candidates, to_delete, sweep_orphans, sweep_of,
  removal_of,
}

only {ℓ} : {A : Type ℓ} {a b : A} → Memᴰ a (b ∷ []) → a ≡ b
only (Memᴰ.head e) = e
only (Memᴰ.tail m) = elim m [ ]

cons_cases {ℓ} : {A : Type ℓ} {a b : A} {xs : List A} → Memᴰ a (b ∷ xs) → (a ≡ b) ⊎ Memᴰ a xs
cons_cases (Memᴰ.head e) = inl e
cons_cases (Memᴰ.tail m) = inr m

second {ℓ} : {A : Type ℓ} {a b c : A} → ¬ (a ≡ b) → Memᴰ a (b ∷ c ∷ []) → a ≡ c
second n (Memᴰ.head e) = absurd (n e)
second n (Memᴰ.tail m) = only m

same_branch : (a b : String) → branch_delete a ≡ branch_delete b → a ≡ b
same_branch a b e = cc e

-- The second command stands directly behind the first.
pub data Adjacent (e f : Effect) : List Effect → Type 0 where
  here : {es : List Effect} → Adjacent e f (e ∷ f ∷ es)
  there : {g : Effect} {es : List Effect} → Adjacent e f es → Adjacent e f (g ∷ es)

Adjacent-left : {e f : Effect} (es fs : List Effect) → Adjacent e f es → Adjacent e f (es ++ fs)
Adjacent-left _ fs Adjacent.here = Adjacent.here
Adjacent-left (g ∷ es) fs (Adjacent.there a) = Adjacent.there (Adjacent-left es fs a)

Adjacent-right : {e f : Effect} (es fs : List Effect) → Adjacent e f fs → Adjacent e f (es ++ fs)
Adjacent-right [] fs a = a
Adjacent-right (g ∷ es) fs a = Adjacent.there (Adjacent-right es fs a)

module _ (w : World) where
  -- Nothing would be lost: the directory is gone, or git status prints nothing but whitespace.
  abbrev pub IsClean : String → Type 0
  IsClean path =
      (w.exists path ≡ false) ⊎ ((out : String) × ((w.status path ≡ some out) × (strip out ≡ "")))

  -- The branch has no worktree, or a clean one, whose removal was ordered, and with success, directly
  -- before that of the branch.
  abbrev pub IsCleared : String → List Effect → Type 0
  IsCleared b es =
      (get b w.worktrees ≡ none)
      ⊎ ((path : String) × ((get b w.worktrees ≡ some path)
            × IsClean path
            × (w.succeeds (worktree_remove path) ≡ true)
            × Adjacent (worktree_remove path) (branch_delete b) es))

  IsCleared-left : (b : String) (es fs : List Effect) → IsCleared b es → IsCleared b (es ++ fs)
  IsCleared-left b es fs (inl g) = inl g
  IsCleared-left b es fs (inr (path, (g, c, e, a))) = inr (path, (g, c, e, Adjacent-left es fs a))

  IsCleared-right : (b : String) (es fs : List Effect) → IsCleared b fs → IsCleared b (es ++ fs)
  IsCleared-right b es fs (inl g) = inl g
  IsCleared-right b es fs (inr (path, (g, c, e, a))) = inr (path, (g, c, e, Adjacent-right es fs a))

  worktree_dirty-IsClean : (path : String) → worktree_dirty w (some path) ≡ false → IsClean path
  unfolding worktree_dirty
  worktree_dirty-IsClean path h = elim (Bool-cases (w.exists path)) [
    | inr gone ↦ inl gone
    | inl present ↦ inr (by_status (w.status path) refl (rw present at h))
  ]
    where
      by_status :
          (o : Option String)
          → w.status path ≡ o
          → unclean w o ≡ false
          → (out : String) × ((w.status path ≡ some out) × (strip out ≡ ""))
      by_status none e q = absurd cc
      by_status (some out) e q = (out, (e, (eq_iff (strip out) "").0 (ground (arith, q))))

  removal_clears :
      (row : Row) (o : Option String) (b : String)
      → get row.branch w.worktrees ≡ o
      → worktree_dirty w o ≡ false
      → Memᴰ (branch_delete b) (removal_step w row o).0
      → (b ≡ row.branch) × IsCleared row.branch (removal_step w row o).0
  removal_clears row none b g d m = (same_branch b row.branch (only m), inl g)
  removal_clears row (some path) b g d m = elim (Bool-cases (w.succeeds (worktree_remove path))) [
    | inl e ↦ (
      same_branch b row.branch (second (λ q. cc q) (rw e at m)),
      rw e (inr (path, (g, worktree_dirty-IsClean path d, e, Adjacent.here))),
    )
    | inr e ↦ cc (only (rw e at m))
  ]

  step_clears :
      (row : Row) (b : String)
      → Memᴰ (branch_delete b) (delete_row w row).0
      → (b ≡ row.branch) × IsCleared row.branch (delete_row w row).0
  unfolding delete_row
  step_clears row b m = elim (Bool-cases (worktree_dirty w (get row.branch w.worktrees))) [
    | inl d ↦ elim (rw d at m) [ ]
    | inr d ↦ rw d (removal_clears row (get row.branch w.worktrees) b refl d (rw d at m))
  ]

  rows_clear :
      (rows : List Row) (b : String)
      → Memᴰ (branch_delete b) (delete_rows w rows).0
      → (row : Row) × Memᴰ row rows × (b ≡ row.branch) × IsCleared b (delete_rows w rows).0
  unfolding delete_rows
  rows_clear [] b m = elim m [ ]
  rows_clear (row ∷ rows) b m = elim (Memᴰ-append (branch_delete b) (delete_row w row).0 m) [
    | inl n ↦
        let found = step_clears row b n in
        (
          row,
          Memᴰ.head refl,
          found.0,
          IsCleared-left b (delete_row w row).0 (delete_rows w rows).0
              (subst (λ (x : String). IsCleared x (delete_row w row).0) (sym found.0) found.1),
        )
    | inr n ↦
        let (r, n', same, clear) = rows_clear rows b n in
        (r, Memᴰ.tail n', same, IsCleared-right b (delete_row w row).0 (delete_rows w rows).0 clear)
  ]

  not_branch : (o : Orphan) (k : OrphanKind) (b : String) → ¬ (branch_delete b ≡ removal_of w o k)
  not_branch o dangling_symlink b = λ e. cc e
  not_branch o empty_dir b = λ e. cc e
  not_branch o nonempty_dir b = λ e. cc e

  commands_spare :
      (os : List Orphan) (b : String)
      → ¬ Memᴰ (branch_delete b) (map (λ (o : Orphan). removal_of w o o.kind) os)
  commands_spare [] b = λ m. elim m [ ]
  commands_spare (o ∷ os) b =
      λ m. elim (cons_cases m) [ inl q ↦ not_branch o o.kind b q | inr n ↦ commands_spare os b n ]

  sweep_spares :
      (before : List Effect) (registered : List String) (b : String)
      → ¬ Memᴰ (branch_delete b) (sweep_orphans w before registered)
  unfolding sweep_orphans
  sweep_spares before registered b = go (w.entries before)
    where
      go : (o : Option (List Entry)) → ¬ Memᴰ (branch_delete b) (sweep_of w o registered)
      go none = λ m. elim m [ ]
      go (some entries) =
          commands_spare (keep_if is_collectible (find_orphans entries (map w.resolve registered)))
            b

  -- The branch is one of the rows that may go.
  abbrev pub MayGo : List Row → Bool → ℤ → String → Type 0
  MayGo rows force older_than_days b =
      (row : Row) × Memᴰ row rows
      × (b ≡ row.branch)
      × (w.retained row ≡ false)
      × (collectible row older_than_days ≡ true)
      × ((force ≡ true) ⊎ (row.merged_into_base ≡ true))

  forced :
      (rows : List Row) (force : Bool) (row : Row)
      → Memᴰ row (to_delete w rows force)
      → Memᴰ row rows × ((force ≡ true) ⊎ (row.merged_into_base ≡ true))
  forced rows true row m = (m, inl refl)
  forced rows false row m =
      let kept = Memᴰ-keep_if (λ (r : Row). r.merged_into_base) row rows m in (kept.0, inr kept.1)

  candidate :
      (rows : List Row) (older_than_days : ℤ) (row : Row)
      → Memᴰ row (candidates w rows older_than_days)
      → Memᴰ row rows × (w.retained row ≡ false) × (collectible row older_than_days ≡ true)
  candidate rows older_than_days row m =
      let free = λ (r : Row). not (w.retained r) in
      let old =
        Memᴰ-keep_if (λ (r : Row). collectible r older_than_days) row (keep_if free rows) m in
      let kept = Memᴰ-keep_if free row rows old.0 in (kept.0, ground (arith, kept.1), old.1)

  deletion_safe :
      (rows : List Row) (force assume_yes : Bool) (b : String)
      → Memᴰ (branch_delete b) (gc_delete_on w rows force assume_yes).1
      → (assume_yes ≡ true)
        × (row : Row) × Memᴰ row (to_delete w rows force)
        × (b ≡ row.branch)
        × IsCleared b (gc_delete_on w rows force assume_yes).1
  deletion_safe [] force sure b m = absurd (sweep_spares [] w.all_worktree_paths b m)
  deletion_safe (row ∷ rows) force false b m = elim m [ ]
  deletion_safe (row ∷ rows) force true b m =
      elim (Memᴰ-append (branch_delete b) (delete_rows w (to_delete w (row ∷ rows) force)).0 m) [
        | inl n ↦
            let (r, m_r, same, clear) = rows_clear (to_delete w (row ∷ rows) force) b n in
            (
              refl,
              r,
              m_r,
              same,
              IsCleared-left b (delete_rows w (to_delete w (row ∷ rows) force)).0 _ clear,
            )
        | inr n ↦ absurd (sweep_spares _ _ b n)
      ]

  -- A branch is deleted only with `--yes`, and only one that is listed, is not retained, is
  -- collectible at its age, and is merged or is deleted with `--force`. It has no worktree, or one
  -- whose directory is gone or whose git status prints nothing; then `git worktree remove` of it is
  -- the command directly before, and has succeeded.
  pub run_gc_delete_safe :
      (is_repo : Bool) (rows : List Row) (force assume_yes : Bool) (older_than_days : ℤ)
      (b : String)
      → Memᴰ
          (branch_delete b)
          (run_gc_delete w is_repo (some rows) force assume_yes older_than_days).1
      → (assume_yes ≡ true)
        × MayGo rows force older_than_days b
        × IsCleared b (run_gc_delete w is_repo (some rows) force assume_yes older_than_days).1
  unfolding run_gc_delete
  run_gc_delete_safe false rows force sure older b m = elim m [ ]
  run_gc_delete_safe true rows force sure older b m =
      let (said, row, listed, same, clear) =
        deletion_safe (candidates w rows older) force sure b m in
      let (able, why) = forced (candidates w rows older) force row listed in
      let (present, free, old) = candidate rows older row able in
      (said, (row, present, same, free, old, why), clear)
