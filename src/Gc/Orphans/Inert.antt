-- ===== src/Gc/Orphans/Inert.antt =====
-- What the sweep may take for debris.
use herdr_routines.Prelude.{
  String, ◌≡◌, refl, true, false, List, [], ◌∷◌, elem, Memᴰ, Bool-cases, inl, inr, ◌⊎◌, ap,
  Memᴰ-append,
}
use herdr_routines.Gc.Orphans.{
  Entry, Orphan, OrphanKind, orphan_at, orphan_of, find_orphans, is_collectible, dangling_symlink,
  empty_dir, nonempty_dir,
}

-- A symlink without a target, or an unregistered directory without content.
abbrev pub IsDebris : List String → Entry → Type 0
IsDebris registered e =
    ((e.is_symlink ≡ true) × (e.target_exists ≡ false))
    ⊎ ((e.is_symlink ≡ false)
        × (e.is_dir ≡ true)
        × (elem e.resolved registered ≡ false)
        × (e.has_content ≡ false))

abbrev pub IsDebrisOf : List String → List Entry → Orphan → Type 0
IsDebrisOf registered entries o =
    (e : Entry) × Memᴰ e entries × (o.path ≡ e.path) × IsDebris registered e

only {ℓ} : {A : Type ℓ} (a b : A) → Memᴰ a (b ∷ []) → a ≡ b
only a b (Memᴰ.head e) = e
only a b (Memᴰ.tail m) = elim m [ ]

kind_at :
    (e : Entry) (k : OrphanKind) (o : Orphan)
    → Memᴰ o (orphan_at e k)
    → (o.path ≡ e.path) × (o.kind ≡ k)
kind_at e k o m =
    let same = only o (record { path = e.path; kind = k }) m in
    (ap (λ (x : Orphan). x.path) same, ap (λ (x : Orphan). x.kind) same)

orphan_of_inert :
    (registered : List String) (e : Entry) (o : Orphan)
    → Memᴰ o (orphan_of registered e)
    → is_collectible o ≡ true
    → (o.path ≡ e.path) × IsDebris registered e
orphan_of_inert registered e o m c = elim (Bool-cases e.is_symlink) [
  | inl s ↦ elim (Bool-cases e.target_exists) [
    | inl t ↦ elim (rw (s, t) at m) [ ]
    | inr t ↦ ((kind_at e dangling_symlink o (rw (s, t) at m)).0, inl (s, t))
  ]
  | inr s ↦ elim (Bool-cases e.is_dir) [
    | inr d ↦ elim (rw (s, d) at m) [ ]
    | inl d ↦ elim (Bool-cases (elem e.resolved registered)) [
      | inl r ↦ elim (rw (s, d, r) at m) [ ]
      | inr r ↦ elim (Bool-cases e.has_content) [
        | inl h ↦ cc (rw (kind_at e nonempty_dir o (rw (s, d, r, h) at m)).1 at c)
        | inr h ↦ ((kind_at e empty_dir o (rw (s, d, r, h) at m)).0, inr (s, d, r, h))
      ]
    ]
  ]
]

-- An entry that the sweep may remove is a symlink whose target is gone, or a directory that is empty
-- and not a registered worktree.
pub find_orphans_inert :
    (registered : List String) (entries : List Entry) (o : Orphan)
    → Memᴰ o (find_orphans entries registered)
    → is_collectible o ≡ true
    → IsDebrisOf registered entries o
unfolding find_orphans
find_orphans_inert registered [] o m c = elim m [ ]
find_orphans_inert registered (e ∷ entries) o m c =
    elim (Memᴰ-append o (orphan_of registered e) m) [
      | inl n ↦
          let (same, debris) = orphan_of_inert registered e o n c in
          (e, Memᴰ.head refl, same, debris)
      | inr n ↦
          let (f, n', same, debris) = find_orphans_inert registered entries o n c in
          (f, Memᴰ.tail n', same, debris)
    ]
