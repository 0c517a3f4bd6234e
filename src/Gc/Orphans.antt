-- ===== src/Gc/Orphans.antt =====
-- gc.py: `find_orphans`, the entries of the worktrees' directory that git does not know. An entry
-- is what the file system says of it; `resolved` is its `resolve()`.
pub mod Inert
use herdr_routines.Prelude.{
  String, Bool, true, false, List, [], ◌∷◌, ◌++◌, if◌then◌else◌, elem, not,
}

pub record Entry : Type 0 where
  pub path : String
  pub resolved : String
  pub is_symlink : Bool
  pub target_exists : Bool
  pub is_dir : Bool
  pub has_content : Bool

pub data OrphanKind : Type 0 where
  dangling_symlink : OrphanKind
  empty_dir : OrphanKind
  nonempty_dir : OrphanKind

pub record Orphan : Type 0 where
  pub path : String
  pub kind : OrphanKind

abbrev is_inert : OrphanKind → Bool
is_inert dangling_symlink = true
is_inert empty_dir = true
is_inert nonempty_dir = false

abbrev pub is_collectible : Orphan → Bool
is_collectible orphan = is_inert orphan.kind

abbrev orphan_at : Entry → OrphanKind → List Orphan
orphan_at e kind = record { path = e.path; kind = kind } ∷ []

abbrev pub orphan_of : List String → Entry → List Orphan
orphan_of registered e =
    if e.is_symlink
    then if e.target_exists then [] else orphan_at e dangling_symlink
    else if not e.is_dir
    then []
    else if elem e.resolved registered
    then []
    else if e.has_content
    then orphan_at e nonempty_dir
    else orphan_at e empty_dir

-- `entries` are those of the glob, sorted, and none when the directory does not exist.
unfoldable pub find_orphans : List Entry → List String → List Orphan
find_orphans [] registered = []
find_orphans (e ∷ entries) registered = orphan_of registered e ++ find_orphans entries registered
