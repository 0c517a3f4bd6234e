-- ===== src/Prelude/Sort.antt =====
-- Python's `sorted` by a Boolean order, as an insertion sort. It is stable, as `sorted` is: an
-- element is put before the first one that it does not stand behind.
use herdr_routines.Prelude.Tests.{if◌then◌else◌, Bool-cases}
use mathlib.Core.Logic.{inl, inr}
use mathlib.Core.Bool.{Bool}
use mathlib.Core.List.{List, [], ◌∷◌, Memᴰ, Perm}
use mathlib.Core.List.Perm

module _ {ℓ} {A : Type ℓ} (le : A → A → Bool) where
  unfoldable pub insert : A → List A → List A
  insert a [] = a ∷ []
  insert a (x ∷ xs) = let rest = insert a xs in if le a x then a ∷ x ∷ xs else x ∷ rest

  unfoldable pub sorted : List A → List A
  unfolding insert
  sorted [] = []
  sorted (x ∷ xs) = insert x (sorted xs)

  insert-perm : (a : A) (xs : List A) → Perm (insert a xs) (a ∷ xs)
  unfolding insert
  insert-perm a [] = Perm.rfl
  insert-perm a (x ∷ xs) = elim (Bool-cases (le a x)) [
    | inl e ↦ rw e Perm.rfl
    | inr e ↦ rw e (Perm.trans (Perm.cons x (insert-perm a xs)) (Perm.swap a x xs))
  ]

  pub sorted-perm : (xs : List A) → Perm (sorted xs) xs
  unfolding sorted
  sorted-perm [] = Perm.rfl
  sorted-perm (x ∷ xs) = Perm.trans (insert-perm x (sorted xs)) (Perm.cons x (sorted-perm xs))

  insert-Memᴰ : (a b : A) (xs : List A) → Memᴰ b (a ∷ xs) → Memᴰ b (insert a xs)
  unfolding insert
  insert-Memᴰ a b [] m = m
  insert-Memᴰ a b (x ∷ xs) m = elim (Bool-cases (le a x)) [
    | inl e ↦ rw e m
    | inr e ↦ rw e (later (insert-Memᴰ a b xs) m)
  ]
    where
      later :
          (Memᴰ b (a ∷ xs) → Memᴰ b (insert a xs)) → Memᴰ b (a ∷ x ∷ xs) → Memᴰ b (x ∷ insert a xs)
      later ih (Memᴰ.head q) = Memᴰ.tail (ih (Memᴰ.head q))
      later ih (Memᴰ.tail (Memᴰ.head q)) = Memᴰ.head q
      later ih (Memᴰ.tail (Memᴰ.tail n)) = Memᴰ.tail (ih (Memᴰ.tail n))

  Memᴰ-insert : (a b : A) (xs : List A) → Memᴰ b (insert a xs) → Memᴰ b (a ∷ xs)
  unfolding insert
  Memᴰ-insert a b [] m = m
  Memᴰ-insert a b (x ∷ xs) m = elim (Bool-cases (le a x)) [
    | inl e ↦ rw e at m
    | inr e ↦ later (Memᴰ-insert a b xs) (rw e at m)
  ]
    where
      later :
          (Memᴰ b (insert a xs) → Memᴰ b (a ∷ xs)) → Memᴰ b (x ∷ insert a xs) → Memᴰ b (a ∷ x ∷ xs)
      later ih (Memᴰ.head q) = Memᴰ.tail (Memᴰ.head q)
      later ih (Memᴰ.tail n) = back (ih n)
        where
          back : Memᴰ b (a ∷ xs) → Memᴰ b (a ∷ x ∷ xs)
          back (Memᴰ.head q) = Memᴰ.head q
          back (Memᴰ.tail k) = Memᴰ.tail (Memᴰ.tail k)

  pub sorted-Memᴰ : (b : A) (xs : List A) → Memᴰ b xs → Memᴰ b (sorted xs)
  unfolding sorted
  sorted-Memᴰ b [] m = elim m [ ]
  sorted-Memᴰ b (x ∷ xs) (Memᴰ.head q) = insert-Memᴰ x b (sorted xs) (Memᴰ.head q)
  sorted-Memᴰ b (x ∷ xs) (Memᴰ.tail m) =
      insert-Memᴰ x b (sorted xs) (Memᴰ.tail (sorted-Memᴰ b xs m))

  pub Memᴰ-sorted : (b : A) (xs : List A) → Memᴰ b (sorted xs) → Memᴰ b xs
  unfolding sorted
  Memᴰ-sorted b [] m = elim m [ ]
  Memᴰ-sorted b (x ∷ xs) m = back (Memᴰ-sorted b xs) (Memᴰ-insert x b (sorted xs) m)
    where
      back : (Memᴰ b (sorted xs) → Memᴰ b xs) → Memᴰ b (x ∷ sorted xs) → Memᴰ b (x ∷ xs)
      back ih (Memᴰ.head q) = Memᴰ.head q
      back ih (Memᴰ.tail n) = Memᴰ.tail (ih n)
