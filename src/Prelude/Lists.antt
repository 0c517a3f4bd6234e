-- ===== src/Prelude/Lists.antt =====
-- Lists measured by native numbers, with Boolean tests in place of decision procedures: Python's
-- list comprehensions, `any`, `all`, `in` and `xs[-1]`.
use Prim.Native.Nat.{ℕ, zero, suc, ◌+◌}
use mathlib.Core.Path.{◌≡◌, refl, ap}
use mathlib.Core.Logic.{◌⊎◌, inl, inr}
use mathlib.Core.Bool.{Bool, true, false, ◌&&◌, ◌||◌}
use mathlib.Core.Option.{Option, none, some}
use mathlib.Core.List.{List, [], ◌∷◌, ◌++◌, Memᴰ}
use native.Mathlib.Omega.{arith}
use Prim.Native.String.{String}
use text.Mathlib.Text.{◌==◌ as str_eq}
use herdr_routines.Prelude.Tests.{if◌then◌else◌, Bool-cases}

module _ {ℓ} {A : Type ℓ} where
  abbrev pub length : List A → ℕ
  length [] = 0
  length (x ∷ xs) = suc (length xs)

  abbrev pub drop : ℕ → List A → List A
  drop zero xs = xs
  drop (suc n) [] = []
  drop (suc n) (x ∷ xs) = drop n xs

  -- [x for x in xs if p(x)]
  abbrev pub keep_if : (A → Bool) → List A → List A
  keep_if p [] = []
  keep_if p (x ∷ xs) = let rest = keep_if p xs in if p x then x ∷ rest else rest

  abbrev pub any_of : (A → Bool) → List A → Bool
  any_of p [] = false
  any_of p (x ∷ xs) = p x || any_of p xs

  abbrev pub all_of : (A → Bool) → List A → Bool
  all_of p [] = true
  all_of p (x ∷ xs) = p x && all_of p xs

  -- xs[-1], and the elements before it
  abbrev pub last_of : A → List A → A
  last_of x [] = x
  last_of x (y ∷ ys) = last_of y ys

  abbrev pub init_of : A → List A → List A
  init_of x [] = []
  init_of x (y ∷ ys) = x ∷ init_of y ys

  abbrev pub head_of : List A → Option A
  head_of [] = none
  head_of (x ∷ xs) = some x

  abbrev pub All {κ} : (A → Type κ) → List A → Type κ
  All P [] = Unit
  All P (x ∷ xs) = P x × All P xs

abbrev pub elem : String → List String → Bool
elem k = any_of (λ j. str_eq j k)

module _ {ℓ} {A : Type ℓ} where
  pub keep_if-append :
      (p : A → Bool) (xs ys : List A) → keep_if p (xs ++ ys) ≡ keep_if p xs ++ keep_if p ys
  keep_if-append p [] ys = refl
  keep_if-append p (x ∷ xs) ys = ground (arith, keep_if-append p xs ys)

  pub Memᴰ-keep_if :
      (p : A → Bool) (a : A) (xs : List A) → Memᴰ a (keep_if p xs) → Memᴰ a xs × (p a ≡ true)
  Memᴰ-keep_if p a [] m = elim m [ ]
  Memᴰ-keep_if p a (x ∷ xs) m = go (Memᴰ-keep_if p a xs) (p x) refl m
    where
      go :
          (Memᴰ a (keep_if p xs) → Memᴰ a xs × (p a ≡ true))
          → (b : Bool) → p x ≡ b
          → Memᴰ a (if b then x ∷ keep_if p xs else keep_if p xs)
          → Memᴰ a (x ∷ xs) × (p a ≡ true)
      go ih true e (Memᴰ.head q) = (Memᴰ.head q, cc)
      go ih true e (Memᴰ.tail n) = (Memᴰ.tail (ih n).0, (ih n).1)
      go ih false e n = (Memᴰ.tail (ih n).0, (ih n).1)

  pub keep_if-Memᴰ :
      (p : A → Bool) (a : A) (xs : List A) → Memᴰ a xs → p a ≡ true → Memᴰ a (keep_if p xs)
  keep_if-Memᴰ p a [] m e = elim m [ ]
  keep_if-Memᴰ p a (x ∷ xs) (Memᴰ.head q) e = rw (← q, e) (Memᴰ.head refl)
  keep_if-Memᴰ p a (x ∷ xs) (Memᴰ.tail m) e = elim (Bool-cases (p x)) [
    | inl yes_x ↦ rw yes_x (Memᴰ.tail (keep_if-Memᴰ p a xs m e))
    | inr no_x ↦ rw no_x (keep_if-Memᴰ p a xs m e)
  ]

  pub any_of-append :
      (p : A → Bool) (xs ys : List A) → any_of p (xs ++ ys) ≡ (any_of p xs || any_of p ys)
  any_of-append p [] ys = refl
  any_of-append p (x ∷ xs) ys = ground (arith, any_of-append p xs ys)

  pub any_of-Memᴰ :
      (p : A → Bool) (a : A) (xs : List A) → Memᴰ a xs → p a ≡ true → any_of p xs ≡ true
  any_of-Memᴰ p a [] m e = elim m [ ]
  any_of-Memᴰ p a (x ∷ xs) (Memᴰ.head q) e = rw (← q, e) refl
  any_of-Memᴰ p a (x ∷ xs) (Memᴰ.tail m) e = ground (arith, any_of-Memᴰ p a xs m e)

  pub all_of-Memᴰ :
      (p : A → Bool) (a : A) (xs : List A) → all_of p xs ≡ true → Memᴰ a xs → p a ≡ true
  all_of-Memᴰ p a [] e m = elim m [ ]
  all_of-Memᴰ p a (x ∷ xs) e (Memᴰ.head q) = ground arith
  all_of-Memᴰ p a (x ∷ xs) e (Memᴰ.tail m) = all_of-Memᴰ p a xs (ground arith) m

  pub length-append : (xs ys : List A) → length (xs ++ ys) ≡ length xs + length ys
  length-append [] ys = omega arith
  length-append (x ∷ xs) ys = omega (arith, length-append xs ys)

  pub init_of-append-last_of : (x : A) (xs : List A) → init_of x xs ++ last_of x xs ∷ [] ≡ x ∷ xs
  init_of-append-last_of x [] = refl
  init_of-append-last_of x (y ∷ ys) = ap (λ (l : List A). x ∷ l) (init_of-append-last_of y ys)

module _ {ℓ} {A : Type ℓ} where
  pub Memᴰ-append_left : (a : A) {xs : List A} (ys : List A) → Memᴰ a xs → Memᴰ a (xs ++ ys)
  Memᴰ-append_left a ys (Memᴰ.head e) = Memᴰ.head e
  Memᴰ-append_left a ys (Memᴰ.tail m) = Memᴰ.tail (Memᴰ-append_left a ys m)

  pub Memᴰ-append_right : (a : A) (xs : List A) {ys : List A} → Memᴰ a ys → Memᴰ a (xs ++ ys)
  Memᴰ-append_right a [] m = m
  Memᴰ-append_right a (x ∷ xs) m = Memᴰ.tail (Memᴰ-append_right a xs m)

  pub Memᴰ-append : (a : A) (xs : List A) {ys : List A} → Memᴰ a (xs ++ ys) → Memᴰ a xs ⊎ Memᴰ a ys
  Memᴰ-append a [] m = inr m
  Memᴰ-append a (x ∷ xs) (Memᴰ.head e) = inl (Memᴰ.head e)
  Memᴰ-append a (x ∷ xs) (Memᴰ.tail m) = elim (Memᴰ-append a xs m) [
    | inl n ↦ inl (Memᴰ.tail n)
    | inr n ↦ inr n
  ]
