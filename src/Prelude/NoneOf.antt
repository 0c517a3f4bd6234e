-- ===== src/Prelude/NoneOf.antt =====
-- The lists on which a comprehension `[x for x in xs if p(x)]` is empty.
use mathlib.Core.List.{Memᴰ, List, [], ◌∷◌, cons≢nil}
use mathlib.Core.Path.{◌≡◌, refl}
use mathlib.Core.Logic.{inl, inr}
use mathlib.Core.Bool.{Bool, true, false}
use native.Mathlib.Omega.{arith}
use herdr_routines.Prelude.Tests.{Bool-cases}
use herdr_routines.Prelude.Lists.{keep_if}

-- No element of the list passes the test.
abbrev pub NoneOf {ℓ} : {A : Type ℓ} → (A → Bool) → List A → Type 0
NoneOf p [] = Unit
NoneOf p (x ∷ xs) = (p x ≡ false) × NoneOf p xs

pub keep_if_none {ℓ} : {A : Type ℓ} (p : A → Bool) (xs : List A) → NoneOf p xs → keep_if p xs ≡ []
keep_if_none p [] h = refl
keep_if_none p (x ∷ xs) h = rw (h.0, keep_if_none p xs h.1) refl

pub NoneOf-keep_if {ℓ} : {A : Type ℓ} (p : A → Bool) (xs : List A) → keep_if p xs ≡ [] → NoneOf p xs
NoneOf-keep_if p [] h = tt
NoneOf-keep_if p (x ∷ xs) h = elim (Bool-cases (p x)) [
  | inl e ↦ absurd (cons≢nil (rw e at h))
  | inr e ↦ (e, NoneOf-keep_if p xs (rw e at h))
]

pub NoneOf-mono {ℓ} :
    {A : Type ℓ} (p q : A → Bool) (xs : List A)
    → ((x : A) → q x ≡ true → p x ≡ true)
    → NoneOf p xs
    → NoneOf q xs
NoneOf-mono p q [] h n = tt
NoneOf-mono p q (x ∷ xs) h n = (ground (arith, h x), NoneOf-mono p q xs h n.1)

pub NoneOf-Memᴰ {ℓ} :
    {A : Type ℓ} (p : A → Bool) (xs : List A) → ((a : A) → Memᴰ a xs → p a ≡ false) → NoneOf p xs
NoneOf-Memᴰ p [] h = tt
NoneOf-Memᴰ p (x ∷ xs) h = (h x (Memᴰ.head refl), NoneOf-Memᴰ p xs (λ a m. h a (Memᴰ.tail m)))

pub NoneOf-at {ℓ} :
    {A : Type ℓ} (p : A → Bool) (a : A) (xs : List A) → NoneOf p xs → Memᴰ a xs → p a ≡ false
NoneOf-at p a [] h m = elim m [ ]
NoneOf-at p a (x ∷ xs) h (Memᴰ.head e) = rw e h.0
NoneOf-at p a (x ∷ xs) h (Memᴰ.tail m) = NoneOf-at p a xs h.1 m
