-- ===== src/Prelude/Dict.antt =====
-- Python's `dict` with string keys, as the list of its items in insertion order: an assignment to
-- a present key keeps that key's place.
use herdr_routines.Prelude.Tests.{if◌then◌else◌, Bool-cases}
use herdr_routines.Prelude.Lists.{any_of}
use Prim.Native.String.{String}
use mathlib.Core.Path.{◌≡◌, refl}
use mathlib.Core.Bool.{Bool}
use mathlib.Core.Logic.{inl, inr}
use mathlib.Core.Option.{Option, none, some}
use mathlib.Core.List.{List, [], ◌∷◌, map, Memᴰ}
use native.Mathlib.Omega.{arith}
use text.Mathlib.Text.{◌==◌ as str_eq}
use text.Mathlib.TextEquality.{eq_iff}

abbrev pub Dict {ℓ} : Type ℓ → Type ℓ
Dict V = List (String × V)

module _ {ℓ} {V : Type ℓ} where
  -- d.get(k)
  unfoldable pub get : String → Dict V → Option V
  get k [] = none
  get k ((j, v) ∷ d) = if str_eq j k then some v else get k d

  -- d[k] = v
  unfoldable pub put : String → V → Dict V → Dict V
  put k v [] = (k, v) ∷ []
  put k v ((j, w) ∷ d) = if str_eq j k then (j, v) ∷ d else (j, w) ∷ put k v d

  -- k in d
  abbrev pub has : String → Dict V → Bool
  has k d = any_of (λ (e : String × V). str_eq e.0 k) d

  -- d.values()
  abbrev pub values : Dict V → List V
  values d = map (λ (e : String × V). e.1) d

  pub get-put :
      (k j : String) (v : V) (d : Dict V)
      → get j (put k v d) ≡ (if str_eq k j then some v else get j d)
  unfolding get put
  get-put k j v [] = refl
  get-put k j v ((i, w) ∷ d) = ground (arith, eq_iff k j, eq_iff i k, eq_iff i j, get-put k j v d)

  pub get-Memᴰ : (k : String) (v : V) (d : Dict V) → get k d ≡ some v → Memᴰ (k, v) d
  unfolding get
  get-Memᴰ k v [] h = ground arith
  get-Memᴰ k v ((j, w) ∷ d) h = elim (Bool-cases (str_eq j k)) [
    | inl e ↦ Memᴰ.head (ground (arith, eq_iff j k, h, e))
    | inr e ↦ Memᴰ.tail (get-Memᴰ k v d (ground arith))
  ]
