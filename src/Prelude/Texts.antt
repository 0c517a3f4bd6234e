-- ===== src/Prelude/Texts.antt =====
-- Substring tests: Python's `a in b` on texts, over the code points.
use Prim.Native.Char.{code}
use Prim.Native.String.{String}
use Prim.Native.Nat.{ℕ}
use mathlib.Core.Bool.{Bool, true, false, ◌&&◌, ◌||◌}
use mathlib.Core.List.{List, [], ◌∷◌}
use herdr_routines.Prelude.Tests.{◌==◌, leb, if◌then◌else◌}
use text.Mathlib.Text.{◌==◌ as str_eq}

abbrev pub codes : String → List ℕ
codes String.[] = []
codes (String.◌∷◌ c s) = code c ∷ codes s

unfoldable pub prefix_of : List ℕ → List ℕ → Bool
prefix_of [] t = true
prefix_of (c ∷ s) [] = false
prefix_of (c ∷ s) (d ∷ t) = c == d && prefix_of s t

unfoldable pub infix_of : List ℕ → List ℕ → Bool
unfolding prefix_of
infix_of s [] = prefix_of s []
infix_of s (d ∷ t) = prefix_of s (d ∷ t) || infix_of s t

-- s in t
unfoldable pub is_in : String → String → Bool
unfolding infix_of
is_in s t = infix_of (codes s) (codes t)

-- t.startswith(s)
unfoldable pub has_prefix : String → String → Bool
unfolding prefix_of
has_prefix s t = prefix_of (codes s) (codes t)

-- the code points that `str.strip` removes
unfoldable pub is_space : ℕ → Bool
is_space c =
    (leb 9 c && leb c 13)
    || (leb 28 c && leb c 32)
    || c == 133
    || c == 160
    || c == 5760
    || (leb 8192 c && leb c 8202)
    || c == 8232
    || c == 8233
    || c == 8239
    || c == 8287
    || c == 12288

unfoldable pub lstrip : String → String
lstrip String.[] = String.[]
lstrip (String.◌∷◌ c s) = let rest = lstrip s in if is_space (code c) then rest else String.◌∷◌ c s

unfoldable pub rstrip : String → String
rstrip String.[] = String.[]
rstrip (String.◌∷◌ c s) =
    let rest = rstrip s in
    if is_space (code c) && str_eq rest "" then String.[] else String.◌∷◌ c rest

-- s.strip()
unfoldable pub strip : String → String
unfolding lstrip rstrip is_space
strip s = rstrip (lstrip s)
