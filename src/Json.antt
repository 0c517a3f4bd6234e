-- ===== src/Json.antt =====
-- The values that Python's `json.loads` returns. A float is an integral one, which is equal to
-- the int of its value, or any other, kept as its text.
use herdr_routines.Prelude.{
  ℕ, String, str_eq, not, if◌then◌else◌, ◌==◌, Bool, true, false, Option, none, some, List, [], ◌∷◌,
}
use herdr_routines.Prelude.Dict.{Dict}

-- `negsuc n` is -(n + 1).
pub data ℤ : Type 0 where
  pos : ℕ → ℤ
  negsuc : ℕ → ℤ

pub data Float : Type 0 where
  whole : ℤ → Float
  fraction : String → Float

mutual
  pub data Json : Type 0 where
    null : Json
    bool : Bool → Json
    int : ℤ → Json
    float : Float → Json
    str : String → Json
    arr : Items → Json
    obj : Fields → Json

  pub data Items : Type 0 where
    nil : Items
    cons : Json → Items → Items

  pub data Fields : Type 0 where
    end : Fields
    field : String → Json → Fields → Fields

abbrev pub to_dict : Fields → Dict Json
to_dict end = []
to_dict (field k v fs) = (k, v) ∷ to_dict fs

abbrev pub to_list : Items → List Json
to_list nil = []
to_list (cons x xs) = x ∷ to_list xs

abbrev pub is_one : ℤ → Bool
is_one (pos n) = n == 1
is_one (negsuc n) = false

-- x == 1: `True` and 1.0 are equal to 1 as well.
abbrev pub eq_one : Json → Bool
eq_one (bool b) = b
eq_one (int n) = is_one n
eq_one (float (whole n)) = is_one n
eq_one _ = false

-- d.get(k), where a JSON null reads as Python's None
abbrev pub non_null : Option Json → Option Json
non_null (some null) = none
non_null v = v

abbrev is_zero : ℤ → Bool
is_zero (pos n) = n == 0
is_zero (negsuc n) = false

-- bool(v), None included
abbrev pub truthy : Option Json → Bool
truthy none = false
truthy (some null) = false
truthy (some (bool b)) = b
truthy (some (int n)) = not (is_zero n)
truthy (some (float (whole n))) = not (is_zero n)
truthy (some (float (fraction s))) = true
truthy (some (str s)) = not (str_eq s "")
truthy (some (arr nil)) = false
truthy (some (arr (cons x xs))) = true
truthy (some (obj end)) = false
truthy (some (obj (field k v fs))) = true

-- a or b
abbrev pub or_truthy : Option Json → Option Json → Option Json
or_truthy a b = if truthy a then a else b

-- v == s, for a text s
abbrev pub is_text : String → Option Json → Bool
is_text s (some (str t)) = str_eq t s
is_text s _ = false

abbrev pub is_none : Option Json → Bool
is_none none = true
is_none (some null) = true
is_none (some _) = false
