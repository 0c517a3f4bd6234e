-- ===== src/History/Files/Reading.antt =====
-- Lines that do not parse.
use herdr_routines.Prelude.{
  ℕ, String, str_eq, ◌≡◌, refl, ◌⊎◌, inl, inr, true, false, Option, none, some, List, [], ◌∷◌, ◌++◌,
  arith,
}
use herdr_routines.Prelude.Texts.{strip}
use herdr_routines.Json.{Json}
use herdr_routines.History.Codec.{raise, type_error, key_error, value_error, from_json}
use herdr_routines.History.Files.{read_lines, read_file, File}

module _ (loads : String → Option Json) (fromisoformat : String → Option ℕ) where
  -- The line is blank, is no JSON, or is a JSON object that lacks or mistypes a core field.
  abbrev pub IsSkipped : String → Type 0
  IsSkipped l =
      (str_eq (strip l) "" ≡ true)
      ⊎ (loads (strip l) ≡ none)
      ⊎ ((v : Json) × (loads (strip l) ≡ some v)
          × ((from_json fromisoformat v ≡ raise key_error)
              ⊎ (from_json fromisoformat v ≡ raise value_error)))

  skip_one :
      (l : String) (ys : List String)
      → IsSkipped l
      → read_lines loads fromisoformat (l ∷ ys) ≡ read_lines loads fromisoformat ys
  unfolding read_lines
  skip_one l ys (inl e) = rw e refl
  skip_one l ys (inr (inl e)) = ground arith
  skip_one l ys (inr (inr (v, e, inl k))) = ground arith
  skip_one l ys (inr (inr (v, e, inr k))) = ground arith

  read_lines-skip :
      (xs : List String) (l : String) (ys : List String)
      → IsSkipped l
      → read_lines loads fromisoformat (xs ++ l ∷ ys) ≡ read_lines loads fromisoformat (xs ++ ys)
  unfolding read_lines
  read_lines-skip [] l ys h = skip_one l ys h
  read_lines-skip (x ∷ xs) l ys h = rw (read_lines-skip xs l ys h) refl

  -- A file reads the same with or without a line that is blank, is no JSON, or is a JSON object
  -- that lacks or mistypes a core field, wherever the line stands.
  pub read_file-skip :
      (f : File) (xs : List String) (l : String) (ys : List String)
      → f.lines ≡ xs ++ l ∷ ys
      → IsSkipped l
      → read_file loads fromisoformat (some f)
        ≡ read_file loads fromisoformat (some (record f { lines = xs ++ ys }))
  unfolding read_file
  read_file-skip f xs l ys e h = rw (e, read_lines-skip xs l ys h) refl

  raise_one :
      (l : String) (ys : List String) (v : Json)
      → str_eq (strip l) "" ≡ false
      → loads (strip l) ≡ some v
      → from_json fromisoformat v ≡ raise type_error
      → read_lines loads fromisoformat (l ∷ ys) ≡ raise type_error
  unfolding read_lines
  raise_one l ys v full e k = ground arith

  raise_later :
      (xs : List String) (zs : List String)
      → read_lines loads fromisoformat zs ≡ raise type_error
      → read_lines loads fromisoformat (xs ++ zs) ≡ raise type_error
  unfolding read_lines
  raise_later [] zs h = h
  raise_later (x ∷ xs) zs h = ground (arith, raise_later xs zs h)

  -- One line that is valid JSON and whose conversion raises TypeError makes the whole readable
  -- file unreadable with a TypeError, whatever its other lines are.
  pub read_file_type_error :
      (f : File) (xs : List String) (l : String) (ys : List String) (v : Json)
      → f.lines ≡ xs ++ l ∷ ys
      → f.readable ≡ true
      → str_eq (strip l) "" ≡ false
      → loads (strip l) ≡ some v
      → from_json fromisoformat v ≡ raise type_error
      → read_file loads fromisoformat (some f) ≡ raise type_error
  unfolding read_file
  read_file_type_error f xs l ys v e ok full le k =
      rw (ok, e) (raise_later xs (l ∷ ys) (raise_one l ys v full le k))
