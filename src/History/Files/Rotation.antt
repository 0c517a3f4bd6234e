-- ===== src/History/Files/Rotation.antt =====
-- history.py: the records before and after `maybe_rotate`.
use herdr_routines.Prelude.{
  ℕ, String, ◌≡◌, refl, sym, ap, ◌∙◌, false, Option, none, some, List, [], ◌∷◌, ◌++◌, arith, ◌⊎◌,
  All, Bool-cases, inl, inr,
}
use mathlib.Core.List.{append-nil, append_assoc}
use herdr_routines.Json.{Json}
use herdr_routines.History.{HistoryRecord}
use herdr_routines.History.Codec.{Outcome, return, raise, ◌>>=◌}
use herdr_routines.History.Files.{
  File, Dir, read_lines, read_file, read_files, before, insert_roll, sort_rolls, read_all,
  maybe_rotate, over_rotation_threshold,
}

-- Every roll is named before the new one.
abbrev pub IsLast : String → List (String × File) → Type 0
IsLast target fs = All (λ (g : String × File). before target g.0 ≡ false) fs

IsLast-insert_roll :
    (target : String) (f : String × File) (fs : List (String × File))
    → before target f.0 ≡ false
    → IsLast target fs
    → IsLast target (insert_roll f fs)
unfolding insert_roll
IsLast-insert_roll target f [] h hs = (h, tt)
IsLast-insert_roll target f (g ∷ fs) h hs = elim (Bool-cases (before f.0 g.0)) [
  | inl e ↦ rw e (h, hs)
  | inr e ↦ rw e (hs.0, IsLast-insert_roll target f fs h hs.1)
]

IsLast-sort_rolls :
    (target : String) (fs : List (String × File)) → IsLast target fs → IsLast target (sort_rolls fs)
unfolding sort_rolls
IsLast-sort_rolls target [] h = tt
IsLast-sort_rolls target (f ∷ fs) h =
    IsLast-insert_roll target f (sort_rolls fs) h.0 (IsLast-sort_rolls target fs h.1)

insert_roll_last :
    (target : String) (f : File) (fs : List (String × File))
    → IsLast target fs
    → insert_roll (target, f) fs ≡ fs ++ (target, f) ∷ []
unfolding insert_roll
insert_roll_last target f [] h = refl
insert_roll_last target f (g ∷ fs) h = rw (h.0, insert_roll_last target f fs h.1) refl

module _ (loads : String → Option Json) (fromisoformat : String → Option ℕ) where
  abbrev files : List (String × File) → Outcome (List HistoryRecord)
  files = read_files loads fromisoformat

  abbrev then_append :
      Outcome (List HistoryRecord) → Outcome (List HistoryRecord) → Outcome (List HistoryRecord)
  then_append m n = m >>= λ xs. n >>= λ ys. return (xs ++ ys)

  then_append_assoc :
      (a b c : Outcome (List HistoryRecord))
      → then_append a (then_append b c) ≡ then_append (then_append a b) c
  then_append_assoc (return xs) (return ys) (return zs) = ap return (sym (append_assoc xs ys zs))
  then_append_assoc (return xs) (return ys) (raise e) = refl
  then_append_assoc (return xs) (raise e) c = refl
  then_append_assoc (raise e) b c = refl

  then_append-nil : (a : Outcome (List HistoryRecord)) → then_append a (return []) ≡ a
  then_append-nil (return xs) = ap return (append-nil xs)
  then_append-nil (raise e) = refl

  nil-then_append : (a : Outcome (List HistoryRecord)) → then_append (return []) a ≡ a
  nil-then_append (return xs) = refl
  nil-then_append (raise e) = refl

  read_files-append :
      (fs : List (String × File)) (name : String) (f : File)
      → files (fs ++ (name, f) ∷ [])
        ≡ then_append (files fs) (read_file loads fromisoformat (some f))
  unfolding read_files
  read_files-append [] name f =
      then_append-nil (read_file loads fromisoformat (some f))
      ∙ sym (nil-then_append (read_file loads fromisoformat (some f)))
  read_files-append ((n, g) ∷ fs) name f = rw (read_files-append fs name f) (
      then_append_assoc (read_file loads fromisoformat (some g)) (files fs)
        (read_file loads fromisoformat (some f)))

  read_touched :
      (touched : File)
      → touched.lines ≡ []
      → read_file loads fromisoformat (some touched) ≡ return []
  unfolding read_file read_lines
  read_touched touched e = elim (Bool-cases touched.readable) [
    | inl b ↦ rw (b, e) refl
    | inr b ↦ rw b refl
  ]

  read_all_lem :
      (rolls : List (String × File)) (live : Option File)
      → read_all loads fromisoformat (record { rolls = rolls; live = live })
        ≡ then_append (files (sort_rolls rolls)) (read_file loads fromisoformat live)
  unfolding read_all
  read_all_lem rolls live = refl

  sort_rolls-cons :
      (rolls : List (String × File)) (f : File) (target : String)
      → IsLast target rolls
      → sort_rolls ((target, f) ∷ rolls) ≡ sort_rolls rolls ++ (target, f) ∷ []
  unfolding sort_rolls
  sort_rolls-cons rolls f target last =
      insert_roll_last target f (sort_rolls rolls) (IsLast-sort_rolls target rolls last)

  -- A new roll that sorts behind the others, in place of the live file.
  read_all-roll :
      (rolls : List (String × File)) (f touched : File) (target : String)
      → IsLast target rolls
      → touched.lines ≡ []
      → read_all loads fromisoformat (record { rolls = (target, f) ∷ rolls; live = some touched })
        ≡ read_all loads fromisoformat (record { rolls = rolls; live = some f })
  read_all-roll rolls f touched target last empty =
      rw
        (
          read_all_lem ((target, f) ∷ rolls) (some touched),
          read_touched touched empty,
          then_append-nil (files (sort_rolls ((target, f) ∷ rolls))),
          sort_rolls-cons rolls f target last,
          read_files-append (sort_rolls rolls) target f,
          read_all_lem rolls (some f),
        )
        refl

  rotate_cases :
      (d d' : Dir) (max_bytes max_age_days : Option ℕ) (now : ℕ) (target : String) (touched : File)
      (name : Option String)
      → maybe_rotate loads fromisoformat d max_bytes max_age_days now target touched
        ≡ return (d', name)
      → ((d' ≡ d) × (name ≡ none))
        ⊎ ((f : File) × (d.live ≡ some f)
            × (d' ≡ record { rolls = (target, f) ∷ d.rolls; live = some touched })
            × (name ≡ some target))
  unfolding maybe_rotate over_rotation_threshold
  rotate_cases d d' max_bytes max_age_days now target touched name h = ground arith

  -- A rotation whose new name sorts behind those of all rolls (the stamp of the present second)
  -- leaves what `read_all` returns as it was, records and order, whether the live file is rolled
  -- or not; and if it is, the whole live file is under the new name, and the live one is empty.
  pub maybe_rotate-read_all :
      (d d' : Dir) (max_bytes max_age_days : Option ℕ) (now : ℕ) (target : String) (touched : File)
      (name : Option String)
      → IsLast target d.rolls
      → touched.lines ≡ []
      → maybe_rotate loads fromisoformat d max_bytes max_age_days now target touched
        ≡ return (d', name)
      → (read_all loads fromisoformat d' ≡ read_all loads fromisoformat d)
        × (((d' ≡ d) × (name ≡ none))
            ⊎ ((f : File) × (d.live ≡ some f)
                × (d' ≡ record { rolls = (target, f) ∷ d.rolls; live = some touched })
                × (name ≡ some target)))
  maybe_rotate-read_all d d' max_bytes max_age_days now target touched name last empty h =
      let cases = rotate_cases d d' max_bytes max_age_days now target touched name h in
      (
        elim cases [
          | inl (same, _) ↦ ap (read_all loads fromisoformat) same
          | inr (f, live, rolled, _) ↦
              ap (read_all loads fromisoformat) rolled
              ∙ read_all-roll d.rolls f touched target last empty
              ∙ ap (λ l. read_all loads fromisoformat (record { rolls = d.rolls; live = l }))
                  (sym live)
        ],
        cases,
      )
