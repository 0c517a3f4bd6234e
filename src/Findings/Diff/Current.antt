-- ===== src/Findings/Diff/Current.antt =====
-- The dictionary of the current findings, keyed by their own ids, and the parts of the diff.
use herdr_routines.Prelude.{
  String, str_eq, eq_iff, eq_refl, ◌≡◌, refl, sym, ◌∙◌, ◌⊎◌, inl, inr, Bool, true, false, not, ◌&&◌,
  none, some, List, [], ◌∷◌, ◌++◌, Memᴰ, arith, keep_if, Bool-cases, is_some, keep_if-Memᴰ,
  Memᴰ-keep_if, Memᴰ-append, Memᴰ-append_left, Memᴰ-append_right,
}
use herdr_routines.Prelude.Dict.{Dict, get, put, values, get-put}
use herdr_routines.Prelude.Sort.{sorted, sorted-Memᴰ, Memᴰ-sorted}
use herdr_routines.Findings.{Finding, LedgerEntry, is_open, order_le}
use herdr_routines.Findings.Diff.{collect_from, is_new, is_regressed, is_unchanged, resolved_ids}

-- No key stands twice, as in every Python dict.
abbrev pub IsDict {ℓ} : {V : Type ℓ} → Dict V → Type ℓ
IsDict [] = Unit
IsDict ((k, v) ∷ d) = (get k d ≡ none) × IsDict d

abbrev pub Keyed : Dict Finding → Type 0
Keyed [] = Unit
Keyed ((k, f) ∷ d) = (k ≡ f.id) × (get k d ≡ none) × Keyed d

Keyed-put : (f : Finding) (d : Dict Finding) → Keyed d → Keyed (put f.id f d)
unfolding put
Keyed-put f [] h = (refl, unfold get in refl, tt)
Keyed-put f ((j, w) ∷ d) h = elim (Bool-cases (str_eq j f.id)) [
  | inl e ↦ rw e ((eq_iff j f.id).0 e, h.1, h.2)
  | inr e ↦
      let other : str_eq f.id j ≡ false = ground (arith, eq_iff j f.id, eq_iff f.id j) in
      rw e (h.0, get-put f.id j f d ∙ rw other h.1, Keyed-put f d h.2)
]

pub Keyed-collect_from :
    (d : Dict Finding) (fs : List Finding) → Keyed d → Keyed (collect_from d fs)
unfolding collect_from
Keyed-collect_from d [] h = h
Keyed-collect_from d (f ∷ fs) h = Keyed-collect_from (put f.id f d) fs (Keyed-put f d h)

pub get_of_value :
    (f : Finding) (d : Dict Finding) → Keyed d → Memᴰ f (values d) → get f.id d ≡ some f
unfolding get
get_of_value f [] h m = elim m [ ]
get_of_value f ((k, g) ∷ d) h (Memᴰ.head e) =
    let same : k ≡ f.id = cc (h.0) in rw (same, eq_refl f.id) (cc)
get_of_value f ((k, g) ∷ d) h (Memᴰ.tail m) = ground (arith, get_of_value f d h.2 m, eq_iff k f.id)

pub value_of_get :
    (k : String) (f : Finding) (d : Dict Finding)
    → Keyed d
    → get k d ≡ some f
    → Memᴰ f (values d) × (f.id ≡ k)
unfolding get
value_of_get k f [] h e = cc
value_of_get k f ((j, g) ∷ d) h e = elim (Bool-cases (str_eq j k)) [
  | inl same ↦ let here : g ≡ f = ground arith in (Memᴰ.head (sym here), ground (arith, eq_iff j k))
  | inr other ↦ let (m, i) = value_of_get k f d h.2 (ground arith) in (Memᴰ.tail m, i)
]

-- Every finding falls into exactly one of the three classes.
class_of :
    (entries : Dict LedgerEntry) (f : Finding)
    → (is_new entries f ≡ true) ⊎ (is_regressed entries f ≡ true) ⊎ (is_unchanged entries f ≡ true)
unfolding is_regressed is_unchanged
class_of entries f = ground arith

module _ (entries : Dict LedgerEntry) (d : Dict Finding) where
  abbrev part : (Dict LedgerEntry → Finding → Bool) → List Finding
  part p = sorted order_le (keep_if (p entries) (values d))

  abbrev pub classified : List Finding
  classified = part is_new ++ (part is_regressed ++ part is_unchanged)

  into_part :
      (p : Dict LedgerEntry → Finding → Bool) (f : Finding)
      → p entries f ≡ true
      → Memᴰ f (values d)
      → Memᴰ f (part p)
  into_part p f e m = sorted-Memᴰ order_le f _ (keep_if-Memᴰ (p entries) f (values d) m e)

  from_part :
      (p : Dict LedgerEntry → Finding → Bool) (f : Finding) → Memᴰ f (part p) → Memᴰ f (values d)
  from_part p f m = (Memᴰ-keep_if (p entries) f (values d) (Memᴰ-sorted order_le f _ m)).0

  pub classified_of_value : (f : Finding) → Memᴰ f (values d) → Memᴰ f classified
  classified_of_value f m = elim (class_of entries f) [
    | inl e ↦ Memᴰ-append_left f _ (into_part is_new f e m)
    | inr (inl e) ↦
        Memᴰ-append_right f (part is_new) (Memᴰ-append_left f _ (into_part is_regressed f e m))
    | inr (inr e) ↦
        Memᴰ-append_right f (part is_new)
          (Memᴰ-append_right f (part is_regressed) (into_part is_unchanged f e m))
  ]

  pub value_of_classified : (f : Finding) → Memᴰ f classified → Memᴰ f (values d)
  value_of_classified f m = elim (Memᴰ-append f (part is_new) m) [
    | inl n ↦ from_part is_new f n
    | inr r ↦ elim (Memᴰ-append f (part is_regressed) r) [
      | inl n ↦ from_part is_regressed f n
      | inr n ↦ from_part is_unchanged f n
    ]
  ]

module _ (current : Dict Finding) where
  pub resolved_of_open :
      (k : String) (e : LedgerEntry) (entries : Dict LedgerEntry)
      → get k entries ≡ some e
      → is_open e.state ≡ true
      → get k current ≡ none
      → Memᴰ k (resolved_ids current entries)
  unfolding get resolved_ids
  resolved_of_open k e [] g o n = cc
  resolved_of_open k e ((j, w) ∷ entries) g o n = elim (Bool-cases (str_eq j k)) [
    | inl same ↦
        let key : j ≡ k = (eq_iff j k).0 same in
        let here : w ≡ e = ground arith in rw (key, here, o, n) (Memᴰ.head refl)
    | inr other ↦
        let m : Memᴰ k (resolved_ids current entries) =
          resolved_of_open k e entries (ground arith) o n in
        elim (Bool-cases (is_open w.state && not (is_some (get j current)))) [
          | inl c ↦ rw c (Memᴰ.tail m)
          | inr c ↦ rw c m
        ]
  ]

  abbrev IsGone : String → Dict LedgerEntry → Type 0
  IsGone k entries =
      (e : LedgerEntry) × (get k entries ≡ some e)
      × (is_open e.state ≡ true)
      × (get k current ≡ none)

  IsGone-later :
      (k j : String) (w : LedgerEntry) (entries : Dict LedgerEntry)
      → get j entries ≡ none
      → IsGone k entries
      → IsGone k ((j, w) ∷ entries)
  unfolding get
  IsGone-later k j w entries h (e, g, o, n) = (e, ground (arith, eq_iff j k), o, n)

  pub open_of_resolved :
      (k : String) (entries : Dict LedgerEntry)
      → IsDict entries
      → Memᴰ k (resolved_ids current entries)
      → IsGone k entries
  unfolding resolved_ids
  open_of_resolved k [] h m = elim m [ ]
  open_of_resolved k ((j, w) ∷ entries) h m =
      elim (Bool-cases (is_open w.state && not (is_some (get j current)))) [
        | inl c ↦ here c (open_of_resolved k entries h.1) (rw c at m)
        | inr c ↦ IsGone-later k j w entries h.0 (open_of_resolved k entries h.1 (rw c at m))
      ]
    where
      here :
          (is_open w.state && not (is_some (get j current))) ≡ true
          → (Memᴰ k (resolved_ids current entries) → IsGone k entries)
          → Memᴰ k (j ∷ resolved_ids current entries)
          → IsGone k ((j, w) ∷ entries)
      here c ih (Memᴰ.head e) =
          (w, rw e (unfold get in rw (eq_refl j) refl), ground arith, rw e (ground arith))
      here c ih (Memᴰ.tail n) = IsGone-later k j w entries h.0 (ih n)
