-- ===== src/Findings/Diff/Cycle.antt =====
-- One audit cycle, seen key by key: `apply_diff` of the diff of the current findings.
use herdr_routines.Prelude.{
  String, str_eq, eq_iff, eq_refl, ◌≡◌, refl, sym, ap, ◌∙◌, ◌≢◌, ◌⊎◌, inl, inr, true, Option, none,
  some, List, [], ◌∷◌, Memᴰ, if◌then◌else◌, Bool-cases, Option-cases,
}
use herdr_routines.Prelude.Dict.{Dict, get, put, get-put}
use herdr_routines.Prelude.Sort.{sorted, sorted-Memᴰ, Memᴰ-sorted}
use herdr_routines.Findings.{Finding, LedgerEntry, Ledger, is_open, text_le}
use herdr_routines.Findings.Diff.{
  collect_from, resolved_ids, diff_findings, apply_diff, opened, closed, write_open, write_one,
  write_resolved,
}
use herdr_routines.Findings.Diff.Current.{
  IsDict, Keyed, Keyed-collect_from, get_of_value, value_of_get, classified, classified_of_value,
  value_of_classified, resolved_of_open, open_of_resolved,
}

module _ (old : Dict LedgerEntry) (stamp run_id : String) (queued dispatched : List String) where
  abbrev fresh : String → Finding → LedgerEntry
  fresh k f = opened (get k old) f stamp run_id queued dispatched

  abbrev written : List Finding → Dict LedgerEntry → Dict LedgerEntry
  written = write_open old stamp run_id queued dispatched

  write_open_cases :
      (k : String) (fs : List Finding) (d : Dict LedgerEntry)
      → (get k (written fs d) ≡ get k d)
        ⊎ ((f : Finding) × Memᴰ f fs × (f.id ≡ k) × (get k (written fs d) ≡ some (fresh k f)))
  unfolding write_open
  write_open_cases k [] d = inl refl
  write_open_cases k (f ∷ fs) d = elim (write_open_cases k fs (put f.id (fresh f.id f) d)) [
    | inr (g, m, i, e) ↦ inr (g, Memᴰ.tail m, i, e)
    | inl same ↦ elim (Bool-cases (str_eq f.id k)) [
      | inl here ↦
          let i : f.id ≡ k = (eq_iff f.id k).0 here in
          inr
            (f, Memᴰ.head refl, i, same ∙ get-put f.id k (fresh f.id f) d ∙ rw (i, eq_refl k) refl)
      | inr other ↦ inl (same ∙ get-put f.id k (fresh f.id f) d ∙ rw other refl)
    ]
  ]

  write_open_mem :
      (f : Finding) (fs : List Finding) (d : Dict LedgerEntry)
      → ((g : Finding) → Memᴰ g fs → g.id ≡ f.id → g ≡ f)
      → Memᴰ f fs
      → get f.id (written fs d) ≡ some (fresh f.id f)
  unfolding write_open
  write_open_mem f [] d only m = elim m [ ]
  write_open_mem f (g ∷ fs) d only (Memᴰ.tail m) =
      write_open_mem f fs (put g.id (fresh g.id g) d) (λ h n. only h (Memᴰ.tail n)) m
  write_open_mem f (g ∷ fs) d only (Memᴰ.head e) =
      elim (write_open_cases f.id fs (put g.id (fresh g.id g) d)) [
        | inr (h, n, i, w) ↦ w ∙ ap (λ x. some (fresh f.id x)) (only h (Memᴰ.tail n) i)
        | inl same ↦ same ∙ get-put g.id f.id (fresh g.id g) d ∙ rw (← e, eq_refl f.id) refl
      ]

  write_open_other :
      (k : String) (fs : List Finding) (d : Dict LedgerEntry)
      → ((g : Finding) → Memᴰ g fs → g.id ≢ k)
      → get k (written fs d) ≡ get k d
  write_open_other k fs d none_has = elim (write_open_cases k fs d) [
    | inl same ↦ same
    | inr (g, m, i, _) ↦ absurd (none_has g m i)
  ]

module _ (old : Dict LedgerEntry) (stamp : String) where
  abbrev IsClosed : String → Dict LedgerEntry → Type 0
  IsClosed k d = (e : LedgerEntry) × (get k old ≡ some e) × (get k d ≡ some (closed e stamp))

  write_one_cases :
      (k j : String) (o : Option LedgerEntry) (d : Dict LedgerEntry)
      → get j old ≡ o
      → (get k (write_one old stamp j o d) ≡ get k d)
        ⊎ ((j ≡ k) × IsClosed k (write_one old stamp j o d))
  write_one_cases k j none d h = inl refl
  write_one_cases k j (some e) d h = elim (Bool-cases (str_eq j k)) [
    | inl here ↦
        let i : j ≡ k = (eq_iff j k).0 here in
        inr (i, (e, ap (λ x. get x old) (sym i) ∙ h, get-put j k (closed e stamp) d ∙ rw here refl))
    | inr other ↦ inl (get-put j k (closed e stamp) d ∙ rw other refl)
  ]

  write_one_self :
      (k : String) (e : LedgerEntry) (d : Dict LedgerEntry)
      → get k old ≡ some e
      → get k (write_one old stamp k (get k old) d) ≡ some (closed e stamp)
  write_one_self k e d h = rw h (get-put k k (closed e stamp) d ∙ rw (eq_refl k) refl)

  write_resolved_cases :
      (k : String) (ids : List String) (d : Dict LedgerEntry)
      → (get k (write_resolved old stamp ids d) ≡ get k d)
        ⊎ (Memᴰ k ids × IsClosed k (write_resolved old stamp ids d))
  unfolding write_resolved
  write_resolved_cases k [] d = inl refl
  write_resolved_cases k (j ∷ ids) d =
      elim (write_resolved_cases k ids (write_one old stamp j (get j old) d)) [
        | inr (m, c) ↦ inr (Memᴰ.tail m, c)
        | inl same ↦ elim (write_one_cases k j (get j old) d refl) [
          | inl kept ↦ inl (same ∙ kept)
          | inr (i, (e, g, w)) ↦ inr (Memᴰ.head (sym i), (e, g, same ∙ w))
        ]
      ]

  write_resolved_mem :
      (k : String) (e : LedgerEntry) (ids : List String) (d : Dict LedgerEntry)
      → get k old ≡ some e
      → Memᴰ k ids
      → get k (write_resolved old stamp ids d) ≡ some (closed e stamp)
  unfolding write_resolved
  write_resolved_mem k e [] d g m = elim m [ ]
  write_resolved_mem k e (j ∷ ids) d g (Memᴰ.tail m) =
      write_resolved_mem k e ids (write_one old stamp j (get j old) d) g m
  write_resolved_mem k e (j ∷ ids) d g (Memᴰ.head i) =
      elim (write_resolved_cases k ids (write_one old stamp j (get j old) d)) [
        | inr (m, (e', g', w)) ↦ let same : e' ≡ e = cc in w ∙ ap (λ x. some (closed x stamp)) same
        | inl same ↦ same ∙ rw (← i) (write_one_self k e d g)
      ]

-- What a cycle leaves at one key: a current finding is open, and its entry keeps what the old one
-- knew; a known finding that is not current is resolved, if it was open, and otherwise as it was.
abbrev pub expected :
    Option Finding
    → Option LedgerEntry
    → String
    → String
    → List String
    → List String
    → Option LedgerEntry
expected (some f) old stamp run_id queued dispatched =
    some (opened old f stamp run_id queued dispatched)
expected none none stamp run_id queued dispatched = none
expected none (some e) stamp run_id queued dispatched =
    some (if is_open e.state then closed e stamp else e)

module _ (ledger : Ledger) (findings : List Finding) (stamp run_id : String)
    (queued dispatched : List String) (is_dict : IsDict ledger.entries) where
  abbrev current : Dict Finding
  current = collect_from [] findings

  abbrev all_open : List Finding
  all_open = classified ledger.entries current

  abbrev opened_entries : Dict LedgerEntry
  opened_entries = write_open ledger.entries stamp run_id queued dispatched all_open ledger.entries

  abbrev gone : List String
  gone = sorted text_le (resolved_ids current ledger.entries)

  keyed : Keyed current
  keyed = Keyed-collect_from [] findings tt

  current_of_open : (g : Finding) → Memᴰ g all_open → get g.id current ≡ some g
  current_of_open g m =
      get_of_value g current keyed (value_of_classified ledger.entries current g m)

  opened_of_current :
      (k : String) (f : Finding)
      → get k current ≡ some f
      → get k opened_entries ≡ some (opened (get k ledger.entries) f stamp run_id queued dispatched)
  opened_of_current k f h =
      let (m, i) = value_of_get k f current keyed h in
      rw (← i) (
        write_open_mem ledger.entries stamp run_id queued dispatched f all_open ledger.entries
          (λ g n e.
            let a : get f.id current ≡ some f = get_of_value f current keyed m in
            let b : get f.id current ≡ some g =
              ap (λ x. get x current) (sym e) ∙ current_of_open g n in
            cc)
          (classified_of_value ledger.entries current f m))

  kept_of_absent : (k : String) → get k current ≡ none → get k opened_entries ≡ get k ledger.entries
  kept_of_absent k h =
      write_open_other ledger.entries stamp run_id queued dispatched k all_open ledger.entries
        (λ g m i.
          let b : get k current ≡ some g = ap (λ x. get x current) (sym i) ∙ current_of_open g m in
          cc)

  gone-is_open :
      (k : String)
      → Memᴰ k gone
      → (e : LedgerEntry) × (get k ledger.entries ≡ some e)
        × (is_open e.state ≡ true)
        × (get k current ≡ none)
  gone-is_open k m =
      open_of_resolved current k ledger.entries is_dict
        (Memᴰ-sorted text_le k (resolved_ids current ledger.entries) m)

  final_entries : Dict LedgerEntry
  final_entries = write_resolved ledger.entries stamp gone opened_entries

  final_of_current :
      (k : String) (f : Finding)
      → get k current ≡ some f
      → get k final_entries ≡ some (opened (get k ledger.entries) f stamp run_id queued dispatched)
  unfolding final_entries
  final_of_current k f h = elim (write_resolved_cases ledger.entries stamp k gone opened_entries) [
    | inl same ↦ same ∙ opened_of_current k f h
    | inr (m, _) ↦ let (e, _, _, n) = gone-is_open k m in cc
  ]

  final_of_absent :
      (k : String) (o : Option LedgerEntry)
      → get k ledger.entries ≡ o
      → get k current ≡ none
      → get k final_entries ≡ expected none o stamp run_id queued dispatched
  unfolding final_entries
  final_of_absent k none h n =
      elim (write_resolved_cases ledger.entries stamp k gone opened_entries) [
        | inl same ↦ same ∙ kept_of_absent k n ∙ h
        | inr (_, (e, g, _)) ↦ cc
      ]
  final_of_absent k (some e) h n = elim (Bool-cases (is_open e.state)) [
    | inl o ↦ rw o (
        write_resolved_mem ledger.entries stamp k e gone opened_entries h
          (sorted-Memᴰ text_le k _ (resolved_of_open current k e ledger.entries h o n)))
    | inr shut ↦ rw shut (elim (write_resolved_cases ledger.entries stamp k gone opened_entries) [
      | inl same ↦ same ∙ kept_of_absent k n ∙ h
      | inr (m, _) ↦ let (e', g, o, _) = gone-is_open k m in let q : e' ≡ e = cc in cc (rw q at o)
    ])
  ]

-- The entry of a key after a cycle.
pub get-apply_diff :
    (ledger : Ledger) (findings : List Finding) (stamp run_id : String)
    (queued dispatched : List String)
    → IsDict ledger.entries
    → (k : String)
    → let after =
        apply_diff ledger (diff_findings findings (some ledger)) stamp run_id queued dispatched in
      get k after.entries
      ≡ expected
          (get k (collect_from [] findings))
          (get k ledger.entries)
          stamp
          run_id
          queued
          dispatched
unfolding apply_diff diff_findings
get-apply_diff ledger findings stamp run_id queued dispatched is_dict k =
    elim (Option-cases (get k (collect_from [] findings))) [
      | inl n ↦ rw n (
          unfold final_entries in
          final_of_absent ledger findings stamp run_id queued dispatched is_dict k
            (get k ledger.entries) refl n)
      | inr (f, e) ↦ rw e (
          unfold final_entries in
          final_of_current ledger findings stamp run_id queued dispatched is_dict k f e)
    ]
