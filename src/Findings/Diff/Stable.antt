-- ===== src/Findings/Diff/Stable.antt =====
-- The same findings again, right after a cycle that recorded them.
use herdr_routines.Prelude.{
  String, str_eq, eq_iff, ◌≡◌, refl, sym, ◌∙◌, inl, inr, Bool, true, false, Option, none, some,
  List, [], ◌∷◌, ◌++◌, Memᴰ, arith, Bool-cases, keep_if, Memᴰ-keep_if,
}
use herdr_routines.Prelude.Dict.{Dict, get, put, values, get-put}
use herdr_routines.Prelude.Sort.{sorted, Memᴰ-sorted}
use herdr_routines.Findings.{
  Finding, LedgerEntry, Ledger, FindingDiff, is_open, open_, order_le, text_le,
}
use herdr_routines.Findings.Diff.{
  collect_from, is_new, is_regressed, diff_findings, apply_diff, opened, closed, write_open,
  write_one, write_resolved,
}
use herdr_routines.Findings.Diff.Current.{
  IsDict, Keyed-collect_from, get_of_value, open_of_resolved,
}
use herdr_routines.Findings.Diff.Cycle.{expected, get-apply_diff}

nil_of_no_mem {ℓ} : {A : Type ℓ} (xs : List A) → ((a : A) → Memᴰ a xs → ⊥) → xs ≡ []
nil_of_no_mem [] h = refl
nil_of_no_mem (x ∷ xs) h = absurd (h x (Memᴰ.head refl))

IsDict-put {ℓ} : {V : Type ℓ} (k : String) (v : V) (d : Dict V) → IsDict d → IsDict (put k v d)
unfolding put
IsDict-put k v [] h = (unfold get in refl, tt)
IsDict-put k v ((j, w) ∷ d) h = elim (Bool-cases (str_eq j k)) [
  | inl e ↦ rw e (h.0, h.1)
  | inr e ↦
      let other : str_eq k j ≡ false = ground (arith, eq_iff j k, eq_iff k j) in
      rw e (get-put k j v d ∙ rw other h.0, IsDict-put k v d h.1)
]

IsDict-write_open :
    (old : Dict LedgerEntry) (stamp run_id : String) (queued dispatched : List String)
    (fs : List Finding) (d : Dict LedgerEntry)
    → IsDict d
    → IsDict (write_open old stamp run_id queued dispatched fs d)
unfolding write_open
IsDict-write_open old stamp run_id queued dispatched [] d h = h
IsDict-write_open old stamp run_id queued dispatched (f ∷ fs) d h =
    IsDict-write_open old stamp run_id queued dispatched fs _ (IsDict-put f.id _ d h)

IsDict-write_one :
    (old : Dict LedgerEntry) (stamp k : String) (o : Option LedgerEntry) (d : Dict LedgerEntry)
    → IsDict d
    → IsDict (write_one old stamp k o d)
IsDict-write_one old stamp k none d h = h
IsDict-write_one old stamp k (some e) d h = IsDict-put k (closed e stamp) d h

IsDict-write_resolved :
    (old : Dict LedgerEntry) (stamp : String) (ids : List String) (d : Dict LedgerEntry)
    → IsDict d
    → IsDict (write_resolved old stamp ids d)
unfolding write_resolved
IsDict-write_resolved old stamp [] d h = h
IsDict-write_resolved old stamp (k ∷ ids) d h =
    IsDict-write_resolved old stamp ids _ (IsDict-write_one old stamp k (get k old) d h)

-- The ledger of a Python dict stays one.
pub IsDict-apply_diff :
    (ledger : Ledger) (diff : FindingDiff) (stamp run_id : String) (queued dispatched : List String)
    → IsDict ledger.entries
    → let after = apply_diff ledger diff stamp run_id queued dispatched in IsDict after.entries
unfolding apply_diff
IsDict-apply_diff ledger diff stamp run_id queued dispatched h =
    IsDict-write_resolved ledger.entries stamp diff.resolved _ (
      IsDict-write_open ledger.entries stamp run_id queued dispatched
        (diff.new ++ (diff.regressed ++ diff.unchanged)) ledger.entries h)

opened_fields :
    (o : Option LedgerEntry) (f : Finding) (stamp run_id : String) (queued dispatched : List String)
    → ((opened o f stamp run_id queued dispatched).state ≡ open_)
      × ((opened o f stamp run_id queued dispatched).severity ≡ f.severity)
unfolding opened
opened_fields none f stamp run_id queued dispatched = (refl, refl)
opened_fields (some e) f stamp run_id queued dispatched = (refl, refl)

quiet :
    (entries : Dict LedgerEntry) (f : Finding) (e : LedgerEntry)
    → get f.id entries ≡ some e
    → e.state ≡ open_
    → e.severity ≡ f.severity
    → (is_new entries f ≡ false) × (is_regressed entries f ≡ false)
unfolding is_new is_regressed
quiet entries f e h o s = (ground arith, ground arith)

none_open :
    (o : Option LedgerEntry) (e : LedgerEntry) (stamp run_id : String)
    (queued dispatched : List String)
    → expected none o stamp run_id queued dispatched ≡ some e
    → is_open e.state ≡ true
    → ⊥
unfolding closed
none_open none e stamp run_id queued dispatched h o = cc
none_open (some q) e stamp run_id queued dispatched h o = ground arith

empty_part :
    (p : Finding → Bool) (fs : List Finding)
    → ((f : Finding) → Memᴰ f fs → p f ≡ false)
    → sorted order_le (keep_if p fs) ≡ []
empty_part p fs h = nil_of_no_mem _ λ f m.
    let (n, e) = Memᴰ-keep_if p f fs (Memᴰ-sorted order_le f (keep_if p fs) m) in
    let no : p f ≡ false = h f n in cc

-- Diffing the same findings against the ledger that the cycle wrote reports nothing new, nothing
-- regressed and nothing resolved.
pub diff_after_apply :
    (ledger : Ledger) (findings : List Finding) (stamp run_id : String)
    (queued dispatched : List String)
    → IsDict ledger.entries
    → let after =
        apply_diff ledger (diff_findings findings (some ledger)) stamp run_id queued dispatched in
      let again = diff_findings findings (some after) in
      (again.new ≡ []) × (again.regressed ≡ []) × (again.resolved ≡ [])
unfolding diff_findings
diff_after_apply ledger findings stamp run_id queued dispatched is_dict = (
  empty_part (is_new after.entries) (values current) (λ f m. (still f m).0),
  empty_part (is_regressed after.entries) (values current) (λ f m. (still f m).1),
  nil_of_no_mem _ λ k m.
      let (e, g, o, n) =
        open_of_resolved current k after.entries
          (IsDict-apply_diff ledger (diff_findings findings (some ledger)) stamp run_id queued
            dispatched is_dict)
          (Memᴰ-sorted text_le k _ m) in
      none_open (get k ledger.entries) e stamp run_id queued dispatched
        (rw n at (sym (at_key k) ∙ g)) o,
)
  where
    after : Ledger
    after = apply_diff ledger (diff_findings findings (some ledger)) stamp run_id queued dispatched

    current : Dict Finding
    current = collect_from [] findings

    at_key :
        (k : String)
        → get k after.entries
          ≡ expected (get k current) (get k ledger.entries) stamp run_id queued dispatched
    at_key = get-apply_diff ledger findings stamp run_id queued dispatched is_dict

    still :
        (f : Finding)
        → Memᴰ f (values current)
        → (is_new after.entries f ≡ false) × (is_regressed after.entries f ≡ false)
    still f m =
        let e = opened (get f.id ledger.entries) f stamp run_id queued dispatched in
        let (s, v) = opened_fields (get f.id ledger.entries) f stamp run_id queued dispatched in
        let h : get f.id current ≡ some f =
          get_of_value f current (Keyed-collect_from [] findings tt) m in
        quiet after.entries f e (rw h at (at_key f.id)) s v
