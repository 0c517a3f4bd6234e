-- ===== src/Tick/Isolation.antt =====
-- tick.py: the exception of one job, and the other jobs of the tick.
use herdr_routines.Prelude.{
  ℕ, String, str_eq, eq_refl, ◌≡◌, refl, ap, ◌∙◌, Bool, true, false, not, Option, none, some, List,
  [], ◌∷◌, ◌++◌, map, subst, sym, ◌≢◌, ◌==◌, ◌&&◌, eq_iff, Memᴰ-keep_if, if◌then◌else◌, keep_if,
  keep_if-append, any_of, any_of-append, arith, Bool-cases, inl, inr, Memᴰ, keep_if-Memᴰ,
  Memᴰ-append, ◌⊎◌,
}
use herdr_routines.Prelude.NoneOf.{NoneOf-Memᴰ, keep_if_none}
use herdr_routines.History.{HistoryRecord, is_terminal, is_running, truthy}
use herdr_routines.History.Query.{read_job, run_id_in, terminal_run_ids}
use herdr_routines.History.Query.Guards.{same_id, run_id_in-terminal_run_ids, closes, same_id_refl}
use herdr_routines.Tick.{
  Job, History, is_pipeline, is_open_now, open_run_ids, closing_records, failure_record,
  record_unexpected_failure,
}

map_Memᴰ {ℓ κ} :
    {A : Type ℓ} {B : Type κ} (f : A → B) (a : A) (xs : List A) → Memᴰ a xs → Memᴰ (f a) (map f xs)
map_Memᴰ f a [] m = elim m [ ]
map_Memᴰ f a (x ∷ xs) (Memᴰ.head e) = Memᴰ.head (ap f e)
map_Memᴰ f a (x ∷ xs) (Memᴰ.tail m) = Memᴰ.tail (map_Memᴰ f a xs m)

module _ (job : Job) (now : ℕ) (error : String) where
  abbrev is_own : HistoryRecord → Bool
  is_own r = str_eq r.job job.name

  own_records :
      (ids : List (Option String))
      → keep_if is_own (map (failure_record job now error) ids)
        ≡ map (failure_record job now error) ids
  own_records [] = refl
  own_records (id ∷ ids) = rw (eq_refl job.name, own_records ids) refl

  own_closing :
      (ids : List (Option String))
      → is_pipeline job.kind ≡ false
      → keep_if is_own (closing_records job now error ids) ≡ closing_records job now error ids
  own_closing [] k = own_records (none ∷ [])
  own_closing (id ∷ ids) k = go (is_pipeline job.kind) k
    where
      go :
          (b : Bool)
          → b ≡ false
          → keep_if is_own (if b then [] else map (failure_record job now error) (id ∷ ids))
            ≡ (if b then [] else map (failure_record job now error) (id ∷ ids))
      go true e = refl
      go false e = own_records (id ∷ ids)

  closed_in :
      (id : Option String) (ids : List (Option String))
      → Memᴰ id ids
      → truthy id ≡ true
      → any_of (closes id) (map (failure_record job now error) ids) ≡ true
  closed_in id [] m t = elim m [ ]
  closed_in id (i ∷ ids) (Memᴰ.head e) t = rw (← e, t, same_id_refl id t) refl
  closed_in id (i ∷ ids) (Memᴰ.tail m) t = ground (arith, closed_in id ids m t)

  closed_by :
      (id : Option String) (ids : List (Option String))
      → is_pipeline job.kind ≡ false
      → Memᴰ id ids
      → truthy id ≡ true
      → any_of (closes id) (closing_records job now error ids) ≡ true
  closed_by id [] k m t = elim m [ ]
  closed_by id (i ∷ ids) k m t = go (is_pipeline job.kind) k
    where
      go :
          (b : Bool)
          → b ≡ false
          → any_of (closes id) (if b then [] else map (failure_record job now error) (i ∷ ids))
            ≡ true
      go true e = cc
      go false e = closed_in id (i ∷ ids) m t

  mapped_end :
      (ids : List (Option String)) (r : HistoryRecord)
      → Memᴰ r (map (failure_record job now error) ids)
      → is_running r.state ≡ false
  mapped_end [] r m = elim m [ ]
  mapped_end (id ∷ ids) r (Memᴰ.head e) = ap (λ (x : HistoryRecord). is_running x.state) e
  mapped_end (id ∷ ids) r (Memᴰ.tail m) = mapped_end ids r m

  closing_end :
      (ids : List (Option String)) (r : HistoryRecord)
      → Memᴰ r (closing_records job now error ids)
      → is_running r.state ≡ false
  closing_end [] r m = mapped_end (none ∷ []) r m
  closing_end (id ∷ ids) r m = go (is_pipeline job.kind) m
    where
      go :
          (b : Bool)
          → Memᴰ r (if b then [] else map (failure_record job now error) (id ∷ ids))
          → is_running r.state ≡ false
      go true n = elim n [ ]
      go false n = mapped_end (id ∷ ids) r n

  still_open :
      (rs : List HistoryRecord) (r : HistoryRecord)
      → is_pipeline job.kind ≡ false
      → Memᴰ r rs
      → is_open_now job now
          (terminal_run_ids (rs ++ closing_records job now error (open_run_ids job now rs)))
          r
        ≡ false
  unfolding open_run_ids
  still_open rs r k m = go (Bool-cases (is_open_now job now (terminal_run_ids (rs ++ closing)) r))
    where
      closing : List HistoryRecord
      closing = closing_records job now error (open_run_ids job now rs)

      go :
          ((is_open_now job now (terminal_run_ids (rs ++ closing)) r ≡ true)
            ⊎ (is_open_now job now (terminal_run_ids (rs ++ closing)) r ≡ false))
          → is_open_now job now (terminal_run_ids (rs ++ closing)) r ≡ false
      go (inr e) = e
      go (inl e) =
          let id = r.run_id in
          let after = run_id_in-terminal_run_ids id (rs ++ closing) in
          let before = run_id_in-terminal_run_ids id rs in
          let split = any_of-append (closes id) rs closing in
          let was : is_open_now job now (terminal_run_ids rs) r ≡ true =
            ground (arith, after, before, split, e) in
          let named =
            map_Memᴰ (λ (x : HistoryRecord). x.run_id) r _
              (keep_if-Memᴰ (is_open_now job now (terminal_run_ids rs)) r rs m was) in
          let shut = closed_by id (open_run_ids job now rs) k named (ground (arith, e)) in
          ground (arith, after, split, shut, e)

  none_open :
      (history : History)
      → is_pipeline job.kind ≡ false
      → open_run_ids job now
          (read_job (record_unexpected_failure job now error history) job.name none)
        ≡ []
  unfolding record_unexpected_failure open_run_ids read_job
  none_open history k =
      let rs = keep_if is_own history in
      let closing = closing_records job now error (open_run_ids job now rs) in
      let own : keep_if is_own (history ++ closing) ≡ rs ++ closing =
        keep_if-append is_own history closing
        ∙ ap (λ (l : List HistoryRecord). rs ++ l) (own_closing (open_run_ids job now rs) k) in
      let test = is_open_now job now (terminal_run_ids (rs ++ closing)) in
      ap (open_run_ids job now) own
      ∙ ap (map (λ (r : HistoryRecord). r.run_id)) (
          keep_if_none test (rs ++ closing) (
            NoneOf-Memᴰ test (rs ++ closing) (λ r m. elim (Memᴰ-append r rs m) [
              | inl n ↦ still_open rs r k n
              | inr n ↦
                  let ended = closing_end (open_run_ids job now rs) r n in ground (arith, ended)
            ])))

  closed_record :
      (id : String) (rs : List HistoryRecord)
      → any_of (closes (some id)) rs ≡ true
      → (fin : HistoryRecord) × (Memᴰ fin rs
          × (is_terminal fin.state ≡ true)
          × (fin.run_id ≡ some id))
  closed_record id [] h = absurd cc
  closed_record id (r ∷ rs) h = elim (Bool-cases (closes (some id) r)) [
    | inl e ↦ (r, (Memᴰ.head refl, ground (arith, e), same_of r.run_id (ground (arith, e))))
    | inr e ↦
        let (fin, (m, t, i)) = closed_record id rs (ground (arith, e, h)) in
        (fin, (Memᴰ.tail m, t, i))
  ]
    where
      same_of : (o : Option String) → same_id (some id) o ≡ true → o ≡ some id
      same_of none q = absurd cc
      same_of (some s) q = ap some ((eq_iff s id).0 q)

  -- After an unexpected error of a job that is no pipeline, every running record of the job with the
  -- time of this tick and a run id has a terminal record of the job with that id in the history.
  pub record_unexpected_failure_closes :
      (history : History) (r : HistoryRecord) (id : String)
      → is_pipeline job.kind ≡ false
      → Memᴰ r (record_unexpected_failure job now error history)
      → r.job ≡ job.name
      → is_running r.state ≡ true
      → r.ts ≡ now
      → r.run_id ≡ some id
      → id ≢ ""
      → (fin : HistoryRecord) × (Memᴰ fin (record_unexpected_failure job now error history)
          × (fin.job ≡ job.name)
          × (is_terminal fin.state ≡ true)
          × (fin.run_id ≡ some id))
  unfolding read_job open_run_ids
  record_unexpected_failure_closes history r id k m own run at named nonempty =
      let after = record_unexpected_failure job now error history in
      let rs = keep_if is_own after in
      let mine = keep_if-Memᴰ is_own r after m ((eq_iff r.job job.name).1 own) in
      let ids = terminal_run_ids rs in
      elim (Bool-cases (is_open_now job now ids r)) [
        | inl open_now ↦
            elim (subst (Memᴰ r.run_id) (none_open history k) (
              map_Memᴰ (λ (x : HistoryRecord). x.run_id) r _
                (keep_if-Memᴰ (is_open_now job now ids) r rs mine open_now))) [ ]
        | inr shut ↦
            let inside = run_id_in-terminal_run_ids (some id) rs in
            let is_now : (r.ts == now) ≡ true = ground (arith, at) in
            let closed : run_id_in (some id) ids ≡ true = by_name r.run_id named shut is_now in
            let (fin, (n, t, i)) = closed_record id rs (sym inside ∙ closed) in
            let kept = Memᴰ-keep_if is_own fin after n in
            (fin, (kept.0, (eq_iff fin.job job.name).0 kept.1, t, i))
      ]
    where
      by_name :
          (o : Option String)
          → o ≡ some id
          → (is_running r.state
              && r.ts == now
              && truthy o
              && not (
                  run_id_in o (
                    terminal_run_ids
                      (keep_if is_own (record_unexpected_failure job now error history)))))
            ≡ false
          → (r.ts == now) ≡ true
          → run_id_in
              (some id)
              (terminal_run_ids (keep_if is_own (record_unexpected_failure job now error history)))
            ≡ true
      by_name o e q t = let a = rw e at q in ground (arith, a, t, run, nonempty, eq_iff id "")
