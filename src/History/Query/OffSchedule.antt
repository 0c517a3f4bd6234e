-- ===== src/History/Query/OffSchedule.antt =====
-- `last_scheduled_terminal_run`, on which the schedule decides.
use herdr_routines.Prelude.{
  ap, subst, String, ◌≡◌, refl, ◌∙◌, true, false, ◌||◌, Option, none, some, List, [], ◌∷◌, ◌++◌,
  arith, str_eq, eq_iff, eq_refl, keep_if, keep_if-append, Memᴰ, Memᴰ-keep_if, if◌then◌else◌, All,
  inl, inr, ◌⊎◌,
}
use herdr_routines.History.{running, HistoryRecord, is_terminal, truthy, is_off_schedule}
use herdr_routines.History.Query.{
  read_job, run_id_in, add, discard, Scan, scan_record, scan_from, last_scheduled_terminal_run,
}

abbrev start : Scan
start = record { off_schedule_run_ids = []; latest = none }

scan_from-append :
    (s : Scan) (xs ys : List HistoryRecord) → scan_from s (xs ++ ys) ≡ scan_from (scan_from s xs) ys
unfolding scan_from
scan_from-append s [] ys = refl
scan_from-append s (x ∷ xs) ys = scan_from-append (scan_record x s) xs ys

-- What the loop may return from the records that it has read.
abbrev IsCounted : HistoryRecord → Type 0
IsCounted r = (is_terminal r.state ≡ true) × (is_off_schedule r ≡ false)

abbrev Sound : List HistoryRecord → Option HistoryRecord → Type 0
Sound seen none = Unit
Sound seen (some r) = Memᴰ r seen × IsCounted r

scan_record_cases :
    (r : HistoryRecord) (s : Scan)
    → ((scan_record r s).latest ≡ s.latest) ⊎ (((scan_record r s).latest ≡ some r) × IsCounted r)
unfolding scan_record
scan_record_cases r s = ground arith

scan_from_sound :
    (all rest : List HistoryRecord) (s : Scan)
    → ((r : HistoryRecord) → Memᴰ r rest → Memᴰ r all)
    → ((r : HistoryRecord) → s.latest ≡ some r → Memᴰ r all × IsCounted r)
    → (r : HistoryRecord) → (scan_from s rest).latest ≡ some r
    → Memᴰ r all × IsCounted r
unfolding scan_from
scan_from_sound all [] s sub h r e = h r e
scan_from_sound all (q ∷ rest) s sub h r e =
    scan_from_sound all rest (scan_record q s) (λ x m. sub x (Memᴰ.tail m))
      (λ x ex. elim (scan_record_cases q s) [
        | inl same ↦ h x (cc)
        | inr (new, counted) ↦
            let same : q ≡ x = cc in
            subst (λ y. Memᴰ y all × IsCounted y) same (sub q (Memᴰ.head refl), counted)
      ])
      r e

-- The record that the schedule counts from is a terminal record of the job in the history, and
-- its own trigger is not off-schedule.
pub last_scheduled_sound :
    (records : List HistoryRecord) (job_name : String) (r : HistoryRecord)
    → last_scheduled_terminal_run records job_name ≡ some r
    → Memᴰ r records
      × (r.job ≡ job_name)
      × (is_terminal r.state ≡ true)
      × (is_off_schedule r ≡ false)
unfolding last_scheduled_terminal_run read_job
last_scheduled_sound records job_name r h =
    let rs = keep_if (λ (q : HistoryRecord). str_eq q.job job_name) records in
    let (m, counted) = scan_from_sound rs rs start (λ x k. k) (λ x e. absurd (cc)) r h in
    let (listed, same) = Memᴰ-keep_if (λ (q : HistoryRecord). str_eq q.job job_name) r records m in
    (listed, (eq_iff r.job job_name).0 same, counted.0, counted.1)

keep_if-others :
    (job_name : String) (mid : List HistoryRecord)
    → All (λ r. str_eq r.job job_name ≡ false) mid
    → keep_if (λ (r : HistoryRecord). str_eq r.job job_name) mid ≡ []
keep_if-others job_name [] h = refl
keep_if-others job_name (r ∷ mid) h = rw h.0 (keep_if-others job_name mid h.1)

in_add :
    (id : Option String) (ids : List String) → truthy id ≡ true → run_id_in id (add id ids) ≡ true
in_add none ids h = cc
in_add (some s) ids h = rw (eq_refl s) refl

elem-discard : (s : String) (ids : List String) → run_id_in (some s) (discard (some s) ids) ≡ false
elem-discard s [] = refl
elem-discard s (j ∷ ids) = ground (arith, elem-discard s ids)

in_discard : (id : Option String) (ids : List String) → run_id_in id (discard id ids) ≡ false
in_discard none ids = refl
in_discard (some s) ids = elem-discard s ids

scan_begin :
    (r : HistoryRecord) (s : Scan)
    → r.state ≡ running
    → truthy r.run_id ≡ true
    → scan_record r s ≡ (
        if is_off_schedule r
        then record s { off_schedule_run_ids = add r.run_id s.off_schedule_run_ids }
        else record s { off_schedule_run_ids = discard r.run_id s.off_schedule_run_ids })
unfolding scan_record
scan_begin r s run id = rw (run, id) refl

scan_fin :
    (r : HistoryRecord) (s : Scan)
    → is_terminal r.state ≡ true
    → (scan_record r s).latest ≡ (
        if is_off_schedule r || run_id_in r.run_id s.off_schedule_run_ids then s.latest else some r)
unfolding scan_record
scan_fin r s term = ground arith

scan_run :
    (begin fin : HistoryRecord) (s : Scan)
    → begin.state ≡ running
    → is_terminal fin.state ≡ true
    → truthy begin.run_id ≡ true
    → fin.run_id ≡ begin.run_id
    → (scan_record fin (scan_record begin s)).latest
      ≡ (if is_off_schedule begin || is_off_schedule fin then s.latest else some fin)
scan_run begin fin s run term id same =
    scan_fin fin (scan_record begin s) term
    ∙ rw (scan_begin begin s run id, same)
        (ground (
          arith,
          in_add begin.run_id s.off_schedule_run_ids id,
          in_discard begin.run_id s.off_schedule_run_ids,
        ))

-- One run of the job: its `running` record, records of other jobs, and its terminal record. Run
-- off-schedule it leaves the record that the schedule counts from as it was; otherwise its
-- terminal record becomes that record, unless the terminal record names another trigger itself.
pub last_scheduled-append_run :
    (records mid : List HistoryRecord) (job_name : String) (begin fin : HistoryRecord)
    → begin.job ≡ job_name
    → fin.job ≡ job_name
    → All (λ r. str_eq r.job job_name ≡ false) mid
    → begin.state ≡ running
    → is_terminal fin.state ≡ true
    → truthy begin.run_id ≡ true
    → fin.run_id ≡ begin.run_id
    → last_scheduled_terminal_run (records ++ begin ∷ (mid ++ fin ∷ [])) job_name ≡ (
        if is_off_schedule begin || is_off_schedule fin
        then last_scheduled_terminal_run records job_name
        else some fin)
unfolding last_scheduled_terminal_run read_job
last_scheduled-append_run records mid job_name begin fin ob of others run term id same =
    let p = λ (r : HistoryRecord). str_eq r.job job_name in
    let only : keep_if p (mid ++ fin ∷ []) ≡ fin ∷ [] =
      keep_if-append p mid (fin ∷ [])
      ∙ rw (keep_if-others job_name mid others, of, eq_refl job_name) refl in
    let listed : keep_if p (records ++ begin ∷ (mid ++ fin ∷ []))
        ≡ keep_if p records ++ begin ∷ fin ∷ [] =
      keep_if-append p records (begin ∷ (mid ++ fin ∷ [])) ∙ rw (ob, eq_refl job_name, only) refl in
    ap (λ (l : List HistoryRecord). (scan_from start l).latest) listed
    ∙ ap (λ (s : Scan). s.latest) (scan_from-append start (keep_if p records) (begin ∷ fin ∷ []))
    ∙ (unfold scan_from in
        scan_run begin fin (scan_from start (keep_if p records)) run term id same)
