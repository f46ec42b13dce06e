-- ===== src/Cron/Table/RoundTrip.antt =====
-- What is stored of a job is read back.
use text.Mathlib.Text.{◌==◌ as str_eq}
use text.Mathlib.TextPositions.{eq_refl}
use mathlib.Core.List.{append-nil, append_assoc}
use oxicrab.Base.{
  ◌<◌, true, false, String, some, List, [], ◌∷◌, ◌++◌, ◌≡◌, refl, arith, sym, ◌∙◌, ap, any,
  Bool-cases, inl, inr, leb,
}
use oxicrab.Base.Result.{Result-cases, Result, Result-cases, ok, err}
use oxicrab.EventMatcher.{CronSchedule, at, every, cron, event}
use oxicrab.Cron.Schedule.{duplicate_key, CronError}
use oxicrab.Cron.Table.{
  CronTarget, CronJobRow, CronTables, Job, schedule_type_str, schedule_columns, schedule_from_row,
  read_cooldown, row_of_job, job_of_row, targets_of, insert_targets, is_target, insert_cron_job,
  find_job, get_cron_job,
}

-- A schedule is read back from its columns.
schedule_from_row-columns :
    (s : CronSchedule) → schedule_from_row (schedule_type_str s) (schedule_columns s) ≡ ok s
unfolding schedule_from_row schedule_type_str schedule_columns
schedule_from_row-columns (at t) = refl
schedule_from_row-columns (every t) = refl
schedule_from_row-columns (cron expr tz) = refl
schedule_from_row-columns (event pattern channel) = refl

-- The values that a column of the row holds unchanged.
pub record IsStorable (job : Job) : Type 0 where
  pub cooldown : read_cooldown job.cooldown_secs ≡ job.cooldown_secs
  pub runs : job.state.run_count < 4294967296

job_of_row-row_of_job :
    (job : Job) → IsStorable job → job_of_row job.rest.payload.targets (row_of_job job) ≡ ok job
unfolding job_of_row row_of_job
job_of_row-row_of_job job v =
    let runs : leb 4294967296 job.state.run_count ≡ false = ground (arith, v.runs) in
    rw (schedule_from_row-columns job.schedule, runs, v.cooldown) refl

ok_inj {ℓ} : {A : Type ℓ} (a b : A) → ◌≡◌ {A = Result CronError A} (ok a) (ok b) → a ≡ b
ok_inj a b e = cc e

targets_of-snoc :
    (id : String) (x : CronTarget) (rows : List (String × CronTarget))
    → targets_of id (rows ++ ((id, x) ∷ [])) ≡ targets_of id rows ++ (x ∷ [])
unfolding targets_of
targets_of-snoc id x [] = rw (eq_refl id) refl
targets_of-snoc id x (r ∷ rows) = elim (Bool-cases (str_eq r.0 id)) [
  | inl e ↦ rw e (ap (λ ts. r.1 ∷ ts) (targets_of-snoc id x rows))
  | inr e ↦ rw e (targets_of-snoc id x rows)
]

-- No row of the table belongs to the job.
targets_of-insert :
    (id : String) (targets : List CronTarget) (rows after : List (String × CronTarget))
    → insert_targets id targets rows ≡ ok after
    → targets_of id after ≡ targets_of id rows ++ targets
unfolding insert_targets
targets_of-insert id [] rows after e =
    ap (targets_of id) (sym (ok_inj rows after e)) ∙ sym (append-nil (targets_of id rows))
targets_of-insert id (x ∷ xs) rows after e = elim (Bool-cases (any (is_target id x) rows)) [
  | inl f ↦ let g : err duplicate_key ≡ ok after = rw f at e in absurd (ground arith)
  | inr f ↦
      targets_of-insert id xs (rows ++ ((id, x) ∷ [])) after (rw f at e)
      ∙ ap (λ ts. ts ++ xs) (targets_of-snoc id x rows)
      ∙ append_assoc (targets_of id rows) (x ∷ []) xs
]

find_job-append :
    (id : String) (rows : List CronJobRow) (r : CronJobRow)
    → any (λ q. str_eq q.id id) rows ≡ false
    → str_eq r.id id ≡ true
    → find_job id (rows ++ (r ∷ [])) ≡ some r
unfolding find_job
find_job-append id [] r h e = rw e refl
find_job-append id (q ∷ qs) r h e = elim (Bool-cases (str_eq q.id id)) [
  | inl f ↦ absurd (ground arith)
  | inr f ↦ rw f (find_job-append id qs r (rw f at h) e)
]

row_of_job-id : (job : Job) → str_eq (row_of_job job).id job.id ≡ true
unfolding row_of_job
row_of_job-id job = eq_refl job.id

-- A job that the table takes is read back by its id as it was, where no target of the id is left over,
-- its count fits `u32` and its cool-down fits `i64`.
pub get-insert :
    (job : Job) (t t' : CronTables)
    → IsStorable job
    → targets_of job.id t.targets ≡ []
    → insert_cron_job job t ≡ ok t'
    → get_cron_job job.id t' ≡ ok (some job)
unfolding get_cron_job insert_cron_job
get-insert job t t' v clean e = elim (Bool-cases (any (λ r. str_eq r.id job.id) t.jobs)) [
  | inl f ↦ let g : err duplicate_key ≡ ok t' = rw f at e in absurd (ground arith)
  | inr f ↦ elim (Result-cases (insert_targets job.id job.rest.payload.targets t.targets)) [
    | inr (x, g) ↦ let h : err x ≡ ok t' = rw (f, g) at e in absurd (ground arith)
    | inl (rows, g) ↦
        let same = ok_inj _ t' (rw (f, g) at e) in
        rw (sym same) (
          rw
            (
              find_job-append job.id t.jobs (row_of_job job) f (row_of_job-id job),
              targets_of-insert job.id job.rest.payload.targets t.targets rows g,
              clean,
              job_of_row-row_of_job job v,
              get_cron_job,
            )
            refl)
  ]
]
