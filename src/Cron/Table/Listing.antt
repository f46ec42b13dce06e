-- ===== src/Cron/Table/Listing.antt =====
-- What the list of enabled jobs holds.
use text.Mathlib.Text.{◌==◌ as str_eq}
use oxicrab.Base.{
  Bool, true, false, String, List, [], ◌∷◌, ◌≡◌, subst, All, Bool-cases, inl, inr, filter_by, leb,
}
use oxicrab.Base.Result.{Result, Result-cases, ok, err}
use oxicrab.Base.Signed.{i64_lt}
use oxicrab.EventMatcher.{CronSchedule, at, every, cron, event}
use oxicrab.Cron.Schedule.{CronError, out_of_range, unknown_schedule_type}
use oxicrab.Cron.Schedule.Next.{IsI64}
use oxicrab.Cron.Table.{
  CronTarget, ScheduleColumns, CronJobRow, CronTables, Job, list_cron_jobs, read_jobs, by_creation,
  insert_by_creation, job_of_row, job_with, schedule_from_row, targets_of,
}

-- The interval of a row is an `i64`.
abbrev pub IsI64Row : CronJobRow → Type 0
IsI64Row r = IsI64 (every r.columns.every_ms)

abbrev pub IsListed : Job → Type 0
IsListed job = IsI64 job.schedule × (job.enabled ≡ true)

abbrev IsEnabledRow : CronJobRow → Type 0
IsEnabledRow r = IsI64Row r × (r.enabled ≡ true)

module _ {ℓ} {A : Type ℓ} where
  pub ok_inj : (a b : A) → ◌≡◌ {A = Result CronError A} (ok a) (ok b) → a ≡ b
  ok_inj a b e = cc e

  pub err-ok : (x : CronError) (b : A) → ◌≡◌ {A = Result CronError A} (err x) (ok b) → ⊥
  err-ok x b e = absurd (cc e)

schedule_from_row-IsI64 :
    (s : String) (c : ScheduleColumns) (schedule : CronSchedule)
    → IsI64 (every c.every_ms)
    → schedule_from_row s c ≡ ok schedule
    → IsI64 schedule
unfolding schedule_from_row
schedule_from_row-IsI64 s c schedule v e = elim (Bool-cases (str_eq s "at")) [
  | inl f ↦ subst IsI64 (ok_inj (at c.at_ms) schedule (rw f at e)) tt
  | inr f ↦ elim (Bool-cases (str_eq s "every")) [
    | inl g ↦ subst IsI64 (ok_inj (every c.every_ms) schedule (rw (f, g) at e)) v
    | inr g ↦ elim (Bool-cases (str_eq s "cron")) [
      | inl h ↦ subst IsI64 (ok_inj (cron c.cron_expr c.cron_tz) schedule (rw (f, g, h) at e)) tt
      | inr h ↦ elim (Bool-cases (str_eq s "event")) [
        | inl i ↦
            subst IsI64
              (ok_inj (event c.event_pattern c.event_channel) schedule (rw (f, g, h, i) at e)) tt
        | inr i ↦ absurd (err-ok unknown_schedule_type schedule (rw (f, g, h, i) at e))
      ]
    ]
  ]
]

job_of_row-IsListed :
    (targets : List CronTarget) (r : CronJobRow) (job : Job)
    → IsEnabledRow r
    → job_of_row targets r ≡ ok job
    → IsListed job
unfolding job_of_row
job_of_row-IsListed targets r job v e =
    elim (Result-cases (schedule_from_row r.schedule_type r.columns)) [
      | inr (x, f) ↦ absurd (err-ok x job (rw f at e))
      | inl (s, f) ↦ elim (Bool-cases (leb 4294967296 r.state.run_count)) [
        | inl g ↦ absurd (err-ok out_of_range job (rw (f, g) at e))
        | inr g ↦
            subst IsListed (ok_inj (job_with s targets r) job (rw (f, g) at e))
              (schedule_from_row-IsI64 r.schedule_type r.columns s v.0 f, v.1)
      ]
    ]

read_jobs-IsListed :
    (targets : List (String × CronTarget)) (rows : List CronJobRow) (jobs : List Job)
    → All IsEnabledRow rows
    → read_jobs targets rows ≡ ok jobs
    → All IsListed jobs
unfolding read_jobs
read_jobs-IsListed targets [] jobs a e = subst (All IsListed) (ok_inj [] jobs e) tt
read_jobs-IsListed targets (r ∷ rows) jobs a e =
    elim (Result-cases (job_of_row (targets_of r.id targets) r)) [
      | inr (x, f) ↦ absurd (err-ok x jobs (rw f at e))
      | inl (job, f) ↦ elim (Result-cases (read_jobs targets rows)) [
        | inr (x, g) ↦ absurd (err-ok x jobs (rw (f, g) at e))
        | inl (rest, g) ↦ subst (All IsListed) (ok_inj (job ∷ rest) jobs (rw (f, g) at e)) (
          job_of_row-IsListed (targets_of r.id targets) r job a.0 f,
          read_jobs-IsListed targets rows rest a.1 g,
        )
      ]
    ]

insert_by_creation-All :
    (P : CronJobRow → Type 0) (r : CronJobRow) (rows : List CronJobRow)
    → P r
    → All P rows
    → All P (insert_by_creation r rows)
unfolding insert_by_creation
insert_by_creation-All P r [] p a = (p, tt)
insert_by_creation-All P r (q ∷ rows) p a =
    elim (Bool-cases (i64_lt q.created_at_ms r.created_at_ms)) [
      | inl e ↦ rw e (a.0, insert_by_creation-All P r rows p a.1)
      | inr e ↦ rw e (p, a)
    ]

by_creation-All :
    (P : CronJobRow → Type 0) (rows : List CronJobRow) → All P rows → All P (by_creation rows)
unfolding by_creation
by_creation-All P [] a = tt
by_creation-All P (r ∷ rows) a =
    insert_by_creation-All P r (by_creation rows) a.0 (by_creation-All P rows a.1)

filter_by-passed {ℓ κ} :
    {A : Type ℓ} (P : A → Type κ) (p : A → Bool) (xs : List A)
    → All P xs
    → All (λ x. P x × (p x ≡ true)) (filter_by p xs)
filter_by-passed P p [] a = tt
filter_by-passed P p (x ∷ xs) a = elim (Bool-cases (p x)) [
  | inl e ↦ rw e ((a.0, e), filter_by-passed P p xs a.1)
  | inr e ↦ rw e (filter_by-passed P p xs a.1)
]

-- The listed jobs are enabled, and their intervals are `i64`s if those of the rows are.
pub list_cron_jobs-IsListed :
    (t : CronTables) (jobs : List Job)
    → All IsI64Row t.jobs
    → list_cron_jobs false t ≡ ok jobs
    → All IsListed jobs
unfolding list_cron_jobs
list_cron_jobs-IsListed t jobs a e =
    read_jobs-IsListed t.targets (by_creation (filter_by (λ r. r.enabled) t.jobs)) jobs
      (by_creation-All IsEnabledRow (filter_by (λ r. r.enabled) t.jobs)
        (filter_by-passed IsI64Row (λ r. r.enabled) t.jobs a))
      e
