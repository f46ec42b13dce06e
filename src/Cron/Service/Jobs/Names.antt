-- ===== src/Cron/Service/Jobs/Names.antt =====
-- The name under which a job is added.
use text.Mathlib.Text.{◌==◌ as str_eq}
use oxicrab.Base.{
  ◌∙◌, ℕ, zero, suc, ◌+◌, false, String, Option, none, some, List, [], ◌∷◌, ◌++◌, ◌≡◌, refl, sym,
  subst, ap, any, Bool-cases, inl, inr,
}
use oxicrab.Base.Result.{Result-cases, ok}
use oxicrab.Cron.Schedule.{CronCrate, compute_next_run, no_unique_suffix, duplicate_key}
use oxicrab.Cron.Table.{CronJobRow, CronTables, Job, row_of_job, insert_targets, insert_cron_job}
use oxicrab.Cron.Table.Listing.{ok_inj, err-ok}
use oxicrab.Cron.Table.Updates.{
  Lowering, is_named, suffixed, free_suffix, next_cron_job_name_suffix,
}
use oxicrab.Cron.Service.{or_computed}
use oxicrab.Cron.Service.Jobs.{with_suffix, with_first_run, add_job}

-- No job has the candidate that the search stops at.
free_suffix-free :
    (w : Lowering) (base : String) (fuel n m : ℕ) (rows : List CronJobRow)
    → free_suffix w base fuel n rows ≡ ok m
    → any (λ r. str_eq (w.sql_lower r.name) (suffixed base m)) rows ≡ false
unfolding free_suffix
free_suffix-free w base zero n m rows e = absurd (err-ok no_unique_suffix m e)
free_suffix-free w base (suc fuel) n m rows e =
    elim (Bool-cases (any (λ r. str_eq (w.sql_lower r.name) (suffixed base n)) rows)) [
      | inl f ↦ free_suffix-free w base fuel (n + 1) m rows (rw f at e)
      | inr f ↦
          subst (λ x. any (λ r. str_eq (w.sql_lower r.name) (suffixed base x)) rows ≡ false)
            (ok_inj n m (rw f at e)) f
    ]

-- The name with the suffix that is chosen.
abbrev pub stored_name : Option ℕ → String → String
stored_name none name = name
stored_name (some n) name = suffixed name n

next_suffix-free :
    (w : Lowering) (name : String) (t : CronTables) (n : Option ℕ)
    → ((k : ℕ) → w.sql_lower (suffixed name k) ≡ suffixed (w.to_lowercase name) k)
    → next_cron_job_name_suffix w name t ≡ ok n
    → any (is_named w (stored_name n name)) t.jobs ≡ false
unfolding next_cron_job_name_suffix is_named
next_suffix-free w name t n lowered e =
    elim (Bool-cases (any (λ r. str_eq (w.sql_lower r.name) (w.sql_lower name)) t.jobs)) [
      | inr f ↦
          subst
            (λ x.
              any (λ r. str_eq (w.sql_lower r.name) (w.sql_lower (stored_name x name))) t.jobs
              ≡ false)
            (ok_inj none n (rw f at e)) f
      | inl f ↦ elim (Result-cases (free_suffix w (w.to_lowercase name) 10000 2 t.jobs)) [
        | inr (x, g) ↦ absurd (err-ok x n (rw (f, g) at e))
        | inl (m, g) ↦
            subst
              (λ x.
                any (λ r. str_eq (w.sql_lower r.name) (w.sql_lower (stored_name x name))) t.jobs
                ≡ false)
              (ok_inj (some m) n (rw (f, g) at e))
              (rw (lowered m) (free_suffix-free w (w.to_lowercase name) 10000 2 m t.jobs g))
      ]
    ]

-- The given first run, or else the computed one.
abbrev pub first_run : Option ℕ → Option ℕ → Option ℕ
first_run (some given) computed = some given
first_run none computed = computed

or_computed-first_run :
    (given computed : Option ℕ) → or_computed given computed ≡ first_run given computed
unfolding or_computed
or_computed-first_run none computed = refl
or_computed-first_run (some given) computed = refl

-- The row of the job that is added.
abbrev pub added_row : CronCrate → ℕ → Option ℕ → Job → CronJobRow
added_row c now n job = record (row_of_job job) {
  name = stored_name n job.rest.name;
  state = record (job.state) {
    next_run_at_ms = first_run job.state.next_run_at_ms (compute_next_run c job.schedule now);
  };
}

row_of_job-added :
    (c : CronCrate) (now : ℕ) (n : Option ℕ) (job : Job)
    → row_of_job (with_first_run c now (with_suffix n job)) ≡ added_row c now n job
unfolding row_of_job with_first_run with_suffix
row_of_job-added c now none job =
    ap
      (λ next. record (row_of_job job) {
        name = job.rest.name;
        state = record (job.state) { next_run_at_ms = next };
      })
      (or_computed-first_run job.state.next_run_at_ms (compute_next_run c job.schedule now))
row_of_job-added c now (some n) job =
    ap
      (λ next. record (row_of_job job) {
        name = suffixed job.rest.name n;
        state = record (job.state) { next_run_at_ms = next };
      })
      (or_computed-first_run job.state.next_run_at_ms (compute_next_run c job.schedule now))

insert_cron_job-jobs :
    (job : Job) (t t' : CronTables)
    → insert_cron_job job t ≡ ok t'
    → t'.jobs ≡ t.jobs ++ (row_of_job job ∷ [])
unfolding insert_cron_job
insert_cron_job-jobs job t t' e = elim (Bool-cases (any (λ r. str_eq r.id job.id) t.jobs)) [
  | inl f ↦ absurd (err-ok duplicate_key t' (rw f at e))
  | inr f ↦ elim (Result-cases (insert_targets job.id job.rest.payload.targets t.targets)) [
    | inr (x, g) ↦ absurd (err-ok x t' (rw (f, g) at e))
    | inl (rows, g) ↦ sym (ap (λ u. u.jobs) (ok_inj _ t' (rw (f, g) at e)))
  ]
]

-- Adding a job appends one row and keeps the others: the row of the job, with its first run computed
-- where none is given, under its own name or that name with a number behind it; and no earlier job has
-- that name in lower case, where SQL's lower case of the name with a number is Rust's lower case of the
-- name with that number.
pub add_job-fresh :
    (c : CronCrate) (w : Lowering) (now : ℕ) (job : Job) (t t' : CronTables)
    → ((k : ℕ) → w.sql_lower (suffixed job.rest.name k) ≡ suffixed (w.to_lowercase job.rest.name) k)
    → add_job c w now job t ≡ ok t'
    → (n : Option ℕ) × (t'.jobs ≡ t.jobs ++ (added_row c now n job ∷ []))
      × (any (is_named w (stored_name n job.rest.name)) t.jobs ≡ false)
unfolding add_job
add_job-fresh c w now job t t' lowered e =
    elim (Result-cases (next_cron_job_name_suffix w job.rest.name t)) [
      | inr (x, f) ↦ absurd (err-ok x t' (rw f at e))
      | inl (n, f) ↦ (
        n,
        insert_cron_job-jobs (with_first_run c now (with_suffix n job)) t t' (rw f at e)
            ∙ ap (λ r. t.jobs ++ (r ∷ [])) (row_of_job-added c now n job),
        next_suffix-free w job.rest.name t n lowered f,
      )
    ]
