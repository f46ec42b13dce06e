-- ===== src/Cron/Service/Ticks/Once.antt =====
-- No due time fires a job twice.
use oxicrab.Base.{
  ℕ, ◌<◌, sym, subst, Bool, true, false, not, ◌||◌, ◌&&◌, Option, none, some, List, [], ◌∷◌, ◌≡◌,
  refl, All, All-filter_by, Bool-cases, inl, inr,
}
use oxicrab.Base.Signed.{i64_lt, i64_le, i64_sub}
use oxicrab.EventMatcher.{CronJobState, is_past, is_exhausted}
use oxicrab.Cron.Schedule.{CronCrate, compute_next_run}
use oxicrab.Cron.Schedule.Next.{IsLater, IsI64}
use oxicrab.Cron.Table.{CronTables, CronJobRow, Job, keep_jobs}
use oxicrab.Cron.Table.Listing.{IsI64Row, IsListed, list_cron_jobs-IsListed}
use oxicrab.Cron.Table.Updates.{
  set_state, set_fired, set_enabled, update_cron_job_state, fire_cron_job, update_cron_job_enabled,
  prune_disabled_cron_jobs,
}
use oxicrab.Cron.Service.{
  Tick, Polling, tick, finish_tick, visit_jobs, visit_job, visit_due, disable_job, skip_missed,
  fire_job, or_computed, recover, effective_next, tables_to_fire, prune_due,
}
use oxicrab.Cron.Service.Ticks.Due.{recover-IsI64Row, tick-cases}
use oxicrab.Cron.Service.Ticks.Waiting.{
  is_waiting, AllWait, set_state-IsPostponing, set_fired-IsPostponing, set_disabled-IsPostponing,
  computed-waits, effective_next-waits, update_row-AllWait, update_row-waiting,
}

tables_to_fire-AllWait :
    (now : ℕ) (job : Job) (fired : List Job) (t : CronTables)
    → AllWait now fired t
    → AllWait now fired (tables_to_fire now job t)
unfolding tables_to_fire update_cron_job_enabled
tables_to_fire-AllWait now job fired t a = elim (Bool-cases job.rest.delete_after_run) [
  | inl e ↦ rw e (
      update_row-AllWait now job.id (set_enabled false none now) t fired
        (set_disabled-IsPostponing now now) a)
  | inr e ↦ rw e a
]

fire_job-AllWait :
    (c : CronCrate) (has_callback : Bool) (now : ℕ) (job : Job) (k : Tick)
    → IsLater c
    → now < 9223372036854775807
    → IsI64 job.schedule
    → AllWait now k.jobs_to_fire k.tables
    → AllWait now
        (fire_job c has_callback now job k).jobs_to_fire
        (fire_job c has_callback now job k).tables
unfolding fire_job fire_cron_job
fire_job-AllWait c has_callback now job k later l w a =
    update_row-waiting now (set_fired (effective_next c now job) now now)
      (tables_to_fire now job k.tables) k.jobs_to_fire job
      ((fire_cron_job job.id (effective_next c now job) now now (tables_to_fire now job k.tables)).1
        && has_callback)
      (set_fired-IsPostponing now now now (effective_next c now job)
        (effective_next-waits c now job later l w))
      (tables_to_fire-AllWait now job k.jobs_to_fire k.tables a)

skip_missed-AllWait :
    (c : CronCrate) (now : ℕ) (job : Job) (k : Tick)
    → IsLater c
    → now < 9223372036854775807
    → IsI64 job.schedule
    → AllWait now k.jobs_to_fire k.tables
    → AllWait now (skip_missed c now job k).jobs_to_fire (skip_missed c now job k).tables
unfolding skip_missed update_cron_job_state compute_next_run
skip_missed-AllWait c now job k later l w a =
    let state : CronJobState = record (job.state) {
      next_run_at_ms = compute_next_run c job.schedule now;
    } in
    update_row-AllWait now job.id (set_state state now) k.tables k.jobs_to_fire
      (set_state-IsPostponing now now state (computed-waits c now job.schedule none later l w refl))
      a

visit_due-AllWait :
    (c : CronCrate) (first_tick has_callback : Bool) (now : ℕ) (job : Job) (next : Option ℕ)
    (k : Tick)
    → IsLater c
    → now < 9223372036854775807
    → IsI64 job.schedule
    → AllWait now k.jobs_to_fire k.tables
    → AllWait now
        (visit_due c first_tick has_callback now job next k).jobs_to_fire
        (visit_due c first_tick has_callback now job next k).tables
unfolding visit_due
visit_due-AllWait c first_tick has_callback now job none k later l w a = a
visit_due-AllWait c first_tick has_callback now job (some d) k later l w a =
    elim (Bool-cases (i64_le d now)) [
      | inr e ↦ rw (e, visit_due) a
      | inl e ↦ elim (Bool-cases first_tick) [
        | inl f ↦ rw (e, f) (skip_missed-AllWait c now job k later l w a)
        | inr f ↦ rw (e, f) (fire_job-AllWait c has_callback now job k later l w a)
      ]
    ]

visit_job-AllWait :
    (c : CronCrate) (first_tick has_callback : Bool) (now : ℕ) (job : Job) (k : Tick)
    → IsLater c
    → now < 9223372036854775807
    → IsI64 job.schedule
    → AllWait now k.jobs_to_fire k.tables
    → AllWait now
        (visit_job c first_tick has_callback now job k).jobs_to_fire
        (visit_job c first_tick has_callback now job k).tables
unfolding visit_job disable_job update_cron_job_enabled
visit_job-AllWait c first_tick has_callback now job k later l w a =
    elim (Bool-cases
      (is_past job.expires_at_ms now || is_exhausted job.max_runs job.state.run_count)) [
        | inl e ↦ rw e (
            update_row-AllWait now job.id (set_enabled false none now) k.tables k.jobs_to_fire
              (set_disabled-IsPostponing now now) a)
        | inr e ↦ rw e (
            visit_due-AllWait c first_tick has_callback now job
              (or_computed job.state.next_run_at_ms (compute_next_run c job.schedule now)) k later l
              w a)
      ]

visit_jobs-AllWait :
    (c : CronCrate) (first_tick has_callback : Bool) (now : ℕ) (jobs : List Job) (k : Tick)
    → IsLater c
    → now < 9223372036854775807
    → All IsListed jobs
    → AllWait now k.jobs_to_fire k.tables
    → AllWait now
        (visit_jobs c first_tick has_callback now jobs k).jobs_to_fire
        (visit_jobs c first_tick has_callback now jobs k).tables
unfolding visit_jobs
visit_jobs-AllWait c first_tick has_callback now [] k later l w a = a
visit_jobs-AllWait c first_tick has_callback now (job ∷ jobs) k later l w a =
    visit_jobs-AllWait c first_tick has_callback now jobs
      (visit_job c first_tick has_callback now job k) later l w.1
      (visit_job-AllWait c first_tick has_callback now job k later l w.0.0 a)

keep_jobs-AllWait :
    (now : ℕ) (keep : CronJobRow → Bool) (t : CronTables) (fired : List Job)
    → AllWait now fired t
    → AllWait now fired (keep_jobs keep t)
unfolding keep_jobs
keep_jobs-AllWait now keep t [] a = tt
keep_jobs-AllWait now keep t (job ∷ fired) a = (
  All-filter_by (λ r. is_waiting now job.id r ≡ true) keep t.jobs a.0,
  keep_jobs-AllWait now keep t fired a.1,
)

finish_tick-AllWait :
    (now : ℕ) (p : Polling) (k : Tick)
    → AllWait now k.jobs_to_fire k.tables
    → AllWait now (finish_tick now p k).0.1 (finish_tick now p k).0.0.tables
unfolding finish_tick prune_disabled_cron_jobs
finish_tick-AllWait now p k a = elim (Bool-cases (prune_due now p.last_prune_ms)) [
  | inl e ↦ rw e (
      keep_jobs-AllWait now
        (λ r. r.enabled || not (i64_lt r.updated_at_ms (i64_sub now 2592000000))) k.tables
        k.jobs_to_fire a)
  | inr e ↦ rw e a
]

-- After a tick, every row of a job that it fired has no next run or one strictly after the tick's
-- time: it is not due again at that time. The intervals of the rows are `i64`s, and a
-- cron expression runs strictly after the second it is asked of.
pub tick-waiting :
    (c : CronCrate) (has_callback : Bool) (now : ℕ) (p : Polling)
    → IsLater c
    → now < 9223372036854775807
    → All IsI64Row p.tables.jobs
    → AllWait now (tick c has_callback now p).0.1 (tick c has_callback now p).0.0.tables
tick-waiting c has_callback now p later l w = elim (tick-cases c has_callback now p) [
  | inl e ↦ subst (λ x. AllWait now x.0.1 x.0.0.tables) (sym e) tt
  | inr (jobs, f, e) ↦
      let t = recover p.first_tick p.tables in
      let start : Tick = record { tables = t; next_run = none; jobs_to_fire = [] } in
      subst (λ x. AllWait now x.0.1 x.0.0.tables) (sym e)
        (finish_tick-AllWait now p (visit_jobs c p.first_tick has_callback now jobs start) (
          visit_jobs-AllWait c p.first_tick has_callback now jobs start later l
            (list_cron_jobs-IsListed t jobs (recover-IsI64Row p.first_tick p.tables w) f) tt))
]
