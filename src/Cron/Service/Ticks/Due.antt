-- ===== src/Cron/Service/Ticks/Due.antt =====
-- Which jobs a tick fires.
use oxicrab.Base.{
  sym, subst, ◌⊎◌, map, ℕ, ◌<◌, Bool, true, false, ◌||◌, ◌&&◌, Option, none, some, List, [], ◌∷◌,
  ◌++◌, ◌≡◌, refl, arith, All, Bool-cases, inl, inr, if◌then◌else◌,
}
use oxicrab.Pairing.Tables.Rows.{All-append}
use oxicrab.Base.Result.{Result-cases, ok}
use oxicrab.Base.Signed.{i64_lt, i64_le}
use oxicrab.EventMatcher.{CronSchedule, is_past, is_exhausted}
use oxicrab.Cron.Schedule.{CronCrate, compute_next_run}
use oxicrab.Cron.Schedule.Next.{IsLater, IsI64, next-later}
use oxicrab.Cron.Table.Updates.{
  fire_cron_job, recover_row, set_status, is_running, recover_running_cron_jobs,
}
use oxicrab.Cron.Table.Listing.{IsI64Row, IsListed, list_cron_jobs-IsListed}
use oxicrab.Cron.Table.{CronTables, CronJobRow, Job, list_cron_jobs}
use oxicrab.Cron.Service.{
  effective_next, tables_to_fire, tables_to_fire, effective_next, fire_cron_job, Tick, Polling,
  tick, finish_tick, visit_jobs, visit_job, visit_due, disable_job, skip_missed, fire_job,
  or_computed, recover,
}

-- The job as listed is enabled, its stored next run has come, and it is neither expired nor exhausted.
pub record IsDue (first_tick : Bool) (now : ℕ) (job : Job) : Type 0 where
  pub enabled : job.enabled ≡ true
  pub due_at : ℕ
  pub stored : job.state.next_run_at_ms ≡ some due_at
  pub come : i64_le due_at now ≡ true
  pub later_tick : first_tick ≡ false
  pub alive : is_past job.expires_at_ms now ≡ false
  pub unspent : is_exhausted job.max_runs job.state.run_count ≡ false

i64_lt-not-le : (a b : ℕ) → i64_lt a b ≡ true → i64_le b a ≡ true → ⊥
unfolding i64_lt i64_le
i64_lt-not-le a b h k = ground arith

-- A next run that has come is the stored one.
stored_due :
    (c : CronCrate) (now due_at : ℕ) (schedule : CronSchedule) (stored : Option ℕ)
    → IsLater c
    → IsI64 schedule
    → now < 9223372036854775807
    → or_computed stored (compute_next_run c schedule now) ≡ some due_at
    → i64_le due_at now ≡ true
    → stored ≡ some due_at
unfolding or_computed compute_next_run
stored_due c now due_at schedule (some next) later w l e h = e
stored_due c now due_at schedule none later w l e h =
    absurd (
      i64_lt-not-le now due_at (next-later c schedule now none due_at later w l (ground arith) e) h)

fire_job-All :
    (c : CronCrate) (has_callback : Bool) (now : ℕ) (job : Job) (k : Tick) (P : Job → Type 0)
    → P job
    → All P k.jobs_to_fire
    → All P (fire_job c has_callback now job k).jobs_to_fire
unfolding fire_job
fire_job-All c has_callback now job k P p a =
    pushed
      (fire_cron_job job.id (effective_next c now job) now now (tables_to_fire now job k.tables)).1
  where
    pushed :
        (fired : Bool)
        → All P (if fired && has_callback then k.jobs_to_fire ++ (job ∷ []) else k.jobs_to_fire)
    pushed fired = elim (Bool-cases (fired && has_callback)) [
      | inl e ↦ rw e (All-append P k.jobs_to_fire (job ∷ []) a (p, tt))
      | inr e ↦ rw e a
    ]

visit_due-All :
    (c : CronCrate) (first_tick has_callback : Bool) (now : ℕ) (job : Job) (next : Option ℕ)
    (k : Tick) (P : Job → Type 0)
    → ((due_at : ℕ) → next ≡ some due_at → i64_le due_at now ≡ true → first_tick ≡ false → P job)
    → All P k.jobs_to_fire
    → All P (visit_due c first_tick has_callback now job next k).jobs_to_fire
unfolding visit_due skip_missed
visit_due-All c first_tick has_callback now job none k P p a = a
visit_due-All c first_tick has_callback now job (some d) k P p a =
    elim (Bool-cases (i64_le d now)) [
      | inr e ↦ rw e a
      | inl e ↦ elim (Bool-cases first_tick) [
        | inl f ↦ rw (e, f) (skip a)
        | inr f ↦ rw (e, f) (fire_job-All c has_callback now job k P (p d refl e f) a)
      ]
    ]
  where
    skip : All P k.jobs_to_fire → All P (skip_missed c now job k).jobs_to_fire
    skip b = b

visit_job-IsDue :
    (c : CronCrate) (first_tick has_callback : Bool) (now : ℕ) (job : Job) (k : Tick)
    → IsLater c
    → now < 9223372036854775807
    → IsI64 job.schedule
    → job.enabled ≡ true
    → All (IsDue first_tick now) k.jobs_to_fire
    → All (IsDue first_tick now) (visit_job c first_tick has_callback now job k).jobs_to_fire
unfolding visit_job disable_job
visit_job-IsDue c first_tick has_callback now job k later l w on a =
    elim (Bool-cases
      (is_past job.expires_at_ms now || is_exhausted job.max_runs job.state.run_count)) [
        | inl e ↦ rw e a
        | inr e ↦ rw e (
            visit_due-All c first_tick has_callback now job
              (or_computed job.state.next_run_at_ms (compute_next_run c job.schedule now)) k
              (IsDue first_tick now)
              (λ due_at f come later_tick. record {
                enabled = on;
                due_at = due_at;
                stored =
                    stored_due c now due_at job.schedule job.state.next_run_at_ms later w l f come;
                come = come;
                later_tick = later_tick;
                alive = ground (arith, e);
                unspent = ground (arith, e);
              })
              a)
      ]

visit_jobs-IsDue :
    (c : CronCrate) (first_tick has_callback : Bool) (now : ℕ) (jobs : List Job) (k : Tick)
    → IsLater c
    → now < 9223372036854775807
    → All IsListed jobs
    → All (IsDue first_tick now) k.jobs_to_fire
    → All (IsDue first_tick now) (visit_jobs c first_tick has_callback now jobs k).jobs_to_fire
unfolding visit_jobs
visit_jobs-IsDue c first_tick has_callback now [] k later l w a = a
visit_jobs-IsDue c first_tick has_callback now (job ∷ jobs) k later l w a =
    visit_jobs-IsDue c first_tick has_callback now jobs
      (visit_job c first_tick has_callback now job k) later l w.1
      (visit_job-IsDue c first_tick has_callback now job k later l w.0.0 w.0.1 a)

recover_rows-IsI64Row :
    (rows : List CronJobRow) → All IsI64Row rows → All IsI64Row (map recover_row rows)
unfolding recover_row set_status
recover_rows-IsI64Row [] a = tt
recover_rows-IsI64Row (r ∷ rows) a = elim (Bool-cases (is_running r.state.last_status)) [
  | inl e ↦ simp e (a.0, recover_rows-IsI64Row rows a.1)
  | inr e ↦ simp e (a.0, recover_rows-IsI64Row rows a.1)
]

pub recover-IsI64Row :
    (first_tick : Bool) (t : CronTables)
    → All IsI64Row t.jobs
    → All IsI64Row (recover first_tick t).jobs
unfolding recover recover_running_cron_jobs
recover-IsI64Row true t a = recover_rows-IsI64Row t.jobs a
recover-IsI64Row false t a = a

-- A tick that cannot list the jobs fires none; else it visits them.
pub tick-cases :
    (c : CronCrate) (has_callback : Bool) (now : ℕ) (p : Polling)
    → (tick c has_callback now p
        ≡ ((record p { tables = recover p.first_tick p.tables }, []), 30000))
      ⊎ ((jobs : List Job) × (list_cron_jobs false (recover p.first_tick p.tables) ≡ ok jobs)
          × (tick c has_callback now p
              ≡ finish_tick now p (
                  visit_jobs c p.first_tick has_callback now jobs (record {
                    tables = recover p.first_tick p.tables;
                    next_run = none;
                    jobs_to_fire = [];
                  }))))
unfolding tick
tick-cases c has_callback now p =
    elim (Result-cases (list_cron_jobs false (recover p.first_tick p.tables))) [
      | inr (x, e) ↦ inl (rw (e, tick) refl)
      | inl (jobs, e) ↦ inr (jobs, e, rw (e, tick) refl)
    ]

-- Every job that a tick fires was listed as enabled, the next run stored with it has come, it is neither
-- expired nor out of runs, and the tick is not the first after the start, which skips missed jobs. The
-- intervals of the rows are `i64`s, and a cron expression runs strictly after the second it is asked of.
pub tick-IsDue :
    (c : CronCrate) (has_callback : Bool) (now : ℕ) (p : Polling)
    → IsLater c
    → now < 9223372036854775807
    → All IsI64Row p.tables.jobs
    → All (IsDue p.first_tick now) (tick c has_callback now p).0.1
unfolding finish_tick
tick-IsDue c has_callback now p later l w = elim (tick-cases c has_callback now p) [
  | inl e ↦ subst (λ x. All (IsDue p.first_tick now) x.0.1) (sym e) tt
  | inr (jobs, f, e) ↦
      subst (λ x. All (IsDue p.first_tick now) x.0.1) (sym e)
        (visit_jobs-IsDue c p.first_tick has_callback now jobs
          (record { tables = recover p.first_tick p.tables; next_run = none; jobs_to_fire = [] })
          later l
          (list_cron_jobs-IsListed (recover p.first_tick p.tables) jobs
            (recover-IsI64Row p.first_tick p.tables w) f)
          tt)
]
