-- ===== src/Cron/Service.antt =====
-- src/cron/service/mod.rs: the polling loop and the calls of the cron service. Every call has the time
-- of its reading of the clock; the callback's answer is an argument. Statements on the database
-- succeed, but for those that the tables refuse.
pub mod Jobs
mod Ticks
mod Tests
use mathlib.Core.Option
use oxicrab.Base.{
  ℕ, ◌+◌, max, min, Bool, true, false, ◌||◌, ◌&&◌, String, Option, none, some, List, [], ◌∷◌, ◌++◌,
  if◌then◌else◌,
}
use oxicrab.Base.Result.{Result, ok, err}
use oxicrab.Base.Signed.{i64_lt, i64_le, i64_sub, i64_min, i64_max}
use oxicrab.EventMatcher.{CronSchedule, is_past, is_exhausted}
use oxicrab.Cron.Schedule.{CronCrate, CronError, compute_next_run, compute_next_run_with_last}
use oxicrab.Cron.Table.{CronTables, Job, list_cron_jobs}
use oxicrab.Cron.Table.Updates.{
  update_cron_job_state, fire_cron_job, update_cron_job_enabled, update_cron_job_status,
  prune_disabled_cron_jobs, recover_running_cron_jobs,
}

-- The tables, the earliest next run that the loop has seen, and the jobs to fire.
pub record Tick : Type 0 where
  pub tables : CronTables
  pub next_run : Option ℕ
  pub jobs_to_fire : List Job

unfoldable pub earliest : Option ℕ → ℕ → Option ℕ
earliest none next = some next
earliest (some n) next = some (i64_min n next)

unfoldable pub earliest_of : Option ℕ → Option ℕ → Option ℕ
earliest_of n none = n
earliest_of n (some next) = earliest n next

unfoldable pub disable_job : ℕ → Job → Tick → Tick
disable_job now job k = record k {
  tables = (update_cron_job_enabled job.id false none now k.tables).0;
}

-- On start-up a missed job moves on to its next run.
unfoldable pub skip_missed : CronCrate → ℕ → Job → Tick → Tick
skip_missed c now job k =
    let new_next = compute_next_run c job.schedule now in
    record k {
      tables =
          (update_cron_job_state job.id (record (job.state) { next_run_at_ms = new_next }) now
            k.tables).0;
      next_run = earliest_of k.next_run new_next;
    }

unfoldable pub effective_next : CronCrate → ℕ → Job → Option ℕ
effective_next c now job =
    let new_next = compute_next_run_with_last c job.schedule now (some now) in
    if job.rest.delete_after_run then none else new_next

unfoldable pub tables_to_fire : ℕ → Job → CronTables → CronTables
tables_to_fire now job t =
    if job.rest.delete_after_run then (update_cron_job_enabled job.id false none now t).0 else t

unfoldable pub fire_job : CronCrate → Bool → ℕ → Job → Tick → Tick
fire_job c has_callback now job k =
    let (t, fired) =
      fire_cron_job job.id (effective_next c now job) now now (tables_to_fire now job k.tables) in
    record k {
      tables = t;
      jobs_to_fire = if fired && has_callback then k.jobs_to_fire ++ (job ∷ []) else k.jobs_to_fire;
    }

unfoldable pub visit_due : CronCrate → Bool → Bool → ℕ → Job → Option ℕ → Tick → Tick
visit_due c first_tick has_callback now job none k = k
visit_due c first_tick has_callback now job (some job_next) k =
    if i64_le job_next now
    then if first_tick then skip_missed c now job k else fire_job c has_callback now job k
    else record k { next_run = earliest k.next_run job_next }

-- `next_run_at_ms.or_else(…)`.
unfoldable pub or_computed : Option ℕ → Option ℕ → Option ℕ
or_computed none computed = computed
or_computed (some next) computed = some next

unfoldable pub visit_job : CronCrate → Bool → Bool → ℕ → Job → Tick → Tick
visit_job c first_tick has_callback now job k =
    if is_past job.expires_at_ms now || is_exhausted job.max_runs job.state.run_count
    then disable_job now job k
    else visit_due c first_tick has_callback now job
        (or_computed job.state.next_run_at_ms (compute_next_run c job.schedule now)) k

unfoldable pub visit_jobs : CronCrate → Bool → Bool → ℕ → List Job → Tick → Tick
visit_jobs c first_tick has_callback now [] k = k
visit_jobs c first_tick has_callback now (job ∷ jobs) k =
    visit_jobs c first_tick has_callback now jobs (visit_job c first_tick has_callback now job k)

-- The polling loop between two ticks.
pub record Polling : Type 0 where
  pub tables : CronTables
  pub first_tick : Bool
  pub last_prune_ms : ℕ

unfoldable pub prune_due : ℕ → ℕ → Bool
prune_due now last_prune_ms = i64_le 3600000 (i64_sub now last_prune_ms)

unfoldable pub poll_delay : ℕ → Option ℕ → ℕ
poll_delay now none = min 30000 30000
poll_delay now (some next) = min (i64_max 1000 (i64_sub next now)) 30000

-- A tick with the jobs it fires and its delay.
unfoldable pub finish_tick : ℕ → Polling → Tick → (Polling × List Job) × ℕ
finish_tick now p k = (
  (
    if prune_due now p.last_prune_ms
        then record {
          tables = prune_disabled_cron_jobs (i64_sub now 2592000000) k.tables;
          first_tick = false;
          last_prune_ms = now;
        }
        else record { tables = k.tables; first_tick = false; last_prune_ms = p.last_prune_ms },
    k.jobs_to_fire,
  ),
  poll_delay now k.next_run,
)

unfoldable pub recover : Bool → CronTables → CronTables
recover first_tick t = if first_tick then recover_running_cron_jobs t else t

unfoldable pub tick : CronCrate → Bool → ℕ → Polling → (Polling × List Job) × ℕ
tick c has_callback now p =
    let t = recover p.first_tick p.tables in
    elim (list_cron_jobs false t) [
      | err e ↦ ((record p { tables = t }, []), 30000)
      | ok jobs ↦ finish_tick now p (
          visit_jobs c p.first_tick has_callback now jobs
            (record { tables = t; next_run = none; jobs_to_fire = [] }))
    ]

-- The end of a job that a tick has fired.
unfoldable pub complete_job : String → Result String (Option String) → CronTables → CronTables
complete_job id (ok result) t = update_cron_job_status id "success" none t
complete_job id (err e) t = update_cron_job_status id "error" (some e) t
