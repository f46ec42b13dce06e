-- ===== src/Cron/Table/Updates.antt =====
-- crates/oxicrab-memory/src/memory_db/cron.rs: the statements that change rows of jobs.
use Prim.Native.String.{◌++◌ as ◌++ₛ◌}
use text.Mathlib.Text.{◌==◌ as str_eq}
use mathlib.Core.Option
use oxicrab.Base.{
  ℕ, zero, suc, ◌+◌, Bool, false, not, ◌||◌, String, Option, none, some, List, [], ◌∷◌, any, map,
  filter_by, length, if◌then◌else◌,
}
use oxicrab.Base.Result.{Result, ok, err, ◌>>=◌}
use oxicrab.Base.Signed.{i64_lt}
use oxicrab.EventMatcher.{CronSchedule, CronJobState}
use oxicrab.Router.Rules.{decimal}
use oxicrab.Cron.Schedule.{CronError, missing_job, no_unique_suffix}
use oxicrab.Cron.Table.{
  CronTarget, UpdateJobParams, CronJobRow, CronTables, schedule_type_str, schedule_columns,
  insert_targets, keep_jobs,
}

-- `UPDATE … WHERE id = …`.
unfoldable pub set_where : String → (CronJobRow → CronJobRow) → List CronJobRow → List CronJobRow
set_where id set [] = []
set_where id set (r ∷ rs) =
    let rest = set_where id set rs in if str_eq r.id id then set r ∷ rest else r ∷ rest

unfoldable pub update_row : String → (CronJobRow → CronJobRow) → CronTables → CronTables × Bool
update_row id set t =
    (record t { jobs = set_where id set t.jobs }, any (λ r. str_eq r.id id) t.jobs)

unfoldable pub set_state : CronJobState → ℕ → CronJobRow → CronJobRow
set_state state now r = record r { state = state; updated_at_ms = now }

unfoldable pub update_cron_job_state : String → CronJobState → ℕ → CronTables → CronTables × Bool
update_cron_job_state id state now t = update_row id (set_state state now) t

unfoldable pub set_fired : Option ℕ → ℕ → ℕ → CronJobRow → CronJobRow
set_fired next_run_at_ms last_run_at_ms updated_at_ms r = record r {
  state = record (r.state) {
    last_status = some "running";
    last_error = none;
    run_count = r.state.run_count + 1;
    next_run_at_ms = next_run_at_ms;
    last_run_at_ms = some last_run_at_ms;
  };
  updated_at_ms = updated_at_ms;
}

unfoldable pub fire_cron_job : String → Option ℕ → ℕ → ℕ → CronTables → CronTables × Bool
fire_cron_job id next_run_at_ms last_run_at_ms updated_at_ms t =
    update_row id (set_fired next_run_at_ms last_run_at_ms updated_at_ms) t

unfoldable pub set_enabled : Bool → Option ℕ → ℕ → CronJobRow → CronJobRow
set_enabled enabled next_run_at_ms updated_at_ms r = record r {
  enabled = enabled;
  state = record (r.state) { next_run_at_ms = next_run_at_ms };
  updated_at_ms = updated_at_ms;
}

unfoldable pub update_cron_job_enabled :
    String → Bool → Option ℕ → ℕ → CronTables → CronTables × Bool
update_cron_job_enabled id enabled next_run_at_ms updated_at_ms t =
    update_row id (set_enabled enabled next_run_at_ms updated_at_ms) t

-- The `SET` clauses of a parameter that is there.
unfoldable pub set_schedule : Option CronSchedule → CronJobRow → CronJobRow
set_schedule none r = r
set_schedule (some schedule) r = record r {
  schedule_type = schedule_type_str schedule;
  columns = schedule_columns schedule;
}

unfoldable pub set_next_run : Option (Option ℕ) → CronJobRow → CronJobRow
set_next_run none r = r
set_next_run (some next) r = record r { state = record (r.state) { next_run_at_ms = next } }

unfoldable pub set_params : UpdateJobParams → Option (Option ℕ) → ℕ → CronJobRow → CronJobRow
set_params params next_run_at_ms updated_at_ms r = set_next_run next_run_at_ms (
    set_schedule params.schedule (record r {
      updated_at_ms = updated_at_ms;
      name = Option.get_or params.name r.name;
      payload_message = Option.get_or params.message r.payload_message;
      agent_echo = Option.get_or params.agent_echo r.agent_echo;
    }))

unfoldable pub replace_targets :
    String
    → Option (List CronTarget)
    → List (String × CronTarget)
    → Result CronError (List (String × CronTarget))
replace_targets id none rows = ok rows
replace_targets id (some targets) rows =
    insert_targets id targets (filter_by (λ r. not (str_eq r.0 id)) rows)

-- A target of a job that is not there breaks the foreign key.
unfoldable pub is_orphaned : Option (List CronTarget) → Bool → Bool
is_orphaned none there = false
is_orphaned (some []) there = false
is_orphaned (some (target ∷ targets)) there = not there

-- An error of the targets rolls the whole update back.
unfoldable pub update_cron_job :
    String
    → UpdateJobParams
    → Option (Option ℕ)
    → ℕ
    → CronTables
    → Result CronError (CronTables × Bool)
update_cron_job id params next_run_at_ms updated_at_ms t =
    let there = any (λ r. str_eq r.id id) t.jobs in
    let updated : Result CronError (CronTables × Bool) =
      replace_targets id params.targets t.targets >>= (λ targets. ok (
        record {
          jobs = set_where id (set_params params next_run_at_ms updated_at_ms) t.jobs;
          targets = targets;
        },
        there,
      )) in
    if is_orphaned params.targets there then err missing_job else updated

unfoldable pub set_status : String → Option String → CronJobRow → CronJobRow
set_status status error r = record r {
  state = record (r.state) { last_status = some status; last_error = error };
}

unfoldable pub update_cron_job_status : String → String → Option String → CronTables → CronTables
update_cron_job_status id status error t = (update_row id (set_status status error) t).0

-- SQL's `LOWER` and Rust's `to_lowercase`.
pub record Lowering : Type 0 where
  pub sql_lower : String → String
  pub to_lowercase : String → String

unfoldable pub is_named : Lowering → String → CronJobRow → Bool
is_named w name r = str_eq (w.sql_lower r.name) (w.sql_lower name)

unfoldable pub count_cron_jobs_by_name : Lowering → String → CronTables → ℕ
count_cron_jobs_by_name w name t = length (filter_by (is_named w name) t.jobs)

unfoldable pub suffixed : String → ℕ → String
suffixed base n = base ++ₛ " (" ++ₛ decimal 20 n ++ₛ ")"

-- The first number from `n` on, of `fuel` many, whose candidate no job has in lower case. The pattern
-- of the query lets every name through that equals a candidate, since it starts with the base.
unfoldable pub free_suffix : Lowering → String → ℕ → ℕ → List CronJobRow → Result CronError ℕ
free_suffix w base zero n rows = err no_unique_suffix
free_suffix w base (suc fuel) n rows =
    let rest = free_suffix w base fuel (n + 1) rows in
    if any (λ r. str_eq (w.sql_lower r.name) (suffixed base n)) rows then rest else ok n

unfoldable pub next_cron_job_name_suffix :
    Lowering → String → CronTables → Result CronError (Option ℕ)
next_cron_job_name_suffix w name t =
    let found : Result CronError (Option ℕ) =
      free_suffix w (w.to_lowercase name) 10000 2 t.jobs >>= (λ n. ok (some n)) in
    if any (is_named w name) t.jobs then found else ok none

unfoldable pub prune_disabled_cron_jobs : ℕ → CronTables → CronTables
prune_disabled_cron_jobs cutoff_ms t =
    keep_jobs (λ r. r.enabled || not (i64_lt r.updated_at_ms cutoff_ms)) t

unfoldable pub is_running : Option String → Bool
is_running none = false
is_running (some status) = str_eq status "running"

unfoldable pub recover_row : CronJobRow → CronJobRow
recover_row r =
    if is_running r.state.last_status
    then set_status "interrupted" (some "process restarted while job was running") r
    else r

unfoldable pub recover_running_cron_jobs : CronTables → CronTables
recover_running_cron_jobs t = record t { jobs = map recover_row t.jobs }
