-- ===== src/Cron/Service/Tests.antt =====
-- Runs of the cron service.
use oxicrab.Base.{
  Option, ℕ, ◌+◌, ◌*◌, ◌≤◌, ◌<◌, true, false, none, some, [], ◌∷◌, ◌++◌, ◌≡◌, refl, arith, ltb, All,
  any, if◌then◌else◌,
}
use oxicrab.Base.Result.{ok}
use oxicrab.EventMatcher.{is_exhausted, is_past, every}
use oxicrab.Cron.Schedule.{
  zone_of, normalize_expr, next_every, next_cron, compute_next_run, CronCrate,
  compute_next_run_with_last,
}
use oxicrab.Cron.Schedule.Next.{IsLater, every-next}
use oxicrab.Cron.Table.{
  is_target, keep_jobs, has_job, schedule_type_str, schedule_from_row, job_of_row,
  insert_by_creation, by_creation, read_jobs, list_cron_jobs, insert_targets, targets_of,
  read_cooldown, schedule_columns, Job, CronTables, row_of_job, insert_cron_job, get_cron_job,
}
use oxicrab.Cron.Table.RoundTrip.{get-insert}
use oxicrab.Cron.Table.Updates.{
  free_suffix, next_cron_job_name_suffix, update_row, update_cron_job_state,
  update_cron_job_enabled, set_where, set_status, set_state, set_fired, set_enabled,
  recover_running_cron_jobs, recover_row, prune_disabled_cron_jobs, is_running, fire_cron_job,
  Lowering, is_named, suffixed,
}
use oxicrab.Cron.Service.{
  tables_to_fire, skip_missed, prune_due, poll_delay, fire_job, effective_next, earliest_of,
  earliest, disable_job, or_computed, visit_due, visit_job, visit_jobs, finish_tick, recover,
  Polling, tick,
}
use oxicrab.Cron.Service.Jobs.{with_suffix, with_first_run, add_job}
use oxicrab.Cron.Service.Jobs.Names.{added_row, stored_name, add_job-fresh}
use oxicrab.Cron.Service.Ticks.Due.{IsDue, tick-IsDue}
use oxicrab.Cron.Service.Ticks.Once.{tick-waiting}
use oxicrab.Base.Signed.{
  magnitude, i64_sub, i64_saturating_sub, i64_of, i64_min, i64_max, i64_lt, i64_le, i64_div,
  i64_checked_mul, i64_checked_add, i64_add, bias, is_negative,
}
use oxicrab.Router.Rules.{digit, decimal}
use oxicrab.Cron.Service.Ticks.Waiting.{AllWait}

-- An expression that runs at every second.
abbrev each_second : CronCrate
each_second = record {
  Expression = Unit {0};
  Zone = Unit {0};
  split_whitespace = λ s. s ∷ [];
  parse = λ s. some tt;
  parse_zone = λ s. none;
  utc = tt;
  is_date = λ s. true;
  next_after = λ e z s. if ltb s 9000000000000 then some ((s + 1) * 1000) else none;
}

each_second-IsLater : IsLater each_second
each_second-IsLater e z s next h = (ground arith, ground arith)

abbrev report : Job
report = record {
  id = "j1";
  enabled = true;
  schedule = every (some 1000);
  state = record {
    next_run_at_ms = some 4000;
    last_run_at_ms = none;
    last_status = none;
    last_error = none;
    run_count = 0;
    last_fired_at_ms = none;
  };
  expires_at_ms = none;
  max_runs = some 3;
  cooldown_secs = some 60;
  rest = record {
    name = "report";
    payload = record {
      kind = "agent_turn";
      message = "hi";
      agent_echo = true;
      targets = record { channel = "slack"; to = "C1" } ∷ [];
    };
    created_at_ms = 1;
    updated_at_ms = 1;
    delete_after_run = false;
    max_concurrent = none;
  };
}

abbrev empty : CronTables
empty = record { jobs = []; targets = [] }

abbrev one_job : CronTables
one_job = record {
  jobs = row_of_job report ∷ [];
  targets = ("j1", record { channel = "slack"; to = "C1" }) ∷ [];
}

abbrev polling : Polling
polling = record { tables = one_job; first_tick = false; last_prune_ms = 0 }

every-next_example :
    (k : ℕ) × (compute_next_run_with_last each_second (every (some 1000)) 5300 (some 2000)
      ≡ some (2000 + k * 1000))
    × (5300 < 2000 + k * 1000)
    × (2000 + k * 1000 ≤ 5300 + 1000)
every-next_example =
    every-next each_second 1000 5300 2000 (ground arith) (ground arith) (ground arith)

get-insert_example : get_cron_job "j1" one_job ≡ ok (some report)
unfolding read_cooldown is_negative targets_of insert_cron_job insert_targets
get-insert_example =
    get-insert report empty one_job (record { cooldown = refl; runs = ground arith }) refl refl

tick-IsDue_example : All (IsDue false 5000) (tick each_second true 5000 polling).0.1
unfolding row_of_job schedule_columns
tick-IsDue_example =
    tick-IsDue each_second true 5000 polling each_second-IsLater (ground arith) (ground arith, tt)

tick-waiting_example :
    AllWait 5000
      (tick each_second true 5000 polling).0.1
      (tick each_second true 5000 polling).0.0.tables
unfolding row_of_job schedule_columns
tick-waiting_example =
    tick-waiting each_second true 5000 polling each_second-IsLater (ground arith) (ground arith, tt)

tick_fires : (tick each_second true 5000 polling).0.1 ≡ report ∷ []
unfolding tick list_cron_jobs read_jobs by_creation recover row_of_job insert_by_creation job_of_row
    schedule_from_row schedule_type_str finish_tick visit_jobs visit_job is_past is_exhausted
    visit_due or_computed bias i64_add i64_checked_add i64_checked_mul i64_div i64_le i64_lt i64_max
    i64_min i64_of i64_saturating_sub i64_sub is_negative magnitude compute_next_run
    compute_next_run_with_last next_cron next_every normalize_expr zone_of disable_job earliest
    earliest_of effective_next fire_job poll_delay prune_due skip_missed tables_to_fire
    fire_cron_job is_running prune_disabled_cron_jobs recover_row recover_running_cron_jobs
    set_enabled set_fired set_state set_status set_where update_cron_job_enabled
    update_cron_job_state update_row has_job keep_jobs read_cooldown schedule_columns targets_of
tick_fires = refl

-- Lower case of a text without capitals.
abbrev plain : Lowering
plain = record { sql_lower = λ s. s; to_lowercase = λ s. s }

abbrev second : CronTables
second = record {
  jobs =
      row_of_job report
      ∷ row_of_job
          (record report { id = "j2"; rest = record (report.rest) { name = "report (2)" } })
      ∷ [];
  targets =
      ("j1", record { channel = "slack"; to = "C1" })
      ∷ ("j2", record { channel = "slack"; to = "C1" })
      ∷ [];
}

add_job-fresh_example :
    (n : Option ℕ) × (second.jobs
      ≡ one_job.jobs ++ (added_row each_second 5000 n (record report { id = "j2" }) ∷ []))
    × (any (is_named plain (stored_name n "report")) one_job.jobs ≡ false)
unfolding add_job next_cron_job_name_suffix is_named row_of_job free_suffix suffixed decimal digit
    insert_cron_job with_first_run with_suffix insert_targets is_target or_computed
add_job-fresh_example =
    add_job-fresh each_second plain 5000 (record report { id = "j2" }) one_job second (λ k. refl)
      refl
