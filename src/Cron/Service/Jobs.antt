-- ===== src/Cron/Service/Jobs.antt =====
-- src/cron/service/mod.rs: the calls that add, remove, list, enable, change and run jobs.
pub mod Names
use mathlib.Core.Option
use oxicrab.Base.{
  ℕ, Bool, true, false, not, ◌||◌, ◌&&◌, String, Option, none, some, List, [], ◌∷◌, if◌then◌else◌,
}
use oxicrab.Base.Result.{Result, ok, err, ◌>>=◌}
use oxicrab.Base.Signed.{i64_lt}
use oxicrab.EventMatcher.{CronSchedule}
use oxicrab.Cron.Schedule.{
  CronCrate, CronError, callback_failed, compute_next_run, compute_next_run_with_last,
}
use oxicrab.Cron.Table.{
  CronTables, Job, UpdateJobParams, insert_cron_job, delete_cron_job, list_cron_jobs, get_cron_job,
}
use oxicrab.Cron.Table.Updates.{
  Lowering, suffixed, next_cron_job_name_suffix, update_cron_job_enabled, update_cron_job,
  fire_cron_job, update_cron_job_status,
}
use oxicrab.Cron.Service.{or_computed}

unfoldable pub with_suffix : Option ℕ → Job → Job
with_suffix none job = job
with_suffix (some n) job = record job {
  rest = record (job.rest) { name = suffixed job.rest.name n };
}

unfoldable pub with_first_run : CronCrate → ℕ → Job → Job
with_first_run c now job = record job {
  state = record (job.state) {
    next_run_at_ms = or_computed job.state.next_run_at_ms (compute_next_run c job.schedule now);
  };
}

unfoldable pub add_job : CronCrate → Lowering → ℕ → Job → CronTables → Result CronError CronTables
add_job c w now job t = do
  n ← next_cron_job_name_suffix w job.rest.name t
  insert_cron_job (with_first_run c now (with_suffix n job)) t

unfoldable pub remove_found : String → Option Job → CronTables → CronTables × Option Job
remove_found id none t = (t, none)
remove_found id (some job) t = ((delete_cron_job id t).0, some job)

unfoldable pub remove_job : String → CronTables → Result CronError (CronTables × Option Job)
remove_job id t = do job ← get_cron_job id t; ok (remove_found id job t)

unfoldable pub sort_key : Job → ℕ
sort_key job = Option.get_or job.state.next_run_at_ms 9223372036854775807

unfoldable pub insert_by_next : Job → List Job → List Job
insert_by_next j [] = j ∷ []
insert_by_next j (k ∷ ks) =
    let rest = insert_by_next j ks in
    if i64_lt (sort_key k) (sort_key j) then k ∷ rest else j ∷ k ∷ ks

-- `sort_by_key`, which is stable.
unfoldable pub by_next_run : List Job → List Job
by_next_run [] = []
by_next_run (j ∷ js) = insert_by_next j (by_next_run js)

unfoldable pub list_jobs : Bool → CronTables → Result CronError (List Job)
list_jobs include_disabled t = do jobs ← list_cron_jobs include_disabled t; ok (by_next_run jobs)

unfoldable pub next_if_enabled : CronCrate → Bool → ℕ → CronSchedule → Option ℕ
next_if_enabled c enabled now schedule = if enabled then compute_next_run c schedule now else none

unfoldable pub enable_found :
    CronCrate
    → String
    → Bool
    → ℕ
    → Option Job
    → CronTables
    → Result CronError (CronTables × Option Job)
enable_found c id enabled now none t = ok (t, none)
enable_found c id enabled now (some job) t =
    let t' =
      (update_cron_job_enabled id enabled (next_if_enabled c enabled now job.schedule) now t).0 in
    get_cron_job id t' >>= (λ job'. ok (t', job'))

unfoldable pub enable_job :
    CronCrate → String → Bool → ℕ → CronTables → Result CronError (CronTables × Option Job)
enable_job c id enabled now t = do job ← get_cron_job id t; enable_found c id enabled now job t

-- The next run that a new schedule gives an enabled job.
unfoldable pub rescheduled : CronCrate → ℕ → Bool → Option CronSchedule → Option (Option ℕ)
rescheduled c now enabled none = none
rescheduled c now enabled (some schedule) =
    if enabled then some (compute_next_run c schedule now) else none

unfoldable pub update_found :
    CronCrate
    → String
    → UpdateJobParams
    → ℕ
    → Option Job
    → CronTables
    → Result CronError (CronTables × Option Job)
update_found c id params now none t = ok (t, none)
update_found c id params now (some job) t = do
  updated ← update_cron_job id params (rescheduled c now job.enabled params.schedule) now t
  job' ← get_cron_job id (updated.0)
  ok (updated.0, job')

unfoldable pub update_job :
    CronCrate
    → String
    → UpdateJobParams
    → ℕ
    → CronTables
    → Result CronError (CronTables × Option Job)
update_job c id params now t = do job ← get_cron_job id t; update_found c id params now job t

unfoldable pub status_of : Result String (Option String) → String
status_of (ok result) = "success"
status_of (err e) = "error"

unfoldable pub error_of : Result String (Option String) → Option String
error_of (ok result) = none
error_of (err e) = some e

unfoldable pub answer_of : Result String (Option String) → Result CronError (Option (Option String))
answer_of (ok result) = ok (some result)
answer_of (err e) = err callback_failed

-- The callback has answered at `now`.
unfoldable pub ran :
    CronCrate
    → String
    → Job
    → ℕ
    → Result String (Option String)
    → CronTables
    → CronTables × Result CronError (Option (Option String))
ran c id job now result t =
    let new_next = compute_next_run_with_last c job.schedule now (some now) in
    (
      update_cron_job_status id (status_of result) (error_of result)
          (fire_cron_job id new_next now now t).0,
      answer_of result,
    )

unfoldable pub run_found :
    CronCrate
    → String
    → Bool
    → ℕ
    → Option (Job → Result String (Option String))
    → Option Job
    → CronTables
    → CronTables × Result CronError (Option (Option String))
run_found c id force now on_job none t = (t, ok none)
run_found c id force now none (some job) t = (t, ok none)
run_found c id force now (some callback) (some job) t =
    if not force && not job.enabled then (t, ok none) else ran c id job now (callback job) t

unfoldable pub run_job :
    CronCrate
    → String
    → Bool
    → ℕ
    → Option (Job → Result String (Option String))
    → CronTables
    → CronTables × Result CronError (Option (Option String))
run_job c id force now on_job t = elim (get_cron_job id t) [
  | err e ↦ (t, err e)
  | ok job ↦ run_found c id force now on_job job t
]
