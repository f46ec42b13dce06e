-- ===== src/Cron/Table.antt =====
-- crates/oxicrab-memory/src/memory_db/cron.rs: the tables of cron jobs and of their targets, and the
-- statements on them. A column holds its value, NULL is `none`, and a list is in the order of row ids.
pub mod Updates
pub mod Listing
pub mod RoundTrip
use text.Mathlib.Text.{◌==◌ as str_eq}
use oxicrab.Base.{
  ℕ, ◌+◌, Bool, true, false, not, ◌||◌, ◌&&◌, String, Option, none, some, leb, List, [], ◌∷◌, ◌++◌,
  any, map, filter_by, if◌then◌else◌,
}
use oxicrab.Base.Result.{Result, ok, err, ◌>>=◌}
use oxicrab.Base.Signed.{i64_lt, i64_le, is_negative}
use oxicrab.EventMatcher.{CronSchedule, at, every, cron, event, CronJobState, CronJob}
use oxicrab.Cron.Schedule.{CronError, unknown_schedule_type, duplicate_key, out_of_range}

pub record CronTarget : Type 0 where
  pub channel : String
  pub to : String

pub record CronPayload : Type 0 where
  pub kind : String
  pub message : String
  pub agent_echo : Bool
  pub targets : List CronTarget

-- The fields of a job that the event matcher only copies.
pub record JobDetails : Type 0 where
  pub name : String
  pub payload : CronPayload
  pub created_at_ms : ℕ
  pub updated_at_ms : ℕ
  pub delete_after_run : Bool
  pub max_concurrent : Option ℕ

abbrev pub Job : Type 0
Job = CronJob JobDetails

pub record UpdateJobParams : Type 0 where
  pub name : Option String
  pub message : Option String
  pub schedule : Option CronSchedule
  pub agent_echo : Option Bool
  pub targets : Option (List CronTarget)

pub record ScheduleColumns : Type 0 where
  pub at_ms : Option ℕ
  pub every_ms : Option ℕ
  pub cron_expr : Option String
  pub cron_tz : Option String
  pub event_pattern : Option String
  pub event_channel : Option String

pub record CronJobRow : Type 0 where
  pub id : String
  pub name : String
  pub enabled : Bool
  pub schedule_type : String
  pub columns : ScheduleColumns
  pub payload_kind : String
  pub payload_message : String
  pub agent_echo : Bool
  pub state : CronJobState
  pub created_at_ms : ℕ
  pub updated_at_ms : ℕ
  pub delete_after_run : Bool
  pub expires_at_ms : Option ℕ
  pub max_runs : Option ℕ
  pub cooldown_secs : Option ℕ
  pub max_concurrent : Option ℕ

pub record CronTables : Type 0 where
  pub jobs : List CronJobRow
  pub targets : List (String × CronTarget)

unfoldable pub schedule_type_str : CronSchedule → String
schedule_type_str (at t) = "at"
schedule_type_str (every t) = "every"
schedule_type_str (cron expr tz) = "cron"
schedule_type_str (event pattern channel) = "event"

unfoldable pub schedule_columns : CronSchedule → ScheduleColumns
schedule_columns (at t) = record {
  at_ms = t;
  every_ms = none;
  cron_expr = none;
  cron_tz = none;
  event_pattern = none;
  event_channel = none;
}
schedule_columns (every t) = record {
  at_ms = none;
  every_ms = t;
  cron_expr = none;
  cron_tz = none;
  event_pattern = none;
  event_channel = none;
}
schedule_columns (cron expr tz) = record {
  at_ms = none;
  every_ms = none;
  cron_expr = expr;
  cron_tz = tz;
  event_pattern = none;
  event_channel = none;
}
schedule_columns (event pattern channel) = record {
  at_ms = none;
  every_ms = none;
  cron_expr = none;
  cron_tz = none;
  event_pattern = pattern;
  event_channel = channel;
}

unfoldable pub schedule_from_row : String → ScheduleColumns → Result CronError CronSchedule
schedule_from_row schedule_type c =
    if str_eq schedule_type "at"
    then ok (at c.at_ms)
    else if str_eq schedule_type "every"
    then ok (every c.every_ms)
    else if str_eq schedule_type "cron"
    then ok (cron c.cron_expr c.cron_tz)
    else if str_eq schedule_type "event"
    then ok (event c.event_pattern c.event_channel)
    else err unknown_schedule_type

-- `v.max(0) as u64`.
unfoldable pub read_cooldown : Option ℕ → Option ℕ
read_cooldown none = none
read_cooldown (some v) = some (if is_negative v then 0 else v)

unfoldable pub row_of_job : Job → CronJobRow
row_of_job job = record {
  id = job.id;
  name = job.rest.name;
  enabled = job.enabled;
  schedule_type = schedule_type_str job.schedule;
  columns = schedule_columns job.schedule;
  payload_kind = job.rest.payload.kind;
  payload_message = job.rest.payload.message;
  agent_echo = job.rest.payload.agent_echo;
  state = job.state;
  created_at_ms = job.rest.created_at_ms;
  updated_at_ms = job.rest.updated_at_ms;
  delete_after_run = job.rest.delete_after_run;
  expires_at_ms = job.expires_at_ms;
  max_runs = job.max_runs;
  cooldown_secs = job.cooldown_secs;
  max_concurrent = job.rest.max_concurrent;
}

abbrev pub job_with : CronSchedule → List CronTarget → CronJobRow → Job
job_with schedule targets r = record {
  id = r.id;
  enabled = r.enabled;
  schedule = schedule;
  state = r.state;
  expires_at_ms = r.expires_at_ms;
  max_runs = r.max_runs;
  cooldown_secs = read_cooldown r.cooldown_secs;
  rest = record {
    name = r.name;
    payload = record {
      kind = r.payload_kind;
      message = r.payload_message;
      agent_echo = r.agent_echo;
      targets = targets;
    };
    created_at_ms = r.created_at_ms;
    updated_at_ms = r.updated_at_ms;
    delete_after_run = r.delete_after_run;
    max_concurrent = r.max_concurrent;
  };
}

-- A count that the increments of `run_count` have taken out of `u32` cannot be read.
unfoldable pub job_of_row : List CronTarget → CronJobRow → Result CronError Job
job_of_row targets r = do
  schedule ← schedule_from_row r.schedule_type r.columns
  if leb 4294967296 r.state.run_count then err out_of_range else ok (job_with schedule targets r)

-- The targets of a job, in the order of their rows.
unfoldable pub targets_of : String → List (String × CronTarget) → List CronTarget
targets_of id rows = map (λ r. r.1) (filter_by (λ r. str_eq r.0 id) rows)

unfoldable pub is_target : String → CronTarget → String × CronTarget → Bool
is_target id target r =
    (str_eq r.0 id && str_eq r.1.channel target.channel) && str_eq r.1.to target.to

-- A job's targets added; the key of a row is the whole row.
unfoldable pub insert_targets :
    String
    → List CronTarget
    → List (String × CronTarget)
    → Result CronError (List (String × CronTarget))
insert_targets id [] rows = ok rows
insert_targets id (target ∷ targets) rows =
    let rest = insert_targets id targets (rows ++ ((id, target) ∷ [])) in
    if any (is_target id target) rows then err duplicate_key else rest

unfoldable pub insert_cron_job : Job → CronTables → Result CronError CronTables
insert_cron_job job t =
    let inserted : Result CronError CronTables =
      insert_targets job.id job.rest.payload.targets t.targets
      >>= (λ targets. ok (record { jobs = t.jobs ++ (row_of_job job ∷ []); targets = targets })) in
    if any (λ r. str_eq r.id job.id) t.jobs then err duplicate_key else inserted

-- The rows of jobs that pass, with the targets of the others deleted in cascade.
unfoldable pub has_job : List CronJobRow → String × CronTarget → Bool
has_job [] target = false
has_job (r ∷ rs) target = str_eq r.id target.0 || has_job rs target

unfoldable pub keep_jobs : (CronJobRow → Bool) → CronTables → CronTables
keep_jobs keep t =
    let kept = filter_by keep t.jobs in
    record { jobs = kept; targets = filter_by (has_job kept) t.targets }

unfoldable pub delete_cron_job : String → CronTables → CronTables × Bool
delete_cron_job id t = (keep_jobs (λ r. not (str_eq r.id id)) t, any (λ r. str_eq r.id id) t.jobs)

unfoldable pub insert_by_creation : CronJobRow → List CronJobRow → List CronJobRow
insert_by_creation r [] = r ∷ []
insert_by_creation r (q ∷ qs) =
    let rest = insert_by_creation r qs in
    if i64_lt q.created_at_ms r.created_at_ms then q ∷ rest else r ∷ q ∷ qs

-- `ORDER BY created_at_ms`, with equal times in the order of rows.
unfoldable pub by_creation : List CronJobRow → List CronJobRow
by_creation [] = []
by_creation (r ∷ rs) = insert_by_creation r (by_creation rs)

unfoldable pub read_jobs :
    List (String × CronTarget) → List CronJobRow → Result CronError (List Job)
read_jobs targets [] = ok []
read_jobs targets (r ∷ rs) = do
  job ← job_of_row (targets_of r.id targets) r
  jobs ← read_jobs targets rs
  ok (job ∷ jobs)

unfoldable pub list_cron_jobs : Bool → CronTables → Result CronError (List Job)
list_cron_jobs include_disabled t =
    read_jobs t.targets (by_creation (filter_by (λ r. include_disabled || r.enabled) t.jobs))

unfoldable pub find_job : String → List CronJobRow → Option CronJobRow
find_job id [] = none
find_job id (r ∷ rs) = let rest = find_job id rs in if str_eq r.id id then some r else rest

unfoldable pub get_cron_job : String → CronTables → Result CronError (Option Job)
get_cron_job id t = elim (find_job id t.jobs) [
  | none ↦ ok none
  | some r ↦ do job ← job_of_row (targets_of id t.targets) r; ok (some job)
]
