-- ===== src/EventMatcher.antt =====
-- src/cron/event_matcher/mod.rs with the jobs of crates/oxicrab-core/src/cron_types/mod.rs: which jobs
-- an inbound message fires. A compiled regex is its test, and the regex crate an argument.
mod Runs
mod Steps
mod Tests
use text.Mathlib.Text.{◌==◌ as str_eq}
use oxicrab.Base.{
  ℕ, ◌+◌, ◌-◌, ◌/◌, ◌%◌, min, Bool, true, false, not, ◌||◌, ◌&&◌, String, Option, none, some, leb,
  ltb, List, [], ◌∷◌, if◌then◌else◌,
}
use oxicrab.Base.Dict.{Dict, lookup, insert}
use oxicrab.Router.Triggers.{byte_len}
use oxicrab.Base.Signed.{i64_lt, i64_le}

pub data CronSchedule : Type 0 where
  at every : Option ℕ → CronSchedule
  cron event : Option String → Option String → CronSchedule

pub record CronJobState : Type 0 where
  pub next_run_at_ms : Option ℕ
  pub last_run_at_ms : Option ℕ
  pub last_status : Option String
  pub last_error : Option String
  pub run_count : ℕ  -- u32
  pub last_fired_at_ms : Option ℕ

-- `rest` stands for the fields that the matcher copies.
pub record CronJob {ℓ} (R : Type ℓ) : Type ℓ where
  pub id : String
  pub enabled : Bool
  pub schedule : CronSchedule
  pub state : CronJobState
  pub expires_at_ms : Option ℕ
  pub max_runs : Option ℕ  -- u32
  pub cooldown_secs : Option ℕ  -- u64
  pub rest : R

pub record Matcher {ℓ} (R : Type ℓ) : Type ℓ where
  pub id : String
  pub regex : String → Bool
  pub channel : Option String
  pub job : CronJob R

pub record EventMatcher {ℓ} (R : Type ℓ) : Type ℓ where
  pub matchers : List (Matcher R)
  pub last_fired : Dict ℕ

-- `(now - last) / 1000` of `i64`: the difference wraps, the quotient is cut towards zero.
unfoldable pub elapsed_secs : ℕ → ℕ → ℕ
elapsed_secs now last =
    let gap = (now + (18446744073709551616 - last)) % 18446744073709551616 in
    if ltb gap 9223372036854775808
    then gap / 1000
    else (18446744073709551616 - (18446744073709551616 - gap) / 1000) % 18446744073709551616

-- `u32::saturating_add(1)`.
unfoldable pub saturating_suc : ℕ → ℕ
saturating_suc n = min (n + 1) 4294967295

unfoldable pub is_past : Option ℕ → ℕ → Bool
is_past none now = false
is_past (some expires) now = i64_le expires now

unfoldable pub is_exhausted : Option ℕ → ℕ → Bool
is_exhausted none runs = false
is_exhausted (some most) runs = leb most runs

unfoldable pub is_elsewhere : Option String → String → Bool
is_elsewhere none channel = false
is_elsewhere (some required) channel = not (str_eq required channel)

unfoldable pub is_cooling : Option ℕ → Option ℕ → ℕ → Bool
is_cooling none last now = false
is_cooling (some cooldown) none now = false
is_cooling (some cooldown) (some last) now = i64_lt (elapsed_secs now last) cooldown

module _ {ℓ} {R : Type ℓ} where
  -- The matcher of a job: it is enabled, and its schedule is an event whose pattern is not too long
  -- and compiles.
  matcher_of : (String → Option (String → Bool)) → CronJob R → Option (Matcher R)
  matcher_of compile job = elim job.schedule [
    | at t ↦ none
    | every t ↦ none
    | cron expr tz ↦ none
    | event none channel ↦ none
    | event (some pattern) channel ↦ elim (compile pattern) [
      | none ↦ none
      | some re ↦
          if not job.enabled || ltb 1024 (byte_len pattern)
          then none
          else some (record { id = job.id; regex = re; channel = channel; job = job })
    ]
  ]

  unfoldable pub matchers_of :
      (String → Option (String → Bool)) → List (CronJob R) → List (Matcher R)
  unfolding matcher_of
  matchers_of compile [] = []
  matchers_of compile (job ∷ jobs) = elim (matcher_of compile job) [
    | none ↦ matchers_of compile jobs
    | some m ↦ m ∷ matchers_of compile jobs
  ]

  -- The timestamps of the jobs' states; a later job of the same id replaces an earlier one.
  unfoldable pub collect_fired : List (Matcher R) → Dict ℕ → Dict ℕ
  collect_fired [] d = d
  collect_fired (m ∷ ms) d = elim m.job.state.last_fired_at_ms [
    | none ↦ collect_fired ms d
    | some ms_at ↦ collect_fired ms (insert m.id ms_at d)
  ]

  unfoldable pub from_jobs : (String → Option (String → Bool)) → List (CronJob R) → EventMatcher R
  from_jobs compile jobs = record {
    matchers = matchers_of compile jobs;
    last_fired = collect_fired (matchers_of compile jobs) [];
  }

  -- The checks of one matcher, in the source's order.
  unfoldable pub fires : String → String → ℕ → Dict ℕ → Matcher R → Bool
  fires content channel now last_fired m =
      if is_past m.job.expires_at_ms now
      then false
      else if is_exhausted m.job.max_runs m.job.state.run_count
      then false
      else if is_elsewhere m.channel channel
      then false
      else if not (m.regex content)
      then false
      else if is_cooling m.job.cooldown_secs (lookup m.id last_fired) now
      then false
      else true

  unfoldable pub fired_job : ℕ → CronJob R → CronJob R
  fired_job now job = record job {
    state = record (job.state) {
      last_fired_at_ms = some now;
      run_count = saturating_suc job.state.run_count;
    };
  }

  -- The loop: the matchers and the timestamps afterwards, and the jobs to fire.
  unfoldable pub check_from :
      String
      → String
      → ℕ
      → Dict ℕ
      → List (Matcher R)
      → (Dict ℕ × List (Matcher R)) × List (CronJob R)
  check_from content channel now last_fired [] = ((last_fired, []), [])
  check_from content channel now last_fired (m ∷ ms) =
      let job = fired_job now m.job in
      let hit = check_from content channel now (insert m.id now last_fired) ms in
      let miss = check_from content channel now last_fired ms in
      if fires content channel now last_fired m
      then ((hit.0.0, record m { job = job } ∷ hit.0.1), job ∷ hit.1)
      else ((miss.0.0, m ∷ miss.0.1), miss.1)

  unfoldable pub check_message :
      String → String → ℕ → EventMatcher R → EventMatcher R × List (CronJob R)
  check_message content channel now e =
      let ((last_fired, ms), jobs) = check_from content channel now e.last_fired e.matchers in
      (record { matchers = ms; last_fired = last_fired }, jobs)

-- `merge_fired_state`: the later timestamp of each job; the entry of a new job starts from 0.
unfoldable pub merge_entry : String × ℕ → Dict ℕ → Dict ℕ
merge_entry (id, ts) d = elim (lookup id d) [
  | none ↦ insert id (if i64_lt 0 ts then ts else 0) d
  | some old ↦ insert id (if i64_lt old ts then ts else old) d
]

unfoldable pub merge_entries : Dict ℕ → Dict ℕ → Dict ℕ
merge_entries [] d = d
merge_entries (entry ∷ other) d = merge_entries other (merge_entry entry d)
