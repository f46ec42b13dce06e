-- ===== src/EventMatcher/Tests.antt =====
-- A job with a limit of one run, fired.
use oxicrab.Base.{ℕ, true, none, some, [], ◌∷◌, refl, All, arith}
use oxicrab.EventMatcher.{CronJob, EventMatcher, event, check_message}
use oxicrab.EventMatcher.Steps.{Steps}
use oxicrab.EventMatcher.Runs.{
  IsCooling, check_message-IsCooling, IsBounded, IsFired, check_message-IsFired,
}

abbrev once : CronJob ℕ
once = record {
  id = "greet";
  enabled = true;
  schedule = event (some "hello") none;
  state = record {
    next_run_at_ms = none;
    last_run_at_ms = none;
    last_status = none;
    last_error = none;
    run_count = 0;
    last_fired_at_ms = none;
  };
  expires_at_ms = none;
  max_runs = some 1;
  cooldown_secs = some 60;
  rest = 0;
}

abbrev greeter : EventMatcher ℕ
greeter = record {
  matchers = record { id = "greet"; regex = λ s. true; channel = none; job = once } ∷ [];
  last_fired = [];
}

check_message-IsFired_example :
    let (e', jobs) = check_message "hello" "slack" 1000 greeter in
    All (λ m. IsBounded m.job) e'.matchers
    × All (IsFired 1000) jobs
    × Steps "hello" "slack" 1000 [] greeter.matchers e'.matchers jobs
check_message-IsFired_example = check_message-IsFired "hello" "slack" 1000 greeter (omega arith, tt)

check_message-IsCooling_example :
    All
      (IsCooling 1030 1000 (check_message "hello" "slack" 1000 greeter).0.last_fired)
      (check_message "hello" "slack" 1000 greeter).1
check_message-IsCooling_example =
    check_message-IsCooling "hello" "slack" 1000 1030 greeter (omega arith) (omega arith)
      ((refl, omega arith), tt)
