-- ===== src/Cron/Schedule.antt =====
-- src/cron/service/mod.rs: when a schedule runs next. The cron and the time zone crates are an
-- argument; a time is an `i64` of milliseconds in two's complement.
pub mod Next
use Prim.Native.String.{◌++◌ as ◌++ₛ◌}
use mathlib.Core.Option
use oxicrab.Base.{
  ℕ, ◌+◌, ◌/◌, ◌==◌, Bool, true, false, String, Option, none, some, List, [], ◌∷◌, length,
  if◌then◌else◌,
}
use oxicrab.Base.Result.{Result, ok, err}
use oxicrab.Base.Signed.{
  i64_add, i64_lt, i64_saturating_sub, i64_div, i64_checked_mul, i64_checked_add,
}
use oxicrab.EventMatcher.{CronSchedule, at, every, cron, event}

-- The crates: the words of a text, the parsers of expressions and of zones, whether a second is in the
-- range of dates, and the milliseconds of the first run after a second.
pub record CronCrate : Type 1 where
  pub Expression : Type 0
  pub Zone : Type 0
  pub split_whitespace : String → List String
  pub parse : String → Option Expression
  pub parse_zone : String → Option Zone
  pub utc : Zone
  pub is_date : ℕ → Bool
  pub next_after : Expression → Zone → ℕ → Option ℕ

unfoldable pub normalize_expr : CronCrate → String → String
normalize_expr c expr = if length (c.split_whitespace expr) == 5 then "0 " ++ₛ expr else expr

pub data CronError : Type 0 where
  invalid_expression unknown_schedule_type out_of_range duplicate_key missing_job : CronError
  no_unique_suffix callback_failed : CronError

unfoldable pub validate_cron_expr : CronCrate → String → Result CronError String
validate_cron_expr c expr = elim (c.parse (normalize_expr c expr)) [
  | none ↦ err invalid_expression
  | some e ↦ ok (normalize_expr c expr)
]

-- A zone that does not parse falls back to UTC.
unfoldable pub zone_of : (c : CronCrate) → Option String → c.Zone
zone_of c none = c.utc
zone_of c (some tz) = Option.get_or (c.parse_zone tz) c.utc

unfoldable pub next_cron : (c : CronCrate) → String → Option String → ℕ → Option ℕ
next_cron c expr tz now = elim (c.parse (normalize_expr c expr)) [
  | none ↦ none
  | some e ↦
      if c.is_date (i64_div now 1000)
      then c.next_after e (zone_of c tz) (i64_div now 1000)
      else none
]

infixl 5 ◌>>=◌
abbrev pub ◌>>=◌ {ℓ κ} : {A : Type ℓ} {B : Type κ} → Option A → (A → Option B) → Option B
none >>= f = none
some a >>= f = f a

-- The first time after `now` that is a whole number of intervals from the anchor.
unfoldable pub next_every : ℕ → ℕ → ℕ → Option ℕ
next_every step_ms now anchor = do
  offset ← i64_checked_mul (i64_add (i64_div (i64_saturating_sub now anchor) step_ms) 1) step_ms
  i64_checked_add anchor offset

unfoldable pub compute_next_run_with_last : CronCrate → CronSchedule → ℕ → Option ℕ → Option ℕ
compute_next_run_with_last c (at none) now last = none
compute_next_run_with_last c (at (some at_ms)) now last =
    if i64_lt now at_ms then some at_ms else none
compute_next_run_with_last c (every none) now last = none
compute_next_run_with_last c (every (some every_ms)) now last =
    if i64_lt 0 every_ms then next_every every_ms now (Option.get_or last now) else none
compute_next_run_with_last c (event pattern channel) now last = none
compute_next_run_with_last c (cron none tz) now last = none
compute_next_run_with_last c (cron (some expr) tz) now last = next_cron c expr tz now

unfoldable pub compute_next_run : CronCrate → CronSchedule → ℕ → Option ℕ
compute_next_run c schedule now = compute_next_run_with_last c schedule now none
