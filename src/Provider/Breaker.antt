-- ===== src/Provider/Breaker.antt =====
-- crates/oxicrab-providers/src/circuit_breaker/mod.rs: the circuit breaker around a provider.
-- The mutex is held in each of `should_allow`, `record_success` and `record_failure`, and not while the
-- inner provider runs: `chat` takes what other tasks do meanwhile as `meanwhile`. Instants are
-- nanoseconds, and `u32` counters wrap.
mod Invariant
mod Recovery
mod Wedge
mod Classify
mod Tests
use oxicrab.Base.{
  ℕ, ◌+◌, ◌-◌, ◌/◌, ◌%◌, max, String, List, [], ◌∷◌, ◌&&◌, ◌||◌, Bool, true, false, not, Option,
  none, some, if◌then◌else◌, leb, ◌==◌, any, length, get_elem?,
}
use oxicrab.Base.Result.{Result, ok, err}
use oxicrab.Base.Text.{Text, codes, contains, find, is_ascii_digit}
use oxicrab.Errors.{AnyError, typed, untyped, is_retryable}

pub record Config : Type 0 where
  pub failure_threshold : ℕ  -- u32
  pub recovery_timeout_secs : ℕ  -- u64
  pub half_open_probes : ℕ  -- u32

pub data CircuitState : Type 0 where
  closed : CircuitState
  open_since : ℕ → CircuitState
  half_open : ℕ → CircuitState

pub record BreakerState : Type 0 where
  pub state : CircuitState
  pub consecutive_failures : ℕ  -- u32
  pub active_probes : ℕ  -- u32

-- The two messages of `should_allow`.
pub data Refusal : Type 0 where
  probes_active : ℕ → Refusal
  still_open : ℕ → Refusal

abbrev pub u32 : ℕ → ℕ
u32 n = n % 4294967296

-- `wrap`: the clamped configuration and the first state.
unfoldable pub clamp_config : Config → Config
clamp_config c = record c { half_open_probes = max c.half_open_probes 1 }

unfoldable pub initial : BreakerState
initial = record { state = closed; consecutive_failures = 0; active_probes = 0 }

-- `since.elapsed().as_secs()`.
abbrev pub elapsed_secs : ℕ → ℕ → ℕ
elapsed_secs since now = (now - since) / 1000000000

allow_in : CircuitState → Config → ℕ → BreakerState → BreakerState × Result Refusal (Unit {0})
allow_in closed c now b = (b, ok tt)
allow_in (half_open successes) c now b =
    if leb c.half_open_probes (u32 (b.active_probes + successes))
    then (b, err (probes_active b.active_probes))
    else (record b { active_probes = u32 (b.active_probes + 1) }, ok tt)
allow_in (open_since since) c now b =
    if leb c.recovery_timeout_secs (elapsed_secs since now)
    then (record b { state = half_open 0; active_probes = 1 }, ok tt)
    else (b, err (still_open (c.recovery_timeout_secs - elapsed_secs since now)))

unfoldable pub should_allow : Config → ℕ → BreakerState → BreakerState × Result Refusal (Unit {0})
unfolding allow_in
should_allow c now b = allow_in b.state c now b

-- `saturating_sub` is `-`.
success_in : CircuitState → Config → BreakerState → BreakerState
success_in (half_open successes) c b =
    if leb c.half_open_probes (u32 (successes + 1))
    then record b { state = closed; active_probes = 0 }
    else record b { state = half_open (u32 (successes + 1)); active_probes = b.active_probes - 1 }
success_in closed c b = b
success_in (open_since since) c b = b

unfoldable pub record_success : Config → BreakerState → BreakerState
unfolding success_in
record_success c b = success_in b.state c (record b { consecutive_failures = 0 })

failure_in : CircuitState → Config → ℕ → BreakerState → BreakerState
failure_in closed c now b =
    if leb c.failure_threshold b.consecutive_failures
    then record b { state = open_since now }
    else b
failure_in (half_open successes) c now b = record b { state = open_since now; active_probes = 0 }
failure_in (open_since since) c now b = b

unfoldable pub record_failure : Config → Bool → ℕ → BreakerState → BreakerState
unfolding failure_in
record_failure c false now b = b
record_failure c true now b =
    failure_in b.state c now (record b { consecutive_failures = u32 (b.consecutive_failures + 1) })

-- One critical section of the breaker, as the tasks that share it interleave them.
pub data Event : Type 0 where
  asked : ℕ → Event
  succeeded : Event
  failed : Bool → ℕ → Event

unfoldable pub step : Config → BreakerState → Event → BreakerState
unfolding should_allow record_success record_failure
step c b (asked now) = (should_allow c now b).0
step c b succeeded = record_success c b
step c b (failed transient now) = record_failure c transient now b

unfoldable pub run : Config → BreakerState → List Event → BreakerState
run c b [] = b
run c b (e ∷ es) = run c (step c b e) es

pub non_transient_patterns : List Text
non_transient_patterns =
    codes "authentication"
    ∷ codes "unauthorized"
    ∷ codes "context length"
    ∷ codes "invalid api key"
    ∷ codes "invalid_api_key"
    ∷ codes "permission"
    ∷ codes "forbidden"
    ∷ []

pub transient_words : List Text
transient_words =
    codes "rate limit"
    ∷ codes "rate_limit"
    ∷ codes "overloaded"
    ∷ codes "timeout"
    ∷ codes "connection refused"
    ∷ codes "connection reset"
    ∷ codes "broken pipe"
    ∷ []

pub status_codes : List Text
status_codes = codes "429" ∷ codes "500" ∷ codes "502" ∷ codes "503" ∷ codes "504" ∷ []

digit_at : Text → ℕ → Bool
digit_at s i = elim (get_elem? s i) [ none ↦ false | some c ↦ is_ascii_digit c ]

-- The body of the loop over the status codes. `after_pos >= len` is the `none` of `digit_at`.
bounded_code : Text → Text → Bool
unfolding digit_at
bounded_code lower code = elim (find lower code) [
  | none ↦ false
  | some pos ↦
      (pos == 0 || not (digit_at lower (pos - 1))) && not (digit_at lower (pos + length code))
]

unfoldable pub is_transient_lower : Text → Bool
unfolding non_transient_patterns transient_words status_codes bounded_code
is_transient_lower lower =
    if any (contains lower) non_transient_patterns
    then false
    else if any (contains lower) transient_words
    then true
    else any (bounded_code lower) status_codes

pub data ChatError : Type 0 where
  refused : Refusal → ChatError
  inner_failed : AnyError → ChatError

-- `str::to_lowercase` is a parameter.
module _ (to_lowercase : Text → Text) where
  unfoldable pub is_transient : Text → Bool
  is_transient error = is_transient_lower (to_lowercase error)

  unfoldable pub transience : AnyError → Bool
  unfolding is_transient
  transience (typed e) = is_retryable e
  transience (untyped message) = is_transient message

  module _ {ℓ κ} {Req : Type ℓ} {Resp : Type κ} (inner : Req → Result AnyError Resp) where
    finish : Config → ℕ → Result AnyError Resp → BreakerState → BreakerState × Result ChatError Resp
    finish c later (ok response) b = (record_success c b, ok response)
    finish c later (err e) b = (record_failure c (transience e) later b, err (inner_failed e))

    -- Admitted at `now`; the inner call ends at `later`.
    unfoldable pub chat :
        Config
        → ℕ
        → ℕ
        → (BreakerState → BreakerState)
        → Req
        → BreakerState
        → BreakerState × Result ChatError Resp
    unfolding finish
    chat c now later meanwhile req b =
        let (b', allowed) = should_allow c now b in
        elim allowed [
          | err r ↦ (b', err (refused r))
          | ok _ ↦ finish c later (inner req) (meanwhile b')
        ]
