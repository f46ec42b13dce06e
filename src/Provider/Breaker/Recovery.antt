-- ===== src/Provider/Breaker/Recovery.antt =====
-- How the breaker trips, holds, probes and closes again.
use mathlib.Core.List.{append-nil}
use native.Mathlib.Decide.{dec_lt}
use oxicrab.Base.{
  ℕ, zero, suc, ◌+◌, ◌-◌, ◌≤◌, ◌<◌, min, true, false, ◌≡◌, List, [], ◌∷◌, ◌++◌, map, arith,
  replicate, length, ap, ◌∙◌, sym, All,
}
use oxicrab.Base.Result.{Result, ok, err}
use oxicrab.Provider.Breaker.{
  Config, closed, open_since, half_open, BreakerState, Event, asked, succeeded, failed, Refusal,
  should_allow, step, run, still_open, probes_active, elapsed_secs,
}
use oxicrab.Provider.Breaker.Invariant.{IsConfig}

abbrev pub closed_with : ℕ → ℕ → BreakerState
closed_with failures probes = record {
  state = closed;
  consecutive_failures = failures;
  active_probes = probes;
}

abbrev pub failures_at : List ℕ → List Event
failures_at = map (failed true)

step-fail_below :
    (c : Config) (now f p : ℕ)
    → c.failure_threshold < 4294967296
    → f + 1 < c.failure_threshold
    → step c (closed_with f p) (failed true now) ≡ closed_with (f + 1) p
unfolding step
step-fail_below c now f p k h = ground arith

step-fail_at :
    (c : Config) (now f p : ℕ)
    → c.failure_threshold < 4294967296
    → f + 1 ≡ c.failure_threshold
    → (step c (closed_with f p) (failed true now)).state ≡ open_since now
unfolding step
step-fail_at c now f p k h = ground arith

failing-below :
    (c : Config) (ts : List ℕ) (es : List Event) (f p : ℕ)
    → c.failure_threshold < 4294967296
    → length ts + f < c.failure_threshold
    → run c (closed_with f p) (failures_at ts ++ es) ≡ run c (closed_with (length ts + f) p) es
unfolding run
failing-below c [] es f p k h = ap (λ n. run c (closed_with n p) es) (omega arith)
failing-below c (t ∷ ts) es f p k h =
    ap (λ b. run c b (failures_at ts ++ es)) (step-fail_below c t f p k (omega arith))
    ∙ failing-below c ts es (f + 1) p k (omega arith)
    ∙ ap (λ n. run c (closed_with n p) es) (omega arith)

-- A closed breaker without failures stays closed through consecutive transient failures, at any
-- times, as long as they are fewer than `failure_threshold`, and the failure that makes them
-- `failure_threshold` many opens it at that failure's time.
pub trips_at_threshold :
    (c : Config) (ts : List ℕ) (now : ℕ)
    → c.failure_threshold < 4294967296
    → (length ts < c.failure_threshold → (run c (closed_with 0 0) (failures_at ts)).state ≡ closed)
      × (length ts + 1 ≡ c.failure_threshold
          → (run c (closed_with 0 0) (failures_at ts ++ failed true now ∷ [])).state
            ≡ open_since now)
unfolding run
trips_at_threshold c ts now k = (
  (λ h.
      ap (λ es. (run c (closed_with 0 0) es).state) (sym (append-nil (failures_at ts)))
      ∙ ap (λ b. b.state) (failing-below c ts [] 0 0 k (omega arith))),
  (λ h.
      ap (λ b. b.state) (failing-below c ts (failed true now ∷ []) 0 0 k (omega arith))
      ∙ step-fail_at c now (length ts + 0) 0 k (omega arith)),
)

-- Events of a breaker that opened at `since` and whose recovery time has not passed: requests that
-- ask too early, and the ends of requests that were admitted before.
abbrev pub IsEarly : Config → ℕ → Event → Type 0
IsEarly c since (asked now) = elapsed_secs since now < c.recovery_timeout_secs
IsEarly c since succeeded = Unit
IsEarly c since (failed transient now) = Unit

step-open :
    (c : Config) (b : BreakerState) (since : ℕ) (e : Event)
    → b.state ≡ open_since since
    → IsEarly c since e
    → (step c b e).state ≡ open_since since
unfolding step
step-open c b since (asked now) o h = ground arith
step-open c b since succeeded o h = ground arith
step-open c b since (failed true now) o h = ground arith
step-open c b since (failed false now) o h = o

run-open :
    (c : Config) (b : BreakerState) (since : ℕ) (es : List Event)
    → b.state ≡ open_since since
    → All (IsEarly c since) es
    → (run c b es).state ≡ open_since since
unfolding run
run-open c b since [] o h = o
run-open c b since (e ∷ es) o h = run-open c (step c b e) since es (step-open c b since e o h.0) h.1

allow-open :
    (c : Config) (b : BreakerState) (since now : ℕ)
    → b.state ≡ open_since since
    → elapsed_secs since now < c.recovery_timeout_secs
    → should_allow c now b
      ≡ (b, err (still_open (c.recovery_timeout_secs - elapsed_secs since now)))
unfolding should_allow
allow-open c b since now o h = ground arith

-- An open breaker stays open, since the same time, through every interleaving of early requests and
-- of requests that end, and afterwards refuses each early request with the seconds that remain.
pub open_holds :
    (c : Config) (b : BreakerState) (since now : ℕ) (es : List Event)
    → b.state ≡ open_since since
    → All (IsEarly c since) es
    → elapsed_secs since now < c.recovery_timeout_secs
    → let b' = run c b es in
      (b'.state ≡ open_since since)
      × (should_allow c now b'
          ≡ (b', err (still_open (c.recovery_timeout_secs - elapsed_secs since now))))
open_holds c b since now es e h k =
    let o = run-open c b since es e h in (o, allow-open c (run c b es) since now o k)

-- `n` requests that ask at the same time, one after another: the state, and how many are admitted.
abbrev pub admitted : Result Refusal (Unit {0}) → ℕ → ℕ
admitted (ok _) n = suc n
admitted (err _) n = n

pub ask_times : Config → ℕ → ℕ → BreakerState → BreakerState × ℕ
ask_times c now zero b = (b, 0)
ask_times c now (suc n) b =
    let (b', r) = should_allow c now b in let (b'', k) = ask_times c now n b' in (b'', admitted r k)

abbrev pub half_open_with : ℕ → ℕ → ℕ → BreakerState
half_open_with successes failures probes = record {
  state = half_open successes;
  consecutive_failures = failures;
  active_probes = probes;
}

pub allow-room :
    (c : Config) (now s f p : ℕ)
    → c.half_open_probes < 4294967296
    → p + s < c.half_open_probes
    → should_allow c now (half_open_with s f p) ≡ (half_open_with s f (p + 1), ok tt)
unfolding should_allow
allow-room c now s f p k h = ground arith

pub allow-full :
    (c : Config) (now s f p : ℕ)
    → c.half_open_probes < 4294967296
    → p + s ≡ c.half_open_probes
    → should_allow c now (half_open_with s f p) ≡ (half_open_with s f p, err (probes_active p))
unfolding should_allow
allow-full c now s f p k h = ground arith

pub allow-elapsed :
    (c : Config) (b : BreakerState) (since now : ℕ)
    → b.state ≡ open_since since
    → c.recovery_timeout_secs ≤ elapsed_secs since now
    → should_allow c now b ≡ (half_open_with 0 b.consecutive_failures 1, ok tt)
unfolding should_allow
allow-elapsed c b since now o h = ground arith

asking-half_open :
    (c : Config) (now n s f p : ℕ)
    → c.half_open_probes < 4294967296
    → p + s ≤ c.half_open_probes
    → (ask_times c now n (half_open_with s f p)).1 ≡ min n (c.half_open_probes - (p + s))
unfolding ask_times
asking-half_open c now zero s f p k h = omega arith
asking-half_open c now (suc n) s f p k h = elim (dec_lt (p + s) c.half_open_probes) [
  | yes room ↦
      rw (allow-room c now s f p k room, ask_times)
        (omega (arith, asking-half_open c now n s f (p + 1) k (omega arith)))
  | no full ↦
      rw (allow-full c now s f p k (omega arith), ask_times)
        (omega (arith, asking-half_open c now n s f p k h))
]

-- When the recovery time of an open breaker has passed, of any number of requests that ask before
-- one of them ends exactly the first `half_open_probes` are admitted.
pub probes_admitted :
    (c : Config) (b : BreakerState) (since now n : ℕ)
    → IsConfig c
    → b.state ≡ open_since since
    → c.recovery_timeout_secs ≤ elapsed_secs since now
    → (ask_times c now n b).1 ≡ min n c.half_open_probes
unfolding ask_times
probes_admitted c b since now zero k o h = omega arith
probes_admitted c b since now (suc n) k o h =
    rw (allow-elapsed c b since now o h, ask_times)
      (omega
        (arith, asking-half_open c now n 0 b.consecutive_failures 1 (omega arith) (omega arith)))

success-room :
    (c : Config) (s f p : ℕ)
    → c.half_open_probes < 4294967296
    → s + 1 < c.half_open_probes
    → step c (half_open_with s f p) succeeded ≡ half_open_with (s + 1) 0 (p - 1)
unfolding step
success-room c s f p k h = ground arith

succeeding :
    (c : Config) (n s f p : ℕ)
    → c.half_open_probes < 4294967296
    → s + n + 1 ≡ c.half_open_probes
    → (run c (half_open_with s f p) (replicate (suc n) succeeded)) ≡ closed_with 0 0
unfolding run step
succeeding c zero s f p k h = ground arith
succeeding c (suc n) s f p k h =
    ap (λ b. run c b (replicate (suc n) succeeded)) (success-room c s f p k (omega arith))
    ∙ succeeding c n (s + 1) 0 (p - 1) k (omega arith)

-- Fewer successes than the required number keep the breaker half-open and are counted.
counting :
    (c : Config) (m s f p : ℕ)
    → c.half_open_probes < 4294967296
    → s + m < c.half_open_probes
    → (run c (half_open_with s f p) (replicate m succeeded)).state ≡ half_open (s + m)
unfolding run
counting c zero s f p k h = ap half_open (omega arith)
counting c (suc m) s f p k h =
    ap (λ b. (run c b (replicate m succeeded)).state) (success-room c s f p k (omega arith))
    ∙ counting c m (s + 1) 0 (p - 1) k (omega arith)
    ∙ ap half_open (omega arith)

-- A half-open breaker whose admitted probes all succeed closes with the `half_open_probes`-th success,
-- both counters reset, and with no earlier one: after fewer successes it is half-open and has counted
-- them.
pub recovers :
    (c : Config) (failures probes n m : ℕ)
    → c.half_open_probes < 4294967296
    → n + 1 ≡ c.half_open_probes
    → m < c.half_open_probes
    → ((run c
          (record { state = half_open 0; consecutive_failures = failures; active_probes = probes })
          (replicate m succeeded)).state
        ≡ half_open m)
      × (run c
            (record {
              state = half_open 0;
              consecutive_failures = failures;
              active_probes = probes;
            })
            (replicate (suc n) succeeded)
          ≡ closed_with 0 0)
recovers c failures probes n m k h l = (
  counting c m 0 failures probes k (omega arith) ∙ ap half_open (omega arith),
  succeeding c n 0 failures probes k (omega arith),
)
