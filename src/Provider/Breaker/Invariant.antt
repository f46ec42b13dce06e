-- ===== src/Provider/Breaker/Invariant.antt =====
-- What holds of the breaker's counters between two critical sections.
use oxicrab.Base.{ℕ, ◌+◌, ◌≤◌, ◌<◌, max, true, false, ◌≡◌, List, [], ◌∷◌, arith, inl, inr}
use oxicrab.Base.Result.{Result, ok, err, Result-cases}
use oxicrab.Base.Text.{Text}
use oxicrab.Errors.{AnyError}
use oxicrab.Provider.Breaker.{
  Config, CircuitState, closed, open_since, half_open, BreakerState, Event, asked, succeeded,
  failed, clamp_config, initial, should_allow, step, run, chat, finish, transience,
}

-- The ranges of a configuration that `wrap` has clamped.
abbrev pub IsConfig : Config → Type 0
IsConfig c =
    (1 ≤ c.half_open_probes)
    × (c.half_open_probes < 4294967296)
    × (c.failure_threshold < 4294967296)

abbrev pub Counts : Config → CircuitState → ℕ → ℕ → Type 0
Counts c closed failures probes = (probes ≡ 0) × (failures < max 1 c.failure_threshold)
Counts c (open_since t) failures probes = probes ≡ 0
Counts c (half_open s) failures probes =
    (s < c.half_open_probes) × (probes + s ≤ c.half_open_probes)

-- Probes are counted in the half-open state alone, where the admitted and the successful ones
-- together stay within `half_open_probes`; a closed breaker is below its threshold.
abbrev pub Inv : Config → BreakerState → Type 0
Inv c b = Counts c b.state b.consecutive_failures b.active_probes

pub initial-Inv : (c : Config) → Inv c initial
unfolding initial
initial-Inv c = omega arith

step_in :
    (c : Config) (s : CircuitState) (f p : ℕ) (e : Event)
    → IsConfig c
    → Counts c s f p
    → Inv c (step c (record { state = s; consecutive_failures = f; active_probes = p }) e)
unfolding step
step_in c closed f p (asked now) k v = ground arith
step_in c closed f p succeeded k v = ground arith
step_in c closed f p (failed true now) k v = ground arith
step_in c closed f p (failed false now) k v = ground arith
step_in c (open_since t) f p (asked now) k v = ground arith
step_in c (open_since t) f p succeeded k v = ground arith
step_in c (open_since t) f p (failed true now) k v = ground arith
step_in c (open_since t) f p (failed false now) k v = ground arith
step_in c (half_open s) f p (asked now) k v = ground arith
step_in c (half_open s) f p succeeded k v = ground arith
step_in c (half_open s) f p (failed true now) k v = ground arith
step_in c (half_open s) f p (failed false now) k v = ground arith

pub step-Inv :
    (c : Config) (b : BreakerState) (e : Event) → IsConfig c → Inv c b → Inv c (step c b e)
step-Inv c b e k v = step_in c b.state b.consecutive_failures b.active_probes e k v

run-Inv :
    (c : Config) (b : BreakerState) (es : List Event) → IsConfig c → Inv c b → Inv c (run c b es)
unfolding run
run-Inv c b [] k v = v
run-Inv c b (e ∷ es) k v = run-Inv c (step c b e) es k (step-Inv c b e k v)

abbrev pub IsU32Config : Config → Type 0
IsU32Config c = (c.half_open_probes < 4294967296) × (c.failure_threshold < 4294967296)

-- From a wrapped provider's first state, under its clamped configuration, every interleaving of
-- critical sections keeps the invariant: the probe counter is zero unless the breaker is half-open,
-- there the admitted and the successful probes together never exceed the clamped
-- `half_open_probes`, and a closed breaker has fewer failures than its threshold (or none).
pub run-initial-Inv :
    (c : Config) (es : List Event)
    → IsU32Config c
    → Inv (clamp_config c) (run (clamp_config c) initial es)
unfolding clamp_config
run-initial-Inv c es k =
    run-Inv (clamp_config c) initial es (omega arith) (initial-Inv (clamp_config c))

allow-Inv :
    (c : Config) (now : ℕ) (b : BreakerState)
    → IsConfig c
    → Inv c b
    → Inv c (should_allow c now b).0
unfolding step
allow-Inv c now b k v = step-Inv c b (asked now) k v

finish-Inv {ℓ κ} :
    {Req : Type ℓ} {Resp : Type κ} (to_lowercase : Text → Text) (inner : Req → Result AnyError Resp)
    (c : Config) (later : ℕ) (r : Result AnyError Resp) (b : BreakerState)
    → IsConfig c
    → Inv c b
    → Inv c (finish to_lowercase inner c later r b).0
unfolding finish step
finish-Inv to_lowercase inner c later (ok a) b k v = step-Inv c b succeeded k v
finish-Inv to_lowercase inner c later (err e) b k v =
    step-Inv c b (failed (transience to_lowercase e) later) k v

-- A `chat` call keeps the invariant on every path, if what the other tasks do meanwhile does.
pub chat-Inv {ℓ κ} :
    {Req : Type ℓ} {Resp : Type κ} (to_lowercase : Text → Text) (inner : Req → Result AnyError Resp)
    (c : Config) (now later : ℕ) (meanwhile : BreakerState → BreakerState) (req : Req)
    (b : BreakerState)
    → IsConfig c
    → ((b' : BreakerState) → Inv c b' → Inv c (meanwhile b'))
    → Inv c b
    → Inv c (chat to_lowercase inner c now later meanwhile req b).0
unfolding chat
chat-Inv to_lowercase inner c now later meanwhile req b k keep v =
    elim (Result-cases (should_allow c now b).1) [
      | inl (a, e) ↦
          rw (e, chat)
            (finish-Inv to_lowercase inner c later (inner req) (meanwhile (should_allow c now b).0)
              k (keep _ (allow-Inv c now b k v)))
      | inr (r, e) ↦ rw (e, chat) (allow-Inv c now b k v)
    ]
