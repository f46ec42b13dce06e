-- ===== src/Provider/Breaker/Tests.antt =====
-- The breaker at concrete inputs.
use oxicrab.Base.{ℕ, ◌*◌, ◌≡◌, refl, true, false, List, [], ◌∷◌, ◌++◌, Option, arith, ◌⊎◌, any}
use oxicrab.Base.Result.{Result, err}
use oxicrab.Base.Text.{Text, codes, contains, find}
use oxicrab.Errors.{AnyError, typed, OxicrabError}
use oxicrab.Provider.Breaker.{
  Config, open_since, half_open, BreakerState, Event, asked, succeeded, failed, probes_active,
  still_open, clamp_config, initial, should_allow, step, run, is_transient_lower,
  non_transient_patterns, transient_words, status_codes,
}
use oxicrab.Provider.Breaker.Invariant.{Inv, run-initial-Inv}
use oxicrab.Provider.Breaker.Recovery.{
  trips_at_threshold, open_holds, probes_admitted, recovers, ask_times, closed_with, failures_at,
}
use oxicrab.Provider.Breaker.Wedge.{non_transient_wedges}
use oxicrab.Provider.Breaker.Classify.{transient_sound, HasText, HasCode, AnyOf}

abbrev sample : Config
sample = record { failure_threshold = 3; recovery_timeout_secs = 60; half_open_probes = 2 }

abbrev second : ℕ
second = 1000000000

abbrev tripped : BreakerState
tripped = record { state = open_since 0; consecutive_failures = 3; active_probes = 0 }

abbrev outage : List Event
outage = asked 1 ∷ failed true 2 ∷ failed true 3 ∷ failed true 4 ∷ asked 5 ∷ []

outage_opens : (run sample initial outage).state ≡ open_since 4
unfolding run initial step
outage_opens = refl

run-initial-Inv_example : Inv (clamp_config sample) (run (clamp_config sample) initial outage)
run-initial-Inv_example = run-initial-Inv sample outage (omega arith)

abbrev failing_provider : ℕ → Result AnyError ℕ
failing_provider n = err (typed (OxicrabError.rate_limit Option.none))

trips_at_threshold_example :
    (run sample (closed_with 0 0) (failures_at (1 ∷ 2 ∷ []) ++ failed true 9 ∷ [])).state
    ≡ open_since 9
trips_at_threshold_example =
    (trips_at_threshold sample (1 ∷ 2 ∷ []) 9 (omega arith)).1 (omega arith)

open_holds_example :
    should_allow sample (30 * second) (run sample tripped (asked second ∷ succeeded ∷ []))
    ≡ (run sample tripped (asked second ∷ succeeded ∷ []), err (still_open 30))
open_holds_example =
    (open_holds sample tripped 0 (30 * second) (asked second ∷ succeeded ∷ []) refl (omega arith)
      (omega arith)).1

probes_admitted_example : (ask_times sample (61 * second) 5 tripped).1 ≡ 2
probes_admitted_example =
    probes_admitted sample tripped 0 (61 * second) 5 (omega arith) refl (omega arith)

recovers_example :
    ((run sample
        (record { state = half_open 0; consecutive_failures = 3; active_probes = 2 })
        (succeeded ∷ [])).state
      ≡ half_open 1)
    × (run sample
          (record { state = half_open 0; consecutive_failures = 3; active_probes = 2 })
          (succeeded ∷ succeeded ∷ [])
        ≡ closed_with 0 0)
recovers_example = recovers sample 3 2 1 1 (omega arith) refl (omega arith)

-- Both probes end with an error that is not transient; a thousand seconds later nothing is admitted.
non_transient_wedges_example :
    let b = run sample tripped (
      asked (61 * second)
      ∷ asked (61 * second)
      ∷ failed false (62 * second)
      ∷ failed false (62 * second)
      ∷ []) in
    (b.state ≡ half_open 0)
    × (b.active_probes ≡ 2)
    × (should_allow sample (1000 * second) b ≡ (b, err (probes_active 2)))
non_transient_wedges_example =
    non_transient_wedges sample tripped 0 (61 * second) (1000 * second) 1
      (failed false (62 * second) ∷ failed false (62 * second) ∷ []) (omega arith) refl refl
      (omega arith) (refl, (refl, tt))

abbrev http_500 : Text
http_500 = codes "http 500: oops"

http_500_transient : is_transient_lower http_500 ≡ true
unfolding is_transient_lower contains find
http_500_transient = refl

-- A longer number is no status code, and hides a later one.
long_number_hides : is_transient_lower (codes "took 5000 ms, http 500") ≡ false
unfolding is_transient_lower contains find
long_number_hides = refl

transient_sound_example :
    (any (contains http_500) non_transient_patterns ≡ false)
    × (AnyOf (HasText http_500) transient_words ⊎ AnyOf (HasCode http_500) status_codes)
transient_sound_example = transient_sound http_500 http_500_transient
