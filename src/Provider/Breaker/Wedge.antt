-- ===== src/Provider/Breaker/Wedge.antt =====
-- A probe that ends in a non-transient error is never taken off `active_probes`.
use oxicrab.Base.{
  ℕ, zero, suc, ◌+◌, ◌≤◌, ◌<◌, true, false, ◌≡◌, refl, List, [], ◌∷◌, ◌++◌, arith, replicate, ap,
  subst, ◌∙◌, sym, All,
}
use oxicrab.Base.Result.{err}
use oxicrab.Provider.Breaker.{
  Config, half_open, open_since, BreakerState, Event, asked, succeeded, failed, should_allow, step,
  run, probes_active, elapsed_secs,
}
use oxicrab.Provider.Breaker.Recovery.{half_open_with, allow-room, allow-full, allow-elapsed}

-- Requests that ask, and requests that end with a non-transient error.
abbrev pub IsStuckEvent : Event → Type 0
IsStuckEvent (asked now) = Unit
IsStuckEvent succeeded = ⊥
IsStuckEvent (failed transient now) = transient ≡ false

stuck :
    (c : Config) (es : List Event) (s f p : ℕ)
    → c.half_open_probes < 4294967296
    → p + s ≡ c.half_open_probes
    → All IsStuckEvent es
    → run c (half_open_with s f p) es ≡ half_open_with s f p
unfolding run step
stuck c [] s f p k h u = refl
stuck c (asked now ∷ es) s f p k h u =
    ap (λ r. run c r.0 es) (allow-full c now s f p k h) ∙ stuck c es s f p k h u.1
stuck c (succeeded ∷ es) s f p k h u = absurd u.0
stuck c (failed true now ∷ es) s f p k h u = cc (u.0)
stuck c (failed false now ∷ es) s f p k h u = stuck c es s f p k h u.1

filling :
    (c : Config) (now n s f p : ℕ) (es : List Event)
    → c.half_open_probes < 4294967296
    → p + s + n ≡ c.half_open_probes
    → run c (half_open_with s f p) (replicate n (asked now) ++ es)
      ≡ run c (half_open_with s f (p + n)) es
unfolding run step
filling c now zero s f p es k h = ap (λ q. run c (half_open_with s f q) es) (omega arith)
filling c now (suc n) s f p es k h =
    ap (λ r. run c r.0 (replicate n (asked now) ++ es)) (allow-room c now s f p k (omega arith))
    ∙ filling c now n s f (p + 1) es k (omega arith)
    ∙ ap (λ q. run c (half_open_with s f q) es) (omega arith)

wedged :
    (c : Config) (b : BreakerState) (since now n : ℕ) (es : List Event)
    → c.half_open_probes < 4294967296
    → n + 1 ≡ c.half_open_probes
    → b.state ≡ open_since since
    → c.recovery_timeout_secs ≤ elapsed_secs since now
    → All IsStuckEvent es
    → run c b (asked now ∷ (replicate n (asked now) ++ es))
      ≡ half_open_with 0 b.consecutive_failures c.half_open_probes
unfolding run step
wedged c b since now n es k h o t u =
    ap (λ r. run c r.0 (replicate n (asked now) ++ es)) (allow-elapsed c b since now o t)
    ∙ filling c now n 0 b.consecutive_failures 1 es k (omega arith)
    ∙ ap (λ q. run c (half_open_with 0 b.consecutive_failures q) es) (omega arith)
    ∙ stuck c es 0 b.consecutive_failures c.half_open_probes k (omega arith) u

-- The breaker can lock itself for good. An open breaker whose recovery time has passed admits
-- `half_open_probes` requests; whatever requests ask later and however many of them end with a
-- non-transient error (so also when every admitted request has ended), the breaker stays half-open
-- with all its probes counted as active, and refuses every request at every later time.
pub non_transient_wedges :
    (c : Config) (b : BreakerState) (since now later n : ℕ) (es : List Event)
    → c.half_open_probes < 4294967296
    → n + 1 ≡ c.half_open_probes
    → b.state ≡ open_since since
    → c.recovery_timeout_secs ≤ elapsed_secs since now
    → All IsStuckEvent es
    → let b' = run c b (asked now ∷ (replicate n (asked now) ++ es)) in
      (b'.state ≡ half_open 0)
      × (b'.active_probes ≡ c.half_open_probes)
      × (should_allow c later b' ≡ (b', err (probes_active c.half_open_probes)))
non_transient_wedges c b since now later n es k h o t u =
    subst
      (λ b'.
        (b'.state ≡ half_open 0)
        × (b'.active_probes ≡ c.half_open_probes)
        × (should_allow c later b' ≡ (b', err (probes_active c.half_open_probes))))
      (sym (wedged c b since now n es k h o t u))
      (refl, refl, allow-full c later 0 b.consecutive_failures c.half_open_probes k (omega arith))
