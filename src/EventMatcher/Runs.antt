-- ===== src/EventMatcher/Runs.antt =====
-- Run limits and expiry of the jobs that a message fires.
use oxicrab.Base.{
  ltb, ◌*◌, ◌-◌, ◌/◌, ◌<◌, Bool, ap, ◌∙◌, subst, ℕ, ◌≤◌, true, false, String, Option, none, some,
  List, [], ◌∷◌, ◌≡◌, refl, arith, All, Bool-cases, inl, inr,
}
use oxicrab.EventMatcher.Steps.{Steps, check_from-Steps}
use oxicrab.Base.Signed.{i64_lt, bias}
use oxicrab.Base.Dict.{lookup-insert, lookup-insert_self, Dict, lookup, insert}
use oxicrab.EventMatcher.{
  elapsed_secs, is_cooling, CronJob, Matcher, EventMatcher, fires, fired_job, check_from,
  check_message, is_past, is_exhausted, saturating_suc,
}

-- The job has not run more often than it may.
abbrev pub IsWithin : Option ℕ → ℕ → Type 0
IsWithin none runs = Unit
IsWithin (some most) runs = runs ≤ most

IsWithin-suc :
    (most : Option ℕ) (runs : ℕ)
    → is_exhausted most runs ≡ false
    → IsWithin most (saturating_suc runs)
unfolding is_exhausted saturating_suc
IsWithin-suc none runs h = tt
IsWithin-suc (some most) runs h = ground arith

-- Fewer milliseconds have passed than the cooldown's seconds make; no cooldown holds back nothing.
abbrev pub holds_back : Option ℕ → ℕ → Bool
holds_back none passed = false
holds_back (some cooldown) passed = ltb passed (cooldown * 1000)

-- A cooldown that is no negative `i64`.
abbrev pub IsSeconds : Option ℕ → Type 0
IsSeconds none = Unit
IsSeconds (some cooldown) = cooldown < 9223372036854775808

elapsed_secs-forward :
    (later now : ℕ)
    → now ≤ later
    → later < 9223372036854775808
    → elapsed_secs later now ≡ (later - now) / 1000
unfolding elapsed_secs
elapsed_secs-forward later now order small = ground arith

cooling :
    (later now : ℕ) (cooldown : Option ℕ)
    → now ≤ later
    → later < 9223372036854775808
    → IsSeconds cooldown
    → is_cooling cooldown (some now) later ≡ holds_back cooldown (later - now)
unfolding is_cooling i64_lt bias
cooling later now none order small seconds = refl
cooling later now (some cooldown) order small seconds =
    ground (arith, elapsed_secs-forward later now order small)

module _ {ℓ} {R : Type ℓ} where
  abbrev pub IsBounded : CronJob R → Type 0
  IsBounded job = IsWithin job.max_runs job.state.run_count

  -- A job that a message fires at `now`: not expired, within its runs, and marked as fired.
  abbrev pub IsFired : ℕ → CronJob R → Type 0
  IsFired now job =
      (is_past job.expires_at_ms now ≡ false)
      × IsBounded job
      × (job.state.last_fired_at_ms ≡ some now)

  fires-open :
      (content channel : String) (now : ℕ) (d : Dict ℕ) (m : Matcher R)
      → fires content channel now d m ≡ true
      → (is_past m.job.expires_at_ms now ≡ false)
        × (is_exhausted m.job.max_runs m.job.state.run_count ≡ false)
  unfolding fires
  fires-open content channel now d m h = ground arith

  fired_job-IsFired :
      (now : ℕ) (job : CronJob R)
      → is_past job.expires_at_ms now ≡ false
      → is_exhausted job.max_runs job.state.run_count ≡ false
      → IsFired now (fired_job now job)
  unfolding fired_job
  fired_job-IsFired now job live more =
      (live, IsWithin-suc job.max_runs job.state.run_count more, refl)

  check_from-IsFired :
      (content channel : String) (now : ℕ) (d : Dict ℕ) (ms : List (Matcher R))
      → All (λ m. IsBounded m.job) ms
      → All (λ m. IsBounded m.job) (check_from content channel now d ms).0.1
        × All (IsFired now) (check_from content channel now d ms).1
  unfolding check_from
  check_from-IsFired content channel now d [] h = (tt, tt)
  check_from-IsFired content channel now d (m ∷ ms) h =
      elim (Bool-cases (fires content channel now d m)) [
        | inr e ↦
            let (kept, jobs) = check_from-IsFired content channel now d ms h.1 in
            rw e ((h.0, kept), jobs)
        | inl e ↦
            let (kept, jobs) = check_from-IsFired content channel now (insert m.id now d) ms h.1 in
            let (live, more) = fires-open content channel now d m e in
            let fired = fired_job-IsFired now m.job live more in
            rw e ((fired.1, kept), (fired, jobs))
      ]

  -- If no job of a matcher has run more often than its limit, then a message leaves it so, and each
  -- job that it fires has not expired, stays within its limit, and carries the time of the message.
  -- Matcher by matcher, one that its expiry, its limit, its channel, its pattern or its cooldown holds
  -- back stays as it is, and the job of any other is fired with its run count one higher, up to the
  -- greatest `u32`, and kept so in the matcher.
  pub check_message-IsFired :
      (content channel : String) (now : ℕ) (e : EventMatcher R)
      → All (λ m. IsBounded m.job) e.matchers
      → let (e', jobs) = check_message content channel now e in
        All (λ m. IsBounded m.job) e'.matchers
        × All (IsFired now) jobs
        × Steps content channel now e.last_fired e.matchers e'.matchers jobs
  unfolding check_message
  check_message-IsFired content channel now e h =
      let (kept, jobs) = check_from-IsFired content channel now e.last_fired e.matchers h in
      (kept, jobs, check_from-Steps content channel now e.last_fired e.matchers)

  lookup-check_from :
      (content channel key : String) (now : ℕ) (d : Dict ℕ) (ms : List (Matcher R))
      → lookup key d ≡ some now
      → lookup key (check_from content channel now d ms).0.0 ≡ some now
  unfolding check_from
  lookup-check_from content channel key now d [] h = h
  lookup-check_from content channel key now d (m ∷ ms) h =
      elim (Bool-cases (fires content channel now d m)) [
        | inr e ↦ rw e (lookup-check_from content channel key now d ms h)
        | inl e ↦ rw e (
            lookup-check_from content channel key now (insert m.id now d) ms
              (lookup-insert m.id key now d ∙ ground arith))
      ]

  -- At `later` the cooldown counts from `now`.
  abbrev pub IsCooling : ℕ → ℕ → Dict ℕ → CronJob R → Type 0
  IsCooling later now d job =
      is_cooling job.cooldown_secs (lookup job.id d) later
      ≡ holds_back job.cooldown_secs (later - now)

  check_from-IsCooling :
      (content channel : String) (now later : ℕ) (d : Dict ℕ) (ms : List (Matcher R))
      → now ≤ later
      → later < 9223372036854775808
      → All (λ m. (m.id ≡ m.job.id) × IsSeconds m.job.cooldown_secs) ms
      → All
          (IsCooling later now (check_from content channel now d ms).0.0)
          (check_from content channel now d ms).1
  unfolding check_from fired_job
  check_from-IsCooling content channel now later d [] order small h = tt
  check_from-IsCooling content channel now later d (m ∷ ms) order small h =
      elim (Bool-cases (fires content channel now d m)) [
        | inr e ↦ rw e (check_from-IsCooling content channel now later d ms order small h.1)
        | inl e ↦ rw e (
          ap (λ o. is_cooling m.job.cooldown_secs o later) (fired_lookup m d ms h.0.0)
              ∙ cooling later now m.job.cooldown_secs order small h.0.1,
          check_from-IsCooling content channel now later (insert m.id now d) ms order small h.1,
        )
      ]
    where
      fired_lookup :
          (m : Matcher R) (d : Dict ℕ) (ms : List (Matcher R))
          → m.id ≡ m.job.id
          → lookup m.job.id (check_from content channel now (insert m.id now d) ms).0.0 ≡ some now
      fired_lookup m d ms same =
          lookup-check_from content channel m.job.id now (insert m.id now d) ms (
            subst (λ k. lookup k (insert m.id now d) ≡ some now) same
              (lookup-insert_self m.id now d))

  -- If every matcher carries the id of its job and no cooldown is above the greatest `i64`, then after a
  -- message at `now` the cooldown of each job that it fires counts from `now`, whatever other matchers the
  -- message fires: at any time from `now` on that is no negative `i64`, the test of the cooldown holds the
  -- job back exactly while fewer milliseconds have passed than 1000 times the cooldown's seconds, and a
  -- job without a cooldown never.
  pub check_message-IsCooling :
      (content channel : String) (now later : ℕ) (e : EventMatcher R)
      → now ≤ later
      → later < 9223372036854775808
      → All (λ m. (m.id ≡ m.job.id) × IsSeconds m.job.cooldown_secs) e.matchers
      → All
          (IsCooling later now (check_message content channel now e).0.last_fired)
          (check_message content channel now e).1
  unfolding check_message
  check_message-IsCooling content channel now later e order small h =
      check_from-IsCooling content channel now later e.last_fired e.matchers order small h
