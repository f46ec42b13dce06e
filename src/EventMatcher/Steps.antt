-- ===== src/EventMatcher/Steps.antt =====
-- What a message does to each matcher of src/cron/event_matcher/mod.rs.
use oxicrab.Base.{
  ℕ, ◌+◌, min, true, false, String, some, List, [], ◌∷◌, ◌≡◌, ◌⊎◌, inl, inr, arith, Bool-cases,
}
use oxicrab.Base.Dict.{Dict, lookup, insert}
use oxicrab.EventMatcher.{
  CronJob, Matcher, fires, fired_job, check_from, is_past, is_exhausted, is_elsewhere, is_cooling,
  saturating_suc,
}

module _ {ℓ} {R : Type ℓ} where
  -- The job, fired at `now` and counted once more, up to the greatest `u32`.
  abbrev pub counted : ℕ → CronJob R → CronJob R
  counted now job = record job {
    state = record (job.state) {
      last_fired_at_ms = some now;
      run_count = min (job.state.run_count + 1) 4294967295;
    };
  }

  module _ (content channel : String) (now : ℕ) where
    -- Some check holds the matcher back.
    abbrev pub IsHeld : Dict ℕ → Matcher R → Type 0
    IsHeld d m =
        (is_past m.job.expires_at_ms now ≡ true)
        ⊎ (is_exhausted m.job.max_runs m.job.state.run_count ≡ true)
        ⊎ (is_elsewhere m.channel channel ≡ true)
        ⊎ (m.regex content ≡ false)
        ⊎ (is_cooling m.job.cooldown_secs (lookup m.id d) now ≡ true)

    -- No check holds the matcher back.
    abbrev pub IsOpen : Dict ℕ → Matcher R → Type 0
    IsOpen d m =
        (is_past m.job.expires_at_ms now ≡ false)
        × (is_exhausted m.job.max_runs m.job.state.run_count ≡ false)
        × (is_elsewhere m.channel channel ≡ false)
        × (m.regex content ≡ true)
        × (is_cooling m.job.cooldown_secs (lookup m.id d) now ≡ false)

    -- The matchers before and after the message, and the jobs that it fires: matcher by matcher, a
    -- matcher that is held back stays as it is, and the job of any other is counted and fired.
    pub data Steps : Dict ℕ → List (Matcher R) → List (Matcher R) → List (CronJob R) → Type ℓ where
      stop : {d : Dict ℕ} → Steps d [] [] []
      hold :
          {d : Dict ℕ} {m : Matcher R} {ms ms' : List (Matcher R)} {jobs : List (CronJob R)}
          → IsHeld d m
          → Steps d ms ms' jobs
          → Steps d (m ∷ ms) (m ∷ ms') jobs
      fire :
          {d : Dict ℕ} {m : Matcher R} {ms ms' : List (Matcher R)} {jobs : List (CronJob R)}
          → IsOpen d m
          → Steps (insert m.id now d) ms ms' jobs
          → Steps d (m ∷ ms) (record m { job = counted now m.job } ∷ ms') (counted now m.job ∷ jobs)

    fires-IsOpen : (d : Dict ℕ) (m : Matcher R) → fires content channel now d m ≡ true → IsOpen d m
    unfolding fires
    fires-IsOpen d m h = ground arith

    fires-IsHeld : (d : Dict ℕ) (m : Matcher R) → fires content channel now d m ≡ false → IsHeld d m
    unfolding fires
    fires-IsHeld d m h = ground arith

    pub check_from-Steps :
        (d : Dict ℕ) (ms : List (Matcher R))
        → let ((d', ms'), jobs) = check_from content channel now d ms in Steps d ms ms' jobs
    unfolding check_from fired_job saturating_suc
    check_from-Steps d [] = stop
    check_from-Steps d (m ∷ ms) = elim (Bool-cases (fires content channel now d m)) [
      | inr e ↦ rw e (hold (fires-IsHeld d m e) (check_from-Steps d ms))
      | inl e ↦ rw e (fire (fires-IsOpen d m e) (check_from-Steps (insert m.id now d) ms))
    ]
