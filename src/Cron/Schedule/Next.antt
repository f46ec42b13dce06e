-- ===== src/Cron/Schedule/Next.antt =====
-- When the next run is, of every schedule.
use native.Mathlib.Nat.{mod-add-div, mod-lt, div-le_self}
use mathlib.Core.Option
use oxicrab.Base.{
  if◌then◌else◌, ℕ, ◌+◌, ◌-◌, ◌*◌, ◌/◌, ◌≤◌, ◌<◌, true, false, String, Option, none, some, ◌≡◌,
  refl, arith, Bool-cases, Option-cases, inl, inr, ltb,
}
use oxicrab.Base.Signed.{
  i64_add, i64_lt, i64_saturating_sub, i64_div, i64_checked_mul, i64_checked_add, i64_of,
  is_negative, magnitude, bias,
}
use oxicrab.EventMatcher.{CronSchedule, at, every, cron, event}
use oxicrab.Cron.Schedule.{
  normalize_expr, zone_of, normalize_expr, ◌>>=◌, CronCrate, next_every, next_cron,
  compute_next_run_with_last,
}

saturating_sub-positive :
    (a b : ℕ) → b ≤ a → a < 9223372036854775808 → i64_saturating_sub a b ≡ a - b
unfolding i64_saturating_sub is_negative
saturating_sub-positive a b h k = ground arith

div-positive : (a b : ℕ) → a < 9223372036854775808 → b < 9223372036854775808 → i64_div a b ≡ a / b
unfolding i64_div i64_of is_negative magnitude
div-positive a b h k = ground (arith, div-le_self a b)

add-positive : (a b : ℕ) → a + b < 18446744073709551616 → i64_add a b ≡ a + b
unfolding i64_add
add-positive a b h = ground arith

checked_mul-positive :
    (a b : ℕ)
    → a < 9223372036854775808
    → b < 9223372036854775808
    → i64_checked_mul a b ≡ i64_of false (a * b)
unfolding i64_checked_mul is_negative magnitude
checked_mul-positive a b h k = ground arith

checked_add-positive :
    (a b : ℕ)
    → a < 9223372036854775808
    → b < 9223372036854775808
    → i64_checked_add a b ≡ i64_of false (a + b)
unfolding i64_checked_add is_negative magnitude
checked_add-positive a b h k = ground arith

checked_add-i64_of :
    (anchor offset : ℕ)
    → anchor < 9223372036854775808
    → (i64_of false offset >>= i64_checked_add anchor) ≡ i64_of false (anchor + offset)
unfolding i64_of
checked_add-i64_of anchor offset h = elim (Bool-cases (ltb offset 9223372036854775808)) [
  | inl e ↦ rw e (checked_add-positive anchor offset h (ground arith))
  | inr e ↦
      let f : ltb (anchor + offset) 9223372036854775808 ≡ false = ground arith in rw (e, f) refl
]

next_every-i64_of :
    (step_ms now anchor : ℕ)
    → step_ms < 9223372036854775808
    → anchor ≤ now
    → now < 9223372036854775807
    → 0 < step_ms
    → next_every step_ms now anchor
      ≡ i64_of false (anchor + ((now - anchor) / step_ms + 1) * step_ms)
unfolding next_every
next_every-i64_of step_ms now anchor h k l m =
    let q = (now - anchor) / step_ms in
    let small : q ≤ now = omega (arith, div-le_self (now - anchor) step_ms) in
    let gap : i64_saturating_sub now anchor ≡ now - anchor =
      saturating_sub-positive now anchor k (omega arith) in
    let quotient : i64_div (now - anchor) step_ms ≡ q =
      div-positive (now - anchor) step_ms (omega arith) h in
    let intervals : i64_add q 1 ≡ q + 1 = add-positive q 1 (omega arith) in
    let product : i64_checked_mul (q + 1) step_ms ≡ i64_of false ((q + 1) * step_ms) =
      checked_mul-positive (q + 1) step_ms (omega arith) h in
    rw (gap, quotient, intervals, product)
      (checked_add-i64_of anchor ((q + 1) * step_ms) (omega arith))

-- The interval's multiple is the first that passes a gap.
first_multiple :
    (gap step_ms : ℕ)
    → 0 < step_ms
    → (gap < (gap / step_ms + 1) * step_ms) × ((gap / step_ms + 1) * step_ms ≤ gap + step_ms)
first_multiple gap step_ms h =
    let product : (gap / step_ms + 1) * step_ms ≡ step_ms * (gap / step_ms) + step_ms =
      omega arith in
    (
      omega (arith, product, mod-add-div gap step_ms, mod-lt gap h),
      omega (arith, product, mod-add-div gap step_ms, mod-lt gap h),
    )

i64_lt-positive : (a b : ℕ) → a < b → b < 9223372036854775808 → i64_lt a b ≡ true
unfolding i64_lt bias
i64_lt-positive a b h k = ground arith

i64_of-some : (m n : ℕ) → i64_of false m ≡ some n → (n ≡ m) × (m < 9223372036854775808)
unfolding i64_of
i64_of-some m n h = elim (Bool-cases (ltb m 9223372036854775808)) [
  | inl e ↦ let f : some m ≡ some n = rw e at h in (ground arith, ground arith)
  | inr e ↦ let f : none ≡ some n = rw e at h in absurd (ground arith)
]

-- An interval schedule runs next at the first time after `now` that is a whole number of intervals from
-- the last run, and at most one interval away, where that time is an `i64`.
pub every-next :
    (c : CronCrate) (every_ms now last : ℕ)
    → 0 < every_ms
    → last ≤ now
    → now + every_ms < 9223372036854775808
    → (k : ℕ) × (compute_next_run_with_last c (every (some every_ms)) now (some last)
        ≡ some (last + k * every_ms))
      × (now < last + k * every_ms)
      × (last + k * every_ms ≤ now + every_ms)
unfolding compute_next_run_with_last i64_of
every-next c every_ms now last h k l =
    let gap = now - last in
    let m = (gap / every_ms + 1) * every_ms in
    let positive : i64_lt 0 every_ms ≡ true = i64_lt-positive 0 every_ms h (omega arith) in
    let room : ltb (last + m) 9223372036854775808 ≡ true =
      ground (arith, (first_multiple gap every_ms h).1) in
    (
      gap / every_ms + 1,
      rw
          (
            positive,
            next_every-i64_of every_ms now last (omega arith) k (omega arith) h,
            i64_of,
            room,
          )
          refl,
      omega (arith, (first_multiple gap every_ms h).0),
      omega (arith, (first_multiple gap every_ms h).1),
    )

every-later :
    (every_ms now anchor next : ℕ)
    → every_ms < 18446744073709551616
    → i64_lt 0 every_ms ≡ true
    → anchor ≤ now
    → now < 9223372036854775807
    → next_every every_ms now anchor ≡ some next
    → i64_lt now next ≡ true
unfolding i64_lt bias
every-later every_ms now anchor next w h k l e =
    let small : every_ms < 9223372036854775808 = ground arith in
    let some_next = rw (next_every-i64_of every_ms now anchor small k l (ground arith)) at e in
    let found = i64_of-some (anchor + ((now - anchor) / every_ms + 1) * every_ms) next some_next in
    i64_lt-positive now next
      (omega (arith, found.0, (first_multiple (now - anchor) every_ms (ground arith)).0))
      (omega (arith, found.0, found.1))

-- The first run after a second, of whole seconds.
abbrev pub IsLater : CronCrate → Type 0
IsLater c =
    (e : c.Expression) (z : c.Zone) (sec next : ℕ)
    → c.next_after e z sec ≡ some next
    → ((sec + 1) * 1000 ≤ next) × (next < 9223372036854775808)

cron-later :
    (c : CronCrate) (expr : String) (tz : Option String) (now next : ℕ)
    → IsLater c
    → now < 9223372036854775807
    → next_cron c expr tz now ≡ some next
    → i64_lt now next ≡ true
unfolding next_cron
cron-later c expr tz now next later l e =
    let s = now / 1000 in
    let second : i64_div now 1000 ≡ s = div-positive now 1000 (omega arith) (omega arith) in
    elim (Option-cases (c.parse (normalize_expr c expr))) [
      | inl f ↦ let g : none ≡ some next = rw (f, next_cron) at e in absurd (ground arith)
      | inr (x, f) ↦
          let g : (if c.is_date s then c.next_after x (zone_of c tz) s else none) ≡ some next =
            rw (f, second, next_cron) at e in
          elim (Bool-cases (c.is_date s)) [
            | inr h ↦ let i : none ≡ some next = rw h at g in absurd (ground arith)
            | inl h ↦
                let found = later x (zone_of c tz) s next (rw h at g) in
                i64_lt-positive now next (omega (arith, found.0)) found.1
          ]
    ]

-- The interval is an `i64`.
abbrev pub IsI64 : CronSchedule → Type 0
IsI64 (at t) = Unit
IsI64 (every none) = Unit
IsI64 (every (some step_ms)) = step_ms < 18446744073709551616
IsI64 (cron expr tz) = Unit
IsI64 (event pattern channel) = Unit

-- Any schedule's next run is strictly after `now`, if the last run is not.
pub next-later :
    (c : CronCrate) (schedule : CronSchedule) (now : ℕ) (last : Option ℕ) (next : ℕ)
    → IsLater c
    → IsI64 schedule
    → now < 9223372036854775807
    → Option.get_or last now ≤ now
    → compute_next_run_with_last c schedule now last ≡ some next
    → i64_lt now next ≡ true
unfolding compute_next_run_with_last
next-later c (at none) now last next later w l k e = absurd (ground arith)
next-later c (at (some t)) now last next later w l k e = ground arith
next-later c (every none) now last next later w l k e = absurd (ground arith)
next-later c (every (some step_ms)) now last next later w l k e =
    elim (Bool-cases (i64_lt 0 step_ms)) [
      | inl f ↦ every-later step_ms now (Option.get_or last now) next w f k l (rw f at e)
      | inr f ↦ let g : none ≡ some next = rw f at e in absurd (ground arith)
    ]
next-later c (event pattern channel) now last next later w l k e = absurd (ground arith)
next-later c (cron none tz) now last next later w l k e = absurd (ground arith)
next-later c (cron (some expr) tz) now last next later w l k e =
    cron-later c expr tz now next later l e
