-- ===== src/Bus/Queue/Window.antt =====
-- The rate limit as a sliding window: what one endpoint can pass over a whole history of checks.
use text.Mathlib.Text.{◌==◌ as str_eq}
use text.Mathlib.TextEquality.{eq_iff}
use oxicrab.Base.{
  ℕ, suc, ◌+◌, ◌-◌, ◌≤◌, ◌<◌, Bool, true, false, ◌≡◌, ◌↔◌, inl, inr, refl, String, if◌then◌else◌,
  arith, List, [], ◌∷◌, ◌++◌, length, sym, ◌∙◌, Bool-cases, subst, ltb, any, filter_by, ◌&&◌,
}
use oxicrab.Base.Dict.{
  Dict, lookup, insert, lookup-insert, Distinct, Distinct-insert, Distinct-filter_by,
  lookup-filter_by,
}
use oxicrab.Bus.Queue.{cutoff, stamps_of, prune, prune_large, retained, check_rate}

-- How many of the times lie within the window that ends at `now`.
unfoldable pub within : ℕ → ℕ → List ℕ → ℕ
within window now [] = 0
within window now (t ∷ ts) =
    let rest = within window now ts in if ltb now (t + window) then suc rest else rest

within-append :
    (w now : ℕ) (xs ys : List ℕ) → within w now (xs ++ ys) ≡ within w now xs + within w now ys
unfolding within
within-append w now [] ys = omega arith
within-append w now (x ∷ xs) ys = ground (arith, within-append w now xs ys)

-- What a check keeps counts later as the whole did, and all of it counts now.
within-filter :
    (w now later : ℕ) (xs : List ℕ)
    → w ≤ now
    → now ≤ later
    → within w later (filter_by (λ t. ltb (cutoff now w) t) xs) ≡ within w later xs
unfolding within cutoff
within-filter w now later [] h k = refl
within-filter w now later (x ∷ xs) h k = ground (arith, within-filter w now later xs)

length-filter_by-within :
    (w now : ℕ) (xs : List ℕ)
    → w ≤ now
    → length (filter_by (λ t. ltb (cutoff now w) t) xs) ≡ within w now xs
unfolding within cutoff
length-filter_by-within w now [] h = refl
length-filter_by-within w now (x ∷ xs) h = ground (arith, length-filter_by-within w now xs)

idle-within :
    (w now later : ℕ) (xs : List ℕ)
    → 0 < w
    → now ≤ later
    → any (λ t. ltb (now - t) w) xs ≡ false
    → within w later xs ≡ 0
unfolding within
idle-within w now later [] p k h = refl
idle-within w now later (x ∷ xs) p k h = ground (arith, idle-within w now later xs)

-- The stored times of a key count later as they did before the map was pruned.
within-prune :
    (w now later : ℕ) (key : String) (d : Dict (List ℕ))
    → 0 < w
    → now ≤ later
    → Distinct d
    → within w later (stamps_of key (prune now w d)) ≡ within w later (stamps_of key d)
unfolding prune
within-prune w now later key d p k u =
    elim (lookup-filter_by (λ e. any (λ t. ltb (now - t) w) e.1) key d u) [
      | inl same ↦ rw same
      | inr (ts, found, idle, gone) ↦
          rw (found, gone) (within_nil ∙ sym (idle-within w now later ts p k idle))
    ]
  where
    within_nil : within w later [] ≡ 0
    within_nil = unfold within in refl

within-prune_large :
    (w now later : ℕ) (key : String) (d : Dict (List ℕ))
    → 0 < w
    → now ≤ later
    → Distinct d
    → within w later (stamps_of key (prune_large now w d)) ≡ within w later (stamps_of key d)
unfolding prune_large
within-prune_large w now later key d p k u = ground (arith, within-prune w now later key d p k u)

within-retained :
    (w now later : ℕ) (key : String) (d : Dict (List ℕ))
    → w ≤ now
    → now ≤ later
    → within w later (retained now w key d) ≡ within w later (stamps_of key d)
unfolding retained
within-retained w now later key d h k = within-filter w now later (stamps_of key d) h k

within-insert :
    (w later : ℕ) (key other : String) (ts : List ℕ) (d : Dict (List ℕ))
    → within w later (stamps_of other (insert key ts d))
      ≡ (if str_eq key other then within w later ts else within w later (stamps_of other d))
within-insert w later key other ts d = elim (Bool-cases (str_eq key other)) [
  | inl same ↦ rw (lookup-insert key other ts d, same)
  | inr differ ↦ rw (lookup-insert key other ts d, differ)
]

-- What a check of `key` at `now` leaves stored for `other`, counted at a later time.
within-check_rate :
    (limit w now later : ℕ) (key other : String) (d : Dict (List ℕ))
    → 0 < w
    → w ≤ now
    → now ≤ later
    → Distinct d
    → within w later (stamps_of other (check_rate limit w now key d).0)
      ≡ within w later (stamps_of other d)
        + (if str_eq key other && (check_rate limit w now key d).1
            then within w later (now ∷ [])
            else 0)
unfolding check_rate
within-check_rate limit w now later key other d p k m u = ground (
  arith,
  eq_iff key other,
  within-retained w now later key d k m,
  within-insert w later key other (retained now w key d) d,
  within-insert w later key other (retained now w key d ++ (now ∷ [])) d,
  within-append w later (retained now w key d) (now ∷ []),
  within-prune_large w now later other (insert key (retained now w key d ++ (now ∷ [])) d) p m
      (Distinct-insert key (retained now w key d ++ (now ∷ [])) d u),
)

check_rate-Distinct :
    (limit w now : ℕ) (key : String) (d : Dict (List ℕ))
    → Distinct d
    → Distinct (check_rate limit w now key d).0
unfolding check_rate prune_large prune
check_rate-Distinct limit w now key d u = ground (
  arith,
  Distinct-insert key (retained now w key d) d u,
  Distinct-filter_by (λ e. any (λ t. ltb (now - t) w) e.1)
      (insert key (retained now w key d ++ (now ∷ [])) d)
      (Distinct-insert key (retained now w key d ++ (now ∷ [])) d u),
  Distinct-insert key (retained now w key d ++ (now ∷ [])) d u,
)

-- A check passes exactly if fewer than `limit` stored times are in the window.
check_rate-passes :
    (limit w now : ℕ) (key : String) (d : Dict (List ℕ))
    → w ≤ now
    → ((check_rate limit w now key d).1 ≡ true) ↔ (within w now (stamps_of key d) < limit)
unfolding check_rate retained
check_rate-passes limit w now key d h =
    ground (arith, length-filter_by-within w now (stamps_of key d) h)

-- A history of checks: the endpoint and the time of each, oldest first. The map afterwards, and the
-- times at which `key` passed, newest first.
pub record Trace : Type 0 where
  pub stamps : Dict (List ℕ)
  pub passed : List ℕ

unfoldable pub observe : ℕ → ℕ → String → Trace → String × ℕ → Trace
observe limit w key s (endpoint, now) = record {
  stamps = (check_rate limit w now endpoint s.stamps).0;
  passed =
      if str_eq endpoint key && (check_rate limit w now endpoint s.stamps).1
      then now ∷ s.passed
      else s.passed;
}

unfoldable pub observe_all : ℕ → ℕ → String → Trace → List (String × ℕ) → Trace
observe_all limit w key s [] = s
observe_all limit w key s (e ∷ es) = observe_all limit w key (observe limit w key s e) es

-- The clock does not go back, and shows at least one window.
abbrev pub IsOrdered : ℕ → List (String × ℕ) → Type 0
IsOrdered start [] = Unit
IsOrdered start ((endpoint, now) ∷ es) = (start ≤ now) × IsOrdered now es

-- At each passing, the passings in the window that ends there are at most `limit`.
abbrev pub IsLimited : ℕ → ℕ → List ℕ → Type 0
IsLimited limit w [] = Unit
IsLimited limit w (t ∷ ts) = (within w t (t ∷ ts) ≤ limit) × IsLimited limit w ts

record Tracked (limit w : ℕ) (key : String) (start : ℕ) (s : Trace) : Type 0 where
  distinct : Distinct s.stamps
  counted :
      (later : ℕ)
      → start ≤ later
      → within w later (stamps_of key s.stamps) ≡ within w later s.passed
  limited : IsLimited limit w s.passed

within-passed :
    (w later now : ℕ) (b : Bool) (ts : List ℕ)
    → within w later (if b then now ∷ ts else ts)
      ≡ within w later ts + (if b then within w later (now ∷ []) else 0)
unfolding within
within-passed w later now true ts = ground arith
within-passed w later now false ts = omega arith

limited-passed :
    (limit w now : ℕ) (b : Bool) (ts : List ℕ)
    → IsLimited limit w ts
    → (b ≡ true → within w now ts < limit)
    → IsLimited limit w (if b then now ∷ ts else ts)
unfolding within
limited-passed limit w now true ts h room = (ground (arith, room refl), h)
limited-passed limit w now false ts h room = h

-- The check of an endpoint that is the key, on the key.
passed_check :
    (limit w now : ℕ) (endpoint key : String) (d : Dict (List ℕ))
    → (str_eq endpoint key && (check_rate limit w now endpoint d).1) ≡ true
    → (check_rate limit w now key d).1 ≡ true
passed_check limit w now endpoint key d h = elim (Bool-cases (str_eq endpoint key)) [
  | inl same ↦
      subst (λ k. (check_rate limit w now k d).1 ≡ true) ((eq_iff endpoint key).0 same)
        (rw same at h)
  | inr differ ↦ absurd (ground (arith, differ))
]

observe-Tracked :
    (limit w : ℕ) (key : String) (start : ℕ) (s : Trace) (endpoint : String) (now : ℕ)
    → 0 < w
    → w ≤ now
    → start ≤ now
    → Tracked limit w key start s
    → Tracked limit w key now (observe limit w key s (endpoint, now))
unfolding observe
observe-Tracked limit w key start s endpoint now p h k v = record {
  distinct = check_rate-Distinct limit w now endpoint s.stamps v.distinct;
  counted = λ later m.
      within-check_rate limit w now later endpoint key s.stamps p h m v.distinct
      ∙ omega (
        arith,
        v.counted later (omega arith),
        within-passed w later now
            (str_eq endpoint key && (check_rate limit w now endpoint s.stamps).1) s.passed,
      );
  limited =
      limited-passed limit w now
        (str_eq endpoint key && (check_rate limit w now endpoint s.stamps).1) s.passed v.limited
        (λ b.
          subst (λ n. n < limit) (v.counted now k)
            ((check_rate-passes limit w now key s.stamps h).0
              (passed_check limit w now endpoint key s.stamps b)));
}

Tracked-run :
    (limit w : ℕ) (key : String) (start : ℕ) (s : Trace) (es : List (String × ℕ))
    → 0 < w
    → w ≤ start
    → IsOrdered start es
    → Tracked limit w key start s
    → IsLimited limit w (observe_all limit w key s es).passed
unfolding observe_all
Tracked-run limit w key start s [] p h o v = v.limited
Tracked-run limit w key start s ((endpoint, now) ∷ es) p h o v =
    Tracked-run limit w key now (observe limit w key s (endpoint, now)) es p (omega arith) o.1
      (observe-Tracked limit w key start s endpoint now p (omega arith) o.0 v)

-- Over any history of checks of any endpoints, from an empty map, by a clock that does not go back
-- and already shows one window: whenever an endpoint passes, it has passed at most `limit` times
-- within the window that ends there, that passing included; pruning and other endpoints change
-- nothing of this.
pub rate_window :
    (limit w start : ℕ) (key : String) (es : List (String × ℕ))
    → 0 < w
    → w ≤ start
    → IsOrdered start es
    → IsLimited limit w (observe_all limit w key (record { stamps = []; passed = [] }) es).passed
unfolding lookup
rate_window limit w start key es p h o =
    Tracked-run limit w key start (record { stamps = []; passed = [] }) es p h o
      (record { distinct = tt; counted = λ later m. refl; limited = tt })
