-- ===== src/Provider/Breaker/Classify.antt =====
-- What the classification of error messages recognises.
use oxicrab.Base.{
  ℕ, suc, ◌+◌, ◌-◌, Bool, true, false, not, ◌&&◌, ◌||◌, ◌≡◌, ◌⊎◌, inl, inr, refl, List, [], ◌∷◌,
  ◌++◌, arith, length-append, subst, any, length, Option, some, none, Option-cases, Bool-cases, ap,
  ◌∙◌, sym, ◌==◌, if◌then◌else◌,
}
use mathlib.Core.List.{Memᴰ, append_assoc}
use mathlib.Core.Option
use oxicrab.Base.Text.{Text, starts_with, contains, find, is_ascii_digit}
use oxicrab.Provider.Breaker.{
  non_transient_patterns, transient_words, status_codes, digit_at, bounded_code, is_transient_lower,
}

-- A text ends, or begins, with an ASCII digit.
abbrev pub ends_with_digit : Text → Bool
ends_with_digit [] = false
ends_with_digit (c ∷ []) = is_ascii_digit c
ends_with_digit (c ∷ d ∷ s) = ends_with_digit (d ∷ s)

abbrev pub begins_with_digit : Text → Bool
begins_with_digit [] = false
begins_with_digit (c ∷ s) = is_ascii_digit c

starts_with-split : (s p : Text) → starts_with s p ≡ true → (r : Text) × (s ≡ p ++ r)
unfolding starts_with
starts_with-split s [] h = (s, refl)
starts_with-split [] (c ∷ p) h = cc
starts_with-split (d ∷ s) (c ∷ p) h =
    let (r, e) = starts_with-split s p (ground arith) in
    let same : d ≡ c = ground arith in (r, rw (same, e))

contains-split : (s p : Text) → contains s p ≡ true → (a : Text) × (r : Text) × (s ≡ a ++ (p ++ r))
unfolding contains
contains-split [] p h = let (r, e) = starts_with-split [] p h in ([], r, e)
contains-split (c ∷ s) p h = elim (Bool-cases (starts_with (c ∷ s) p)) [
  | inl here ↦ let (r, e) = starts_with-split (c ∷ s) p here in ([], r, e)
  | inr later ↦ let (a, r, e) = contains-split s p (rw later at h) in (c ∷ a, r, ap (◌∷◌ c) e)
]

map-suc-some :
    (o : Option ℕ) (i : ℕ) → Option.map suc o ≡ some i → (j : ℕ) × (o ≡ some j) × (i ≡ suc j)
map-suc-some none i h = cc
map-suc-some (some j) i h = (j, refl, ground arith)

find-split :
    (s p : Text) (i : ℕ)
    → find s p ≡ some i
    → (a : Text) × (r : Text) × (s ≡ a ++ (p ++ r)) × (length a ≡ i)
unfolding find
find-split [] p i h = elim (Bool-cases (starts_with [] p)) [
  | inl here ↦ let (r, e) = starts_with-split [] p here in ([], r, e, ground (arith, here))
  | inr later ↦ absurd (ground (arith, later))
]
find-split (c ∷ s) p i h = elim (Bool-cases (starts_with (c ∷ s) p)) [
  | inl here ↦ let (r, e) = starts_with-split (c ∷ s) p here in ([], r, e, ground (arith, here))
  | inr later ↦
      let (j, found, next) = map-suc-some (find s p) i (rw later at h) in
      let (a, r, e, l) = find-split s p j found in (c ∷ a, r, ap (◌∷◌ c) e, omega arith)
]

digit_at-begins : (a r : Text) → digit_at (a ++ r) (length a) ≡ begins_with_digit r
unfolding digit_at
digit_at-begins [] [] = refl
digit_at-begins [] (c ∷ r) = refl
digit_at-begins (c ∷ a) r = digit_at-begins a r

digit_at-ends : (c : ℕ) (a r : Text) → digit_at ((c ∷ a) ++ r) (length a) ≡ ends_with_digit (c ∷ a)
unfolding digit_at
digit_at-ends c [] r = refl
digit_at-ends c (d ∷ a) r = digit_at-ends d a r

-- `code` stands in `s` with no digit directly before or after it.
abbrev pub HasCode : Text → Text → Type 0
HasCode s code =
    (a : Text) × (r : Text) × (s ≡ a ++ (code ++ r))
    × (ends_with_digit a ≡ false)
    × (begins_with_digit r ≡ false)

abbrev pub HasText : Text → Text → Type 0
HasText s p = (a : Text) × (r : Text) × (s ≡ a ++ (p ++ r))

digit_after :
    (a code r : Text) → digit_at (a ++ (code ++ r)) (length a + length code) ≡ begins_with_digit r
digit_after a code r =
    ap (λ s. digit_at s (length a + length code)) (sym (append_assoc a code r))
    ∙ ap (digit_at ((a ++ code) ++ r)) (sym (length-append a code))
    ∙ digit_at-begins (a ++ code) r

digit_before :
    (c : ℕ) (a r : Text) → digit_at (c ∷ (a ++ r)) (suc (length a) - 1) ≡ ends_with_digit (c ∷ a)
digit_before c a r = ap (digit_at (c ∷ (a ++ r))) (omega arith) ∙ digit_at-ends c a r

bounded_at :
    (a code r : Text)
    → ((length a == 0 || not (digit_at (a ++ (code ++ r)) (length a - 1)))
        && not (digit_at (a ++ (code ++ r)) (length a + length code)))
      ≡ true
    → (ends_with_digit a ≡ false) × (begins_with_digit r ≡ false)
bounded_at [] code r h = (refl, ground (arith, digit_after [] code r))
bounded_at (c ∷ a) code r h =
    (ground (arith, digit_before c a (code ++ r)), ground (arith, digit_after (c ∷ a) code r))

bounded_find :
    (s code : Text) (i : ℕ)
    → find s code ≡ some i
    → bounded_code s code ≡ true
    → ((i == 0 || not (digit_at s (i - 1))) && not (digit_at s (i + length code))) ≡ true
unfolding bounded_code
bounded_find s code i e h = rw (e, bounded_code) at h

bounded_none : (s code : Text) → find s code ≡ none → bounded_code s code ≡ false
unfolding bounded_code
bounded_none s code e = rw (e, bounded_code)

bounded_code-HasCode : (s code : Text) → bounded_code s code ≡ true → HasCode s code
bounded_code-HasCode s code h = elim (Option-cases (find s code)) [
  | inl e ↦ absurd (cc (bounded_none s code e))
  | inr (i, e) ↦
      let (a, r, split, at) = find-split s code i e in
      let found = bounded_find s code i e h in
      let moved =
        subst
          (λ j. ((j == 0 || not (digit_at s (j - 1))) && not (digit_at s (j + length code))) ≡ true)
          (sym at) found in
      let bounds = bounded_at a code r (
        subst
          (λ u.
            ((length a == 0 || not (digit_at u (length a - 1)))
              && not (digit_at u (length a + length code)))
            ≡ true)
          split moved) in
      (a, r, split, bounds.0, bounds.1)
]

abbrev pub AnyOf {ℓ} : (Text → Type ℓ) → List Text → Type ℓ
AnyOf P ps = (p : Text) × Memᴰ p ps × P p

AnyOf-any {ℓ} :
    (P : Text → Type ℓ) (test : Text → Bool) (ps : List Text)
    → ((p : Text) → test p ≡ true → P p)
    → any test ps ≡ true
    → AnyOf P ps
AnyOf-any P test [] sound h = cc
AnyOf-any P test (p ∷ ps) sound h = elim (Bool-cases (test p)) [
  | inl e ↦ (p, Memᴰ.head refl, sound p e)
  | inr e ↦ let (q, m, x) = AnyOf-any P test ps sound (rw e at h) in (q, Memᴰ.tail m, x)
]

-- An error message that counts as transient (once in lower case) contains none of the non-transient
-- patterns; and it contains one of the transient words, or one of the five status codes at a place
-- where the code is not part of a longer number.
pub transient_sound :
    (lower : Text)
    → is_transient_lower lower ≡ true
    → (any (contains lower) non_transient_patterns ≡ false)
      × (AnyOf (HasText lower) transient_words ⊎ AnyOf (HasCode lower) status_codes)
unfolding is_transient_lower
transient_sound lower h = elim (Bool-cases (any (contains lower) non_transient_patterns)) [
  | inl e ↦ absurd (ground (arith, e))
  | inr e ↦ (e, reason (rw e at h))
]
  where
    reason :
        (if any (contains lower) transient_words
            then true
            else any (bounded_code lower) status_codes)
          ≡ true
        → AnyOf (HasText lower) transient_words ⊎ AnyOf (HasCode lower) status_codes
    reason k = elim (Bool-cases (any (contains lower) transient_words)) [
      | inl e ↦ inl (AnyOf-any (HasText lower) _ transient_words (contains-split lower) e)
      | inr e ↦
          inr (AnyOf-any (HasCode lower) _ status_codes (bounded_code-HasCode lower) (rw e at k))
    ]
