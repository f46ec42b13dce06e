-- ===== src/Router/Context/Matches.antt =====
-- What a message matches in a context.
use oxicrab.Base.{
  ℕ, ◌+◌, suc, zero, true, false, String, none, some, List, [], ◌∷◌, if◌then◌else◌, ◌≡◌, refl, sym,
  ap, ◌∙◌, subst, arith, get_elem?, Bool-cases, Option-cases, inl, inr, map,
}
use oxicrab.Base.Dict.{lookup}
use oxicrab.Router.Triggers.{
  Matching, DirectiveTrigger, exact, one_of, pattern, LiteralIndex, trigger_matches,
}
use oxicrab.Router.Triggers.Index.{
  compile_lem, first_literal, pattern_positions, has_literal, first_literal_found,
  first_literal-none,
}
use oxicrab.Router.Context.{
  ActionDirective, compile, is_expired, is_live_at, matches_at, first_pattern, match_in,
}

has_literal-matches :
    (w : Matching) (s : String) (t : DirectiveTrigger)
    → has_literal s t ≡ true
    → trigger_matches w t s ≡ true
unfolding has_literal trigger_matches
has_literal-matches w s (exact l) h = h
has_literal-matches w s (one_of ls) h = h
has_literal-matches w s (pattern p) h = absurd (ground arith)

module _ {ℓ} {J : Type ℓ} where
  abbrev triggers : List (ActionDirective J) → List DirectiveTrigger
  triggers ds = map (λ d. d.trigger) ds

  get_elem?-triggers :
      (ds : List (ActionDirective J)) (k : ℕ) (t : DirectiveTrigger)
      → get_elem? (triggers ds) k ≡ some t
      → (d : ActionDirective J) × (get_elem? ds k ≡ some d) × (d.trigger ≡ t)
  get_elem?-triggers [] k t h = absurd (ground arith)
  get_elem?-triggers (d ∷ ds) zero t h = (d, refl, cc h)
  get_elem?-triggers (d ∷ ds) (suc k) t h = get_elem?-triggers ds k t h

  first_pattern_found :
      (w : Matching) (s : String) (now : ℕ) (ds : List (ActionDirective J)) (is : List ℕ) (i : ℕ)
      → first_pattern w s now ds is ≡ some i
      → matches_at w s now ds i ≡ true
  unfolding first_pattern
  first_pattern_found w s now ds [] i h = absurd (ground arith)
  first_pattern_found w s now ds (j ∷ is) i h = elim (Bool-cases (matches_at w s now ds j)) [
    | inl here ↦
        let found : some j ≡ some i = rw here at h in
        let value : j ≡ i = cc found in subst (λ n. matches_at w s now ds n ≡ true) value here
    | inr other ↦ first_pattern_found w s now ds is i (rw other at h)
  ]

  matched :
      (w : Matching) (s : String) (now i : ℕ) (ds : List (ActionDirective J))
      (d : ActionDirective J)
      → get_elem? ds i ≡ some d
      → trigger_matches w d.trigger s ≡ true
      → is_live_at now ds i ≡ true
      → matches_at w s now ds i ≡ true
  unfolding is_live_at matches_at
  matched w s now i ds d got hit live = ground arith

  match_in-none :
      (w : Matching) (s : String) (now : ℕ) (ds : List (ActionDirective J)) (m : LiteralIndex)
      → lookup s m.literal_to_index ≡ none
      → match_in w s now ds m ≡ first_pattern w s now ds m.pattern_indices
  unfolding match_in
  match_in-none w s now ds m e = rw (e, match_in) refl

  match_in-some :
      (w : Matching) (s : String) (now j : ℕ) (ds : List (ActionDirective J)) (m : LiteralIndex)
      → lookup s m.literal_to_index ≡ some j
      → match_in w s now ds m
        ≡ (if is_live_at now ds j then some j else first_pattern w s now ds m.pattern_indices)
  unfolding match_in
  match_in-some w s now j ds m e = rw (e, match_in) refl

  compiled :
      (ds : List (ActionDirective J)) (s : String)
      → (lookup s (compile ds).literal_to_index ≡ first_literal s 0 (triggers ds))
        × ((compile ds).pattern_indices ≡ pattern_positions 0 (triggers ds))
  unfolding compile
  compiled ds s = compile_lem (triggers ds) s

  -- A match in a compiled context is a directive that is there, is not expired and whose trigger
  -- matches the message.
  pub match_in_found :
      (w : Matching) (s : String) (now i : ℕ) (ds : List (ActionDirective J))
      → match_in w s now ds (compile ds) ≡ some i
      → matches_at w s now ds i ≡ true
  match_in_found w s now i ds h = elim (Option-cases (first_literal s 0 (triggers ds))) [
    | inl e ↦
        first_pattern_found w s now ds (compile ds).pattern_indices i
          (sym (match_in-none w s now ds (compile ds) ((compiled ds s).0 ∙ e)) ∙ h)
    | inr (j, e) ↦
        let here = sym (match_in-some w s now j ds (compile ds) ((compiled ds s).0 ∙ e)) ∙ h in
        elim (Bool-cases (is_live_at now ds j)) [
          | inl live ↦
              let found : some j ≡ some i = rw live at here in
              let value : j ≡ i = cc found in
              let (k, t, at, got, listed) = first_literal_found s 0 j (triggers ds) e in
              let (d, there, is_t) = get_elem?-triggers ds k t got in
              let same : k ≡ i = omega arith in
              matched w s now i ds d (subst (λ n. get_elem? ds n ≡ some d) same there)
                (has_literal-matches w s d.trigger
                  (subst (λ u. has_literal s u ≡ true) (sym is_t) listed))
                (subst (λ n. is_live_at now ds n ≡ true) value live)
          | inr dead ↦
              first_pattern_found w s now ds (compile ds).pattern_indices i (rw dead at here)
        ]
  ]

  -- No pattern of the list matches at a position that the scan covers.
  first_pattern-none :
      (w : Matching) (s : String) (now : ℕ) (ds : List (ActionDirective J)) (idx k : ℕ) (p : String)
      (ts : List DirectiveTrigger)
      → first_pattern w s now ds (pattern_positions idx ts) ≡ none
      → get_elem? ts k ≡ some (pattern p)
      → matches_at w s now ds (idx + k) ≡ false
  unfolding first_pattern pattern_positions
  first_pattern-none w s now ds idx k p [] h got = absurd (ground arith)
  first_pattern-none w s now ds idx zero p (pattern q ∷ ts) h got =
      let same : idx + 0 ≡ idx = omega arith in
      subst (λ n. matches_at w s now ds n ≡ false) (sym same) (ground arith)
  first_pattern-none w s now ds idx zero p (exact l ∷ ts) h got = absurd (ground arith)
  first_pattern-none w s now ds idx zero p (one_of ls ∷ ts) h got = absurd (ground arith)
  first_pattern-none w s now ds idx (suc k) p (t ∷ ts) h got =
      let same : suc idx + k ≡ idx + suc k = omega arith in
      subst (λ n. matches_at w s now ds n ≡ false) same
        (first_pattern-none w s now ds (suc idx) k p ts (later t h) got)
    where
      later :
          (t : DirectiveTrigger)
          → first_pattern w s now ds (pattern_positions idx (t ∷ ts)) ≡ none
          → first_pattern w s now ds (pattern_positions (suc idx) ts) ≡ none
      later (exact l) h = h
      later (one_of ls) h = h
      later (pattern q) h = ground arith

  unmatched :
      (w : Matching) (s : String) (now i : ℕ) (ds : List (ActionDirective J))
      (d : ActionDirective J)
      → get_elem? ds i ≡ some d
      → trigger_matches w d.trigger s ≡ false
      → matches_at w s now ds i ≡ false
  unfolding matches_at
  unmatched w s now i ds d got miss = ground arith

  unfoldable pub AllLive : ℕ → List (ActionDirective J) → Type 0
  AllLive now [] = Unit
  AllLive now (d ∷ ds) = (is_expired now d ≡ false) × AllLive now ds

  AllLive-at :
      (now k : ℕ) (ds : List (ActionDirective J)) (d : ActionDirective J)
      → AllLive now ds
      → get_elem? ds k ≡ some d
      → is_live_at now ds k ≡ true
  unfolding is_live_at AllLive
  AllLive-at now k [] d h got = absurd (ground arith)
  AllLive-at now zero (e ∷ ds) d h got = ground (arith, h.0)
  AllLive-at now (suc k) (e ∷ ds) d h got = AllLive-at now k ds d h.1 got

  get_elem?-triggers_at :
      (ds : List (ActionDirective J)) (k : ℕ) (d : ActionDirective J)
      → get_elem? ds k ≡ some d
      → get_elem? (triggers ds) k ≡ some d.trigger
  get_elem?-triggers_at [] k d h = absurd (ground arith)
  get_elem?-triggers_at (e ∷ ds) zero d h = cc h
  get_elem?-triggers_at (e ∷ ds) (suc k) d h = get_elem?-triggers_at ds k d h

  -- What a failed match says of the two scans.
  scans-none :
      (w : Matching) (s : String) (now : ℕ) (ds : List (ActionDirective J))
      → AllLive now ds
      → match_in w s now ds (compile ds) ≡ none
      → (first_literal s 0 (triggers ds) ≡ none)
        × (first_pattern w s now ds (pattern_positions 0 (triggers ds)) ≡ none)
  scans-none w s now ds live h = elim (Option-cases (first_literal s 0 (triggers ds))) [
    | inl e ↦ (
      e,
      ap (first_pattern w s now ds) (sym (compiled ds s).1)
          ∙ sym (match_in-none w s now ds (compile ds) ((compiled ds s).0 ∙ e))
          ∙ h,
    )
    | inr (j, e) ↦
        let here = sym (match_in-some w s now j ds (compile ds) ((compiled ds s).0 ∙ e)) ∙ h in
        let (k, t, at, got, listed) = first_literal_found s 0 j (triggers ds) e in
        let (d, there, is_t) = get_elem?-triggers ds k t got in
        let same : k ≡ j = omega arith in
        let alive =
          subst (λ n. is_live_at now ds n ≡ true) same (AllLive-at now k ds d live there) in
        absurd (ground arith)
  ]

  absent :
      (w : Matching) (s : String) (now i : ℕ) (ds : List (ActionDirective J))
      → get_elem? ds i ≡ none
      → matches_at w s now ds i ≡ false
  unfolding matches_at
  absent w s now i ds e = ground arith

module _ {ℓ} {J : Type ℓ} (w : Matching) (s : String) (now i : ℕ) (ds : List (ActionDirective J))
    (live : AllLive now ds) (h : match_in w s now ds (compile ds) ≡ none) where
  literal :
      (d : ActionDirective J) (t : DirectiveTrigger)
      → get_elem? ds i ≡ some d
      → d.trigger ≡ t
      → has_literal s t ≡ trigger_matches w t s
      → matches_at w s now ds i ≡ false
  literal d t got is_t e = unmatched w s now i ds d got (
      ap (λ u. trigger_matches w u s) is_t
      ∙ sym e
      ∙ first_literal-none s 0 i t (triggers ds) (scans-none w s now ds live h).0
          (get_elem?-triggers_at ds i d got ∙ ap some is_t))

  by_trigger :
      (d : ActionDirective J) (got : get_elem? ds i ≡ some d) (t : DirectiveTrigger)
      → d.trigger ≡ t
      → matches_at w s now ds i ≡ false
  unfolding has_literal trigger_matches
  by_trigger d got (exact l) is_t = literal d (exact l) got is_t refl
  by_trigger d got (one_of ls) is_t = literal d (one_of ls) got is_t refl
  by_trigger d got (pattern p) is_t =
      let same : 0 + i ≡ i = omega arith in
      subst (λ n. matches_at w s now ds n ≡ false) same
        (first_pattern-none w s now ds 0 i p (triggers ds) (scans-none w s now ds live h).1
          (get_elem?-triggers_at ds i d got ∙ ap some is_t))

  -- If no directive has expired, a message that a compiled context does not match is matched by
  -- none of the directives.
  pub match_in_missed : matches_at w s now ds i ≡ false
  match_in_missed = elim (Option-cases (get_elem? ds i)) [
    | inl e ↦ absent w s now i ds e
    | inr (d, got) ↦ by_trigger d got d.trigger refl
  ]
