-- ===== src/Router/Context/Pruned.antt =====
-- A context from which the expired directives were just removed.
use oxicrab.Base.{
  ℕ, true, false, not, ◌||◌, ◌⊎◌, inl, inr, ◌≡◌, refl, sym, ap, subst, ◌∙◌, arith, List, [], ◌∷◌,
  String, none, some, any, filter_by, Bool-cases, if◌then◌else◌,
}
use oxicrab.Base.Signed.{i64_le, i64_lt, i64_le-lt}
use oxicrab.Router.Triggers.{Matching, LiteralIndex}
use oxicrab.Router.Context.{
  ActionDirective, ContextState, RouterContext, idle, tool_focused, focused, compile, is_expired,
  expiry, is_empty, directives, directives_of, set_idle, rebuild_matcher, keep_directives, prune_in,
  prune_expired, match_in, match_state, match_directive_index, matches_at, tool_of, state_of,
  active_tool, router_state,
}
use oxicrab.Router.Context.Matches.{AllLive, match_in_found, match_in_missed}
use oxicrab.Router.Context.Invariant.{IsValid, prune_in-IsValid}

module _ {ℓ} {J : Type ℓ} where
  AllLive-filter_by :
      (now : ℕ) (ds : List (ActionDirective J))
      → AllLive now (filter_by (λ d. not (is_expired now d)) ds)
  unfolding AllLive
  AllLive-filter_by now [] = tt
  AllLive-filter_by now (d ∷ ds) = elim (Bool-cases (is_expired now d)) [
    | inl e ↦ rw e (AllLive-filter_by now ds)
    | inr e ↦ rw e (e, AllLive-filter_by now ds)
  ]

  -- What pruning leaves: no focus, or a focus on the same tool with live directives.
  abbrev pub IsFresh : ℕ → ContextState J → Type 0
  IsFresh now idle = Unit
  IsFresh now (tool_focused tool ds until) =
      (AllLive now ds × (is_empty ds ≡ false)) × (i64_lt now until ≡ true)

  settled-IsFresh :
      (now : ℕ) (c : RouterContext J) (tool : String) (ds : List (ActionDirective J))
      → AllLive now ds
      → IsFresh now
          (if is_empty ds || i64_le (expiry ds) now
            then set_idle c
            else keep_directives tool ds c).state
  unfolding set_idle keep_directives rebuild_matcher
  settled-IsFresh now c tool ds live = elim (Bool-cases (is_empty ds)) [
    | inl e ↦ rw e tt
    | inr e ↦ elim (Bool-cases (i64_le (expiry ds) now)) [
      | inl f ↦ rw (e, f) tt
      | inr f ↦ rw (e, f) ((live, e), i64_le-lt (expiry ds) now f)
    ]
  ]

  prune_in-IsFresh :
      (now : ℕ) (c : RouterContext J) (s : ContextState J)
      → c.state ≡ s
      → IsFresh now (prune_in now s c).state
  unfolding prune_in
  prune_in-IsFresh now c idle e = subst (IsFresh now) (sym e) tt
  prune_in-IsFresh now c (tool_focused tool ds until) e =
      settled-IsFresh now c tool (filter_by (λ d. not (is_expired now d)) ds)
        (AllLive-filter_by now ds)

  live_any :
      (now : ℕ) (ds : List (ActionDirective J))
      → AllLive now ds
      → is_empty ds ≡ false
      → any (λ d. not (is_expired now d)) ds ≡ true
  unfolding AllLive is_empty
  live_any now [] h e = absurd (ground arith)
  live_any now (d ∷ ds) h e = rw (h.0) refl

  state_of_fresh :
      (now : ℕ) (s : ContextState J)
      → IsFresh now s
      → ((tool_of s ≡ none) × (state_of now s ≡ idle))
        ⊎ ((tool : String) × (tool_of s ≡ some tool) × (state_of now s ≡ focused tool))
  unfolding tool_of state_of
  state_of_fresh now idle f = inl (refl, refl)
  state_of_fresh now (tool_focused tool ds until) f =
      inr (tool, refl, rw (f.1, live_any now ds f.0.0 f.0.1) refl)

  -- Just after the expired directives are removed, the routing state and the active tool agree: both
  -- are there, and name the same tool, or neither is.
  pub prune_expired_agrees :
      (now : ℕ) (c : RouterContext J)
      → let pruned = prune_expired now c in
        ((active_tool pruned ≡ none) × (router_state now pruned ≡ idle))
        ⊎ ((tool : String) × (active_tool pruned ≡ some tool)
            × (router_state now pruned ≡ focused tool))
  unfolding prune_expired
  prune_expired_agrees now c =
      state_of_fresh now (prune_in now c.state c).state (prune_in-IsFresh now c c.state refl)

  match_state_found :
      (w : Matching) (text : String) (now i : ℕ) (s : ContextState J) (m : LiteralIndex)
      → m ≡ compile (directives_of s)
      → match_state w text now s m ≡ some i
      → matches_at w text now (directives_of s) i ≡ true
  unfolding match_state directives_of
  match_state_found w text now i idle m e h = absurd (ground arith)
  match_state_found w text now i (tool_focused tool ds until) m e h =
      match_in_found w text now i ds (ap (match_in w text now ds) (sym e) ∙ h)

  match_state_missed :
      (w : Matching) (text : String) (now i : ℕ) (s : ContextState J) (m : LiteralIndex)
      → IsFresh now s
      → m ≡ compile (directives_of s)
      → match_state w text now s m ≡ none
      → matches_at w text now (directives_of s) i ≡ false
  unfolding match_state directives_of matches_at
  match_state_missed w text now i idle m f e h = refl
  match_state_missed w text now i (tool_focused tool ds until) m f e h =
      match_in_missed w text now i ds f.0.0 (ap (match_in w text now ds) (sym e) ∙ h)

  -- In a valid context, a match is the index of a directive that is there, has not expired and whose
  -- trigger matches the message.
  pub match_directive_index_sound :
      (w : Matching) (text : String) (now i : ℕ) (c : RouterContext J)
      → IsValid c
      → match_directive_index w text now c ≡ some i
      → matches_at w text now (directives c) i ≡ true
  unfolding match_directive_index
  match_directive_index_sound w text now i c v h =
      match_state_found w text now i c.state c.matcher v.0 h

  -- After pruning a valid context, a message without a match is matched by none of the directives.
  pub match_directive_index_complete :
      (w : Matching) (text : String) (now i : ℕ) (c : RouterContext J)
      → IsValid c
      → match_directive_index w text now (prune_expired now c) ≡ none
      → matches_at w text now (directives (prune_expired now c)) i ≡ false
  unfolding match_directive_index prune_expired
  match_directive_index_complete w text now i c v h =
      match_state_missed w text now i (prune_in now c.state c).state
        (prune_in now c.state c).matcher (prune_in-IsFresh now c c.state refl)
        (prune_in-IsValid now c c.state v.1 v).0 h
