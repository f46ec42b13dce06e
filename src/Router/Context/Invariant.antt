-- ===== src/Router/Context/Invariant.antt =====
-- The matcher of a context is always the compiled form of its directives.
use text.Mathlib.Text.{◌==◌ as str_eq}
use oxicrab.Base.{
  ℕ, ◌≤◌, suc, zero, Bool, true, false, not, ◌||◌, String, Option, none, some, List, [], ◌∷◌,
  if◌then◌else◌, ◌≡◌, refl, sym, ap, ◌∙◌, subst, arith, Bool-cases, inl, inr, length, take,
  filter_by, length-take, length-filter_by-le, ltb,
}
use oxicrab.Router.Triggers.{Matching, compile_from, empty_index}
use oxicrab.Base.Signed.{i64_le}
use oxicrab.Router.Context.{
  directives_of, prune_in, focus_in, remove_in, install_in, ActionDirective, ContextState,
  RouterContext, StoredContext, idle, tool_focused, compile, is_expired, expiry, remove_at,
  directives, set_idle, rebuild_matcher, set_active_tool, normalize_all, install_directives,
  keep_directives, is_empty, prune_expired, remove_directive_at, from_stored, max_directives,
  missing, malformed, current, legacy,
}

-- One call of a method that changes the context.
pub data ContextCall {ℓ} (J : Type ℓ) : Type ℓ where
  idling : ContextCall J
  activating : Option String → ContextCall J
  installing : List (ActionDirective J) → ContextCall J
  pruning : ℕ → ContextCall J
  removing : ℕ → ContextCall J

compile-nil {ℓ} : (J : Type ℓ) → compile {J = J} [] ≡ empty_index
unfolding compile compile_from
compile-nil J = refl

module _ {ℓ} {J : Type ℓ} where
  unfoldable pub apply_call : Matching → ContextCall J → RouterContext J → RouterContext J
  apply_call w idling c = set_idle c
  apply_call w (activating tool) c = set_active_tool tool c
  apply_call w (installing ds) c = install_directives w ds c
  apply_call w (pruning now) c = prune_expired now c
  apply_call w (removing index) c = remove_directive_at index c

  unfoldable pub apply_calls : Matching → List (ContextCall J) → RouterContext J → RouterContext J
  apply_calls w [] c = c
  apply_calls w (call ∷ calls) c = apply_calls w calls (apply_call w call c)

  -- The state is within the cap and expires with the last of its directives.
  abbrev pub IsCapped : ContextState J → Type 0
  IsCapped idle = Unit
  IsCapped (tool_focused tool ds until) = (length ds ≤ 20) × (until ≡ expiry ds)

  -- The matcher is the compiled form of the directives, and the state is capped.
  abbrev pub IsValid : RouterContext J → Type 0
  IsValid c = (c.matcher ≡ compile (directives c)) × IsCapped c.state

  set_idle-IsValid : (c : RouterContext J) → IsValid (set_idle c)
  unfolding set_idle directives_of
  set_idle-IsValid c = (sym (compile-nil J), tt)

  focused-IsValid :
      (c : RouterContext J) (tool : String)
      → IsValid (record c { state = tool_focused tool [] 0; matcher = empty_index })
  unfolding directives_of expiry
  focused-IsValid c tool = (sym (compile-nil J), (omega arith, refl))

  kept-IsValid :
      (c : RouterContext J) (tool : String) (ds : List (ActionDirective J))
      → length ds ≤ 20
      → IsValid (rebuild_matcher (record c { state = tool_focused tool ds (expiry ds) }))
  unfolding rebuild_matcher directives_of
  kept-IsValid c tool ds h = (refl, (h, refl))

  length-remove_at : (i : ℕ) (ds : List (ActionDirective J)) → length (remove_at i ds) ≤ length ds
  unfolding remove_at
  length-remove_at i [] = omega arith
  length-remove_at zero (d ∷ ds) = omega arith
  length-remove_at (suc i) (d ∷ ds) = omega (arith, length-remove_at i ds)

  focus_in-IsValid :
      (next : String) (c : RouterContext J) (s : ContextState J)
      → IsValid c
      → IsValid (focus_in next s c)
  unfolding focus_in
  focus_in-IsValid next c idle v = focused-IsValid c next
  focus_in-IsValid next c (tool_focused tool ds until) v = elim (Bool-cases (str_eq tool next)) [
    | inl same ↦ rw same v
    | inr other ↦ rw other (focused-IsValid c next)
  ]

  install_in-IsValid :
      (ds : List (ActionDirective J)) (c : RouterContext J) (s : ContextState J)
      → c.state ≡ s
      → length ds ≤ 20
      → IsValid (install_in ds s c)
  unfolding install_in directives_of
  install_in-IsValid ds c idle e h =
      (sym (compile-nil J) ∙ ap (λ s. compile (directives_of s)) (sym e), subst IsCapped (sym e) tt)
  install_in-IsValid ds c (tool_focused tool old until) e h = kept-IsValid c tool ds h

  settled-IsValid :
      (b : Bool) (c : RouterContext J) (tool : String) (ds : List (ActionDirective J))
      → length ds ≤ 20
      → IsValid (if b then set_idle c else keep_directives tool ds c)
  unfolding keep_directives
  settled-IsValid true c tool ds h = set_idle-IsValid c
  settled-IsValid false c tool ds h = kept-IsValid c tool ds h

  pub prune_in-IsValid :
      (now : ℕ) (c : RouterContext J) (s : ContextState J)
      → IsCapped s
      → IsValid c
      → IsValid (prune_in now s c)
  unfolding prune_in
  prune_in-IsValid now c idle k v = v
  prune_in-IsValid now c (tool_focused tool ds until) k v =
      let live = filter_by (λ d. not (is_expired now d)) ds in
      settled-IsValid (is_empty live || i64_le (expiry live) now) c tool live
        (omega (arith, k.0, length-filter_by-le (λ d. not (is_expired now d)) ds))

  remove_in-IsValid :
      (i : ℕ) (c : RouterContext J) (s : ContextState J)
      → IsCapped s
      → IsValid c
      → IsValid (remove_in i s c)
  unfolding remove_in
  remove_in-IsValid i c idle k v = v
  remove_in-IsValid i c (tool_focused tool ds until) k v = elim (Bool-cases (ltb i (length ds))) [
    | inl inside ↦ rw inside (
        settled-IsValid (is_empty (remove_at i ds)) c tool (remove_at i ds)
          (omega (arith, k.0, length-remove_at i ds)))
    | inr outside ↦ rw outside v
  ]

  -- Every method that changes a context keeps the invariant: the matcher is the compiled form of the
  -- directives, there are at most 20 of them, and the focus expires with the last of them.
  pub apply_call-IsValid :
      (w : Matching) (call : ContextCall J) (c : RouterContext J)
      → IsValid c
      → IsValid (apply_call w call c)
  unfolding apply_call set_active_tool install_directives prune_expired remove_directive_at
  apply_call-IsValid w idling c v = set_idle-IsValid c
  apply_call-IsValid w (activating none) c v = set_idle-IsValid c
  apply_call-IsValid w (activating (some next)) c v = focus_in-IsValid next c c.state v
  apply_call-IsValid w (installing ds) c v =
      install_in-IsValid (take max_directives (normalize_all w ds)) c c.state refl
        (omega (arith, length-take 20 (normalize_all w ds)))
  apply_call-IsValid w (pruning now) c v = prune_in-IsValid now c c.state v.1 v
  apply_call-IsValid w (removing index) c v = remove_in-IsValid index c c.state v.1 v

  pub apply_calls-IsValid :
      (w : Matching) (calls : List (ContextCall J)) (c : RouterContext J)
      → IsValid c
      → IsValid (apply_calls w calls c)
  unfolding apply_calls
  apply_calls-IsValid w [] c v = v
  apply_calls-IsValid w (call ∷ calls) c v =
      apply_calls-IsValid w calls (apply_call w call c) (apply_call-IsValid w call c v)

  loaded-IsValid :
      (w : Matching) (stored : StoredContext J)
      → ((state : ContextState J) (updated : ℕ) → stored ≡ current state updated → IsCapped state)
      → IsValid (from_stored w stored)
  unfolding from_stored rebuild_matcher set_active_tool focus_in install_directives install_in
      directives_of
  loaded-IsValid w missing h = (sym (compile-nil J), tt)
  loaded-IsValid w malformed h = (sym (compile-nil J), tt)
  loaded-IsValid w (current state updated) h = (refl, h state updated refl)
  loaded-IsValid w (legacy none ds updated) h = (refl, tt)
  loaded-IsValid w (legacy (some tool) ds updated) h =
      (refl, (omega (arith, length-take 20 (normalize_all w ds)), refl))

  pub session-IsValid :
      (w : Matching) (stored : StoredContext J) (calls : List (ContextCall J))
      → ((state : ContextState J) (updated : ℕ) → stored ≡ current state updated → IsCapped state)
      → IsValid (apply_calls w calls (from_stored w stored))
  session-IsValid w stored calls h =
      apply_calls-IsValid w calls (from_stored w stored) (loaded-IsValid w stored h)
