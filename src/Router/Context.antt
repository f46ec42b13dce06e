-- ===== src/Router/Context.antt =====
-- crates/oxicrab-router/src/context.rs: what the router remembers of a session between messages.
-- The JSON of the session enters by what it deserializes to.
pub mod Invariant
mod Matches
pub mod Pruned
mod Tests
use oxicrab.Base.{
  ℕ, ◌+◌, suc, zero, Bool, true, false, not, ◌||◌, ◌&&◌, String, Option, none, some, List, [], ◌∷◌,
  map, any, take, length, filter_by, get_elem?, ltb, if◌then◌else◌,
}
use text.Mathlib.Text.{◌==◌ as str_eq}
use oxicrab.Base.Dict.{lookup}
use oxicrab.Base.Signed.{i64_add, i64_lt, i64_le, i64_max_of}
use oxicrab.Router.Triggers.{
  Matching, DirectiveTrigger, LiteralIndex, empty_index, compile_from, normalized, trigger_matches,
}

abbrev pub max_directives : ℕ
max_directives = 20

pub record ActionDirective {ℓ} (J : Type ℓ) : Type ℓ where
  pub trigger : DirectiveTrigger
  pub tool : String
  pub params : J
  pub single_use : Bool
  pub ttl_ms : ℕ
  pub created_at_ms : ℕ

pub data ContextState {ℓ} (J : Type ℓ) : Type ℓ where
  idle : ContextState J
  tool_focused : String → List (ActionDirective J) → ℕ → ContextState J

pub data RouterState : Type 0 where
  idle : RouterState
  focused : String → RouterState

pub record RouterContext {ℓ} (J : Type ℓ) : Type ℓ where
  pub state : ContextState J
  pub updated_at_ms : ℕ
  pub matcher : LiteralIndex

module _ {ℓ} {J : Type ℓ} where
  abbrev pub deadline : ActionDirective J → ℕ
  deadline d = i64_add d.created_at_ms d.ttl_ms

  unfoldable pub is_expired : ℕ → ActionDirective J → Bool
  is_expired now d = i64_lt (deadline d) now

  unfoldable pub compile : List (ActionDirective J) → LiteralIndex
  compile ds = compile_from 0 (map (λ d. d.trigger) ds) empty_index

  -- `map(deadline).max().unwrap_or(0)`.
  unfoldable pub expiry : List (ActionDirective J) → ℕ
  expiry [] = 0
  expiry (d ∷ ds) = i64_max_of (deadline d) (map (λ e. deadline e) ds)

  -- `Vec::remove`.
  unfoldable pub remove_at : ℕ → List (ActionDirective J) → List (ActionDirective J)
  remove_at i [] = []
  remove_at zero (d ∷ ds) = ds
  remove_at (suc i) (d ∷ ds) = d ∷ remove_at i ds

  abbrev pub default_context : RouterContext J
  default_context = record { state = idle; updated_at_ms = 0; matcher = empty_index }

  unfoldable pub tool_of : ContextState J → Option String
  tool_of idle = none
  tool_of (tool_focused tool ds until) = some tool

  abbrev pub active_tool : RouterContext J → Option String
  active_tool c = tool_of c.state

  unfoldable pub directives_of : ContextState J → List (ActionDirective J)
  directives_of idle = []
  directives_of (tool_focused tool ds until) = ds

  abbrev pub directives : RouterContext J → List (ActionDirective J)
  directives c = directives_of c.state

  unfoldable pub state_of : ℕ → ContextState J → RouterState
  state_of now idle = idle
  state_of now (tool_focused tool ds until) =
      if i64_lt now until && any (λ d. not (is_expired now d)) ds then focused tool else idle

  -- `state`.
  abbrev pub router_state : ℕ → RouterContext J → RouterState
  router_state now c = state_of now c.state

  unfoldable pub set_idle : RouterContext J → RouterContext J
  set_idle c = record c { state = idle; matcher = empty_index }

  unfoldable pub rebuild_matcher : RouterContext J → RouterContext J
  rebuild_matcher c = record c { matcher = compile (directives c) }

  -- `set_active_tool(Some(next))`.
  unfoldable pub focus_in : String → ContextState J → RouterContext J → RouterContext J
  focus_in next idle c = record c { state = tool_focused next [] 0; matcher = empty_index }
  focus_in next (tool_focused tool ds until) c =
      if str_eq tool next
      then c
      else record c { state = tool_focused next [] 0; matcher = empty_index }

  unfoldable pub set_active_tool : Option String → RouterContext J → RouterContext J
  set_active_tool none c = set_idle c
  set_active_tool (some next) c = focus_in next c.state c

  unfoldable pub normalize_all : Matching → List (ActionDirective J) → List (ActionDirective J)
  normalize_all w [] = []
  normalize_all w (d ∷ ds) = record d { trigger = normalized w d.trigger } ∷ normalize_all w ds

  unfoldable pub install_in :
      List (ActionDirective J) → ContextState J → RouterContext J → RouterContext J
  install_in installed idle c = record c { matcher = empty_index }
  install_in installed (tool_focused tool old until) c =
      rebuild_matcher (record c { state = tool_focused tool installed (expiry installed) })

  unfoldable pub install_directives :
      Matching → List (ActionDirective J) → RouterContext J → RouterContext J
  install_directives w ds c = install_in (take max_directives (normalize_all w ds)) c.state c

  -- The directives that remain, written back to the state.
  unfoldable pub keep_directives :
      String → List (ActionDirective J) → RouterContext J → RouterContext J
  keep_directives tool ds c =
      rebuild_matcher (record c { state = tool_focused tool ds (expiry ds) })

  unfoldable pub is_empty : List (ActionDirective J) → Bool
  is_empty [] = true
  is_empty (d ∷ ds) = false

  unfoldable pub prune_in : ℕ → ContextState J → RouterContext J → RouterContext J
  prune_in now idle c = c
  prune_in now (tool_focused tool ds until) c =
      let live = filter_by (λ d. not (is_expired now d)) ds in
      if is_empty live || i64_le (expiry live) now then set_idle c else keep_directives tool live c

  unfoldable pub prune_expired : ℕ → RouterContext J → RouterContext J
  prune_expired now c = prune_in now c.state c

  unfoldable pub remove_in : ℕ → ContextState J → RouterContext J → RouterContext J
  remove_in index idle c = c
  remove_in index (tool_focused tool ds until) c =
      let rest = remove_at index ds in
      if ltb index (length ds)
      then (if is_empty rest then set_idle c else keep_directives tool rest c)
      else c

  unfoldable pub remove_directive_at : ℕ → RouterContext J → RouterContext J
  remove_directive_at index c = remove_in index c.state c

  unfoldable pub is_live_at : ℕ → List (ActionDirective J) → ℕ → Bool
  is_live_at now ds idx = elim (get_elem? ds idx) [ some d ↦ not (is_expired now d) | none ↦ false ]

  unfoldable pub matches_at : Matching → String → ℕ → List (ActionDirective J) → ℕ → Bool
  matches_at w text now ds idx = elim (get_elem? ds idx) [
    | some d ↦ not (is_expired now d) && trigger_matches w d.trigger text
    | none ↦ false
  ]

  -- The loop over the indices of the patterns.
  unfoldable pub first_pattern :
      Matching → String → ℕ → List (ActionDirective J) → List ℕ → Option ℕ
  first_pattern w text now ds [] = none
  first_pattern w text now ds (idx ∷ rest) =
      let later = first_pattern w text now ds rest in
      if matches_at w text now ds idx then some idx else later

  unfoldable pub match_in :
      Matching → String → ℕ → List (ActionDirective J) → LiteralIndex → Option ℕ
  match_in w text now ds m =
      let slow = first_pattern w text now ds m.pattern_indices in
      elim (lookup text m.literal_to_index) [
        | some idx ↦ if is_live_at now ds idx then some idx else slow
        | none ↦ slow
      ]

  unfoldable pub match_state : Matching → String → ℕ → ContextState J → LiteralIndex → Option ℕ
  match_state w text now idle m = none
  match_state w text now (tool_focused tool ds until) m = match_in w text now ds m

  unfoldable pub match_directive_index : Matching → String → ℕ → RouterContext J → Option ℕ
  match_directive_index w text now c = match_state w text now c.state c.matcher

-- What the value under "router_context" deserializes to.
pub data StoredContext {ℓ} (J : Type ℓ) : Type ℓ where
  missing malformed : StoredContext J
  current : ContextState J → ℕ → StoredContext J
  legacy : Option String → List (ActionDirective J) → ℕ → StoredContext J

module _ {ℓ} {J : Type ℓ} where
  -- `from_session_metadata`.
  unfoldable pub from_stored : Matching → StoredContext J → RouterContext J
  from_stored w missing = default_context
  from_stored w malformed = default_context
  from_stored w (current state updated) =
      rebuild_matcher (record { state = state; updated_at_ms = updated; matcher = empty_index })
  from_stored w (legacy none ds updated) =
      rebuild_matcher (record { state = idle; updated_at_ms = updated; matcher = empty_index })
  from_stored w (legacy (some tool) ds updated) = rebuild_matcher (
      install_directives w ds (
        set_active_tool (some tool)
          (record { state = idle; updated_at_ms = updated; matcher = empty_index })))
