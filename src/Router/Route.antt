-- ===== src/Router/Route.antt =====
-- crates/oxicrab-router/src/lib.rs: the decision of where a message goes, in order of priority.
mod Priority
mod Stages
mod Sources
mod Tests
use Prim.Native.String.{◌++◌ as ◌++ₛ◌}
use Prim.Native.Char.{code}
use text.Mathlib.Text.{◌==◌ as str_eq}
use oxicrab.Base.{
  ℕ, suc, zero, Bool, true, false, not, ◌||◌, ◌&&◌, String, Option, none, some, leb, ltb, List, [],
  ◌∷◌, ◌++◌, length, get_elem?, map, filter_by, if◌then◌else◌,
}
use oxicrab.Base.Dict.{Dict, lookup, insert}
use oxicrab.Router.Triggers.{
  DirectiveTrigger, exact, one_of, pattern, Matching, LiteralIndex, StaticRule, empty_index,
  compile_from, normalized, rule_matches,
}
use oxicrab.Router.Context.{
  ActionDirective, RouterContext, RouterState, idle, focused, is_expired, directives, active_tool,
  router_state, match_directive_index,
}
use oxicrab.Router.Rules.{
  Platform, ConfigRule, has_prefix, join, substitute, parse_prefixed_command,
}

pub data ActionSource : Type 0 where
  button webhook cron command tool_chain : String → ActionSource

pub record ActionDispatch {ℓ} (J : Type ℓ) : Type ℓ where
  pub tool : String
  pub params : J
  pub source : ActionSource

pub data DispatchSource : Type 0 where
  button action_directive static_rule config_rule remember_fast_path webhook cron command
        tool_chain :
      DispatchSource

unfoldable pub source_label : ActionSource → String
source_label (button action_id) = "button"
source_label (webhook name) = "webhook"
source_label (cron job_id) = "cron"
source_label (command raw) = "command"
source_label (tool_chain parent) = "chain"

unfoldable pub dispatch_label : DispatchSource → String
dispatch_label button = "button"
dispatch_label action_directive = "directive"
dispatch_label static_rule = "rule"
dispatch_label config_rule = "config_rule"
dispatch_label remember_fast_path = "remember"
dispatch_label webhook = "webhook"
dispatch_label cron = "cron"
dispatch_label command = "command_dispatch"
dispatch_label tool_chain = "chain"

-- `action_source_to_dispatch_source`.
unfoldable pub dispatch_source : ActionSource → DispatchSource
dispatch_source (button action_id) = button
dispatch_source (webhook name) = webhook
dispatch_source (cron job_id) = cron
dispatch_source (command raw) = command
dispatch_source (tool_chain parent) = tool_chain

pub record RoutingPolicy : Type 0 where
  pub allowed_tools : List String
  pub blocked_tools : List String
  pub context_hint : Option String
  pub reason : String

pub data RoutingDecision {ℓ} (J : Type ℓ) : Type ℓ where
  direct_dispatch : String → J → DispatchSource → Option ℕ → RoutingDecision J
  guided_llm : RoutingPolicy → RoutingDecision J
  semantic_filter : RoutingPolicy → RoutingDecision J
  full_llm : RoutingDecision J

pub record MessageRouter {ℓ} (J : Type ℓ) : Type ℓ where
  pub static_rules : List (StaticRule J)
  pub config_rules : Dict (ConfigRule J)
  pub prefix : String
  pub static_index : LiteralIndex
  pub remember_checker : Option (String → Bool)

-- The order of strings: by code point, which is their order as UTF-8.
unfoldable pub str_leb : String → String → Bool
str_leb String.[] t = true
str_leb (String.◌∷◌ c s) String.[] = false
str_leb (String.◌∷◌ c s) (String.◌∷◌ d t) =
    let rest = str_leb s t in
    if ltb (code c) (code d) then true else if ltb (code d) (code c) then false else rest

unfoldable pub insert_sorted : String → List String → List String
insert_sorted s [] = s ∷ []
insert_sorted s (t ∷ ts) =
    let later = insert_sorted s ts in if str_leb s t then s ∷ t ∷ ts else t ∷ later

unfoldable pub sort : List String → List String
sort [] = []
sort (s ∷ ss) = insert_sorted s (sort ss)

-- `Vec::dedup`.
unfoldable pub dedup : List String → List String
dedup [] = []
dedup (s ∷ []) = s ∷ []
dedup (s ∷ t ∷ rest) = let later = dedup (t ∷ rest) in if str_eq s t then later else s ∷ later

commands_hint : List String → List String
commands_hint [] = []
commands_hint (k ∷ ks) = ("Available commands: " ++ₛ join ", " (k ∷ ks)) ∷ []

tool_hint : Option String → List String
tool_hint none = []
tool_hint (some tool) = ("Active tool: " ++ₛ tool) ∷ []

module _ {ℓ} {J : Type ℓ} where
  unfoldable pub normalize_rules : Matching → List (StaticRule J) → List (StaticRule J)
  normalize_rules w [] = []
  normalize_rules w (r ∷ rs) = record r { trigger = normalized w r.trigger } ∷ normalize_rules w rs

  -- The first rule of a trigger keeps it.
  unfoldable pub add_config_rules :
      Matching → List (ConfigRule J) → Dict (ConfigRule J) → Dict (ConfigRule J)
  add_config_rules w [] d = d
  add_config_rules w (r ∷ rs) d = elim (lookup (w.to_lowercase r.trigger) d) [
    | some first ↦ add_config_rules w rs d
    | none ↦ add_config_rules w rs (insert (w.to_lowercase r.trigger) r d)
  ]

  unfoldable pub with_remember_checker :
      Matching
      → List (StaticRule J)
      → List (ConfigRule J)
      → String
      → Option (String → Bool)
      → MessageRouter J
  with_remember_checker w rules configs prefix checker = record {
    static_rules = normalize_rules w rules;
    config_rules = add_config_rules w configs [];
    prefix = prefix;
    static_index = compile_from 0 (map (λ r. r.trigger) (normalize_rules w rules)) empty_index;
    remember_checker = checker;
  }

  unfoldable pub keywords : List (ActionDirective J) → List String
  keywords [] = []
  keywords (d ∷ ds) = elim d.trigger [
    | exact s ↦ s ∷ keywords ds
    | one_of options ↦ join "|" options ∷ keywords ds
    | pattern p ↦ keywords ds
  ]

  -- `now` is the second reading of the clock.
  unfoldable pub build_context_hint : ℕ → RouterContext J → String
  unfolding commands_hint tool_hint
  build_context_hint now c = join ". " (
      tool_hint (active_tool c)
      ++ commands_hint (keywords (filter_by (λ d. not (is_expired now d)) (directives c))))

-- The stages of the decision: each gives a decision, or leaves the message to the next.
module _ {ℓ} {J : Type ℓ} (p : Platform J) (r : MessageRouter J) where
  unfoldable pub by_action : Option (ActionDispatch J) → Option (RoutingDecision J)
  by_action none = none
  by_action (some d) = some (direct_dispatch d.tool d.params (dispatch_source d.source) none)

  unfoldable pub by_directive : String → ℕ → RouterContext J → Option (RoutingDecision J)
  by_directive text now c = elim (match_directive_index p.matching text now c) [
    | none ↦ none
    | some i ↦ elim (get_elem? (directives c) i) [
      | none ↦ none
      | some d ↦ some (direct_dispatch d.tool d.params action_directive (some i))
    ]
  ]

  unfoldable pub first_arg : List String → Option String
  first_arg [] = none
  first_arg (arg ∷ rest) = some arg

  unfoldable pub by_config_rule : String → List String → Option (RoutingDecision J)
  by_config_rule name args = elim (lookup name r.config_rules) [
    | none ↦ none
    | some rule ↦ some (direct_dispatch rule.tool (substitute p rule args) config_rule none)
  ]

  unfoldable pub by_command : String → List String → Option (RoutingDecision J)
  by_command name args =
      if str_eq name "router_replay" || str_eq name "route_replay"
      then some (direct_dispatch "_router_replay" (p.replay_params (first_arg args)) command none)
      else if not (str_eq name "")
      then by_config_rule name args
      else none

  unfoldable pub by_prefix : String → Option (RoutingDecision J)
  by_prefix message =
      let (name, args) = parse_prefixed_command p message r.prefix in
      if has_prefix (p.trim message) r.prefix
      then by_command (p.matching.to_lowercase name) args
      else none

  -- The static rule at an index, if it matches.
  unfoldable pub rule_at : String → Option String → ℕ → Option (RoutingDecision J)
  rule_at text tool idx = elim (get_elem? r.static_rules idx) [
    | none ↦ none
    | some rule ↦
        if rule_matches p.matching rule text tool
        then some (direct_dispatch rule.tool rule.params static_rule none)
        else none
  ]

  -- The first decision of the two.
  unfoldable pub or_next :
      Option (RoutingDecision J) → Option (RoutingDecision J) → Option (RoutingDecision J)
  or_next (some d) later = some d
  or_next none later = later

  unfoldable pub by_patterns : String → Option String → List ℕ → Option (RoutingDecision J)
  by_patterns text tool [] = none
  by_patterns text tool (idx ∷ rest) = or_next (rule_at text tool idx) (by_patterns text tool rest)

  unfoldable pub by_static_rule : String → Option String → Option (RoutingDecision J)
  by_static_rule text tool =
      let patterns = by_patterns text tool r.static_index.pattern_indices in
      elim (lookup text r.static_index.literal_to_index) [
        | none ↦ patterns
        | some idx ↦ or_next (rule_at text tool idx) patterns
      ]

  unfoldable pub by_remember : String → Option (RoutingDecision J)
  by_remember message = elim r.remember_checker [
    | none ↦ none
    | some checker ↦
        if checker message
        then some (direct_dispatch "_remember" (p.content_params message) remember_fast_path none)
        else none
  ]

  unfoldable pub by_focus : ℕ → ℕ → RouterContext J → Option (RoutingDecision J)
  by_focus now later c = elim (router_state now c) [
    | idle ↦ none
    | focused tool ↦ some (
        guided_llm (record {
          allowed_tools = tool ∷ [];
          blocked_tools = [];
          context_hint = some (build_context_hint later c);
          reason = "active_tool_with_live_directives";
        }))
  ]

  unfoldable pub by_semantic : Option (List String) → RoutingDecision J
  by_semantic none = full_llm
  by_semantic (some candidates) =
      let tools = dedup (sort candidates) in
      if leb 2 (length tools)
      then semantic_filter (record {
        allowed_tools = tools;
        blocked_tools = [];
        context_hint = none;
        reason = "semantic_filter";
      })
      else full_llm

  unfoldable pub or_last : Option (RoutingDecision J) → RoutingDecision J → RoutingDecision J
  or_last (some d) last = d
  or_last none last = last

  -- The decision for a message without an explicit action that is not empty.
  unfoldable pub route_text :
      String → RouterContext J → ℕ → ℕ → Option (List String) → RoutingDecision J
  route_text message c now later candidates =
      let text = p.matching.to_lowercase (p.trim message) in
      or_last
        (or_next (by_directive text now c) (
          or_next (by_prefix message) (
            or_next (by_static_rule text (active_tool c))
              (or_next (by_remember message) (by_focus now later c)))))
        (by_semantic candidates)

  -- `now` and `later` are the two readings of the clock.
  unfoldable pub route_with_semantic :
      String
      → RouterContext J
      → Option (ActionDispatch J)
      → ℕ
      → ℕ
      → Option (List String)
      → RoutingDecision J
  route_with_semantic message c action now later candidates =
      or_last (by_action action)
        (if str_eq message "" then full_llm else route_text message c now later candidates)

  unfoldable pub route :
      String → RouterContext J → Option (ActionDispatch J) → ℕ → ℕ → RoutingDecision J
  route message c action now later = route_with_semantic message c action now later none
