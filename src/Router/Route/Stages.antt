-- ===== src/Router/Route/Stages.antt =====
-- What each stage of the decision can give.
use oxicrab.Base.{
  ℕ, Bool, true, false, String, Option, none, some, List, [], ◌∷◌, ◌≡◌, ◌⊎◌, inl, inr, refl, sym,
  ap, subst, ◌∙◌, arith, get_elem?, Option-cases,
}
use oxicrab.Base.Dict.{lookup}
use oxicrab.Router.Triggers.{StaticRule, rule_matches}
use oxicrab.Router.Context.{RouterContext}
use oxicrab.Router.Rules.{Platform}
use oxicrab.Router.Route.{
  button, webhook, cron, command, tool_chain, ActionSource, parse_prefixed_command, dispatch_source,
  by_config_rule, ActionDispatch, static_rule, RoutingDecision, direct_dispatch, guided_llm,
  semantic_filter, full_llm, MessageRouter, by_action, by_directive, by_prefix, by_command, rule_at,
  or_next, by_patterns, by_static_rule, by_remember, by_focus, by_semantic, or_last,
}

-- The decisions that a static rule, and that the focus of the context, may give.
abbrev pub is_static {ℓ} : {J : Type ℓ} → RoutingDecision J → Bool
is_static (direct_dispatch tool params static_rule idx) = true
is_static (direct_dispatch tool params source idx) = false
is_static (guided_llm policy) = false
is_static (semantic_filter policy) = false
is_static full_llm = false

abbrev pub is_guided {ℓ} : {J : Type ℓ} → RoutingDecision J → Bool
is_guided (direct_dispatch tool params source idx) = false
is_guided (guided_llm policy) = true
is_guided (semantic_filter policy) = false
is_guided full_llm = false

module _ {ℓ} {J : Type ℓ} (p : Platform J) (r : MessageRouter J) where
  pub or_next-cases :
      (a b : Option (RoutingDecision J)) (d : RoutingDecision J)
      → or_next p r a b ≡ some d
      → (a ≡ some d) ⊎ (b ≡ some d)
  unfolding or_next
  or_next-cases none b d h = inr h
  or_next-cases (some e) b d h = inl h

  pub or_last-cases :
      (a : Option (RoutingDecision J)) (b d : RoutingDecision J)
      → or_last p r a b ≡ d
      → (a ≡ some d) ⊎ (b ≡ d)
  unfolding or_last
  or_last-cases none b d h = inr h
  or_last-cases (some e) b d h = inl (ap some h)

  source_is :
      (tool : String) (params : J) (source : ActionSource)
      → let d = direct_dispatch tool params (dispatch_source source) none in
        (is_static d ≡ false) × (is_guided d ≡ false)
  unfolding dispatch_source
  source_is tool params (button id) = (refl, refl)
  source_is tool params (webhook id) = (refl, refl)
  source_is tool params (cron id) = (refl, refl)
  source_is tool params (command id) = (refl, refl)
  source_is tool params (tool_chain id) = (refl, refl)

  pub action_is :
      (a : Option (ActionDispatch J)) (d : RoutingDecision J)
      → by_action p r a ≡ some d
      → (is_static d ≡ false) × (is_guided d ≡ false)
  unfolding by_action
  action_is none d h = absurd (ground arith)
  action_is (some a) d h =
      let same : direct_dispatch a.tool a.params (dispatch_source a.source) none ≡ d = cc h in
      subst (λ e. (is_static e ≡ false) × (is_guided e ≡ false)) same
        (source_is a.tool a.params a.source)

  pub directive_is :
      (text : String) (now : ℕ) (c : RouterContext J) (d : RoutingDecision J)
      → by_directive p r text now c ≡ some d
      → (is_static d ≡ false) × (is_guided d ≡ false)
  unfolding by_directive
  directive_is text now c d h = ground arith

  config_rule_is :
      (name : String) (args : List String) (d : RoutingDecision J)
      → by_config_rule p r name args ≡ some d
      → (is_static d ≡ false) × (is_guided d ≡ false)
  unfolding by_config_rule
  config_rule_is name args d h = ground arith

  command_is :
      (name : String) (args : List String) (d : RoutingDecision J)
      → by_command p r name args ≡ some d
      → (is_static d ≡ false) × (is_guided d ≡ false)
  unfolding by_command
  command_is name args d h = ground (arith, config_rule_is name args d)

  pub prefix_is :
      (message : String) (d : RoutingDecision J)
      → by_prefix p r message ≡ some d
      → (is_static d ≡ false) × (is_guided d ≡ false)
  unfolding by_prefix
  prefix_is message d h =
      let (name, args) = parse_prefixed_command p message r.prefix in
      ground (arith, command_is (p.matching.to_lowercase name) args d)

  pub remember_is :
      (message : String) (d : RoutingDecision J)
      → by_remember p r message ≡ some d
      → (is_static d ≡ false) × (is_guided d ≡ false)
  unfolding by_remember
  remember_is message d h = ground arith

  pub focus_is :
      (now later : ℕ) (c : RouterContext J) (d : RoutingDecision J)
      → by_focus p r now later c ≡ some d
      → is_static d ≡ false
  unfolding by_focus
  focus_is now later c d h = ground arith

  pub semantic_is :
      (candidates : Option (List String)) (d : RoutingDecision J)
      → by_semantic p r candidates ≡ d
      → (is_static d ≡ false) × (is_guided d ≡ false)
  unfolding by_semantic
  semantic_is candidates d h = ground arith

  -- The rule that a static decision takes.
  abbrev pub IsRule : String → Option String → RoutingDecision J → Type ℓ
  IsRule text tool d =
      (i : ℕ) × (rule : StaticRule J) × (get_elem? r.static_rules i ≡ some rule)
      × (rule_matches p.matching rule text tool ≡ true)
      × (d ≡ direct_dispatch rule.tool rule.params static_rule none)

  rule_at-IsRule :
      (text : String) (tool : Option String) (i : ℕ) (d : RoutingDecision J)
      → rule_at p r text tool i ≡ some d
      → IsRule text tool d
  unfolding rule_at
  rule_at-IsRule text tool i d h = elim (Option-cases (get_elem? r.static_rules i)) [
    | inl e ↦ absurd (ground arith)
    | inr (rule, e) ↦ (i, rule, e, ground arith, ground arith)
  ]

  patterns-IsRule :
      (text : String) (tool : Option String) (is : List ℕ) (d : RoutingDecision J)
      → by_patterns p r text tool is ≡ some d
      → IsRule text tool d
  unfolding by_patterns
  patterns-IsRule text tool [] d h = absurd (ground arith)
  patterns-IsRule text tool (i ∷ is) d h =
      elim (or_next-cases (rule_at p r text tool i) (by_patterns p r text tool is) d h) [
        | inl here ↦ rule_at-IsRule text tool i d here
        | inr later ↦ patterns-IsRule text tool is d later
      ]

  by_static_rule-some :
      (text : String) (tool : Option String) (i : ℕ)
      → lookup text r.static_index.literal_to_index ≡ some i
      → by_static_rule p r text tool
        ≡ or_next p r
            (rule_at p r text tool i)
            (by_patterns p r text tool r.static_index.pattern_indices)
  unfolding by_static_rule
  by_static_rule-some text tool i e = rw (e, by_static_rule) refl

  by_static_rule-none :
      (text : String) (tool : Option String)
      → lookup text r.static_index.literal_to_index ≡ none
      → by_static_rule p r text tool ≡ by_patterns p r text tool r.static_index.pattern_indices
  unfolding by_static_rule
  by_static_rule-none text tool e = rw (e, by_static_rule) refl

  pub static-IsRule :
      (text : String) (tool : Option String) (d : RoutingDecision J)
      → by_static_rule p r text tool ≡ some d
      → IsRule text tool d
  static-IsRule text tool d h =
      let is = r.static_index.pattern_indices in
      elim (Option-cases (lookup text r.static_index.literal_to_index)) [
        | inl e ↦ patterns-IsRule text tool is d (sym (by_static_rule-none text tool e) ∙ h)
        | inr (i, e) ↦
            elim (or_next-cases (rule_at p r text tool i) (by_patterns p r text tool is) d
              (sym (by_static_rule-some text tool i e) ∙ h)) [
                | inl here ↦ rule_at-IsRule text tool i d here
                | inr later ↦ patterns-IsRule text tool is d later
              ]
      ]
