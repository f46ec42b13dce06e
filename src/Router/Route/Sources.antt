-- ===== src/Router/Route/Sources.antt =====
-- The stage that a decision comes from.
use text.Mathlib.Text.{◌==◌ as str_eq}
use oxicrab.Base.{
  ℕ, Bool, true, false, String, Option, none, some, List, [], ◌∷◌, ◌≡◌, ◌⊎◌, inl, inr, refl, sym,
  ap, arith, get_elem?, Bool-cases,
}
use oxicrab.Router.Triggers.{StaticRule, rule_matches}
use oxicrab.Router.Context.{RouterContext, RouterState, idle, focused, active_tool, router_state}
use oxicrab.Router.Rules.{Platform}
use oxicrab.Router.Route.{
  ActionDispatch, static_rule, RoutingPolicy, RoutingDecision, direct_dispatch, guided_llm,
  full_llm, MessageRouter, by_action, by_directive, by_prefix, or_next, by_static_rule, by_remember,
  by_focus, by_semantic, or_last, route_text, route_with_semantic,
}
use oxicrab.Router.Route.Stages.{
  is_static, is_guided, or_next-cases, or_last-cases, action_is, directive_is, prefix_is,
  remember_is, focus_is, semantic_is, static-IsRule, IsRule,
}

RouterState-cases : (s : RouterState) → (s ≡ idle) ⊎ ((tool : String) × (s ≡ focused tool))
RouterState-cases idle = inl refl
RouterState-cases (focused tool) = inr (tool, refl)

module _ {ℓ} {J : Type ℓ} where
  allowed_of : Option (RoutingDecision J) → List String
  allowed_of (some (guided_llm policy)) = policy.allowed_tools
  allowed_of other = []

  blocked_of : Option (RoutingDecision J) → List String
  blocked_of (some (guided_llm policy)) = policy.blocked_tools
  blocked_of other = []

module _ {ℓ} {J : Type ℓ} (p : Platform J) (r : MessageRouter J) where
  past :
      (f : RoutingDecision J → Bool) (a b : Option (RoutingDecision J)) (d : RoutingDecision J)
      → ((e : RoutingDecision J) → a ≡ some e → f e ≡ false)
      → f d ≡ true
      → or_next p r a b ≡ some d
      → b ≡ some d
  past f a b d unlike like h = elim (or_next-cases p r a b d h) [
    | inl here ↦ absurd (ground (arith, unlike d here))
    | inr later ↦ later
  ]

  before_last :
      (f : RoutingDecision J → Bool) (a : Option (RoutingDecision J)) (b d : RoutingDecision J)
      → (b ≡ d → f d ≡ false)
      → f d ≡ true
      → or_last p r a b ≡ d
      → a ≡ some d
  before_last f a b d unlike like h = elim (or_last-cases p r a b d h) [
    | inl here ↦ here
    | inr last ↦ absurd (ground (arith, unlike last))
  ]

  module _ (message : String) (c : RouterContext J) (now later : ℕ) where
    abbrev input : String
    input = p.matching.to_lowercase (p.trim message)

    abbrev after_static : Option (RoutingDecision J)
    after_static = or_next p r (by_remember p r message) (by_focus p r now later c)

    abbrev after_prefix : Option (RoutingDecision J)
    after_prefix = or_next p r (by_static_rule p r input (active_tool c)) after_static

    -- A decision of neither the directives, nor a command, nor the semantic filter.
    text-after_prefix :
        (f : RoutingDecision J → Bool) (candidates : Option (List String)) (d : RoutingDecision J)
        → ((e : RoutingDecision J) → (is_static e ≡ false) × (is_guided e ≡ false) → f e ≡ false)
        → f d ≡ true
        → route_text p r message c now later candidates ≡ d
        → after_prefix ≡ some d
    unfolding route_text
    text-after_prefix f candidates d unlike like h =
        past f (by_prefix p r message) after_prefix d (λ e g. unlike e (prefix_is p r message e g))
          like
          (past f (by_directive p r input now c) (or_next p r (by_prefix p r message) after_prefix)
            d (λ e g. unlike e (directive_is p r input now c e g)) like
            (before_last f
              (or_next p r (by_directive p r input now c)
                (or_next p r (by_prefix p r message) after_prefix))
              (by_semantic p r candidates) d (λ g. unlike d (semantic_is p r candidates d g)) like
              h))

    text-static :
        (candidates : Option (List String)) (d : RoutingDecision J)
        → is_static d ≡ true
        → route_text p r message c now later candidates ≡ d
        → IsRule p r input (active_tool c) d
    text-static candidates d like h =
        elim (or_next-cases p r (by_static_rule p r input (active_tool c)) after_static d
          (text-after_prefix is_static candidates d (λ e g. g.0) like h)) [
            | inl here ↦ static-IsRule p r input (active_tool c) d here
            | inr rest ↦
                let focus =
                  past is_static (by_remember p r message) (by_focus p r now later c) d
                    (λ e g. (remember_is p r message e g).0) like rest in
                absurd (ground (arith, focus_is p r now later c d focus))
          ]

    static_is :
        (d : RoutingDecision J)
        → by_static_rule p r input (active_tool c) ≡ some d
        → is_guided d ≡ false
    static_is d h =
        let (i, rule, there, hit, same) = static-IsRule p r input (active_tool c) d h in
        ap is_guided same

    text-guided :
        (candidates : Option (List String)) (d : RoutingDecision J)
        → is_guided d ≡ true
        → route_text p r message c now later candidates ≡ d
        → by_focus p r now later c ≡ some d
    text-guided candidates d like h =
        past is_guided (by_remember p r message) (by_focus p r now later c) d
          (λ e g. (remember_is p r message e g).1) like
          (past is_guided (by_static_rule p r input (active_tool c)) after_static d static_is like
            (text-after_prefix is_guided candidates d (λ e g. g.1) like h))

    -- A decision that the explicit action does not give, for a message that is not empty.
    routed-text :
        (f : RoutingDecision J → Bool) (action : Option (ActionDispatch J))
        (candidates : Option (List String)) (d : RoutingDecision J)
        → ((e : RoutingDecision J) → (is_static e ≡ false) × (is_guided e ≡ false) → f e ≡ false)
        → f full_llm ≡ false
        → f d ≡ true
        → route_with_semantic p r message c action now later candidates ≡ d
        → route_text p r message c now later candidates ≡ d
    unfolding route_with_semantic
    routed-text f action candidates d unlike full like h =
        elim (or_last-cases p r (by_action p r action) _ d h) [
          | inl here ↦ absurd (ground (arith, unlike d (action_is p r action d here)))
          | inr rest ↦ elim (Bool-cases (str_eq message "")) [
            | inl empty ↦
                let none_left : full_llm ≡ d = rw empty at rest in
                absurd (ground (arith, ap f none_left))
            | inr filled ↦ rw filled at rest
          ]
        ]

    -- A decision for a static rule is always that of a rule of the router that matches the lower-cased
    -- message under the context's active tool, and dispatches that rule's tool and parameters.
    pub static_rule_sound :
        (action : Option (ActionDispatch J)) (candidates : Option (List String)) (tool : String)
        (params : J) (idx : Option ℕ)
        → route_with_semantic p r message c action now later candidates
          ≡ direct_dispatch tool params static_rule idx
        → (i : ℕ) × (rule : StaticRule J) × (get_elem? r.static_rules i ≡ some rule)
          × (rule_matches p.matching rule input (active_tool c) ≡ true)
          × (direct_dispatch tool params static_rule idx
              ≡ direct_dispatch rule.tool rule.params static_rule none)
    static_rule_sound action candidates tool params idx h =
        let d : RoutingDecision J = direct_dispatch tool params static_rule idx in
        text-static candidates d refl
          (routed-text is_static action candidates d (λ e g. g.0) refl refl h)

    focus_guided :
        (policy : RoutingPolicy)
        → by_focus p r now later c ≡ some (guided_llm policy)
        → (tool : String) × (router_state now c ≡ focused tool)
          × (policy.allowed_tools ≡ tool ∷ [])
          × (policy.blocked_tools ≡ [])
    unfolding by_focus allowed_of blocked_of
    focus_guided policy h = elim (RouterState-cases (router_state now c)) [
      | inl e ↦ absurd (ground arith)
      | inr (tool, e) ↦
          let same = rw (e, by_focus) at h in
          (tool, e, sym (ap allowed_of same), sym (ap blocked_of same))
    ]

    -- A guided turn happens only while the context is focused on a tool, and allows that tool alone.
    pub guided_sound :
        (action : Option (ActionDispatch J)) (candidates : Option (List String))
        (policy : RoutingPolicy)
        → route_with_semantic p r message c action now later candidates ≡ guided_llm policy
        → (tool : String) × (router_state now c ≡ focused tool)
          × (policy.allowed_tools ≡ tool ∷ [])
          × (policy.blocked_tools ≡ [])
    guided_sound action candidates policy h = focus_guided policy (
        text-guided candidates (guided_llm policy) refl
          (routed-text is_guided action candidates (guided_llm policy) (λ e g. g.1) refl refl h))
