-- ===== src/Router/Route/Tests.antt =====
-- The router's decisions, run.
use oxicrab.Base.{ℕ, true, false, String, none, some, [], ◌∷◌, ◌≡◌, refl, get_elem?}
use oxicrab.Base.Dict.{insert, lookup}
use oxicrab.Base.Signed.{bias, i64_add, i64_le, i64_lt, i64_max_of, i64_max}
use oxicrab.Router.Triggers.{
  normalized, compile_from, is_active, add_literal, add_literals, add_trigger, Matching, exact,
  one_of, StaticRule, rule_matches, trigger_matches,
}
use oxicrab.Router.Context.{
  state_of, tool_of, first_pattern, is_live_at, match_in, match_state, match_directive_index,
  compile, expiry, directives_of, normalize_all, install_in, install_directives, focus_in,
  set_active_tool, rebuild_matcher, ActionDirective, RouterContext, from_stored, legacy, directives,
  active_tool, is_expired,
}
use oxicrab.Router.Context.Invariant.{IsValid, apply_calls, session-IsValid}
use oxicrab.Router.Rules.{join, has_prefix, strip_prefix, Platform}
use oxicrab.Router.Route.{
  by_focus, or_last, by_semantic, keywords, dispatch_source, build_context_hint, or_next,
  by_remember, by_patterns, rule_at, by_static_rule, by_prefix, by_directive, by_action, route_text,
  add_config_rules, normalize_rules, MessageRouter, RoutingPolicy, direct_dispatch, guided_llm,
  action_directive, static_rule, route_with_semantic, with_remember_checker,
}
use oxicrab.Router.Route.Priority.{directive_wins}
use oxicrab.Router.Route.Sources.{static_rule_sound}

abbrev plain : Matching
plain = record { to_lowercase = λ s. s; is_match = λ p s. false }

abbrev words : Platform String
words = record {
  matching = plain;
  trim = λ s. s;
  split_whitespace = λ s. s ∷ [];
  to_json = some;
  from_json = some;
  remove_placeholders = λ s. s;
  replay_params = λ o. "replay";
  content_params = λ s. s;
}

abbrev next_page : ActionDirective String
next_page = record {
  trigger = one_of ("next" ∷ "more" ∷ []);
  tool = "rss";
  params = "next";
  single_use = false;
  ttl_ms = 100;
  created_at_ms = 50;
}

abbrev skip_page : StaticRule String
skip_page = record {
  tool = "rss";
  trigger = exact "skip";
  params = "skip";
  requires_context = true;
}

abbrev router : MessageRouter String
router = with_remember_checker plain (skip_page ∷ []) [] "!" none

abbrev reading : RouterContext String
reading = apply_calls plain [] (from_stored plain (legacy (some "rss") (next_page ∷ []) 7))

reading-IsValid : IsValid reading
reading-IsValid =
    session-IsValid plain (legacy (some "rss") (next_page ∷ []) 7) []
      (λ state updated e. absurd (cc e))

abbrev guidance : RoutingPolicy
guidance = record {
  allowed_tools = "rss" ∷ [];
  blocked_tools = [];
  context_hint = some "Active tool: rss. Available commands: next|more";
  reason = "active_tool_with_live_directives";
}

found : match_directive_index plain "more" 60 reading ≡ some 0
unfolding apply_calls from_stored rebuild_matcher set_active_tool focus_in install_directives
    install_in normalize_all normalized directives_of expiry i64_max_of i64_max i64_lt i64_le
    i64_add bias compile compile_from add_trigger add_literals add_literal insert lookup
    match_directive_index match_state match_in is_live_at is_expired first_pattern
found = refl

skipped :
    route_with_semantic words router "skip" reading none 60 60 none
    ≡ direct_dispatch "rss" "skip" static_rule none
unfolding apply_calls from_stored rebuild_matcher set_active_tool focus_in install_directives
    install_in normalize_all normalized directives_of expiry i64_max_of i64_max i64_lt i64_le
    i64_add bias compile compile_from add_trigger add_literals add_literal insert lookup
    match_directive_index match_state match_in is_live_at is_expired first_pattern
    with_remember_checker normalize_rules add_config_rules tool_of state_of route_with_semantic
    route_text by_action by_directive by_prefix has_prefix strip_prefix by_static_rule rule_at
    rule_matches is_active trigger_matches by_patterns by_remember by_focus by_semantic or_next
    or_last build_context_hint keywords join dispatch_source
skipped = refl

guided : route_with_semantic words router "what" reading none 60 60 none ≡ guided_llm guidance
unfolding apply_calls from_stored rebuild_matcher set_active_tool focus_in install_directives
    install_in normalize_all normalized directives_of expiry i64_max_of i64_max i64_lt i64_le
    i64_add bias compile compile_from add_trigger add_literals add_literal insert lookup
    match_directive_index match_state match_in is_live_at is_expired first_pattern
    with_remember_checker normalize_rules add_config_rules tool_of state_of route_with_semantic
    route_text by_action by_directive by_prefix has_prefix strip_prefix by_static_rule rule_at
    rule_matches is_active trigger_matches by_patterns by_remember by_focus by_semantic or_next
    or_last build_context_hint keywords join dispatch_source
guided = refl

directive_wins_example :
    (d : ActionDirective String) × (get_elem? (directives reading) 0 ≡ some d)
    × (is_expired 60 d ≡ false)
    × (trigger_matches plain d.trigger "more" ≡ true)
    × (route_with_semantic words router "more" reading none 60 60 none
        ≡ direct_dispatch d.tool d.params action_directive (some 0))
directive_wins_example =
    directive_wins words router "more" reading 60 60 0 none reading-IsValid refl found

static_rule_sound_example :
    (i : ℕ) × (rule : StaticRule String) × (get_elem? router.static_rules i ≡ some rule)
    × (rule_matches plain rule "skip" (active_tool reading) ≡ true)
    × (direct_dispatch "rss" "skip" static_rule none
        ≡ direct_dispatch rule.tool rule.params static_rule none)
static_rule_sound_example =
    static_rule_sound words router "skip" reading 60 60 none none "rss" "skip" none skipped
