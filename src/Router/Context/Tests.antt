-- ===== src/Router/Context/Tests.antt =====
-- Contexts of the router, run.
use oxicrab.Base.{ℕ, true, false, none, some, [], ◌∷◌, ◌≡◌, refl}
use oxicrab.Base.Dict.{insert, lookup}
use oxicrab.Router.Triggers.{
  normalized, add_trigger, add_literal, add_literals, Matching, exact, one_of, compile_from,
  empty_index,
}
use oxicrab.Router.Triggers.Index.{compile_lem, first_literal, pattern_positions}
use oxicrab.Router.Context.{
  prune_in, is_live_at, is_empty, is_expired, set_idle, keep_directives, match_in, match_state,
  first_pattern, directives_of, normalize_all, install_in, install_directives, focus_in,
  set_active_tool, rebuild_matcher, ActionDirective, RouterContext, StoredContext, compile,
  from_stored, legacy, prune_expired, match_directive_index, expiry,
}
use oxicrab.Router.Context.Invariant.{apply_calls, IsValid, session-IsValid}
use oxicrab.Base.Signed.{i64_add, i64_le, i64_max, bias, i64_max_of, i64_lt}

abbrev plain : Matching
plain = record { to_lowercase = λ s. s; is_match = λ p s. false }

abbrev next_page : ActionDirective ℕ
next_page = record {
  trigger = one_of ("next" ∷ "more" ∷ []);
  tool = "rss";
  params = 1;
  single_use = false;
  ttl_ms = 100;
  created_at_ms = 50;
}

abbrev done_reading : ActionDirective ℕ
done_reading = record {
  trigger = exact "done";
  tool = "rss";
  params = 2;
  single_use = true;
  ttl_ms = 10;
  created_at_ms = 50;
}

abbrev stored : StoredContext ℕ
stored = legacy (some "rss") (done_reading ∷ next_page ∷ []) 7

abbrev reading : RouterContext ℕ
reading = apply_calls plain [] (from_stored plain stored)

reading-IsValid : IsValid reading
reading-IsValid = session-IsValid plain stored [] (λ state updated e. absurd (cc e))

found : match_directive_index plain "more" 100 reading ≡ some 1
unfolding apply_calls from_stored rebuild_matcher set_active_tool focus_in install_directives
    install_in normalize_all normalized directives_of expiry i64_max_of i64_max i64_lt i64_le
    i64_add bias compile compile_from add_trigger add_literals add_literal insert lookup
    match_directive_index match_state match_in is_live_at is_expired first_pattern prune_expired
    prune_in is_empty keep_directives set_idle
found = refl

gone : match_directive_index plain "done" 100 (prune_expired 100 reading) ≡ none
unfolding apply_calls from_stored rebuild_matcher set_active_tool focus_in install_directives
    install_in normalize_all normalized directives_of expiry i64_max_of i64_max i64_lt i64_le
    i64_add bias compile compile_from add_trigger add_literals add_literal insert lookup
    match_directive_index match_state match_in is_live_at is_expired first_pattern prune_expired
    prune_in is_empty keep_directives set_idle
gone = refl

compile_lem_example :
    (lookup "more"
        (compile_from 0
          (exact "done" ∷ one_of ("next" ∷ "more" ∷ []) ∷ [])
          empty_index).literal_to_index
      ≡ first_literal "more" 0 (exact "done" ∷ one_of ("next" ∷ "more" ∷ []) ∷ []))
    × ((compile_from 0
          (exact "done" ∷ one_of ("next" ∷ "more" ∷ []) ∷ [])
          empty_index).pattern_indices
        ≡ pattern_positions 0 (exact "done" ∷ one_of ("next" ∷ "more" ∷ []) ∷ []))
compile_lem_example = compile_lem (exact "done" ∷ one_of ("next" ∷ "more" ∷ []) ∷ []) "more"
