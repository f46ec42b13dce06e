-- ===== src/Router/Route/Priority.antt =====
-- Where each decision of the router comes from.
use text.Mathlib.Text.{◌==◌ as str_eq}
use oxicrab.Base.{
  ℕ, true, false, String, Option, none, some, List, ◌≡◌, inl, inr, refl, arith, get_elem?,
  Option-cases,
}
use oxicrab.Router.Triggers.{Matching, trigger_matches}
use oxicrab.Router.Context.{
  ActionDirective, RouterContext, is_expired, directives, match_directive_index, matches_at,
}
use oxicrab.Router.Context.Invariant.{IsValid}
use oxicrab.Router.Context.Pruned.{match_directive_index_sound}
use oxicrab.Router.Rules.{Platform}
use oxicrab.Router.Route.{
  action_directive, direct_dispatch, MessageRouter, by_action, by_directive, or_next, or_last,
  route_text, route_with_semantic,
}

module _ {ℓ} {J : Type ℓ} where
  matches_at_inside :
      (w : Matching) (text : String) (now i : ℕ) (ds : List (ActionDirective J))
      → matches_at w text now ds i ≡ true
      → (d : ActionDirective J) × (get_elem? ds i ≡ some d)
        × (is_expired now d ≡ false)
        × (trigger_matches w d.trigger text ≡ true)
  unfolding matches_at
  matches_at_inside w text now i ds h = elim (Option-cases (get_elem? ds i)) [
    | inl e ↦ absurd (ground arith)
    | inr (d, e) ↦ (d, e, ground arith, ground arith)
  ]

module _ {ℓ} {J : Type ℓ} (p : Platform J) (r : MessageRouter J) where
  abbrev text_of : String → String
  text_of message = p.matching.to_lowercase (p.trim message)

  directive_chosen :
      (text : String) (now i : ℕ) (c : RouterContext J) (d : ActionDirective J)
      → match_directive_index p.matching text now c ≡ some i
      → get_elem? (directives c) i ≡ some d
      → by_directive p r text now c
        ≡ some (direct_dispatch d.tool d.params action_directive (some i))
  unfolding by_directive
  directive_chosen text now i c d e f = rw (e, f, by_directive) refl

  -- Without an explicit action, a message that is not empty and that a valid context matches goes to
  -- the tool of a directive that is there, has not expired and whose trigger matches it, with its
  -- parameters and its index, whatever the rules say.
  pub directive_wins :
      (message : String) (c : RouterContext J) (now later i : ℕ) (candidates : Option (List String))
      → IsValid c
      → str_eq message "" ≡ false
      → match_directive_index p.matching (text_of message) now c ≡ some i
      → (d : ActionDirective J) × (get_elem? (directives c) i ≡ some d)
        × (is_expired now d ≡ false)
        × (trigger_matches p.matching d.trigger (text_of message) ≡ true)
        × (route_with_semantic p r message c none now later candidates
            ≡ direct_dispatch d.tool d.params action_directive (some i))
  unfolding route_with_semantic route_text by_action or_last or_next
  directive_wins message c now later i candidates v filled h =
      let (d, there, live, hit) =
        matches_at_inside p.matching (text_of message) now i (directives c)
          (match_directive_index_sound p.matching (text_of message) now i c v h) in
      (d, there, live, hit, rw (filled, directive_chosen (text_of message) now i c d h there) refl)
