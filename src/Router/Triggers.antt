-- ===== src/Router/Triggers.antt =====
-- crates/oxicrab-core/src/tools/base/routing_types.rs: triggers and static rules, and the index of
-- literals that the router (crates/oxicrab-router/src/lib.rs) and its context build from triggers.
-- Unicode lower-casing and the anchored match of the regex crate are the interface `Matching`.
pub mod Index
use Prim.Native.Char.{code}
use Prim.Native.String.{◌++◌ as ◌++ₛ◌}
use text.Mathlib.Text.{◌==◌ as str_eq}
use oxicrab.Base.{
  ℕ, ◌+◌, suc, Bool, true, false, not, ◌||◌, ◌&&◌, String, Option, none, some, ltb, List, [], ◌∷◌,
  ◌++◌, map, any, if◌then◌else◌,
}
use oxicrab.Base.Dict.{Dict, lookup, insert}

abbrev pub max_pattern_len : ℕ
max_pattern_len = 256

-- `is_match pattern text`: the pattern compiles and matches.
pub record Matching : Type 0 where
  pub to_lowercase : String → String
  pub is_match : String → String → Bool

pub data DirectiveTrigger : Type 0 where
  exact : String → DirectiveTrigger
  one_of : List String → DirectiveTrigger
  pattern : String → DirectiveTrigger

-- `str::len`, in bytes.
unfoldable pub byte_len : String → ℕ
byte_len String.[] = 0
byte_len (String.◌∷◌ c s) =
    let rest = byte_len s in
    if ltb (code c) 128
    then 1 + rest
    else if ltb (code c) 2048
    then 2 + rest
    else if ltb (code c) 65536
    then 3 + rest
    else 4 + rest

-- The map of literals to the index of the rule they belong to, and the indices of the patterns.
pub record LiteralIndex : Type 0 where
  pub literal_to_index : Dict ℕ
  pub pattern_indices : List ℕ

abbrev pub empty_index : LiteralIndex
empty_index = record { literal_to_index = []; pattern_indices = [] }

-- The first rule that has a literal keeps it.
unfoldable pub add_literal : String → ℕ → Dict ℕ → Dict ℕ
add_literal s idx d = elim (lookup s d) [ some first ↦ d | none ↦ insert s idx d ]

unfoldable pub add_literals : List String → ℕ → Dict ℕ → Dict ℕ
add_literals [] idx d = d
add_literals (s ∷ rest) idx d = add_literals rest idx (add_literal s idx d)

unfoldable pub add_trigger : ℕ → DirectiveTrigger → LiteralIndex → LiteralIndex
add_trigger idx (exact s) m = record m { literal_to_index = add_literal s idx m.literal_to_index }
add_trigger idx (one_of options) m = record m {
  literal_to_index = add_literals options idx m.literal_to_index;
}
add_trigger idx (pattern p) m = record m { pattern_indices = m.pattern_indices ++ (idx ∷ []) }

-- The loop over the enumerated triggers.
unfoldable pub compile_from : ℕ → List DirectiveTrigger → LiteralIndex → LiteralIndex
compile_from idx [] m = m
compile_from idx (t ∷ ts) m = compile_from (suc idx) ts (add_trigger idx t m)

module _ (w : Matching) where
  unfoldable pub normalized : DirectiveTrigger → DirectiveTrigger
  normalized (exact s) = exact (w.to_lowercase s)
  normalized (one_of options) = one_of (map w.to_lowercase options)
  normalized (pattern p) = pattern p

  unfoldable pub trigger_matches : DirectiveTrigger → String → Bool
  trigger_matches (exact s) text = str_eq text s
  trigger_matches (one_of options) text = any (λ o. str_eq o text) options
  trigger_matches (pattern p) text =
      if ltb max_pattern_len (byte_len p) then false else w.is_match ("^(?:" ++ₛ (p ++ₛ ")$")) text

pub record StaticRule {ℓ} (J : Type ℓ) : Type ℓ where
  pub tool : String
  pub trigger : DirectiveTrigger
  pub params : J
  pub requires_context : Bool

-- `active_tool != Some(tool)`.
unfoldable pub is_active : Option String → String → Bool
is_active none tool = false
is_active (some t) tool = str_eq t tool

unfoldable pub rule_matches {ℓ} :
    {J : Type ℓ} → Matching → StaticRule J → String → Option String → Bool
rule_matches w rule text active_tool =
    if rule.requires_context && not (is_active active_tool rule.tool)
    then false
    else trigger_matches w rule.trigger text
