-- ===== src/Router/Triggers/Index.antt =====
-- The literal index against a scan of the triggers.
use text.Mathlib.Text.{◌==◌ as str_eq}
use text.Mathlib.TextEquality.{eq_iff}
use oxicrab.Base.{
  ℕ, ◌+◌, suc, zero, Bool, true, false, String, Option, none, some, List, [], ◌∷◌, ◌++◌, any,
  if◌then◌else◌, ◌≡◌, refl, sym, ◌∙◌, arith, get_elem?, Bool-cases, Option-cases, inl, inr,
}
use mathlib.Core.List.{append_assoc, append-nil}
use oxicrab.Base.Dict.{Dict, lookup, lookup-insert}
use oxicrab.Router.Triggers.{
  DirectiveTrigger, exact, one_of, pattern, LiteralIndex, empty_index, add_literal, add_literals,
  add_trigger, compile_from,
}

-- The trigger lists the literal.
unfoldable pub has_literal : String → DirectiveTrigger → Bool
has_literal s (exact l) = str_eq s l
has_literal s (one_of options) = any (λ o. str_eq o s) options
has_literal s (pattern p) = false

-- The first trigger that lists the literal, counted from `idx`.
unfoldable pub first_literal : String → ℕ → List DirectiveTrigger → Option ℕ
first_literal s idx [] = none
first_literal s idx (t ∷ ts) =
    let later = first_literal s (suc idx) ts in if has_literal s t then some idx else later

unfoldable pub pattern_positions : ℕ → List DirectiveTrigger → List ℕ
pattern_positions idx [] = []
pattern_positions idx (exact l ∷ ts) = pattern_positions (suc idx) ts
pattern_positions idx (one_of options ∷ ts) = pattern_positions (suc idx) ts
pattern_positions idx (pattern p ∷ ts) = idx ∷ pattern_positions (suc idx) ts

unfoldable pub or_else : Option ℕ → Option ℕ → Option ℕ
or_else (some i) o = some i
or_else none o = o

lookup-add_literal :
    (s l : String) (idx : ℕ) (d : Dict ℕ)
    → lookup s (add_literal l idx d) ≡ or_else (lookup s d) (if str_eq l s then some idx else none)
unfolding add_literal or_else
lookup-add_literal s l idx d = ground (arith, lookup-insert l s idx d, eq_iff l s)

lookup-add_literals :
    (s : String) (ls : List String) (idx : ℕ) (d : Dict ℕ)
    → lookup s (add_literals ls idx d)
      ≡ or_else (lookup s d) (if any (λ o. str_eq o s) ls then some idx else none)
unfolding add_literals or_else
lookup-add_literals s [] idx d = ground arith
lookup-add_literals s (l ∷ ls) idx d =
    ground (arith, lookup-add_literals s ls idx (add_literal l idx d), lookup-add_literal s l idx d)

lookup-add_trigger :
    (s : String) (idx : ℕ) (t : DirectiveTrigger) (m : LiteralIndex)
    → lookup s (add_trigger idx t m).literal_to_index
      ≡ or_else (lookup s m.literal_to_index) (if has_literal s t then some idx else none)
unfolding add_trigger has_literal or_else
lookup-add_trigger s idx (exact l) m =
    ground (arith, lookup-add_literal s l idx m.literal_to_index, eq_iff s l, eq_iff l s)
lookup-add_trigger s idx (one_of ls) m = lookup-add_literals s ls idx m.literal_to_index
lookup-add_trigger s idx (pattern p) m = elim (Option-cases (lookup s m.literal_to_index)) [
  | inl e ↦ rw e refl
  | inr (i, e) ↦ rw e refl
]

lookup-compile_from :
    (s : String) (idx : ℕ) (ts : List DirectiveTrigger) (m : LiteralIndex)
    → lookup s (compile_from idx ts m).literal_to_index
      ≡ or_else (lookup s m.literal_to_index) (first_literal s idx ts)
unfolding compile_from first_literal or_else
lookup-compile_from s idx [] m = ground arith
lookup-compile_from s idx (t ∷ ts) m =
    ground (
      arith,
      lookup-compile_from s (suc idx) ts (add_trigger idx t m),
      lookup-add_trigger s idx t m,
    )

compile_from_patterns :
    (idx : ℕ) (ts : List DirectiveTrigger) (m : LiteralIndex)
    → (compile_from idx ts m).pattern_indices ≡ m.pattern_indices ++ pattern_positions idx ts
unfolding compile_from pattern_positions add_trigger
compile_from_patterns idx [] m = sym (append-nil m.pattern_indices)
compile_from_patterns idx (exact l ∷ ts) m =
    compile_from_patterns (suc idx) ts (add_trigger idx (exact l) m)
compile_from_patterns idx (one_of ls ∷ ts) m =
    compile_from_patterns (suc idx) ts (add_trigger idx (one_of ls) m)
compile_from_patterns idx (pattern p ∷ ts) m =
    compile_from_patterns (suc idx) ts (add_trigger idx (pattern p) m)
    ∙ append_assoc m.pattern_indices (idx ∷ []) (pattern_positions (suc idx) ts)

-- The index of a list of triggers gives to each literal the first trigger that lists it, whether
-- alone or among alternatives, no index to any other text, and the positions of the patterns in
-- their order.
pub compile_lem :
    (ts : List DirectiveTrigger) (s : String)
    → (lookup s (compile_from 0 ts empty_index).literal_to_index ≡ first_literal s 0 ts)
      × ((compile_from 0 ts empty_index).pattern_indices ≡ pattern_positions 0 ts)
unfolding lookup or_else
compile_lem ts s = (lookup-compile_from s 0 ts empty_index, compile_from_patterns 0 ts empty_index)

-- Where a literal is found, the trigger lists it.
pub first_literal_found :
    (s : String) (idx j : ℕ) (ts : List DirectiveTrigger)
    → first_literal s idx ts ≡ some j
    → (k : ℕ) × (t : DirectiveTrigger) × (j ≡ idx + k)
      × (get_elem? ts k ≡ some t)
      × (has_literal s t ≡ true)
unfolding first_literal
first_literal_found s idx j [] h = absurd (ground arith)
first_literal_found s idx j (t ∷ ts) h = elim (Bool-cases (has_literal s t)) [
  | inl here ↦
      let found : some idx ≡ some j = rw here at h in
      let value : idx ≡ j = cc found in (zero, t, omega arith, refl, here)
  | inr other ↦
      let (k, u, at, got, listed) = first_literal_found s (suc idx) j ts (rw other at h) in
      (suc k, u, omega arith, got, listed)
]

pub first_literal-none :
    (s : String) (idx k : ℕ) (t : DirectiveTrigger) (ts : List DirectiveTrigger)
    → first_literal s idx ts ≡ none
    → get_elem? ts k ≡ some t
    → has_literal s t ≡ false
unfolding first_literal
first_literal-none s idx k t [] h got = absurd (ground arith)
first_literal-none s idx zero t (u ∷ ts) h got = ground arith
first_literal-none s idx (suc k) t (u ∷ ts) h got = elim (Bool-cases (has_literal s u)) [
  | inl here ↦ absurd (ground arith)
  | inr other ↦ first_literal-none s (suc idx) k t ts (rw other at h) got
]
