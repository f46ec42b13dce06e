-- ===== src/Router/Rules.antt =====
-- crates/oxicrab-router/src/rules.rs: prefix commands and the substitution of their arguments.
-- Of Rust's strings, white space and JSON text (serde_json, regex) are the interface `Platform`.
use Prim.Native.Char.{Char, code}
use Prim.Native.String.{◌++◌ as ◌++ₛ◌}
use mathlib.Core.Option
use oxicrab.Base.{
  get_elem?, ℕ, suc, zero, ◌+◌, ◌-◌, ◌/◌, ◌%◌, Bool, true, false, String, Option, none, some, ltb,
  ◌==◌, List, [], ◌∷◌, if◌then◌else◌,
}
use oxicrab.Base.Chars.{is_control}
use oxicrab.Router.Triggers.{Matching}

-- What the router takes from Unicode and from the JSON and regex libraries: `trim`,
-- `split_whitespace`, JSON text and back, the removal of `$` followed by digits, and the two objects
-- that it builds.
pub record Platform {ℓ} (J : Type ℓ) : Type ℓ where
  pub matching : Matching
  pub trim : String → String
  pub split_whitespace : String → List String
  pub to_json : J → Option String
  pub from_json : String → Option J
  pub remove_placeholders : String → String
  pub replay_params : Option String → J
  pub content_params : String → J

pub record ConfigRule {ℓ} (J : Type ℓ) : Type ℓ where
  pub trigger : String
  pub tool : String
  pub params : J

-- `str::strip_prefix`.
unfoldable pub strip_prefix : String → String → Option String
strip_prefix s String.[] = some s
strip_prefix String.[] (String.◌∷◌ p ps) = none
strip_prefix (String.◌∷◌ c s) (String.◌∷◌ p ps) =
    let rest = strip_prefix s ps in if code c == code p then rest else none

unfoldable pub has_prefix : String → String → Bool
has_prefix s p = elim (strip_prefix s p) [ some rest ↦ true | none ↦ false ]

unfoldable pub char_count : String → ℕ
char_count String.[] = 0
char_count (String.◌∷◌ c s) = suc (char_count s)

-- `str::replace` of a text that is not empty; `skip` characters belong to the last occurrence.
unfoldable pub replace_from : String → String → ℕ → String → String
replace_from old new skip String.[] = ""
replace_from old new (suc skip) (String.◌∷◌ c s) = replace_from old new skip s
replace_from old new zero (String.◌∷◌ c s) =
    let plain = String.◌∷◌ c (replace_from old new 0 s) in
    let cut = new ++ₛ replace_from old new (char_count old - 1) s in
    if has_prefix (String.◌∷◌ c s) old then cut else plain

abbrev pub digits : List String
digits =
    "0" ∷ "1" ∷ "2" ∷ "3" ∷ "4" ∷ "5" ∷ "6" ∷ "7" ∷ "8" ∷ "9" ∷ "a" ∷ "b" ∷ "c" ∷ "d" ∷ "e" ∷ []

unfoldable pub digit : ℕ → String
digit n = Option.get_or (get_elem? digits n) "f"

-- The decimal text of a number, on fuel for its digits.
unfoldable pub decimal : ℕ → ℕ → String
decimal zero n = digit (n % 10)
decimal (suc fuel) n =
    let front = decimal fuel (n / 10) in if ltb n 10 then digit n else front ++ₛ digit (n % 10)

unfoldable pub escape_char : Char → String
escape_char c =
    if code c == 92
    then "\\\\"
    else if code c == 34
    then "\\\""
    else if code c == 36
    then "\\u0024"
    else if code c == 10
    then "\\n"
    else if code c == 13
    then "\\r"
    else if code c == 9
    then "\\t"
    else if is_control c
    then "\\u00" ++ₛ (digit (code c / 16) ++ₛ digit (code c % 16))
    else String.◌∷◌ c ""

unfoldable pub json_escape : String → String
json_escape String.[] = ""
json_escape (String.◌∷◌ c s) = escape_char c ++ₛ json_escape s

-- `args.join(" ")`, and the other separators.
unfoldable pub join : String → List String → String
join sep [] = ""
join sep (s ∷ []) = s
join sep (s ∷ t ∷ rest) = s ++ₛ (sep ++ₛ join sep (t ∷ rest))

-- The positional arguments, the last first: `i` is the index of the list's first.
unfoldable pub substitute_args : ℕ → List String → String → String
substitute_args i [] template = template
substitute_args i (arg ∷ rest) template =
    replace_from ("$" ++ₛ decimal 20 (i + 1)) (json_escape arg) 0
      (substitute_args (suc i) rest template)

module _ {ℓ} {J : Type ℓ} (p : Platform J) where
  unfoldable pub substitute : ConfigRule J → List String → J
  substitute rule args =
      let template = Option.get_or (p.to_json rule.params) "" in
      let positional = substitute_args 0 args template in
      let filled = replace_from "$*" (json_escape (join " " args)) 0 positional in
      Option.get_or (p.from_json (p.remove_placeholders filled)) rule.params

  command_of : List String → String × List String
  command_of [] = ("", [])
  command_of (command ∷ args) = (command, args)

  unfoldable pub parse_prefixed_command : String → String → String × List String
  unfolding command_of
  parse_prefixed_command message prefix = elim (strip_prefix (p.trim message) prefix) [
    | none ↦ ("", [])
    | some rest ↦ command_of (p.split_whitespace rest)
  ]
