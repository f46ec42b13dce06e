-- ===== src/Agent/Truncation.antt =====
-- src/agent/truncation/mod.rs: tool results cut to a limit. A text is its UTF-8 bytes; the regular
-- expressions and the JSON printer are an argument.
pub mod Bounds
mod Tests
use mathlib.Core.Option
use oxicrab.Base.{
  ℕ, zero, suc, ◌+◌, ◌-◌, ◌/◌, ◌%◌, ◌==◌, Bool, true, false, ◌&&◌, ◌||◌, Option, none, some, leb,
  ltb, List, [], ◌∷◌, ◌++◌, any, take, drop, length, if◌then◌else◌,
}
use oxicrab.Base.Text.{Text, codes, starts_with, find, is_ascii_digit}
use oxicrab.Base.Utf8.{floor_char_boundary}

-- The replacement of every match, by what is made of it; white space; and JSON printed with indents.
pub record Patterns : Type 0 where
  pub ansi_escape : (Text → Text) → Text → Text
  pub data_uri : (Text → Text) → Text → Text
  pub long_hex : (Text → Text) → Text → Text
  pub long_base64 : (Text → Text) → Text → Text
  pub trim_start : Text → Text
  pub pretty_json : Text → Option Text

-- The decimal digits of a number, on fuel for them.
unfoldable pub decimal_digits : ℕ → ℕ → Text
decimal_digits zero n = (48 + n % 10) ∷ []
decimal_digits (suc fuel) n =
    let front = decimal_digits fuel (n / 10) in
    if ltb n 10 then (48 + n) ∷ [] else front ++ ((48 + n % 10) ∷ [])

abbrev pub shown : ℕ → Text
shown n = decimal_digits 20 n

-- `split(';').next()`.
unfoldable pub before_semicolon : Text → Text
before_semicolon [] = []
before_semicolon (c ∷ cs) = let rest = before_semicolon cs in if c == 59 then [] else c ∷ rest

unfoldable pub mime_of : Text → Text
mime_of full =
    if starts_with full (codes "data:") then before_semicolon (drop 5 full) else codes "unknown"

unfoldable pub data_start : Text → ℕ
data_start full = Option.get_or (Option.map suc (find full (codes ","))) 0

unfoldable pub describe_data : Text → Text
describe_data full =
    (codes "[" ++ mime_of full)
    ++ ((codes " data, " ++ shown (length full - data_start full)) ++ codes " bytes]")

abbrev pub is_ascii_alphabetic : ℕ → Bool
is_ascii_alphabetic c = (leb 65 c && leb c 90) || (leb 97 c && leb c 122)

unfoldable pub describe_hex : Text → Text
describe_hex matched =
    if any (λ c. is_ascii_digit c) matched && any (λ c. is_ascii_alphabetic c) matched
    then (codes "[hex data, " ++ shown (length matched)) ++ codes " bytes]"
    else matched

unfoldable pub describe_base64 : Text → Text
describe_base64 matched =
    if any (λ c. (c == 43 || c == 47) || c == 61) matched
    then (codes "[base64 data, " ++ shown (length matched)) ++ codes " bytes]"
    else matched

unfoldable pub strip_binary_blobs : Patterns → Text → Text
strip_binary_blobs p t =
    p.long_base64 describe_base64 (p.long_hex describe_hex (p.data_uri describe_data t))

unfoldable pub plain_note : ℕ → ℕ → Text
plain_note showed total =
    (10 ∷ 10 ∷ codes "... [truncated - showed ")
    ++ (shown showed
        ++ (codes " of " ++ (shown total ++ codes " chars. Do NOT re-run this tool to see more.]")))

unfoldable pub json_note : ℕ → ℕ → Text
json_note showed total =
    (10 ∷ 10 ∷ codes "... [JSON truncated - showed ")
    ++ (shown showed
        ++ (codes " of " ++ (shown total ++ codes " chars. Do NOT re-run this tool to see more.]")))

unfoldable pub cut_plain : Text → ℕ → Text
cut_plain clean max_chars =
    let safe_budget = floor_char_boundary clean (max_chars - 100) in
    take safe_budget clean ++ plain_note safe_budget (length clean)

unfoldable pub cut_json : Text → ℕ → Text
cut_json pretty max_chars =
    let safe_budget = floor_char_boundary pretty (max_chars - 120) in
    if leb (length pretty) max_chars
    then pretty
    else take safe_budget pretty ++ json_note safe_budget (length pretty)

unfoldable pub looks_like_json : Text → Bool
looks_like_json stripped = starts_with stripped (codes "{") || starts_with stripped (codes "[")

unfoldable pub cut_long : Patterns → Text → ℕ → Text
cut_long p clean max_chars =
    if looks_like_json (p.trim_start clean)
    then elim (p.pretty_json clean) [
      | none ↦ cut_plain clean max_chars
      | some pretty ↦ cut_json pretty max_chars
    ]
    else cut_plain clean max_chars

unfoldable pub truncate_clean : Patterns → Text → ℕ → Text
truncate_clean p clean max_chars =
    if leb (length clean) max_chars
    then clean
    else if ltb max_chars 120
    then take (floor_char_boundary clean max_chars) clean
    else cut_long p clean max_chars

unfoldable pub truncate_tool_result : Patterns → Text → ℕ → Text
truncate_tool_result p result max_chars =
    truncate_clean p (strip_binary_blobs p (p.ansi_escape (λ t. []) result)) max_chars
