-- ===== src/Agent/Truncation/Bounds.antt =====
-- A truncated result is within its limit.
use oxicrab.Base.{
  ℕ, zero, suc, ◌+◌, ◌-◌, ◌*◌, ◌/◌, ◌%◌, ◌≤◌, ◌<◌, String, some, leb, ltb, [], ◌∷◌, ◌++◌, ◌≡◌,
  arith, take, length, length-append, length-take, Bool-cases, Option-cases, inl, inr,
}
use oxicrab.Base.Text.{Text, codes}
use oxicrab.Base.Utf8.{floor_char_boundary, floor_char_boundary-le}
use oxicrab.Agent.Truncation.{
  Patterns, decimal_digits, shown, plain_note, json_note, cut_plain, cut_json, cut_long,
  looks_like_json, truncate_clean, truncate_tool_result, strip_binary_blobs,
}

abbrev ending : String
ending = " chars. Do NOT re-run this tool to see more.]"

abbrev power_of_ten : ℕ → ℕ
power_of_ten zero = 1
power_of_ten (suc k) = 10 * power_of_ten k

length-decimal_digits :
    (fuel k n : ℕ) → n < power_of_ten (suc k) → length (decimal_digits fuel n) ≤ suc k
unfolding decimal_digits
length-decimal_digits zero k n h = ground arith
length-decimal_digits (suc fuel) zero n h = ground arith
length-decimal_digits (suc fuel) (suc k) n h = elim (Bool-cases (ltb n 10)) [
  | inl e ↦ rw e (ground arith)
  | inr e ↦ rw e (
      omega (
        arith,
        length-append (decimal_digits fuel (n / 10)) ((48 + n % 10) ∷ []),
        length-decimal_digits fuel k (n / 10) (omega (arith, h)),
      ))
]

-- Numbers below 10 ^ 12 take at most 12 digits.
length-plain_note :
    (showed total : ℕ)
    → showed < 1000000000000
    → total < 1000000000000
    → length (plain_note showed total) ≤ 100
unfolding plain_note
length-plain_note showed total h k = omega (
  arith,
  length-append (shown showed) (codes " of " ++ (shown total ++ codes ending)),
  length-append (shown total) (codes ending),
  length-decimal_digits 20 11 showed h,
  length-decimal_digits 20 11 total k,
)

length-json_note :
    (showed total : ℕ)
    → showed < 1000000000000
    → total < 1000000000000
    → length (json_note showed total) ≤ 120
unfolding json_note
length-json_note showed total h k = omega (
  arith,
  length-append (shown showed) (codes " of " ++ (shown total ++ codes ending)),
  length-append (shown total) (codes ending),
  length-decimal_digits 20 11 showed h,
  length-decimal_digits 20 11 total k,
)

-- A text cut at a boundary below its budget.
length-cut :
    (t note : Text) (most room : ℕ)
    → room ≤ most
    → length note ≤ room
    → length (take (floor_char_boundary t (most - room)) t ++ note) ≤ most
length-cut t note most room h k = omega (
  arith,
  length-append (take (floor_char_boundary t (most - room)) t) note,
  length-take (floor_char_boundary t (most - room)) t,
  floor_char_boundary-le t (most - room),
)

length-cut_plain :
    (clean : Text) (max_chars : ℕ)
    → 100 ≤ max_chars
    → max_chars < 1000000000000
    → length clean < 1000000000000
    → length (cut_plain clean max_chars) ≤ max_chars
unfolding cut_plain
length-cut_plain clean max_chars h l k =
    let safe = floor_char_boundary clean (max_chars - 100) in
    length-cut clean (plain_note safe (length clean)) max_chars 100 h (
      length-plain_note safe (length clean)
        (omega (arith, floor_char_boundary-le clean (max_chars - 100))) k)

length-cut_json :
    (pretty : Text) (max_chars : ℕ)
    → 120 ≤ max_chars
    → max_chars < 1000000000000
    → length pretty < 1000000000000
    → length (cut_json pretty max_chars) ≤ max_chars
unfolding cut_json
length-cut_json pretty max_chars h l k =
    let safe = floor_char_boundary pretty (max_chars - 120) in
    elim (Bool-cases (leb (length pretty) max_chars)) [
      | inl e ↦ rw e (ground arith)
      | inr e ↦ rw e (
          length-cut pretty (json_note safe (length pretty)) max_chars 120 h (
            length-json_note safe (length pretty)
              (omega (arith, floor_char_boundary-le pretty (max_chars - 120))) k))
    ]

-- The printer's texts are below 10 ^ 12 bytes.
abbrev pub IsShort : Patterns → Text → Type 0
IsShort p clean =
    (pretty : Text) → p.pretty_json clean ≡ some pretty → length pretty < 1000000000000

length-cut_long :
    (p : Patterns) (clean : Text) (max_chars : ℕ)
    → 120 ≤ max_chars
    → max_chars < 1000000000000
    → length clean < 1000000000000
    → IsShort p clean
    → length (cut_long p clean max_chars) ≤ max_chars
unfolding cut_long
length-cut_long p clean max_chars h l k short =
    let plain = length-cut_plain clean max_chars (omega arith) l k in
    elim (Bool-cases (looks_like_json (p.trim_start clean))) [
      | inr e ↦ rw e plain
      | inl e ↦ elim (Option-cases (p.pretty_json clean)) [
        | inl f ↦ rw (e, f) plain
        | inr (pretty, f) ↦ rw (e, f) (length-cut_json pretty max_chars h l (short pretty f))
      ]
    ]

length-truncate_clean :
    (p : Patterns) (clean : Text) (max_chars : ℕ)
    → max_chars < 1000000000000
    → length clean < 1000000000000
    → IsShort p clean
    → length (truncate_clean p clean max_chars) ≤ max_chars
unfolding truncate_clean
length-truncate_clean p clean max_chars l k short =
    elim (Bool-cases (leb (length clean) max_chars)) [
      | inl e ↦ rw e (ground arith)
      | inr e ↦ elim (Bool-cases (ltb max_chars 120)) [
        | inl f ↦
            rw (e, f)
              (omega (
                arith,
                length-take (floor_char_boundary clean max_chars) clean,
                floor_char_boundary-le clean max_chars,
              ))
        | inr f ↦ rw (e, f) (length-cut_long p clean max_chars (ground arith) l k short)
      ]
    ]

-- A tool result that is truncated is at most `max_chars` bytes, on every path, notes included, if the
-- limit, the cleaned text and its JSON printed with indents are below 10 ^ 12 bytes, so that the two
-- numbers of a note fit the room that is kept for it.
pub length-truncate_tool_result :
    (p : Patterns) (result : Text) (max_chars : ℕ)
    → max_chars < 1000000000000
    → length (strip_binary_blobs p (p.ansi_escape (λ t. []) result)) < 1000000000000
    → IsShort p (strip_binary_blobs p (p.ansi_escape (λ t. []) result))
    → length (truncate_tool_result p result max_chars) ≤ max_chars
unfolding truncate_tool_result
length-truncate_tool_result p result max_chars l k short =
    length-truncate_clean p (strip_binary_blobs p (p.ansi_escape (λ t. []) result)) max_chars l k
      short
