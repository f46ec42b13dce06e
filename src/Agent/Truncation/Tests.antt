-- ===== src/Agent/Truncation/Tests.antt =====
-- Runs of the truncation.
use oxicrab.Base.{◌≤◌, ◌<◌, ◌≡◌, refl, arith, none, length, replicate}
use oxicrab.Base.Text.{find, starts_with, Text, codes}
use oxicrab.Agent.Truncation.{
  data_start, decimal_digits, before_semicolon, mime_of, Patterns, truncate_tool_result,
  strip_binary_blobs, describe_data,
}
use oxicrab.Agent.Truncation.Bounds.{length-truncate_tool_result}

-- Texts in which no pattern is found, and no JSON.
abbrev nothing_found : Patterns
nothing_found = record {
  ansi_escape = λ f t. t;
  data_uri = λ f t. t;
  long_hex = λ f t. t;
  long_base64 = λ f t. t;
  trim_start = λ t. t;
  pretty_json = λ t. none;
}

abbrev long_text : Text
long_text = replicate 200 97

length-truncate_tool_result_example :
    length (truncate_tool_result nothing_found long_text 150) ≤ 150
unfolding strip_binary_blobs
length-truncate_tool_result_example =
    let short : 200 < 1000000000000 = ground arith in
    length-truncate_tool_result nothing_found long_text 150 (ground arith) short
      (λ pretty e. absurd (ground arith))

described : describe_data (codes "data:image/png;base64,AAAA") ≡ codes "[image/png data, 4 bytes]"
unfolding describe_data mime_of starts_with before_semicolon decimal_digits data_start find
described = refl
