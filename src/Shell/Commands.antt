-- ===== src/Shell/Commands.antt =====
-- crates/oxicrab-tools-system/src/shell/mod.rs: the commands that a command line runs, as the guard
-- reads them. A text is its UTF-8 bytes; shlex and the white space of Unicode are an argument.
pub mod Ascii
pub mod Pieces
use mathlib.Core.Option
use oxicrab.Base.{
  ℕ, ◌==◌, Bool, true, false, not, ◌&&◌, ◌||◌, String, Option, none, some, List, [], ◌∷◌, ◌++◌, any,
  if◌then◌else◌,
}
use oxicrab.Base.Text.{Text, codes}
use oxicrab.Base.Utf8.{is_continuation}

pub record Words : Type 0 where
  pub shlex_split : Text → Option (List Text)
  pub split_whitespace : Text → List Text
  pub trim : Text → Text

unfoldable pub text_eq : Text → Text → Bool
text_eq [] [] = true
text_eq [] (d ∷ ds) = false
text_eq (c ∷ cs) [] = false
text_eq (c ∷ cs) (d ∷ ds) = c == d && text_eq cs ds

-- An allow-list, where an empty list allows everything.
abbrev pub AllowedCommands : Type 0
AllowedCommands = List Text

unfoldable pub is_restricted : AllowedCommands → Bool
is_restricted [] = false
is_restricted (entry ∷ entries) = true

unfoldable pub is_allowed : AllowedCommands → Text → Bool
is_allowed l command = not (is_restricted l) || any (λ a. text_eq a command) l

unfoldable pub merge_from : List Text → AllowedCommands → AllowedCommands
merge_from [] l = l
merge_from (cmd ∷ additional) l =
    merge_from additional (if any (λ a. text_eq a cmd) l then l else l ++ (cmd ∷ []))

unfoldable pub merge : AllowedCommands → List Text → AllowedCommands
merge l additional = merge_from additional l

abbrev pub prefix_commands : List Text
prefix_commands =
    codes "sudo"
    ∷ codes "env"
    ∷ codes "command"
    ∷ codes "nohup"
    ∷ codes "nice"
    ∷ codes "time"
    ∷ codes "doas"
    ∷ codes "xargs"
    ∷ []

-- The part after the last `/`.
unfoldable pub base_name : Text → Text → Text
base_name name [] = name
base_name name (c ∷ cs) = base_name (if c == 47 then [] else name ++ (c ∷ [])) cs

unfoldable pub is_option : Text → Bool
is_option [] = false
is_option (c ∷ cs) = c == 45

-- A part with a `=` that does not start with `-` is taken for an assignment.
unfoldable pub is_assignment : Text → Bool
is_assignment part = any (λ c. c == 61) part && not (is_option part)

unfoldable pub name_in : Text → Bool → List Text → Text
name_in token found_prefix [] = token
name_in token found_prefix (part ∷ parts) =
    let skip = is_assignment part || (found_prefix && is_option part) in
    let name = base_name [] part in
    let is_prefix = any (λ p. text_eq p name) prefix_commands in
    let later = name_in token (found_prefix || (not skip && is_prefix)) parts in
    if skip || is_prefix then later else name

unfoldable pub extract_command_name : Words → Text → Text
extract_command_name w token =
    name_in (w.trim token) false
      (Option.get_or (w.shlex_split (w.trim token)) (w.split_whitespace (w.trim token)))

-- The scan of a command line: the quotes, the bytes of the segment since its start and the segments
-- before it. `skipping` is the second byte of an operator of two. A slice inside a character panics.
pub record Scan : Type 0 where
  pub in_single : Bool
  pub in_double : Bool
  pub escaped : Bool
  pub skipping : Bool
  pub panicked : Bool
  pub segment : Text
  pub segments : List Text

unfoldable pub starts_with_byte : ℕ → Text → Bool
starts_with_byte c [] = false
starts_with_byte c (d ∷ ds) = d == c

unfoldable pub is_operator : ℕ → Bool
is_operator c = ((c == 124 || c == 59) || c == 10) || c == 38

-- `&&` and `||`.
unfoldable pub is_double : ℕ → Text → Bool
is_double c rest = (c == 38 || c == 124) && starts_with_byte c rest

unfoldable pub close_segment : ℕ → Text → Scan → Scan
close_segment c rest s = record s {
  skipping = is_double c rest;
  segment = [];
  segments = s.segments ++ (s.segment ∷ []);
}

-- A byte outside quotes that is no quote: the rest from it on is sliced.
unfoldable pub scan_plain : ℕ → Text → Scan → Scan
scan_plain c rest s =
    if is_continuation c
    then record s { panicked = true }
    else if is_operator c
    then close_segment c rest s
    else record s { segment = s.segment ++ (c ∷ []) }

unfoldable pub scan_alive : ℕ → Text → Scan → Scan
scan_alive c rest s =
    if s.skipping
    then record s { skipping = false }
    else if s.escaped
    then record s { escaped = false; segment = s.segment ++ (c ∷ []) }
    else if c == 92 && not s.in_single
    then record s { escaped = true; segment = s.segment ++ (c ∷ []) }
    else if c == 39 && not s.in_double
    then record s { in_single = not s.in_single; segment = s.segment ++ (c ∷ []) }
    else if c == 34 && not s.in_single
    then record s { in_double = not s.in_double; segment = s.segment ++ (c ∷ []) }
    else if not s.in_single && not s.in_double
    then scan_plain c rest s
    else record s { segment = s.segment ++ (c ∷ []) }

unfoldable pub scan_byte : ℕ → Text → Scan → Scan
scan_byte c rest s = if s.panicked then s else scan_alive c rest s

unfoldable pub scan_bytes : Text → Scan → Scan
scan_bytes [] s = s
scan_bytes (c ∷ cs) s = scan_bytes cs (scan_byte c cs s)

abbrev pub start : Scan
start = record {
  in_single = false;
  in_double = false;
  escaped = false;
  skipping = false;
  panicked = false;
  segment = [];
  segments = [];
}

unfoldable pub is_blank : Words → Text → Bool
is_blank w segment = text_eq (w.trim segment) []

unfoldable pub names_of : Words → List Text → List Text
names_of w [] = []
names_of w (segment ∷ segments) =
    let rest = names_of w segments in
    if is_blank w segment then rest else extract_command_name w segment ∷ rest

-- The names, or none if a slice panics.
unfoldable pub extract_all_commands : Words → Text → Option (List Text)
extract_all_commands w command =
    let s = scan_bytes command start in
    if s.panicked then none else some (names_of w (s.segments ++ (s.segment ∷ [])))
