-- ===== src/Shell/Tests.antt =====
-- Runs of the shell tool's guard.
use oxicrab.Base.{
  ◌==◌, true, false, none, some, List, [], ◌∷◌, ◌++◌, ◌≡◌, refl, arith, any, if◌then◌else◌,
}
use oxicrab.Base.Text.{starts_with, contains, Text, codes}
use oxicrab.Shell.Commands.{
  text_eq, name_in, is_option, is_assignment, is_allowed, base_name, starts_with_byte, is_double,
  close_segment, is_operator, scan_plain, scan_alive, scan_byte, scan_bytes, Words, is_restricted,
  is_blank, extract_all_commands, extract_command_name, names_of,
}
use oxicrab.Shell.Commands.Ascii.{is_plain}
use oxicrab.Shell.Guard.Panics.{non_ascii_panics}
use oxicrab.Shell.Commands.Pieces.{is_unquoted, pieces_from, extract_all_commands_lem}
use oxicrab.Shell.Paths.{
  word_passes, reverse_onto, resolve_path, push_component, pop_normal, normalize_from, named_path,
  is_wide_glob, is_under, is_inside, has_glob, component_eq, check_paths_in_workspace, after_tilde,
  root_dir, cur_dir, parent_dir, normal, FilePath, Platform, lexical_normalize,
}
use oxicrab.Shell.Paths.Normal.{AllKept, lexical_normalize_lem}
use oxicrab.Shell.Guard.{
  check_workspace, check_restriction, check_names, check_allowed, and_then, guard_joined, ExecTool,
  passed, panicked, guard_command, join_lines,
}
use oxicrab.Shell.Guard.Passed.{IsAllowedAll, IsConfined, guard_command-passed}

-- The text at the first space or the end.
split_words : Text → Text → List Text
split_words word [] = word ∷ []
split_words word (c ∷ cs) =
    let close = split_words [] cs in
    let keep = split_words (word ++ (c ∷ [])) cs in if c == 32 then word ∷ close else keep

-- Words at single spaces, in texts without quotes or spaces around them.
abbrev simple_words : Words
simple_words = record {
  shlex_split = λ t. some (split_words [] t);
  split_whitespace = λ t. split_words [] t;
  trim = λ t. t;
}

abbrev src_dir : FilePath
src_dir = root_dir ∷ normal (codes "work") ∷ []

abbrev platform : Platform
platform = record {
  components = λ t. root_dir ∷ normal (codes "etc") ∷ [];
  canonicalize = λ p. none;
  home_dir = root_dir ∷ normal (codes "root") ∷ [];
  join = λ p t. p ++ (parent_dir ∷ []);
}

abbrev tool : ExecTool
tool = record {
  words = simple_words;
  platform = platform;
  has_violation = λ t. false;
  deny_patterns = (λ t. false) ∷ [];
  allowed_commands = codes "ls" ∷ codes "cat" ∷ [];
  restrict_to_workspace = true;
  working_dir = some src_dir;
}

abbrev listing : Text
listing = codes "ls|cat -n"

guard_passes : guard_command tool listing src_dir ≡ passed
unfolding guard_command guard_joined and_then check_allowed is_restricted check_names
    extract_all_commands scan_bytes join_lines scan_byte scan_alive scan_plain is_operator
    close_segment is_double starts_with_byte names_of contains starts_with base_name
    extract_command_name is_allowed is_assignment is_blank is_option name_in text_eq
    check_restriction check_workspace after_tilde check_paths_in_workspace component_eq has_glob
    is_inside is_under is_wide_glob lexical_normalize named_path normalize_from pop_normal
    push_component resolve_path reverse_onto word_passes split_words
guard_passes = refl

guard_command-passed_example :
    (tool.has_violation (join_lines false listing) ≡ false)
    × (any (λ is_match. is_match (join_lines false listing)) tool.deny_patterns ≡ false)
    × IsAllowedAll tool (join_lines false listing)
    × IsConfined tool (join_lines false listing) src_dir
guard_command-passed_example = guard_command-passed tool listing src_dir guard_passes

dotted : FilePath
dotted = root_dir ∷ normal (codes "a") ∷ parent_dir ∷ cur_dir ∷ normal (codes "b") ∷ []

lexical_normalize_lem_example :
    (lexical_normalize (src_dir ++ (normal (codes "a") ∷ parent_dir ∷ dotted))
      ≡ lexical_normalize (src_dir ++ dotted))
    × (lexical_normalize (src_dir ++ (cur_dir ∷ dotted)) ≡ lexical_normalize (src_dir ++ dotted))
    × (lexical_normalize (root_dir ∷ parent_dir ∷ dotted) ≡ lexical_normalize (root_dir ∷ dotted))
    × (lexical_normalize (parent_dir ∷ dotted) ≡ lexical_normalize dotted)
    × (lexical_normalize src_dir ≡ src_dir)
    × AllKept (lexical_normalize src_dir)
lexical_normalize_lem_example =
    lexical_normalize_lem src_dir dotted src_dir (codes "a") (refl, (refl, tt))

extract_all_commands_lem_example :
    extract_all_commands simple_words (codes "ls&&cat x;ls")
    ≡ some (names_of simple_words (pieces_from [] (codes "ls&&cat x;ls")))
unfolding is_blank text_eq is_unquoted
extract_all_commands_lem_example =
    extract_all_commands_lem simple_words (codes "ls&&cat x;ls") refl (
      refl,
      (refl, (refl, (refl, (refl, (refl, (refl, (refl, (refl, (refl, (refl, (refl, tt))))))))))),
    )

abbrev accented : Text
accented = codes "cat caf" ++ (195 ∷ 169 ∷ [])

non_ascii_panics_example : guard_command tool accented src_dir ≡ panicked
unfolding is_plain is_operator is_restricted join_lines starts_with_byte
non_ascii_panics_example =
    non_ascii_panics tool accented (codes "cat caf") [] 195 169 src_dir refl refl refl
      (refl, (refl, (refl, (refl, (refl, (refl, (refl, tt))))))) (ground arith) refl

-- The word with `=` is passed over, although a shell would run it.
path_with_equals : extract_command_name simple_words (codes "/tmp/a=b ls") ≡ codes "ls"
unfolding extract_command_name name_in split_words is_assignment is_option text_eq base_name
path_with_equals = refl

quoted_names :
    extract_all_commands simple_words (codes "cat \"a;b\";ls")
    ≡ some (codes "cat" ∷ codes "ls" ∷ [])
unfolding extract_all_commands scan_bytes scan_byte scan_alive scan_plain is_operator close_segment
    is_double names_of is_blank text_eq extract_command_name name_in split_words is_assignment
    base_name
quoted_names = refl
