-- ===== src/Shell/Paths.antt =====
-- crates/oxicrab-tools-system/src/shell/mod.rs: the paths of a command line. A path is its components;
-- what the standard library and the file system make of a text or a path is an argument.
pub mod Normal
pub mod Words
use mathlib.Core.Option
use oxicrab.Base.{
  ℕ, ◌==◌, Bool, true, false, not, ◌&&◌, ◌||◌, String, Option, none, some, List, [], ◌∷◌, ◌++◌, any,
  if◌then◌else◌,
}
use oxicrab.Base.Text.{Text, codes, starts_with, contains}
use oxicrab.Shell.Commands.{text_eq}

pub data Component : Type 0 where
  root_dir cur_dir parent_dir : Component
  normal : Text → Component

abbrev pub FilePath : Type 0
FilePath = List Component

-- Paths of texts, and the file system.
pub record Platform : Type 0 where
  pub components : Text → FilePath
  pub canonicalize : FilePath → Option FilePath
  pub home_dir : FilePath
  pub join : FilePath → Text → FilePath

-- A component on the stack of those that are kept, the last one first.
unfoldable pub pop_normal : FilePath → FilePath
pop_normal [] = []
pop_normal (root_dir ∷ kept) = root_dir ∷ kept
pop_normal (cur_dir ∷ kept) = cur_dir ∷ kept
pop_normal (parent_dir ∷ kept) = parent_dir ∷ kept
pop_normal (normal name ∷ kept) = kept

unfoldable pub push_component : Component → FilePath → FilePath
push_component parent_dir kept = pop_normal kept
push_component cur_dir kept = kept
push_component root_dir kept = root_dir ∷ kept
push_component (normal name) kept = normal name ∷ kept

unfoldable pub normalize_from : FilePath → FilePath → FilePath
normalize_from kept [] = kept
normalize_from kept (c ∷ path) = normalize_from (push_component c kept) path

unfoldable pub reverse_onto : FilePath → FilePath → FilePath
reverse_onto [] path = path
reverse_onto (c ∷ kept) path = reverse_onto kept (c ∷ path)

unfoldable pub lexical_normalize : FilePath → FilePath
lexical_normalize path = reverse_onto (normalize_from [] path) []

unfoldable pub component_eq : Component → Component → Bool
component_eq root_dir root_dir = true
component_eq root_dir cur_dir = false
component_eq root_dir parent_dir = false
component_eq root_dir (normal d) = false
component_eq cur_dir root_dir = false
component_eq cur_dir cur_dir = true
component_eq cur_dir parent_dir = false
component_eq cur_dir (normal d) = false
component_eq parent_dir root_dir = false
component_eq parent_dir cur_dir = false
component_eq parent_dir parent_dir = true
component_eq parent_dir (normal d) = false
component_eq (normal c) root_dir = false
component_eq (normal c) cur_dir = false
component_eq (normal c) parent_dir = false
component_eq (normal c) (normal d) = text_eq c d

-- `Path::starts_with`, by whole components.
unfoldable pub is_under : FilePath → FilePath → Bool
is_under [] path = true
is_under (d ∷ dir) [] = false
is_under (d ∷ dir) (c ∷ path) = component_eq d c && is_under dir path

unfoldable pub resolve_path : Platform → FilePath → FilePath
resolve_path p path = Option.get_or (p.canonicalize path) (lexical_normalize path)

unfoldable pub has_glob : Text → Bool
has_glob t =
    (contains t (codes "*") || contains t (codes "?"))
    || (contains t (codes "[") && contains t (codes "]"))

unfoldable pub is_wide_glob : Text → Bool
is_wide_glob t =
    has_glob t
    && ((starts_with t (codes "/") || starts_with t (codes "~")) || contains t (codes ".."))

unfoldable pub after_tilde : Text → Text
after_tilde [] = []
after_tilde (c ∷ []) = []
after_tilde (c ∷ d ∷ rest) = rest

-- The path that a word names, if the guard looks it up; `~user` names none.
pub data Named : Type 0 where
  no_path unknown_home : Named
  path_of : FilePath → Named

unfoldable pub named_path : Platform → FilePath → Text → Named
named_path p working_dir word =
    if starts_with word (codes "/") && not (text_eq word (codes "/"))
    then path_of (p.components word)
    else if starts_with word (codes "~")
    then if text_eq word (codes "~")
      then path_of p.home_dir
      else if starts_with word (codes "~/")
      then path_of (p.join p.home_dir (after_tilde word))
      else unknown_home
    else if contains word (codes "..")
    then path_of (p.join working_dir word)
    else no_path

unfoldable pub is_inside : Platform → FilePath → Named → Bool
is_inside p workspace no_path = true
is_inside p workspace unknown_home = false
is_inside p workspace (path_of path) = is_under workspace (resolve_path p path)

-- A word passes: no wide glob, and what it names is in the workspace.
unfoldable pub word_passes : Platform → FilePath → FilePath → Text → Bool
word_passes p workspace working_dir word =
    if is_wide_glob word then false else is_inside p workspace (named_path p working_dir word)

unfoldable pub check_paths_in_workspace : Platform → List Text → FilePath → FilePath → Bool
check_paths_in_workspace p [] workspace working_dir = true
check_paths_in_workspace p (word ∷ words) workspace working_dir =
    let rest = check_paths_in_workspace p words workspace working_dir in
    if word_passes p workspace working_dir word then rest else false
