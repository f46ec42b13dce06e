-- ===== src/Shell/Guard.antt =====
-- crates/oxicrab-tools-system/src/shell/mod.rs: `guard_command`. The structural analysis and the deny
-- patterns are tests of a text.
pub mod Panics
pub mod Passed
use mathlib.Core.Option
use oxicrab.Base.{
  ℕ, ◌==◌, Bool, true, false, not, ◌&&◌, ◌||◌, Option, none, some, List, [], ◌∷◌, any,
  if◌then◌else◌,
}
use oxicrab.Base.Text.{Text}
use oxicrab.Shell.Commands.{
  Words, AllowedCommands, is_restricted, is_allowed, extract_all_commands, starts_with_byte,
}
use oxicrab.Shell.Paths.{FilePath, Platform, is_under, check_paths_in_workspace}

pub record ExecTool : Type 0 where
  pub words : Words
  pub platform : Platform
  pub has_violation : Text → Bool
  pub deny_patterns : List (Text → Bool)
  pub allowed_commands : AllowedCommands
  pub restrict_to_workspace : Bool
  pub working_dir : Option FilePath

pub data Verdict : Type 0 where
  passed panicked structural not_allowed denied outside_workspace : Verdict

-- `replace("\\\n", " ")`; `skip` is the line feed of a pair.
unfoldable pub join_lines : Bool → Text → Text
join_lines skip [] = []
join_lines skip (c ∷ cs) =
    let pair = (not skip && c == 92) && starts_with_byte 10 cs in
    let rest = join_lines pair cs in if skip then rest else if pair then 32 ∷ rest else c ∷ rest

unfoldable pub check_names : AllowedCommands → Option (List Text) → Verdict
check_names l none = panicked
check_names l (some names) =
    if any (λ name. not (is_allowed l name)) names then not_allowed else passed

unfoldable pub check_allowed : ExecTool → Text → Verdict
check_allowed t command =
    if is_restricted t.allowed_commands
    then check_names t.allowed_commands (extract_all_commands t.words command)
    else passed

unfoldable pub check_workspace : ExecTool → Text → FilePath → Option FilePath → Verdict
check_workspace t command cwd none = passed
check_workspace t command cwd (some workspace) =
    if not (is_under workspace cwd)
    then outside_workspace
    else if check_paths_in_workspace t.platform (Option.get_or (t.words.shlex_split command) [])
        workspace cwd
    then passed
    else outside_workspace

unfoldable pub check_restriction : ExecTool → Text → FilePath → Verdict
check_restriction t command cwd =
    if t.restrict_to_workspace then check_workspace t command cwd t.working_dir else passed

-- The next check, if the verdict lets the command pass.
unfoldable pub and_then : Verdict → Verdict → Verdict
and_then passed next = next
and_then panicked next = panicked
and_then structural next = structural
and_then not_allowed next = not_allowed
and_then denied next = denied
and_then outside_workspace next = outside_workspace

unfoldable pub guard_joined : ExecTool → Text → FilePath → Verdict
guard_joined t command cwd =
    if t.has_violation command
    then structural
    else and_then (check_allowed t command) (
        if any (λ is_match. is_match command) t.deny_patterns
        then denied
        else check_restriction t command cwd)

unfoldable pub guard_command : ExecTool → Text → FilePath → Verdict
guard_command t command cwd = guard_joined t (join_lines false command) cwd
