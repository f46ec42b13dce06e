-- ===== src/Shell/Guard/Panics.antt =====
-- Where the guard of a command panics.
use oxicrab.Base.{ℕ, ◌≤◌, true, false, none, ◌∷◌, ◌++◌, ◌≡◌, refl, ap, ◌∙◌, All}
use oxicrab.Base.Text.{Text}
use oxicrab.Base.Utf8.{is_continuation}
use oxicrab.Shell.Commands.{is_restricted, extract_all_commands}
use oxicrab.Shell.Commands.Ascii.{is_plain, extract_all_commands-non_ascii}
use oxicrab.Shell.Paths.{FilePath}
use oxicrab.Shell.Guard.{
  ExecTool, panicked, check_names, check_allowed, and_then, guard_joined, guard_command, join_lines,
}

-- If there is an allow-list and the structural analysis finds nothing in the command with its continued
-- lines joined, and if in that command the bytes before some character of several bytes are plain (ASCII,
-- and no quote, backslash or operator), then the guard panics.
pub non_ascii_panics :
    (t : ExecTool) (command front rest : Text) (lead continuation : ℕ) (cwd : FilePath)
    → is_restricted t.allowed_commands ≡ true
    → t.has_violation (join_lines false command) ≡ false
    → join_lines false command ≡ front ++ (lead ∷ continuation ∷ rest)
    → All (λ c. is_plain c ≡ true) front
    → 192 ≤ lead
    → is_continuation continuation ≡ true
    → guard_command t command cwd ≡ panicked
unfolding guard_command guard_joined check_allowed check_names and_then
non_ascii_panics t command front rest lead continuation cwd listed clean line plain wide inside =
    let stops : extract_all_commands t.words (join_lines false command) ≡ none =
      ap (extract_all_commands t.words) line
      ∙ extract_all_commands-non_ascii t.words front rest lead continuation plain wide inside in
    rw (clean, listed, stops) refl
