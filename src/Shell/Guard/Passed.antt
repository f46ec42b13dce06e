-- ===== src/Shell/Guard/Passed.antt =====
-- What a command that passes the guard has passed.
use mathlib.Core.Option
use oxicrab.Base.{
  Bool, true, false, not, none, some, List, [], ◌∷◌, ◌≡◌, refl, arith, ◌⊎◌, inl, inr, any, All,
  Bool-cases, Option-cases, if◌then◌else◌,
}
use oxicrab.Base.Text.{Text}
use oxicrab.Shell.Commands.{AllowedCommands, is_restricted, is_allowed, extract_all_commands}
use oxicrab.Shell.Paths.{FilePath, Platform, is_under, check_paths_in_workspace, word_passes}
use oxicrab.Shell.Paths.Words.{IsWordInside, word_passes-IsWordInside}
use oxicrab.Shell.Guard.{
  ExecTool, Verdict, passed, panicked, structural, not_allowed, denied, outside_workspace,
  check_names, check_allowed, check_workspace, check_restriction, and_then, guard_joined,
  guard_command, join_lines,
}

-- Every command that the guard finds is on the list, or there is no list.
abbrev pub IsAllowedAll : ExecTool → Text → Type 0
IsAllowedAll t command =
    (is_restricted t.allowed_commands ≡ false)
    ⊎ ((names : List Text) × (extract_all_commands t.words command ≡ some names)
        × All (λ name. is_allowed t.allowed_commands name ≡ true) names)

-- The working directory and every word of the line, split as shlex does, are in the workspace, or there
-- is no restriction; a line that shlex does not split has no words.
abbrev pub IsConfined : ExecTool → Text → FilePath → Type 0
IsConfined t command cwd =
    (t.restrict_to_workspace ≡ false)
    ⊎ (t.working_dir ≡ none)
    ⊎ ((workspace : FilePath) × (t.working_dir ≡ some workspace)
        × (is_under workspace cwd ≡ true)
        × All (IsWordInside t.platform workspace cwd)
            (Option.get_or (t.words.shlex_split command) []))

abbrev is_passed : Verdict → Bool
is_passed passed = true
is_passed panicked = false
is_passed structural = false
is_passed not_allowed = false
is_passed denied = false
is_passed outside_workspace = false

module _ {ℓ} {C : Type ℓ} where
  refused : (v : Verdict) → is_passed v ≡ false → v ≡ passed → C
  refused v e h = absurd (ground (arith, e, rw h at e))

and_then-both : (v next : Verdict) → and_then v next ≡ passed → (v ≡ passed) × (next ≡ passed)
unfolding and_then
and_then-both passed next h = (refl, h)
and_then-both panicked next h = refused panicked refl h
and_then-both structural next h = refused structural refl h
and_then-both not_allowed next h = refused not_allowed refl h
and_then-both denied next h = refused denied refl h
and_then-both outside_workspace next h = refused outside_workspace refl h

All-allowed :
    (l : AllowedCommands) (names : List Text)
    → any (λ name. not (is_allowed l name)) names ≡ false
    → All (λ name. is_allowed l name ≡ true) names
All-allowed l [] e = tt
All-allowed l (name ∷ names) e = elim (Bool-cases (is_allowed l name)) [
  | inl f ↦ (f, All-allowed l names (rw f at e))
  | inr f ↦ absurd (ground arith)
]

check_allowed-passed :
    (t : ExecTool) (command : Text) → check_allowed t command ≡ passed → IsAllowedAll t command
unfolding check_allowed check_names
check_allowed-passed t command h = elim (Bool-cases (is_restricted t.allowed_commands)) [
  | inr e ↦ inl e
  | inl e ↦ elim (Option-cases (extract_all_commands t.words command)) [
    | inl f ↦ refused panicked refl (rw (e, f) at h)
    | inr (names, f) ↦
        elim (Bool-cases (any (λ name. not (is_allowed t.allowed_commands name)) names)) [
          | inl g ↦ refused not_allowed refl (rw (e, f, g) at h)
          | inr g ↦ inr (names, f, All-allowed t.allowed_commands names g)
        ]
  ]
]

check_paths-All :
    (p : Platform) (words : List Text) (workspace cwd : FilePath)
    → check_paths_in_workspace p words workspace cwd ≡ true
    → All (IsWordInside p workspace cwd) words
unfolding check_paths_in_workspace
check_paths-All p [] workspace cwd h = tt
check_paths-All p (word ∷ words) workspace cwd h =
    elim (Bool-cases (word_passes p workspace cwd word)) [
      | inl e ↦ (
        word_passes-IsWordInside p workspace cwd word e,
        check_paths-All p words workspace cwd (rw e at h),
      )
      | inr e ↦ absurd (ground arith)
    ]

check_restriction-passed :
    (t : ExecTool) (command : Text) (cwd : FilePath)
    → check_restriction t command cwd ≡ passed
    → IsConfined t command cwd
unfolding check_restriction check_workspace
check_restriction-passed t command cwd h = elim (Bool-cases t.restrict_to_workspace) [
  | inr e ↦ inl e
  | inl e ↦ elim (Option-cases t.working_dir) [
    | inl f ↦ inr (inl f)
    | inr (workspace, f) ↦ elim (Bool-cases (is_under workspace cwd)) [
      | inr g ↦ refused outside_workspace refl (rw (e, f, g) at h)
      | inl g ↦
          let words = Option.get_or (t.words.shlex_split command) [] in
          elim (Bool-cases (check_paths_in_workspace t.platform words workspace cwd)) [
            | inr i ↦ refused outside_workspace refl (rw (e, f, g, i) at h)
            | inl i ↦ inr (inr (workspace, f, g, check_paths-All t.platform words workspace cwd i))
          ]
    ]
  ]
]

-- A command that passes the guard, with its continued lines joined, has no structural violation and
-- matches no deny pattern, and every command that the guard finds in it is on the list, if there is one.
-- If the tool is restricted to a workspace, the working directory is in it, and so is what these words
-- of the line name, as the file system or else lexically resolved: a word that starts with a slash, but
-- for the slash alone; the tilde and a word that starts with a tilde and a slash, as paths of the home
-- directory, with no other word starting with a tilde; and any other word that contains two dots,
-- joined to the working directory. A word with a star, a question mark or both brackets neither starts
-- with a slash or a tilde nor contains two dots. The words are those that shlex finds, none if it fails.
pub guard_command-passed :
    (t : ExecTool) (command : Text) (cwd : FilePath)
    → guard_command t command cwd ≡ passed
    → (t.has_violation (join_lines false command) ≡ false)
      × (any (λ is_match. is_match (join_lines false command)) t.deny_patterns ≡ false)
      × IsAllowedAll t (join_lines false command)
      × IsConfined t (join_lines false command) cwd
unfolding guard_command guard_joined
guard_command-passed t command cwd h =
    let line = join_lines false command in
    elim (Bool-cases (t.has_violation line)) [
      | inl e ↦ refused structural refl (rw e at h)
      | inr e ↦
          let both =
            and_then-both (check_allowed t line)
              (if any (λ is_match. is_match line) t.deny_patterns
                then denied
                else check_restriction t line cwd)
              (rw e at h) in
          elim (Bool-cases (any (λ is_match. is_match line) t.deny_patterns)) [
            | inl f ↦ refused denied refl (rw f at both.1)
            | inr f ↦ (
              e,
              f,
              check_allowed-passed t line both.0,
              check_restriction-passed t line cwd (rw f at both.1),
            )
          ]
    ]
