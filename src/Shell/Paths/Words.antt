-- ===== src/Shell/Paths/Words.antt =====
-- What a word that passes the check of the paths names.
use oxicrab.Base.{
  true, false, none, some, [], ◌∷◌, ◌≡◌, arith, ◌⊎◌, inl, inr, Bool-cases, Option-cases,
}
use oxicrab.Base.Text.{Text, codes, starts_with, contains}
use oxicrab.Shell.Commands.{text_eq}
use oxicrab.Shell.Paths.{
  FilePath, Platform, path_of, lexical_normalize, is_under, resolve_path, has_glob, is_wide_glob,
  after_tilde, named_path, is_inside, word_passes,
}

module _ (p : Platform) (workspace : FilePath) where
  -- The path that the file system makes of a path is in the workspace, or its lexical form if the file
  -- system makes none.
  abbrev pub IsInside : FilePath → Type 0
  IsInside path =
      ((found : FilePath) × (p.canonicalize path ≡ some found) × (is_under workspace found ≡ true))
      ⊎ ((p.canonicalize path ≡ none) × (is_under workspace (lexical_normalize path) ≡ true))

  -- No pattern with a star, a question mark or a pair of brackets that is absolute or goes up.
  abbrev pub IsNarrow : Text → Type 0
  IsNarrow word =
      ((contains word (codes "*") ≡ false)
        × (contains word (codes "?") ≡ false)
        × ((contains word (codes "[") ≡ false) ⊎ (contains word (codes "]") ≡ false)))
      ⊎ ((starts_with word (codes "/") ≡ false)
          × (starts_with word (codes "~") ≡ false)
          × (contains word (codes "..") ≡ false))

  abbrev pub IsAbsolutelyInside : Text → Type 0
  IsAbsolutelyInside word =
      (starts_with word (codes "/") ≡ false)
      ⊎ (text_eq word (codes "/") ≡ true)
      ⊎ IsInside (p.components word)

  abbrev pub IsInsideHome : Text → Type 0
  IsInsideHome word =
      (starts_with word (codes "~") ≡ false)
      ⊎ ((text_eq word (codes "~") ≡ true) × IsInside p.home_dir)
      ⊎ ((starts_with word (codes "~/") ≡ true) × IsInside (p.join p.home_dir (after_tilde word)))

  -- A word with two dots that is not absolute and names no home.
  abbrev pub IsUpInside : FilePath → Text → Type 0
  IsUpInside cwd word =
      (contains word (codes "..") ≡ false)
      ⊎ (starts_with word (codes "/") ≡ true)
      ⊎ (starts_with word (codes "~") ≡ true)
      ⊎ IsInside (p.join cwd word)

  abbrev pub IsWordInside : FilePath → Text → Type 0
  IsWordInside cwd word =
      IsNarrow word × IsAbsolutelyInside word × IsInsideHome word × IsUpInside cwd word

  inside : (path : FilePath) → is_inside p workspace (path_of path) ≡ true → IsInside path
  unfolding is_inside resolve_path
  inside path h = elim (Option-cases (p.canonicalize path)) [
    | inl e ↦ inr (e, (rw e at h))
    | inr (found, e) ↦ inl (found, e, (rw e at h))
  ]

  narrow : (word : Text) → is_wide_glob word ≡ false → IsNarrow word
  unfolding is_wide_glob has_glob
  narrow word h = ground arith

  absolute :
      (cwd : FilePath) (word : Text)
      → is_inside p workspace (named_path p cwd word) ≡ true
      → IsAbsolutelyInside word
  unfolding named_path
  absolute cwd word h = elim (Bool-cases (starts_with word (codes "/"))) [
    | inr e ↦ inl e
    | inl e ↦ elim (Bool-cases (text_eq word (codes "/"))) [
      | inl f ↦ inr (inl f)
      | inr f ↦ inr (inr (inside (p.components word) (rw (e, f) at h)))
    ]
  ]

  -- A word that starts with a tilde is judged as a path of the home directory.
  home :
      (cwd : FilePath) (word : Text)
      → starts_with word (codes "/") ≡ false
      → is_inside p workspace (named_path p cwd word) ≡ true
      → IsInsideHome word
  unfolding named_path is_inside
  home cwd word none_before h = elim (Bool-cases (starts_with word (codes "~"))) [
    | inr e ↦ inl e
    | inl e ↦ elim (Bool-cases (text_eq word (codes "~"))) [
      | inl f ↦ inr (inl (f, inside p.home_dir (rw (none_before, e, f) at h)))
      | inr f ↦ elim (Bool-cases (starts_with word (codes "~/"))) [
        | inr g ↦ absurd (ground (arith, rw (none_before, e, f, g) at h))
        | inl g ↦ inr (
            inr (g, inside (p.join p.home_dir (after_tilde word)) (rw (none_before, e, f, g) at h)))
      ]
    ]
  ]

  upward :
      (cwd : FilePath) (word : Text)
      → is_inside p workspace (named_path p cwd word) ≡ true
      → IsUpInside cwd word
  unfolding named_path
  upward cwd word h = elim (Bool-cases (contains word (codes ".."))) [
    | inr e ↦ inl e
    | inl e ↦ elim (Bool-cases (starts_with word (codes "/"))) [
      | inl f ↦ inr (inl f)
      | inr f ↦ elim (Bool-cases (starts_with word (codes "~"))) [
        | inl g ↦ inr (inr (inl g))
        | inr g ↦ inr (inr (inr (inside (p.join cwd word) (rw (e, f, g) at h))))
      ]
    ]
  ]

  -- No text starts with both a slash and a tilde.
  one_start :
      (word : Text) → starts_with word (codes "/") ≡ true → starts_with word (codes "~") ≡ false
  unfolding starts_with
  one_start [] h = ground arith
  one_start (c ∷ cs) h = ground arith

  -- A word that passes names no path outside of the workspace.
  pub word_passes-IsWordInside :
      (cwd : FilePath) (word : Text)
      → word_passes p workspace cwd word ≡ true
      → IsWordInside cwd word
  unfolding word_passes
  word_passes-IsWordInside cwd word h = elim (Bool-cases (is_wide_glob word)) [
    | inl e ↦ absurd (ground (arith, rw e at h))
    | inr e ↦
        let named : is_inside p workspace (named_path p cwd word) ≡ true = rw e at h in
        (narrow word e, absolute cwd word named, tilde named, upward cwd word named)
  ]
    where
      tilde : is_inside p workspace (named_path p cwd word) ≡ true → IsInsideHome word
      tilde named = elim (Bool-cases (starts_with word (codes "/"))) [
        | inl f ↦ inl (one_start word f)
        | inr f ↦ home cwd word f named
      ]
