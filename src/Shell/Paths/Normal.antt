-- ===== src/Shell/Paths/Normal.antt =====
-- The lexical normal form of a path.
use oxicrab.Base.{sym, Bool, true, false, [], ◌∷◌, ◌++◌, ◌≡◌, refl, arith, ◌∙◌, ap, All}
use oxicrab.Base.Text.{Text}
use oxicrab.Shell.Paths.{
  Component, root_dir, cur_dir, parent_dir, normal, FilePath, pop_normal, push_component,
  normalize_from, reverse_onto, lexical_normalize,
}

-- The component stands for itself: it is neither `.` nor `..`.
abbrev pub is_kept : Component → Bool
is_kept root_dir = true
is_kept cur_dir = false
is_kept parent_dir = false
is_kept (normal name) = true

abbrev pub AllKept : FilePath → Type 0
AllKept path = All (λ c. is_kept c ≡ true) path

pop_normal-AllKept : (kept : FilePath) → AllKept kept → AllKept (pop_normal kept)
unfolding pop_normal
pop_normal-AllKept [] a = a
pop_normal-AllKept (root_dir ∷ kept) a = a
pop_normal-AllKept (cur_dir ∷ kept) a = a
pop_normal-AllKept (parent_dir ∷ kept) a = a
pop_normal-AllKept (normal name ∷ kept) a = a.1

push_component-AllKept :
    (c : Component) (kept : FilePath) → AllKept kept → AllKept (push_component c kept)
unfolding push_component
push_component-AllKept root_dir kept a = (refl, a)
push_component-AllKept cur_dir kept a = a
push_component-AllKept parent_dir kept a = pop_normal-AllKept kept a
push_component-AllKept (normal name) kept a = (refl, a)

normalize_from-AllKept : (kept path : FilePath) → AllKept kept → AllKept (normalize_from kept path)
unfolding normalize_from
normalize_from-AllKept kept [] a = a
normalize_from-AllKept kept (c ∷ path) a =
    normalize_from-AllKept (push_component c kept) path (push_component-AllKept c kept a)

reverse_onto-AllKept :
    (kept path : FilePath) → AllKept kept → AllKept path → AllKept (reverse_onto kept path)
unfolding reverse_onto
reverse_onto-AllKept [] path a b = b
reverse_onto-AllKept (c ∷ kept) path a b = reverse_onto-AllKept kept (c ∷ path) a.1 (a.0, b)

lexical_normalize-AllKept : (path : FilePath) → AllKept (lexical_normalize path)
unfolding lexical_normalize
lexical_normalize-AllKept path =
    reverse_onto-AllKept (normalize_from [] path) [] (normalize_from-AllKept [] path tt) tt

push_component-kept :
    (c : Component) (kept : FilePath) → is_kept c ≡ true → push_component c kept ≡ c ∷ kept
unfolding push_component
push_component-kept root_dir kept e = refl
push_component-kept cur_dir kept e = absurd (ground arith)
push_component-kept parent_dir kept e = absurd (ground arith)
push_component-kept (normal name) kept e = refl

normalize_from-kept :
    (kept path : FilePath) → AllKept path → normalize_from kept path ≡ reverse_onto path kept
unfolding normalize_from reverse_onto
normalize_from-kept kept [] a = refl
normalize_from-kept kept (c ∷ path) a =
    rw (push_component-kept c kept a.0) (normalize_from-kept (c ∷ kept) path a.1)

reverse_onto-reverse_onto :
    (path kept : FilePath) → reverse_onto (reverse_onto path kept) [] ≡ reverse_onto kept path
unfolding reverse_onto
reverse_onto-reverse_onto [] kept = refl
reverse_onto-reverse_onto (c ∷ path) kept = reverse_onto-reverse_onto path (c ∷ kept)

normalize-kept : (path : FilePath) → AllKept path → lexical_normalize path ≡ path
unfolding lexical_normalize reverse_onto
normalize-kept path a =
    ap (λ kept. reverse_onto kept []) (normalize_from-kept [] path a)
    ∙ reverse_onto-reverse_onto path []

normalize_from-append :
    (kept front rest : FilePath)
    → normalize_from kept (front ++ rest) ≡ normalize_from (normalize_from kept front) rest
unfolding normalize_from
normalize_from-append kept [] rest = refl
normalize_from-append kept (c ∷ front) rest =
    normalize_from-append (push_component c kept) front rest

-- What is pushed and popped leaves the rest as if it had not been there.
normalize-skip :
    (front skipped rest : FilePath)
    → ((kept : FilePath) → normalize_from kept skipped ≡ kept)
    → lexical_normalize (front ++ (skipped ++ rest)) ≡ lexical_normalize (front ++ rest)
unfolding lexical_normalize
normalize-skip front skipped rest h =
    ap (λ kept. reverse_onto kept [])
      (normalize_from-append [] front (skipped ++ rest)
        ∙ normalize_from-append (normalize_from [] front) skipped rest
        ∙ ap (λ kept. normalize_from kept rest) (h (normalize_from [] front))
        ∙ sym (normalize_from-append [] front rest))

-- The normal form is what these rules give: a name and the `..` after it go, wherever they stand, a `.`
-- goes, and so does a `..` right after the root or at the start; a path without `.` and `..` is its own
-- normal form, and no normal form has one.
pub lexical_normalize_lem :
    (front rest kept : FilePath) (name : Text)
    → AllKept kept
    → (lexical_normalize (front ++ (normal name ∷ parent_dir ∷ rest))
        ≡ lexical_normalize (front ++ rest))
      × (lexical_normalize (front ++ (cur_dir ∷ rest)) ≡ lexical_normalize (front ++ rest))
      × (lexical_normalize (root_dir ∷ parent_dir ∷ rest) ≡ lexical_normalize (root_dir ∷ rest))
      × (lexical_normalize (parent_dir ∷ rest) ≡ lexical_normalize rest)
      × (lexical_normalize kept ≡ kept)
      × AllKept (lexical_normalize front)
unfolding lexical_normalize normalize_from push_component pop_normal
lexical_normalize_lem front rest kept name a = (
  normalize-skip front (normal name ∷ parent_dir ∷ []) rest (λ k. refl),
  normalize-skip front (cur_dir ∷ []) rest (λ k. refl),
  refl,
  refl,
  normalize-kept kept a,
  lexical_normalize-AllKept front,
)
