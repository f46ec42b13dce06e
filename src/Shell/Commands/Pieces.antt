-- ===== src/Shell/Commands/Pieces.antt =====
-- Without quotes and backslashes, the commands are those of the pieces between operator bytes.
use mathlib.Core.List.{append_assoc}
use oxicrab.Base.{
  ℕ, ◌==◌, ltb, Bool, true, false, not, ◌&&◌, some, List, [], ◌∷◌, ◌++◌, ◌≡◌, refl, arith, ◌∙◌, ap,
  sym, All, Bool-cases, inl, inr, if◌then◌else◌,
}
use oxicrab.Base.Text.{Text}
use oxicrab.Base.Utf8.{is_continuation}
use oxicrab.Shell.Commands.{
  Words, scan_bytes, scan_byte, scan_alive, scan_plain, close_segment, is_operator,
  extract_all_commands, names_of, starts_with_byte, is_double, is_blank, extract_command_name,
}
use oxicrab.Shell.Commands.Ascii.{is_plain, outside, scan_byte-plain}

-- The pieces of a text between operator bytes, the first one after what is already read of it.
unfoldable pub pieces_from : Text → Text → List Text
pieces_from piece [] = piece ∷ []
pieces_from piece (c ∷ cs) =
    let close = pieces_from [] cs in
    let keep = pieces_from (piece ++ (c ∷ [])) cs in if is_operator c then piece ∷ close else keep

-- An ASCII byte that is no quote and no backslash.
unfoldable pub is_unquoted : ℕ → Bool
is_unquoted c = ((ltb c 128 && not (c == 92)) && not (c == 39)) && not (c == 34)

scan_byte-operator :
    (c : ℕ) (rest g : Text) (gs : List Text)
    → is_unquoted c ≡ true
    → is_operator c ≡ true
    → scan_byte c rest (outside false g gs) ≡ outside (is_double c rest) [] (gs ++ (g ∷ []))
unfolding scan_byte scan_alive scan_plain is_unquoted close_segment
scan_byte-operator c rest g gs h f =
    let a : (c == 92) ≡ false = ground arith in
    let b : (c == 39) ≡ false = ground arith in
    let d : (c == 34) ≡ false = ground arith in
    let e : is_continuation c ≡ false = ground arith in rw (a, b, d, e, f) refl

scan_byte-skipped :
    (c : ℕ) (rest : Text) (gs : List Text)
    → scan_byte c rest (outside true [] gs) ≡ outside false [] gs
unfolding scan_byte scan_alive
scan_byte-skipped c rest gs = refl

plain_unless : (c : ℕ) → is_unquoted c ≡ true → is_operator c ≡ false → is_plain c ≡ true
unfolding is_unquoted is_plain
plain_unless c h e = ground arith

is_double-operator : (c d : ℕ) (rest : Text) → is_double c (d ∷ rest) ≡ true → is_operator d ≡ true
unfolding is_double is_operator starts_with_byte
is_double-operator c d rest h = ground arith

is_double-end : (c : ℕ) → is_double c [] ≡ false
unfolding is_double starts_with_byte
is_double-end c = ground arith

pieces-operator :
    (c : ℕ) (g cs : Text) → is_operator c ≡ true → pieces_from g (c ∷ cs) ≡ g ∷ pieces_from [] cs
unfolding pieces_from
pieces-operator c g cs e = rw e refl

pieces-plain :
    (c : ℕ) (g cs : Text)
    → is_operator c ≡ false
    → pieces_from g (c ∷ cs) ≡ pieces_from (g ++ (c ∷ [])) cs
unfolding pieces_from
pieces-plain c g cs e = rw e refl

module _ (w : Words) (blank : is_blank w [] ≡ true) where
  names_of-blank : (gs hs : List Text) → names_of w (gs ++ ([] ∷ hs)) ≡ names_of w (gs ++ hs)
  unfolding names_of
  names_of-blank [] hs = rw blank refl
  names_of-blank (g ∷ gs) hs = elim (Bool-cases (is_blank w g)) [
    | inl e ↦ rw e (names_of-blank gs hs)
    | inr e ↦ rw e (ap (λ ns. extract_command_name w g ∷ ns) (names_of-blank gs hs))
  ]

  -- The scan ends outside quotes, with the names of the pieces.
  record Ends (cs g : Text) (gs : List Text) : Type 0 where
    skipping : Bool
    segment : Text
    segments : List Text
    reached : scan_bytes cs (outside false g gs) ≡ outside skipping segment segments
    names : names_of w (segments ++ (segment ∷ [])) ≡ names_of w (gs ++ pieces_from g cs)

  Ends-via :
      (ds cs g k : Text) (gs ks : List Text)
      → scan_bytes ds (outside false g gs) ≡ scan_bytes cs (outside false k ks)
      → names_of w (ks ++ pieces_from k cs) ≡ names_of w (gs ++ pieces_from g ds)
      → Ends cs k ks
      → Ends ds g gs
  Ends-via ds cs g k gs ks e f v = record {
    skipping = v.skipping;
    segment = v.segment;
    segments = v.segments;
    reached = e ∙ v.reached;
    names = v.names ∙ f;
  }

  Ends-plain :
      (c : ℕ) (cs g : Text) (gs : List Text)
      → is_unquoted c ≡ true
      → is_operator c ≡ false
      → Ends cs (g ++ (c ∷ [])) gs
      → Ends (c ∷ cs) g gs
  unfolding scan_bytes
  Ends-plain c cs g gs u e v =
      Ends-via (c ∷ cs) cs g (g ++ (c ∷ [])) gs gs
        (ap (scan_bytes cs) (scan_byte-plain c cs g gs (plain_unless c u e)))
        (ap (λ p. names_of w (gs ++ p)) (sym (pieces-plain c g cs e))) v

  Ends-close :
      (c : ℕ) (cs g : Text) (gs : List Text)
      → is_unquoted c ≡ true
      → is_operator c ≡ true
      → is_double c cs ≡ false
      → Ends cs [] (gs ++ (g ∷ []))
      → Ends (c ∷ cs) g gs
  unfolding scan_bytes
  Ends-close c cs g gs u e f v =
      Ends-via (c ∷ cs) cs g [] gs (gs ++ (g ∷ []))
        (ap (scan_bytes cs)
          (scan_byte-operator c cs g gs u e ∙ ap (λ b. outside b [] (gs ++ (g ∷ []))) f))
        (ap (names_of w) (append_assoc gs (g ∷ []) (pieces_from [] cs))
          ∙ ap (λ p. names_of w (gs ++ p)) (sym (pieces-operator c g cs e)))
        v

  Ends-double :
      (c d : ℕ) (ds g : Text) (gs : List Text)
      → is_unquoted c ≡ true
      → is_operator c ≡ true
      → is_double c (d ∷ ds) ≡ true
      → Ends ds [] (gs ++ (g ∷ []))
      → Ends (c ∷ d ∷ ds) g gs
  unfolding scan_bytes
  Ends-double c d ds g gs u e f v =
      Ends-via (c ∷ d ∷ ds) ds g [] gs (gs ++ (g ∷ []))
        (ap (scan_bytes (d ∷ ds))
            (scan_byte-operator c (d ∷ ds) g gs u e ∙ ap (λ b. outside b [] (gs ++ (g ∷ []))) f)
          ∙ ap (scan_bytes ds) (scan_byte-skipped d ds (gs ++ (g ∷ []))))
        (sym (names_of-blank (gs ++ (g ∷ [])) (pieces_from [] ds))
          ∙ ap (names_of w) (append_assoc gs (g ∷ []) ([] ∷ pieces_from [] ds))
          ∙ ap (λ p. names_of w (gs ++ (g ∷ p)))
              (sym (pieces-operator d [] ds (is_double-operator c d ds f)))
          ∙ ap (λ p. names_of w (gs ++ p)) (sym (pieces-operator c g (d ∷ ds) e)))
        v

  scan_bytes-Ends :
      (cs g : Text) (gs : List Text) → All (λ c. is_unquoted c ≡ true) cs → Ends cs g gs
  unfolding scan_bytes pieces_from
  scan_bytes-Ends [] g gs a = record {
    skipping = false;
    segment = g;
    segments = gs;
    reached = refl;
    names = refl;
  }
  scan_bytes-Ends (c ∷ []) g gs a = elim (Bool-cases (is_operator c)) [
    | inr e ↦ Ends-plain c [] g gs a.0 e (scan_bytes-Ends [] (g ++ (c ∷ [])) gs tt)
    | inl e ↦
        Ends-close c [] g gs a.0 e (is_double-end c) (scan_bytes-Ends [] [] (gs ++ (g ∷ [])) tt)
  ]
  scan_bytes-Ends (c ∷ d ∷ ds) g gs a = elim (Bool-cases (is_operator c)) [
    | inr e ↦ Ends-plain c (d ∷ ds) g gs a.0 e (scan_bytes-Ends (d ∷ ds) (g ++ (c ∷ [])) gs a.1)
    | inl e ↦ elim (Bool-cases (is_double c (d ∷ ds))) [
      | inr f ↦
          Ends-close c (d ∷ ds) g gs a.0 e f (scan_bytes-Ends (d ∷ ds) [] (gs ++ (g ∷ [])) a.1)
      | inl f ↦ Ends-double c d ds g gs a.0 e f (scan_bytes-Ends ds [] (gs ++ (g ∷ [])) a.1.1)
    ]
  ]

-- In a command line of ASCII without quotes and backslashes, the guard finds exactly the commands of
-- the pieces between operator bytes, `&`, `|`, `;` and line feeds, that are not blank: it neither panics
-- nor lets an operator of two bytes hide a piece. The empty text is blank.
pub extract_all_commands_lem :
    (w : Words) (command : Text)
    → is_blank w [] ≡ true
    → All (λ c. is_unquoted c ≡ true) command
    → extract_all_commands w command ≡ some (names_of w (pieces_from [] command))
unfolding extract_all_commands
extract_all_commands_lem w command blank a =
    let v = scan_bytes-Ends w blank command [] [] a in rw (v.reached, v.names) refl
