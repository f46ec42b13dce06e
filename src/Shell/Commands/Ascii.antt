-- ===== src/Shell/Commands/Ascii.antt =====
-- Where the scan of a command line panics.
use mathlib.Core.List.{append-nil, append_assoc}
use oxicrab.Base.{
  ℕ, ◌≤◌, ◌==◌, ltb, Bool, true, false, not, ◌&&◌, ◌||◌, none, List, [], ◌∷◌, ◌++◌, ◌≡◌, refl,
  arith, ◌∙◌, ap, sym, subst, All, Bool-cases, inl, inr, if◌then◌else◌,
}
use oxicrab.Base.Text.{Text}
use oxicrab.Base.Utf8.{is_continuation}
use oxicrab.Shell.Commands.{
  Words, Scan, scan_bytes, scan_byte, scan_alive, scan_plain, start, is_operator,
  extract_all_commands,
}

-- A byte that is no quote, no backslash and no operator, and is ASCII.
unfoldable pub is_plain : ℕ → Bool
is_plain c =
    (((ltb c 128 && not (c == 92)) && not (c == 39)) && not (c == 34)) && not (is_operator c)

-- The scan outside quotes and escapes.
abbrev pub outside : Bool → Text → List Text → Scan
outside skipping segment segments = record {
  in_single = false;
  in_double = false;
  escaped = false;
  skipping = skipping;
  panicked = false;
  segment = segment;
  segments = segments;
}

pub scan_byte-plain :
    (c : ℕ) (rest g : Text) (gs : List Text)
    → is_plain c ≡ true
    → scan_byte c rest (outside false g gs) ≡ outside false (g ++ (c ∷ [])) gs
unfolding scan_byte scan_alive scan_plain is_plain
scan_byte-plain c rest g gs h =
    let a : (c == 92) ≡ false = ground arith in
    let b : (c == 39) ≡ false = ground arith in
    let d : (c == 34) ≡ false = ground arith in
    let e : is_continuation c ≡ false = ground arith in
    let f : is_operator c ≡ false = ground arith in rw (a, b, d, e, f) refl

scan_bytes-plain :
    (front rest g : Text) (gs : List Text)
    → All (λ c. is_plain c ≡ true) front
    → scan_bytes (front ++ rest) (outside false g gs)
      ≡ scan_bytes rest (outside false (g ++ front) gs)
unfolding scan_bytes
scan_bytes-plain [] rest g gs a =
    ap (λ x. scan_bytes rest (outside false x gs)) (sym (append-nil g))
scan_bytes-plain (c ∷ front) rest g gs a =
    ap (scan_bytes (front ++ rest)) (scan_byte-plain c (front ++ rest) g gs a.0)
    ∙ scan_bytes-plain front rest (g ++ (c ∷ [])) gs a.1
    ∙ ap (λ x. scan_bytes rest (outside false x gs)) (append_assoc g (c ∷ []) front)

scan_byte-panicked : (c : ℕ) (rest : Text) (s : Scan) → s.panicked ≡ true → scan_byte c rest s ≡ s
unfolding scan_byte
scan_byte-panicked c rest s e = elim (Bool-cases s.panicked) [
  | inl f ↦ ap (λ b. if b then s else scan_alive c rest s) f
  | inr f ↦ absurd (ground arith)
]

panicked_stays : (rest : Text) (s : Scan) → s.panicked ≡ true → (scan_bytes rest s).panicked ≡ true
unfolding scan_bytes
panicked_stays [] s e = e
panicked_stays (c ∷ rest) s e =
    subst (λ x. (scan_bytes rest x).panicked ≡ true) (sym (scan_byte-panicked c rest s e))
      (panicked_stays rest s e)

scan_byte-lead :
    (c : ℕ) (rest g : Text) (gs : List Text)
    → 192 ≤ c
    → scan_byte c rest (outside false g gs) ≡ outside false (g ++ (c ∷ [])) gs
unfolding scan_byte scan_alive scan_plain is_operator
scan_byte-lead c rest g gs h =
    let a : (c == 92) ≡ false = ground arith in
    let b : (c == 39) ≡ false = ground arith in
    let d : (c == 34) ≡ false = ground arith in
    let e : is_continuation c ≡ false = ground arith in
    let f : (((c == 124 || c == 59) || c == 10) || c == 38) ≡ false = ground arith in
    rw (a, b, d, e, f) refl

scan_byte-inside :
    (c : ℕ) (rest g : Text) (gs : List Text)
    → is_continuation c ≡ true
    → (scan_byte c rest (outside false g gs)).panicked ≡ true
unfolding scan_byte scan_alive scan_plain
scan_byte-inside c rest g gs h =
    let a : (c == 92) ≡ false = ground arith in
    let b : (c == 39) ≡ false = ground arith in
    let d : (c == 34) ≡ false = ground arith in rw (a, b, d, h) refl

-- The first byte that is no plain ASCII begins a character outside quotes, and the scan slices inside it.
pub extract_all_commands-non_ascii :
    (w : Words) (front rest : Text) (lead continuation : ℕ)
    → All (λ c. is_plain c ≡ true) front
    → 192 ≤ lead
    → is_continuation continuation ≡ true
    → extract_all_commands w (front ++ (lead ∷ continuation ∷ rest)) ≡ none
unfolding extract_all_commands scan_bytes
extract_all_commands-non_ascii w front rest lead continuation a h e =
    let after : scan_bytes (front ++ (lead ∷ continuation ∷ rest)) start
        ≡ scan_bytes rest (scan_byte continuation rest (outside false (front ++ (lead ∷ [])) [])) =
      scan_bytes-plain front (lead ∷ continuation ∷ rest) [] [] a
      ∙ ap (scan_bytes (continuation ∷ rest))
          (scan_byte-lead lead (continuation ∷ rest) front [] h) in
    let panics : (scan_bytes (front ++ (lead ∷ continuation ∷ rest)) start).panicked ≡ true =
      ap (λ x. x.panicked) after
      ∙ panicked_stays rest (scan_byte continuation rest (outside false (front ++ (lead ∷ [])) []))
          (scan_byte-inside continuation rest (front ++ (lead ∷ [])) [] e) in
    rw panics refl
