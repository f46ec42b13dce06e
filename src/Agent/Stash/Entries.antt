-- ===== src/Agent/Stash/Entries.antt =====
-- The entries of the cache as a list: their sizes, their keys, and its last entry.
use text.Mathlib.Text.{◌==◌ as str_eq}
use text.Mathlib.TextEquality.{eq_iff}
use oxicrab.Base.{
  ℕ, ◌+◌, ◌≤◌, ◌<◌, ◌≡◌, ◌⊎◌, inl, inr, refl, String, none, some, arith, [], ◌∷◌, ◌++◌, length, All,
  ap, sym, subst, ◌∙◌, Bool-cases,
}
use oxicrab.Base.Text.{Text}
use oxicrab.Base.Dict.{Dict, lookup, remove}

unfoldable pub sizes : Dict Text → ℕ
sizes [] = 0
sizes ((k, v) ∷ es) = length v + sizes es

abbrev pub Distinct : Dict Text → Type 0
Distinct [] = Unit
Distinct ((k, v) ∷ es) = (lookup k es ≡ none) × Distinct es

-- Every key is the text of an id below `n`.
abbrev pub Numbered : (ℕ → String) → ℕ → Dict Text → Type 0
Numbered format_id n = All (λ e. (i : ℕ) × (i < n) × (e.0 ≡ format_id i))

pub sizes-append : (xs ys : Dict Text) → sizes (xs ++ ys) ≡ sizes xs + sizes ys
unfolding sizes
sizes-append [] ys = omega arith
sizes-append ((k, v) ∷ xs) ys = omega (arith, sizes-append xs ys)

pub sizes-nil : sizes [] ≡ 0
unfolding sizes
sizes-nil = refl

pub sizes-cons :
    (k : String) (v : Text) (es : Dict Text) → sizes ((k, v) ∷ es) ≡ length v + sizes es
unfolding sizes
sizes-cons k v es = refl

pub sizes-snoc :
    (xs : Dict Text) (last : String × Text) → sizes (xs ++ (last ∷ [])) ≡ sizes xs + length last.1
unfolding sizes
sizes-snoc xs last = omega (arith, sizes-append xs (last ∷ []))

pub last-cases :
    (es : Dict Text)
    → (es ≡ []) ⊎ ((xs : Dict Text) × (last : String × Text) × (es ≡ xs ++ (last ∷ [])))
last-cases [] = inl refl
last-cases (e ∷ es) = elim (last-cases es) [
  | inl p ↦ inr ([], e, ap (◌∷◌ e) p)
  | inr (xs, last, p) ↦ inr (e ∷ xs, last, ap (◌∷◌ e) p)
]

lookup-append_left :
    (k : String) (xs ys : Dict Text) → lookup k (xs ++ ys) ≡ none → lookup k xs ≡ none
unfolding lookup
lookup-append_left k [] ys h = refl
lookup-append_left k ((j, v) ∷ xs) ys h = ground (arith, lookup-append_left k xs ys)

pub Distinct-append_left : (xs ys : Dict Text) → Distinct (xs ++ ys) → Distinct xs
Distinct-append_left [] ys d = tt
Distinct-append_left ((k, v) ∷ xs) ys d =
    (lookup-append_left k xs ys d.0, Distinct-append_left xs ys d.1)

pub All-append_left {ℓ} :
    (P : String × Text → Type ℓ) (xs ys : Dict Text) → All P (xs ++ ys) → All P xs
All-append_left P [] ys d = tt
All-append_left P (x ∷ xs) ys d = (d.0, All-append_left P xs ys d.1)

pub Numbered-mono :
    (f : ℕ → String) (n m : ℕ) (es : Dict Text) → n ≤ m → Numbered f n es → Numbered f m es
Numbered-mono f n m [] h d = tt
Numbered-mono f n m (e ∷ es) h d =
    let ((i, below, is), rest) = d in ((i, omega arith, is), Numbered-mono f n m es h rest)

-- A key whose id is not below `n` is not there.
pub lookup-Numbered :
    (f : ℕ → String) (n k : ℕ) (es : Dict Text)
    → ((a b : ℕ) → f a ≡ f b → a ≡ b)
    → n ≤ k
    → Numbered f n es
    → lookup (f k) es ≡ none
unfolding lookup
lookup-Numbered f n k [] inj h d = refl
lookup-Numbered f n k ((j, v) ∷ es) inj h d =
    let ((i, below, is), rest) = d in
    elim (Bool-cases (str_eq j (f k))) [
      | inl e ↦ absurd (omega (arith, inj i k (sym is ∙ (eq_iff j (f k)).0 e)))
      | inr e ↦ rw e (lookup-Numbered f n k es inj h rest)
    ]

remove-missing : (k : String) (es : Dict Text) → lookup k es ≡ none → remove k es ≡ es
unfolding lookup remove
remove-missing k [] h = refl
remove-missing k ((j, v) ∷ es) h = ground (arith, remove-missing k es)

-- Taking a key out of distinct keys takes its size, and one entry.
pub remove_counts :
    (k : String) (v : Text) (es : Dict Text)
    → Distinct es
    → lookup k es ≡ some v
    → (sizes (remove k es) + length v ≡ sizes es) × (length (remove k es) + 1 ≡ length es)
unfolding lookup remove sizes
remove_counts k v [] d h = cc
remove_counts k v ((j, w) ∷ es) d h = elim (Bool-cases (str_eq j k)) [
  | inl e ↦
      let same : j ≡ k = (eq_iff j k).0 e in
      let gone = remove-missing k es (subst (λ i. lookup i es ≡ none) same d.0) in
      let found : some w ≡ some v = rw e at h in
      let value : w ≡ v = cc found in rw e (rw gone (omega (arith, ap length value), omega arith))
  | inr e ↦
      let (bytes, count) = remove_counts k v es d.1 (rw e at h) in rw e (omega arith, omega arith)
]

lookup-remove-none :
    (j k : String) (es : Dict Text) → lookup j es ≡ none → lookup j (remove k es) ≡ none
unfolding lookup remove
lookup-remove-none j k [] h = refl
lookup-remove-none j k ((i, w) ∷ es) h = ground (arith, lookup-remove-none j k es)

pub Distinct-remove : (k : String) (es : Dict Text) → Distinct es → Distinct (remove k es)
unfolding remove
Distinct-remove k [] d = tt
Distinct-remove k ((j, w) ∷ es) d =
    ground (arith, Distinct-remove k es d.1, lookup-remove-none j k es d.0)

pub All-remove {ℓ} :
    (P : String × Text → Type ℓ) (k : String) (es : Dict Text) → All P es → All P (remove k es)
unfolding remove
All-remove P k [] d = tt
All-remove P k ((j, w) ∷ es) d = elim (Bool-cases (str_eq j k)) [
  | inl e ↦ rw e (All-remove P k es d.1)
  | inr e ↦ rw e (d.0, All-remove P k es d.1)
]

-- The entry that a key finds satisfies what all entries do.
pub All-lookup {ℓ} :
    (P : String × Text → Type ℓ) (k : String) (v : Text) (es : Dict Text)
    → All P es
    → lookup k es ≡ some v
    → P (k, v)
unfolding lookup
All-lookup P k v [] d h = cc
All-lookup P k v ((j, w) ∷ es) d h = elim (Bool-cases (str_eq j k)) [
  | inl e ↦
      let same : j ≡ k = (eq_iff j k).0 e in
      let found : some w ≡ some v = rw e at h in
      let value : w ≡ v = cc found in subst P (λ i. (same i, value i)) d.0
  | inr e ↦ All-lookup P k v es d.1 (rw e at h)
]
