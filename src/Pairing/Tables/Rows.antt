-- ===== src/Pairing/Tables/Rows.antt =====
-- Rows that a statement reads, keeps or adds.
use oxicrab.Base.{
  ◌+◌, ◌≤◌, Bool, true, false, not, ◌||◌, none, some, List, [], ◌∷◌, ◌++◌, ◌≡◌, refl, arith, length,
  any, filter_by, All, Bool-cases, inl, inr, if◌then◌else◌, subst,
}
use oxicrab.Pairing.Tables.{find_row}

module _ {ℓ} {A : Type ℓ} where
  pub any-append : (p : A → Bool) (xs ys : List A) → any p (xs ++ ys) ≡ (any p xs || any p ys)
  any-append p [] ys = refl
  any-append p (x ∷ xs) ys = ground (arith, any-append p xs ys)

  pub All-append {κ} : (P : A → Type κ) (xs ys : List A) → All P xs → All P ys → All P (xs ++ ys)
  All-append P [] ys h k = k
  All-append P (x ∷ xs) ys h k = (h.0, All-append P xs ys h.1 k)

  pub All-map {κ λ₁} :
      (P : A → Type κ) (Q : A → Type λ₁) (xs : List A) → ((x : A) → P x → Q x) → All P xs → All Q xs
  All-map P Q [] f h = tt
  All-map P Q (x ∷ xs) f h = (f x h.0, All-map P Q xs f h.1)

  pub any_mono :
      (p q : A → Bool) (xs : List A)
      → ((x : A) → p x ≡ true → q x ≡ true)
      → any p xs ≡ true
      → any q xs ≡ true
  any_mono p q [] f h = h
  any_mono p q (x ∷ xs) f h = elim (Bool-cases (p x)) [
    | inl e ↦ let here = f x e in ground arith
    | inr e ↦ let later = any_mono p q xs f in ground arith
  ]

  pub any-filter_by-false :
      (p q : A → Bool) (xs : List A) → any p xs ≡ false → any p (filter_by q xs) ≡ false
  any-filter_by-false p q [] h = refl
  any-filter_by-false p q (x ∷ xs) h = ground (arith, any-filter_by-false p q xs)

  pub any-filter_by_self :
      (p : A → Bool) (xs : List A) → any p (filter_by (λ x. not (p x)) xs) ≡ false
  any-filter_by_self p [] = refl
  any-filter_by_self p (x ∷ xs) = ground (arith, any-filter_by_self p xs)

  pub length-filter_by_mono :
      (p q : A → Bool) (xs : List A)
      → ((x : A) → p x ≡ true → q x ≡ true)
      → length (filter_by p xs) ≤ length (filter_by q xs)
  length-filter_by_mono p q [] f = omega arith
  length-filter_by_mono p q (x ∷ xs) f =
      let rest = length-filter_by_mono p q xs f in
      elim (Bool-cases (p x)) [ inl e ↦ let here = f x e in ground arith | inr e ↦ ground arith ]

  pub length-filter_by_twice :
      (p q : A → Bool) (xs : List A)
      → length (filter_by p (filter_by q xs)) ≤ length (filter_by p xs)
  length-filter_by_twice p q [] = omega arith
  length-filter_by_twice p q (x ∷ xs) = ground (arith, length-filter_by_twice p q xs)

  pub length-filter_by_snoc :
      (p : A → Bool) (xs : List A) (x : A)
      → length (filter_by p (xs ++ (x ∷ []))) ≡ length (filter_by p xs) + (if p x then 1 else 0)
  length-filter_by_snoc p [] x = ground arith
  length-filter_by_snoc p (y ∷ ys) x = ground (arith, length-filter_by_snoc p ys x)

  pub find_row-true : (p : A → Bool) (xs : List A) (x : A) → find_row p xs ≡ some x → p x ≡ true
  unfolding find_row
  find_row-true p [] x h = absurd (ground arith)
  find_row-true p (y ∷ ys) x h = elim (Bool-cases (p y)) [
    | inl e ↦
        let found : some y ≡ some x = rw e at h in
        let value : y ≡ x = cc found in subst (λ z. p z ≡ true) value e
    | inr e ↦ find_row-true p ys x (rw e at h)
  ]

  pub find_row-All {κ} :
      (P : A → Type κ) (p : A → Bool) (xs : List A) (x : A)
      → All P xs
      → find_row p xs ≡ some x
      → P x
  unfolding find_row
  find_row-All P p [] x a h = absurd (ground arith)
  find_row-All P p (y ∷ ys) x a h = elim (Bool-cases (p y)) [
    | inl e ↦
        let found : some y ≡ some x = rw e at h in let value : y ≡ x = cc found in subst P value a.0
    | inr e ↦ find_row-All P p ys x a.1 (rw e at h)
  ]

  pub find_row-none : (p : A → Bool) (xs : List A) → find_row p xs ≡ none → any p xs ≡ false
  unfolding find_row
  find_row-none p [] h = refl
  find_row-none p (y ∷ ys) h = elim (Bool-cases (p y)) [
    | inl e ↦ absurd (ground arith)
    | inr e ↦ rw e (find_row-none p ys (rw e at h))
  ]
