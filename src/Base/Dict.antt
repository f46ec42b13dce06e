-- ===== src/Base/Dict.antt =====
-- Rust's `HashMap<String, V>` as an association list: `insert` replaces, `remove` drops the key.
use mathlib.Core.Path.{◌≡◌, refl, sym, ap, subst, ◌∙◌}
use mathlib.Core.Bool.{Bool, false}
use mathlib.Core.Logic.{◌⊎◌, inl, inr}
use mathlib.Core.List.{List, [], ◌∷◌}
use mathlib.Core.Option.{Option, none, some}
use native.Mathlib.Omega.{arith}
use Prim.Native.String.{String}
use text.Mathlib.Text.{◌==◌}
use text.Mathlib.TextEquality.{eq_iff}
use text.Mathlib.TextPositions.{eq_refl}
use oxicrab.Base.Tests.{if◌then◌else◌, Bool-cases}
use oxicrab.Base.Lists.{filter_by}

abbrev pub Dict {ℓ} : Type ℓ → Type ℓ
Dict V = List (String × V)

module _ {ℓ} {V : Type ℓ} where
  unfoldable pub remove : String → Dict V → Dict V
  remove key [] = []
  remove key ((at, old) ∷ rest) =
      let kept = remove key rest in if at == key then kept else (at, old) ∷ kept

  unfoldable pub insert : String → V → Dict V → Dict V
  insert key new [] = (key, new) ∷ []
  insert key new ((at, old) ∷ rest) =
      let kept = insert key new rest in if at == key then (key, new) ∷ rest else (at, old) ∷ kept

  unfoldable pub lookup : String → Dict V → Option V
  lookup key [] = none
  lookup key ((at, old) ∷ rest) =
      let deeper = lookup key rest in if at == key then some old else deeper

  pub lookup-remove :
      (key other : String) (d : Dict V)
      → lookup other (remove key d) ≡ (if key == other then none else lookup other d)
  unfolding lookup remove
  lookup-remove key other [] = ground arith
  lookup-remove key other ((at, old) ∷ rest) =
      ground (arith, lookup-remove key other rest, eq_iff at other, eq_iff at key, eq_iff key other)

  pub lookup-insert :
      (key other : String) (new : V) (d : Dict V)
      → lookup other (insert key new d) ≡ (if key == other then some new else lookup other d)
  unfolding lookup insert
  lookup-insert key other new [] = refl
  lookup-insert key other new ((at, old) ∷ rest) =
      ground
        (arith, lookup-insert key other new rest, eq_iff at other, eq_iff at key, eq_iff key other)

  pub lookup-insert_self :
      (key : String) (new : V) (d : Dict V) → lookup key (insert key new d) ≡ some new
  lookup-insert_self key new d = rw (lookup-insert key key new d, eq_refl)

  pub lookup-remove_self : (key : String) (d : Dict V) → lookup key (remove key d) ≡ none
  lookup-remove_self key d = rw (lookup-remove key key d, eq_refl)

  -- A removed entry that is put back.
  pub lookup-insert-remove :
      (k j : String) (v : V) (m : Dict V)
      → lookup k m ≡ some v
      → lookup j (insert k v (remove k m)) ≡ lookup j m
  lookup-insert-remove k j v m e = elim (Bool-cases (k == j)) [
    | inl same ↦ rw (lookup-insert, same) (sym e ∙ ap (λ i. lookup i m) ((eq_iff k j).0 same))
    | inr other ↦ rw (lookup-insert, other, lookup-remove, other)
  ]

  -- A map holds each key once.
  abbrev pub Distinct : Dict V → Type ℓ
  Distinct [] = Unit
  Distinct ((key, v) ∷ rest) = (lookup key rest ≡ none) × Distinct rest

  pub lookup-filter_by-none :
      (p : String × V → Bool) (key : String) (d : Dict V)
      → lookup key d ≡ none
      → lookup key (filter_by p d) ≡ none
  unfolding lookup
  lookup-filter_by-none p key [] h = refl
  lookup-filter_by-none p key ((at, v) ∷ rest) h = ground (arith, lookup-filter_by-none p key rest)

  pub Distinct-filter_by :
      (p : String × V → Bool) (d : Dict V) → Distinct d → Distinct (filter_by p d)
  Distinct-filter_by p [] h = tt
  Distinct-filter_by p ((at, v) ∷ rest) h =
      ground (arith, lookup-filter_by-none p at rest, Distinct-filter_by p rest h.1)

  pub Distinct-insert : (key : String) (v : V) (d : Dict V) → Distinct d → Distinct (insert key v d)
  unfolding insert lookup
  Distinct-insert key v [] h = (refl, tt)
  Distinct-insert key v ((at, w) ∷ rest) h = elim (Bool-cases (at == key)) [
    | inl same ↦ rw same (subst (λ k. lookup k rest ≡ none) ((eq_iff at key).0 same) h.0, h.1)
    | inr other ↦ rw other (
      lookup-insert key at v rest ∙ ground (arith, eq_iff key at, eq_iff at key),
      Distinct-insert key v rest h.1,
    )
  ]

  -- Under distinct keys, what `retain` leaves of a key.
  pub lookup-filter_by :
      (p : String × V → Bool) (key : String) (d : Dict V)
      → Distinct d
      → (lookup key (filter_by p d) ≡ lookup key d)
        ⊎ ((v : V) × (lookup key d ≡ some v)
            × (p (key, v) ≡ false)
            × (lookup key (filter_by p d) ≡ none))
  unfolding lookup
  lookup-filter_by p key [] h = inl refl
  lookup-filter_by p key ((at, v) ∷ rest) h = elim (Bool-cases (at == key)) [
    | inr other ↦ elim (Bool-cases (p (at, v))) [
      | inl keep ↦ rw (keep, other) (lookup-filter_by p key rest h.1)
      | inr drop ↦ rw (drop, other) (lookup-filter_by p key rest h.1)
    ]
    | inl same ↦ elim (Bool-cases (p (at, v))) [
      | inl keep ↦ rw (keep, same) (inl refl)
      | inr drop ↦
          let here = (eq_iff at key).0 same in
          rw (drop, same)
            (inr (
              v,
              refl,
              subst (λ k. p (k, v) ≡ false) here drop,
              lookup-filter_by-none p key rest (subst (λ k. lookup k rest ≡ none) here h.0),
            ))
    ]
  ]
