-- ===== src/Session/History.antt =====
-- A session holds the last of the messages that were added to it.
use mathlib.Core.List.{append-nil, append_assoc}
use oxicrab.Base.{
  ℕ, zero, suc, ◌+◌, ◌-◌, ◌≤◌, min, String, ltb, List, [], ◌∷◌, ◌++◌, ◌≡◌, refl, arith, ◌∙◌, ap,
  sym, map, drop, length, length-append, length-drop, Bool-cases, inl, inr,
}
use oxicrab.Base.Text.{Text}
use oxicrab.Base.Dict.{Dict}
use oxicrab.Session.{
  Value, MessageData, Session, new_session, message_of, prune_oldest, add_message, message_to_map,
  get_history,
}

step : (k j : ℕ) → suc (k + j) ≡ suc k + j
step k j = omega arith

module _ {ℓ} {A : Type ℓ} where
  -- The last `n` of a list.
  abbrev pub last_of : ℕ → List A → List A
  last_of n xs = drop (length xs - n) xs

  drop-append : (k : ℕ) (xs ys : List A) → k ≤ length xs → drop k (xs ++ ys) ≡ drop k xs ++ ys
  drop-append zero xs ys h = refl
  drop-append (suc k) [] ys h = absurd (ground arith)
  drop-append (suc k) (x ∷ xs) ys h = drop-append k xs ys (omega arith)

  drop-nil : (k : ℕ) → ◌≡◌ {A = List A} (drop k []) []
  drop-nil zero = refl
  drop-nil (suc k) = refl

  drop-drop : (j k : ℕ) (xs : List A) → drop j (drop k xs) ≡ drop (k + j) xs
  drop-drop j zero xs = ap (λ i. drop i xs) (omega arith)
  drop-drop j (suc k) [] = drop-nil j ∙ sym (drop-nil (suc k + j))
  drop-drop j (suc k) (x ∷ xs) = drop-drop j k xs ∙ ap (λ i. drop i (x ∷ xs)) (step k j)

  -- What is left of the last is left of all.
  last_of-append : (n : ℕ) (xs ys : List A) → last_of n (last_of n xs ++ ys) ≡ last_of n (xs ++ ys)
  last_of-append n xs ys =
      let k = length xs - n in
      let front : drop k (xs ++ ys) ≡ drop k xs ++ ys = drop-append k xs ys (omega arith) in
      ap (λ zs. drop (length zs - n) zs) (sym front)
      ∙ drop-drop (length (drop k (xs ++ ys)) - n) k (xs ++ ys)
      ∙ ap (λ j. drop j (xs ++ ys)) (omega (arith, length-drop k (xs ++ ys), length-append xs ys))

  last_of-last_of : (m n : ℕ) (xs : List A) → last_of m (last_of n xs) ≡ last_of (min m n) xs
  last_of-last_of m n xs =
      drop-drop (length (drop (length xs - n) xs) - m) (length xs - n) xs
      ∙ ap (λ j. drop j xs) (omega (arith, length-drop (length xs - n) xs))

-- A call of `add_message`: the time, the role, the content and the extra values.
pub record Added {ℓ} (R : Type ℓ) : Type ℓ where
  pub now : Text
  pub role : Text
  pub content : Text
  pub extra : Dict (Value R)

module _ {ℓ} {R : Type ℓ} where
  unfoldable pub add_all : List (Added R) → Session R → Session R
  add_all [] s = s
  add_all (a ∷ rest) s = add_all rest (add_message a.now a.role a.content a.extra s)

  abbrev pub message : Added R → MessageData R
  message a = message_of a.now a.role a.content a.extra

  prune_oldest-last_of : (ms : List (MessageData R)) → prune_oldest ms ≡ last_of 200 ms
  unfolding prune_oldest
  prune_oldest-last_of ms = elim (Bool-cases (ltb 200 (length ms))) [
    | inl e ↦ rw e refl
    | inr e ↦ let z : 0 ≡ length ms - 200 = ground arith in rw e (ap (λ k. drop k ms) z)
  ]

  add_all-messages :
      (added : List (Added R)) (past : List (MessageData R)) (s : Session R)
      → s.messages ≡ last_of 200 past
      → (add_all added s).messages ≡ last_of 200 (past ++ map message added)
  unfolding add_all add_message
  add_all-messages [] past s e = e ∙ ap (last_of 200) (sym (append-nil past))
  add_all-messages (a ∷ added) past s e =
      add_all-messages added (past ++ (message a ∷ []))
        (add_message a.now a.role a.content a.extra s)
        (prune_oldest-last_of (s.messages ++ (message a ∷ []))
          ∙ ap (λ ms. last_of 200 (ms ++ (message a ∷ []))) e
          ∙ last_of-append 200 past (message a ∷ []))
      ∙ ap (last_of 200) (append_assoc past (message a ∷ []) (map message added))

  history-last_of :
      (n : ℕ) (s : Session R) → get_history n s ≡ map message_to_map (last_of n s.messages)
  unfolding get_history
  history-last_of n s = elim (Bool-cases (ltb n (length s.messages))) [
    | inl e ↦ rw e refl
    | inr e ↦
        let z : 0 ≡ length s.messages - n = ground arith in
        rw e (ap (λ k. map message_to_map (drop k s.messages)) z)
  ]

  -- However many messages are added to a new session, it holds the last 200 of them in their order, and
  -- a history of `n` messages is the last `n` of those, at most 200.
  pub history_lem :
      (key : String) (now : Text) (added : List (Added R)) (n : ℕ)
      → ((add_all added (new_session key now)).messages ≡ last_of 200 (map message added))
        × (get_history n (add_all added (new_session key now))
            ≡ map message_to_map (last_of (min n 200) (map message added)))
  unfolding new_session
  history_lem key now added n =
      let held : (add_all added (new_session key now)).messages ≡ last_of 200 (map message added) =
        add_all-messages added [] (new_session key now) refl in
      (
        held,
        history-last_of n (add_all added (new_session key now))
            ∙ ap (λ ms. map message_to_map (last_of n ms)) held
            ∙ ap (map message_to_map) (last_of-last_of n 200 (map message added)),
      )
