-- ===== src/Provider/Fallback/Outcome.antt =====
-- How a chain of providers ends.
use oxicrab.Base.{
  some, ℕ, suc, ◌+◌, Bool, true, false, not, ◌&&◌, String, List, [], ◌∷◌, ◌++◌, ◌≡◌, ◌⊎◌, inl, inr,
  refl, sym, ap, subst, ◌∙◌, arith, length, All, Bool-cases, if◌then◌else◌,
}
use oxicrab.Base.Result.{Result, ok, err, Result-cases}
use oxicrab.Errors.{AnyError}
use oxicrab.Provider.Fallback.{
  LlmProvider, LlmResponse, ChatRequest, FallbackProvider, FallbackError, passed_on, all_failed,
  is_malformed, tagged, attempt_request, is_last, is_non_transient, chat_from, chat,
}

module _ {ℓ} {J : Type ℓ} (is_object : J → Bool) (req : ChatRequest J) where
  -- The chain goes on after the provider: it gave malformed tool calls, or an error that may pass.
  abbrev pub IsSkipped : LlmProvider J × String → Type ℓ
  IsSkipped p =
      ((r : LlmResponse J) × (p.0 (attempt_request req) ≡ ok r) × (is_malformed is_object r ≡ true))
      ⊎ ((e : AnyError) × (p.0 (attempt_request req) ≡ err e) × (is_non_transient e ≡ false))

  -- The provider gave an error that may pass.
  abbrev pub IsFailed : LlmProvider J × String → Type ℓ
  IsFailed p = (e : AnyError) × (p.0 (attempt_request req) ≡ err e) × (is_non_transient e ≡ false)

  -- There is no provider, or the last one failed.
  abbrev pub FailsLast : List (LlmProvider J × String) → Type ℓ
  FailsLast ps =
      (ps ≡ [])
      ⊎ ((before : List (LlmProvider J × String)) × (last : LlmProvider J × String) × (ps
            ≡ before ++ (last ∷ []))
          × IsFailed last)

  FailsLast-skip :
      (p : LlmProvider J × String) (ps : List (LlmProvider J × String))
      → IsFailed p ⊎ (is_last ps ≡ false)
      → FailsLast ps
      → FailsLast (p ∷ ps)
  unfolding is_last
  FailsLast-skip p ps h (inr (before, last, split, failed)) =
      inr (p ∷ before, last, ap (◌∷◌ p) split, failed)
  FailsLast-skip p ps (inl failed) (inl none_left) = inr ([], p, ap (◌∷◌ p) none_left, failed)
  FailsLast-skip p ps (inr more) (inl none_left) =
      absurd (ground (arith, subst (λ qs. is_last qs ≡ false) none_left more))

  -- The outcome of the rest of a chain, after `i` providers.
  abbrev pub EndsAs :
      ℕ → List (LlmProvider J × String) → Result FallbackError (LlmResponse J) → Type ℓ
  EndsAs i ps out =
      ((skipped rest : List (LlmProvider J × String)) × (provider : LlmProvider J) × (name : String)
        × (ps ≡ skipped ++ ((provider, name) ∷ rest))
        × All IsSkipped skipped
        × (((r : LlmResponse J) × (provider (attempt_request req) ≡ ok r)
              × ((is_malformed is_object r ≡ false) ⊎ (rest ≡ []))
              × (out ≡ ok (tagged (i + length skipped) name r)))
            ⊎ ((e : AnyError) × (provider (attempt_request req) ≡ err e)
                × (is_non_transient e ≡ true)
                × (out ≡ err (passed_on e)))))
      ⊎ (All IsSkipped ps
          × FailsLast ps
          × ((errors : List (ℕ × String × AnyError)) × (out ≡ err (all_failed errors))))

  EndsAs-skip :
      (i : ℕ) (p : LlmProvider J × String) (ps : List (LlmProvider J × String))
      (out : Result FallbackError (LlmResponse J))
      → IsSkipped p
      → IsFailed p ⊎ (is_last ps ≡ false)
      → EndsAs (suc i) ps out
      → EndsAs i (p ∷ ps) out
  EndsAs-skip i p ps out h at_end (inr (all, last, failed)) =
      inr ((h, all), FailsLast-skip p ps at_end last, failed)
  EndsAs-skip i p ps out h at_end (inl (skipped, rest, provider, name, split, all, inr stopped)) =
      inl (p ∷ skipped, rest, provider, name, ap (◌∷◌ p) split, (h, all), inr stopped)
  EndsAs-skip i p ps out h at_end
        (inl (skipped, rest, provider, name, split, all, inl (r, gave, fits, is))) =
      let shift : suc i + length skipped ≡ i + length (p ∷ skipped) = omega arith in
      inl (
        p ∷ skipped,
        rest,
        provider,
        name,
        ap (◌∷◌ p) split,
        (h, all),
        inl (r, gave, fits, is ∙ ap (λ n. ok (tagged n name r)) shift),
      )

  chat_from-ok :
      (i : ℕ) (errors : List (ℕ × String × AnyError)) (provider : LlmProvider J) (name : String)
      (rest : List (LlmProvider J × String)) (r : LlmResponse J)
      → provider (attempt_request req) ≡ ok r
      → chat_from is_object req i errors ((provider, name) ∷ rest) ≡ (
          if is_malformed is_object r && not (is_last rest)
          then chat_from is_object req (suc i) errors rest
          else ok (tagged i name r))
  unfolding chat_from
  chat_from-ok i errors provider name rest r gave = rw (gave, chat_from) refl

  chat_from-err :
      (i : ℕ) (errors : List (ℕ × String × AnyError)) (provider : LlmProvider J) (name : String)
      (rest : List (LlmProvider J × String)) (e : AnyError)
      → provider (attempt_request req) ≡ err e
      → chat_from is_object req i errors ((provider, name) ∷ rest) ≡ (
          if is_non_transient e
          then err (passed_on e)
          else chat_from is_object req (suc i) (errors ++ ((suc i, name, e) ∷ [])) rest)
  unfolding chat_from
  chat_from-err i errors provider name rest e gave = rw (gave, chat_from) refl

  is_last-cases :
      (ps : List (LlmProvider J × String)) → (ps ≡ []) × (is_last ps ≡ true) ⊎ (is_last ps ≡ false)
  unfolding is_last
  is_last-cases [] = inl (refl, refl)
  is_last-cases (p ∷ ps) = inr refl

  served :
      (i : ℕ) (provider : LlmProvider J) (name : String) (rest : List (LlmProvider J × String))
      (r : LlmResponse J)
      → provider (attempt_request req) ≡ ok r
      → (is_malformed is_object r ≡ false) ⊎ (rest ≡ [])
      → EndsAs i ((provider, name) ∷ rest) (ok (tagged i name r))
  served i provider name rest r gave fits =
      let same : i ≡ i + 0 = omega arith in
      inl (
        [],
        rest,
        provider,
        name,
        refl,
        tt,
        inl (r, gave, fits, ap (λ n. ok (tagged n name r)) same),
      )

  answered :
      (i : ℕ) (errors : List (ℕ × String × AnyError)) (provider : LlmProvider J) (name : String)
      (rest : List (LlmProvider J × String)) (r : LlmResponse J)
      → provider (attempt_request req) ≡ ok r
      → EndsAs (suc i) rest (chat_from is_object req (suc i) errors rest)
      → EndsAs i ((provider, name) ∷ rest) (
          if is_malformed is_object r && not (is_last rest)
          then chat_from is_object req (suc i) errors rest
          else ok (tagged i name r))
  answered i errors provider name rest r gave later = elim (Bool-cases (is_malformed is_object r)) [
    | inr fits ↦ rw fits (served i provider name rest r gave (inl fits))
    | inl bad ↦ elim (is_last-cases rest) [
      | inl (none_left, last) ↦ rw (bad, last) (served i provider name rest r gave (inr none_left))
      | inr more ↦
          rw (bad, more)
            (EndsAs-skip i (provider, name) rest (chat_from is_object req (suc i) errors rest)
              (inl (r, gave, bad)) (inr more) later)
    ]
  ]

  refused :
      (i : ℕ) (provider : LlmProvider J) (name : String) (rest : List (LlmProvider J × String))
      (e : AnyError) (next : Result FallbackError (LlmResponse J))
      → provider (attempt_request req) ≡ err e
      → EndsAs (suc i) rest next
      → EndsAs i ((provider, name) ∷ rest) (if is_non_transient e then err (passed_on e) else next)
  refused i provider name rest e next gave later = elim (Bool-cases (is_non_transient e)) [
    | inl final ↦ rw final (inl ([], rest, provider, name, refl, tt, inr (e, gave, final, refl)))
    | inr passing ↦ rw passing (
        EndsAs-skip i (provider, name) rest next (inr (e, gave, passing)) (inl (e, gave, passing))
          later)
  ]

  all_empty :
      (i : ℕ) (errors : List (ℕ × String × AnyError))
      → chat_from is_object req i errors [] ≡ err (all_failed errors)
  unfolding chat_from
  all_empty i errors = refl

  chat_from-EndsAs :
      (i : ℕ) (errors : List (ℕ × String × AnyError)) (ps : List (LlmProvider J × String))
      → EndsAs i ps (chat_from is_object req i errors ps)
  chat_from-EndsAs i errors [] = inr (tt, inl refl, (errors, all_empty i errors))
  chat_from-EndsAs i errors ((provider, name) ∷ rest) =
      elim (Result-cases (provider (attempt_request req))) [
        | inl (r, gave) ↦
            subst (EndsAs i ((provider, name) ∷ rest))
              (sym (chat_from-ok i errors provider name rest r gave))
              (answered i errors provider name rest r gave (chat_from-EndsAs (suc i) errors rest))
        | inr (e, gave) ↦
            let more = errors ++ ((suc i, name, e) ∷ []) in
            subst (EndsAs i ((provider, name) ∷ rest))
              (sym (chat_from-err i errors provider name rest e gave))
              (refused i provider name rest e (chat_from is_object req (suc i) more rest) gave
                (chat_from-EndsAs (suc i) more rest))
      ]

  -- The answer as it is from the first provider, and with the provider's model from any other.
  abbrev pub IsTagged :
      List (LlmProvider J × String)
      → String
      → LlmResponse J
      → Result FallbackError (LlmResponse J)
      → Type ℓ
  IsTagged skipped name r out =
      ((skipped ≡ []) × (out ≡ ok r))
      ⊎ ((p : LlmProvider J × String) × (ps : List (LlmProvider J × String)) × (skipped ≡ p ∷ ps)
          × (out ≡ ok (record r { actual_model = some name })))

  -- The outcome of a chain.
  abbrev pub ChatEndsAs :
      List (LlmProvider J × String) → Result FallbackError (LlmResponse J) → Type ℓ
  ChatEndsAs ps out =
      ((skipped rest : List (LlmProvider J × String)) × (provider : LlmProvider J) × (name : String)
        × (ps ≡ skipped ++ ((provider, name) ∷ rest))
        × All IsSkipped skipped
        × (((r : LlmResponse J) × (provider (attempt_request req) ≡ ok r)
              × ((is_malformed is_object r ≡ false) ⊎ (rest ≡ []))
              × IsTagged skipped name r out)
            ⊎ ((e : AnyError) × (provider (attempt_request req) ≡ err e)
                × (is_non_transient e ≡ true)
                × (out ≡ err (passed_on e)))))
      ⊎ (All IsSkipped ps
          × FailsLast ps
          × ((errors : List (ℕ × String × AnyError)) × (out ≡ err (all_failed errors))))

  tagged-IsTagged :
      (skipped : List (LlmProvider J × String)) (name : String) (r : LlmResponse J)
      (out : Result FallbackError (LlmResponse J))
      → out ≡ ok (tagged (0 + length skipped) name r)
      → IsTagged skipped name r out
  unfolding tagged
  tagged-IsTagged [] name r out is = inl (refl, is)
  tagged-IsTagged (p ∷ ps) name r out is =
      let counts : 0 + length (p ∷ ps) ≡ suc (length ps) = omega arith in
      inr (p, ps, refl, is ∙ ap (λ n. ok (tagged n name r)) counts)

  EndsAs-first :
      (ps : List (LlmProvider J × String)) (out : Result FallbackError (LlmResponse J))
      → EndsAs 0 ps out
      → ChatEndsAs ps out
  EndsAs-first ps out (inr failed) = inr failed
  EndsAs-first ps out (inl (skipped, rest, provider, name, split, all, inr stopped)) =
      inl (skipped, rest, provider, name, split, all, inr stopped)
  EndsAs-first ps out (inl (skipped, rest, provider, name, split, all, inl (r, gave, fits, is))) =
      inl (
        skipped,
        rest,
        provider,
        name,
        split,
        all,
        inl (r, gave, fits, tagged-IsTagged skipped name r out is),
      )

  -- However the providers answer, a chat with the chain ends in one of three ways. A provider answers
  -- after others were passed over, with well-formed tool calls unless it is the last, and its answer is
  -- returned, as it is from the first provider and with its model as the actual model from any other; a
  -- provider's error that cannot pass ends the chain; or all providers were passed over, the last one
  -- for its error, or there were none. A provider is passed over for malformed tool calls or for an
  -- error that may pass, and for nothing else.
  pub chat-EndsAs : (f : FallbackProvider J) → ChatEndsAs f.providers (chat is_object f req)
  unfolding chat
  chat-EndsAs f =
      EndsAs-first f.providers (chat is_object f req) (chat_from-EndsAs 0 [] f.providers)
