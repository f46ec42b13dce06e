-- ===== src/Provider/Fallback.antt =====
-- crates/oxicrab-providers/src/fallback/mod.rs: the chain of providers, with the response of
-- crates/oxicrab-core/src/providers/base/mod.rs. A provider is what it answers to a request; JSON
-- values are a type with the test `is_object`.
mod Outcome
mod Tests
use text.Mathlib.Text.{◌==◌ as str_eq}
use oxicrab.Base.{
  ℕ, suc, zero, Bool, true, false, not, ◌||◌, ◌&&◌, String, Option, none, some, List, [], ◌∷◌, ◌++◌,
  if◌then◌else◌,
}
use oxicrab.Base.Result.{Result, ok, err}
use oxicrab.Errors.{AnyError, OxicrabError, is_retryable, downcast_ref}

module _ {ℓ} (J : Type ℓ) where
  pub record ToolCallRequest : Type ℓ where
    pub id : String
    pub name : String
    pub arguments : J

  pub record LlmResponse : Type ℓ where
    pub content : Option String
    pub tool_calls : List ToolCallRequest
    pub reasoning_content : Option String
    pub reasoning_signature : Option String
    pub redacted_thinking_blocks : Option (List String)
    pub input_tokens : Option ℕ
    pub output_tokens : Option ℕ
    pub cache_creation_input_tokens : Option ℕ
    pub cache_read_input_tokens : Option ℕ
    pub actual_model : Option String
    pub finish_reason : Option String

  -- `rest` stands for the fields that every attempt copies.
  pub record ChatRequest : Type ℓ where
    pub model : Option String
    pub rest : J

  abbrev pub LlmProvider : Type ℓ
  LlmProvider = ChatRequest → Result AnyError LlmResponse

  pub record FallbackProvider : Type ℓ where
    pub providers : List (LlmProvider × String)

-- The error of the provider that stopped the chain, or the errors of all.
pub data FallbackError : Type 0 where
  passed_on : AnyError → FallbackError
  all_failed : List (ℕ × String × AnyError) → FallbackError

module _ {ℓ} {J : Type ℓ} where
  -- `new`, which refuses an empty chain.
  unfoldable pub new_fallback : List (LlmProvider J × String) → Option (FallbackProvider J)
  new_fallback [] = none
  new_fallback (p ∷ ps) = some (record { providers = p ∷ ps })

  unfoldable pub pair : LlmProvider J → LlmProvider J → String → String → FallbackProvider J
  pair primary fallback primary_model fallback_model = record {
    providers = (primary, primary_model) ∷ (fallback, fallback_model) ∷ [];
  }

  unfoldable pub has_tool_calls : LlmResponse J → Bool
  has_tool_calls r = elim r.tool_calls [ [] ↦ false | c ∷ cs ↦ true ]

  unfoldable pub validate_tool_calls : (J → Bool) → List (ToolCallRequest J) → Bool
  validate_tool_calls is_object [] = true
  validate_tool_calls is_object (c ∷ cs) =
      let rest = validate_tool_calls is_object cs in
      if str_eq c.name "" then false else if not (is_object c.arguments) then false else rest

  unfoldable pub is_malformed : (J → Bool) → LlmResponse J → Bool
  is_malformed is_object r = has_tool_calls r && not (validate_tool_calls is_object r.tool_calls)

  -- The response, tagged with its model unless the first provider gave it.
  unfoldable pub tagged : ℕ → String → LlmResponse J → LlmResponse J
  tagged zero name r = r
  tagged (suc i) name r = record r { actual_model = some name }

  unfoldable pub attempt_request : ChatRequest J → ChatRequest J
  attempt_request req = record req { model = none }

  unfoldable pub is_last : List (LlmProvider J × String) → Bool
  is_last [] = true
  is_last (p ∷ ps) = false

unfoldable pub is_non_transient : AnyError → Bool
is_non_transient e = elim (downcast_ref e) [ none ↦ false | some ox ↦ not (is_retryable ox) ]

module _ {ℓ} {J : Type ℓ} (is_object : J → Bool) where
  -- The loop over the providers, from index `i` on.
  unfoldable pub chat_from :
      ChatRequest J
      → ℕ
      → List (ℕ × String × AnyError)
      → List (LlmProvider J × String)
      → Result FallbackError (LlmResponse J)
  chat_from req i errors [] = err (all_failed errors)
  chat_from req i errors ((provider, name) ∷ rest) = elim (provider (attempt_request req)) [
    | ok response ↦
        let next = chat_from req (suc i) errors rest in
        if is_malformed is_object response && not (is_last rest)
        then next
        else ok (tagged i name response)
    | err e ↦
        let next = chat_from req (suc i) (errors ++ ((suc i, name, e) ∷ [])) rest in
        if is_non_transient e then err (passed_on e) else next
  ]

  unfoldable pub chat : FallbackProvider J → ChatRequest J → Result FallbackError (LlmResponse J)
  chat f req = chat_from req 0 [] f.providers
