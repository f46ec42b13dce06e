-- ===== src/Provider/Fallback/Tests.antt =====
-- A chain of two providers, run.
use oxicrab.Base.{Bool, true, none, some, [], ◌∷◌, ◌≡◌, refl}
use oxicrab.Base.Result.{ok, err}
use oxicrab.Base.Text.{codes}
use oxicrab.Errors.{untyped, downcast_ref}
use oxicrab.Provider.Fallback.{
  LlmProvider, LlmResponse, ChatRequest, FallbackProvider, chat, chat_from, is_malformed,
  has_tool_calls, tagged, attempt_request, is_non_transient, is_last,
}
use oxicrab.Provider.Fallback.Outcome.{ChatEndsAs, chat-EndsAs}

abbrev answer : LlmResponse Bool
answer = record {
  content = some "hello";
  tool_calls = [];
  reasoning_content = none;
  reasoning_signature = none;
  redacted_thinking_blocks = none;
  input_tokens = none;
  output_tokens = none;
  cache_creation_input_tokens = none;
  cache_read_input_tokens = none;
  actual_model = none;
  finish_reason = none;
}

abbrev down : LlmProvider Bool
down = λ req. err (untyped (codes "connection reset"))

abbrev up : LlmProvider Bool
up = λ req. ok answer

abbrev chain : FallbackProvider Bool
chain = record { providers = (down, "main") ∷ (up, "spare") ∷ [] }

abbrev request : ChatRequest Bool
request = record { model = some "main"; rest = true }

falls_back : chat (λ j. j) chain request ≡ ok (record answer { actual_model = some "spare" })
unfolding chat chat_from attempt_request is_non_transient downcast_ref is_malformed has_tool_calls
    tagged is_last
falls_back = refl

chat-EndsAs_example : ChatEndsAs (λ j. j) request chain.providers (chat (λ j. j) chain request)
chat-EndsAs_example = chat-EndsAs (λ j. j) request chain
