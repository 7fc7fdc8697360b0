-- ===== src/Llm/Tokens.antt =====
-- internal/llm/provider.go: the `EstimateTokens` of the three providers.
pub mod Lengths
use llm_request_balancer.Common.{
  ℕ, ◌/◌, Option, none, some, List, String, length, concat, ◌==◌, if◌then◌else◌,
}
use Prim.Native.String.{len}
use llm_request_balancer.Common.Int.{ℤ, pos}
use llm_request_balancer.Llm.Types.{Request, Result, ok, err, not_marshaled}
use llm_request_balancer.Llm.Json.{
  Value, Values, nil, cons, Fields, find, as_text, as_array, as_object, entries,
}

-- A `[]byte`.
abbrev pub Bytes : Type 0
Bytes = List ℕ

module _ {F : Type 0} where
  -- The text under "content", if the message is an object that has one.
  unfoldable pub content_of : Value F → Option String
  content_of v = elim (as_object (some v)) [ none ↦ none | some m ↦ as_text (find "content" m) ]

  -- The loops of OpenAI and of Anthropic over the messages, with `inputText`.
  unfoldable pub spaced_contents : String → Values F → String
  spaced_contents input_text nil = input_text
  spaced_contents input_text (cons v vs) = elim (content_of v) [
    | none ↦ spaced_contents input_text vs
    | some content ↦ spaced_contents (concat input_text (concat content " ")) vs
  ]

  unfoldable pub joined_contents : String → Values F → String
  joined_contents input_text nil = input_text
  joined_contents input_text (cons v vs) = elim (content_of v) [
    | none ↦ joined_contents input_text vs
    | some content ↦ joined_contents (concat input_text content) vs
  ]

  -- A payload decoded from JSON holds no `[]map[string]interface{}`, so a value under "messages"
  -- that is no array gives no text.
  unfoldable pub openai_text : Fields F → String
  unfolding spaced_contents
  openai_text payload = elim (find "messages" payload) [
    | some messages ↦ elim (as_array (some messages)) [
      | none ↦ ""
      | some vs ↦ spaced_contents "" vs
    ]
    | none ↦ elim (as_text (find "prompt" payload)) [ none ↦ "" | some prompt ↦ prompt ]
  ]

  unfoldable pub anthropic_text : Fields F → String
  unfolding joined_contents
  anthropic_text payload = elim (as_text (find "prompt" payload)) [
    | some prompt ↦ prompt
    | none ↦ elim (as_array (find "messages" payload)) [
      | none ↦ ""
      | some vs ↦ joined_contents "" vs
    ]
  ]

  unfoldable pub openai_estimate : Request (Fields F) → Result ℤ
  unfolding openai_text
  openai_estimate req =
      let n = len (openai_text (entries req.payload)) in
      if n == 0 then ok (pos 1) else ok (pos (n / 4))

  unfoldable pub anthropic_estimate : Request (Fields F) → Result ℤ
  unfolding anthropic_text
  anthropic_estimate req = ok (pos (len (anthropic_text (entries req.payload)) / 4))

  -- `marshal` is `json.Marshal`.
  unfoldable pub generic_estimate :
      (Option (Fields F) → Option Bytes) → Request (Fields F) → Result ℤ
  generic_estimate marshal req = elim (marshal req.payload) [
    | none ↦ err not_marshaled
    | some bytes ↦ ok (pos (length bytes / 4))
  ]
